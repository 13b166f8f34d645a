-- ===== src/Client.antt =====
-- The client runtime that `windrpc/client/python.py` writes into `WindRpcClient.py`.
pub mod Cobs
pub mod Constants
pub mod Frame
pub mod Js
pub mod Session
pub mod Tables
mod Examples
