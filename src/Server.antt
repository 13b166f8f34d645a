-- ===== src/Server.antt =====
-- windrpc/server/generator.py: what the generator of the C server computes before it writes text.
mod Examples
pub mod Callbacks
pub mod Dispatch
pub mod Enums
pub mod Notify
pub mod RpcTypes
pub mod Runtime
pub mod Indexed
pub mod Merge
pub mod Sizing
pub mod Structs
