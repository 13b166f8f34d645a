-- ===== src/Proto.antt =====
-- windrpc/proto/generator.py: what the generator of the .proto files computes before it writes text.
pub mod Enums
pub mod Files
pub mod Generate
mod Examples
pub mod Options
pub mod Resolve
pub mod RpcIds
