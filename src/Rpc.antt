-- ===== src/Rpc.antt =====
-- The routing of requests and responses inside a process: src/rpc/RpcContext.
pub mod FairQueue
pub mod Backend
pub mod Frontends
