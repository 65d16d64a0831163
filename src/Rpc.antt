-- ===== src/Rpc.antt =====
-- internal/rpc: the gRPC service through which backends push to users.
pub mod Service
pub mod Queries
pub mod Requests
pub mod Delivery
pub mod Server
pub mod Address
pub mod Online
pub mod Lifetime
