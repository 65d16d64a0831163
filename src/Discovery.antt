-- ===== src/Discovery.antt =====
-- internal/discovery: the registration of a gate in etcd.
pub mod Registry
pub mod Endpoints
pub mod Lifecycle
