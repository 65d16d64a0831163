-- ===== src/Cluster.antt =====
-- internal/cluster/push.go: push events travel over Redis pub/sub channels from the gate that took a
-- request to all gates, and each gate hands them to its local connections.
pub mod Channels
pub mod Publisher
pub mod Subscriber
pub mod Routing
pub mod Dispatch
pub mod Loop
pub mod Startup
