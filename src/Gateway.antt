-- ===== src/Gateway.antt =====
-- internal/gateway: the hub's handlers of one websocket connection, and the group of its app.
pub mod AppGroup
pub mod Hub
pub mod Groups
pub mod Server
