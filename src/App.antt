-- ===== src/App.antt =====
-- internal/app/app.go: the expiry poller and the shutdown of the whole gate.
pub mod Poller
pub mod Shutdown
pub mod Rounds
pub mod Background
pub mod Done
pub mod Room
pub mod Draining
