-- ===== src/Tests.antt =====
-- Concrete worlds that satisfy the laws assumed of the code outside the repository, and the theorems
-- at concrete inputs.
mod Wire
mod Redis
mod Tokens
mod Pushes
mod Fanout
mod Losses
mod Routes
mod Ordering
mod Online
mod Lives
mod Durations
mod Background
mod Settings
mod Loaded
mod Sessions
mod Presence
mod Wiring
mod Process
mod Servers
mod Texts
