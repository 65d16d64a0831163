-- ===== src/Data.antt =====
-- internal/data: the Redis client of the gate, and the routes of users to gates that it keeps there.
pub mod Client
pub mod Commands
pub mod UserRoute
pub mod Keys
pub mod Listing
pub mod Ordering
pub mod SortedRoutes
pub mod Expiry
pub mod Registration
pub mod Routes
pub mod Keyspace
