-- ===== src/Server.antt =====
-- internal/server: the handlers of the gRPC service, over the store and the other services.
pub mod Status
pub mod Auth
pub mod Proto
pub mod Allocate
pub mod Users
pub mod Devices
pub mod Admin
pub mod Tokens
pub mod Ticker
pub mod Liveness
pub mod GroupSync
pub mod Consumer
pub mod Raises
