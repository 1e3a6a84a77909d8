-- ===== src/Tests.antt =====
-- Concrete keystore, HMAC and board, and the theorems applied to them.
pub mod Fixtures
mod Server
mod Codes
mod Connections
mod Administration
mod Keychain
mod Store
mod Panel
mod Provisioning
mod Listing
mod Daemons
mod Events
mod Ids
mod Listed
