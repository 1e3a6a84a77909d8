-- ===== src/Firmware.antt =====
-- firmware/xAuth_ID: the keychain.
pub mod Totp
pub mod Clock
pub mod Display
pub mod Main
