-- ===== src/Verifier.antt =====
-- verifier/main.cpp. `Check` is the code check, `Protocol` the request line, `Serve` a connection,
-- `InFlight` the accept loop with its threads.
pub mod Check
pub mod Protocol
pub mod Serve
pub mod InFlight
pub mod Startup
pub mod Signals
pub mod Calls
pub mod Session
pub mod Status
