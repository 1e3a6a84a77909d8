-- ===== src/Keystore.antt =====
-- core/keystore.hpp and core/keystore.cpp. `Sqlite` is the interface of the database library,
-- `Store` has the functions, and the other modules say what they do to the table.
pub mod Id
pub mod Sqlite
pub mod Store
pub mod Find
pub mod Answers
pub mod Update
pub mod Unchanged
pub mod Insert
pub mod Calls
