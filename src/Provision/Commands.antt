-- ===== src/Provision/Commands.antt =====
-- `main` of tools/provision/main.cpp, in terms of the table.
use x_auth.Keystore.Sqlite.{Sqlite}
use x_auth.Admin.Add.{Unchanged}
