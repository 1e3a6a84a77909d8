-- ===== src/Lib.antt =====
-- xAuth: one-time codes from a hardware keychain, checked by a server.
--
-- A keychain holds an ID and a key of 128 hex characters. Every 90 seconds it shows a new code of
-- eight digits, made by HMAC-SHA256 from the key and the number of the 90-second step. The login page
-- sends `VERIFY id code` to the verifier over a Unix socket; the verifier looks the ID up in a SQLite
-- keystore and compares the code with those of the step and its two neighbours. The keychain's clock
-- is a DS3231 chip that is set over USB and is trusted only while three checks hold.
--
-- Parts:
--   Otp       core/otp.cpp: dynamic_truncate, counter_for_time, totp_for_counter, totp,
--             pad_and_convert. Firmware and verifier must agree on these.
--   Keygen    core/keygen.cpp: generate_device_id, generate_key, valid_label, firmware_header.
--   Keystore  core/keystore.cpp: find_device, add_device, set_device_status, set_device_note,
--             list_devices, migrate_keystore, over Keystore.Sqlite, the interface of the calls of
--             SQLite. Its laws speak of the table that the file holds; each call may fail.
--   Socket    read_line, write_all, peer_allowed and the drain loop of verifier/main.cpp (and
--             admin/main.cpp, which has them too). A list of events holds what each
--             call of the operating system returns.
--   Verifier  verifier/main.cpp: Check is verify_code, Protocol is handle_request, Serve is serve up to
--             the drain, InFlight is the accept loop with its threads as a step relation, Session a login
--             over the socket, Status a question about a session, Signals what a signal does during
--             the start-up.
--   Admin     admin/main.cpp: ok_no, handle_add, handle_list, handle_request; Dates is
--             single_token_dates, with Dates.Listing, a reader of the lines that the comment at the
--             top of the file promises; Serve is one pass of the accept loop up to the drain, Life the whole loop.
--   Provision tools/provision/main.cpp: the command that adds, lists, revokes and labels devices, and
--             writes the header that the firmware is built with; Provision.Args says what arguments `add`
--             takes, Provision.Results what each run may end in.
--   Devcode   tools/devcode/main.cpp, which prints the present code of a device.
--   Otpgen    tests/gen_codes.cpp, which prints the codes for given counters.
--   Startup   what the start-up of the two daemons shares: the options, and the socket over an interface
--             of the calls of the operating system. Verifier.Startup and Admin.Startup are main of
--             verifier/main.cpp and admin/main.cpp up to listen. Signals is harden_process and on_signal.
--   Firmware  firmware/xAuth_ID/src: Totp is totp.cpp; Clock is clock.cpp over Clock.Hardware, the
--             interface of the chip and the flash storage, and Clock.Serial its USB protocol; Display
--             is display.cpp, a screen as the list of the calls that draw it; Main is setup and loop
--             of main.cpp, with Main.Picture, the screens written out call by call.
--   System    all programs around one keystore, as events in any order; Keystore.Calls, Admin.Calls,
--             Provision.Calls and Verifier.Calls say which calls of the keystore each of them makes. System.Entries says
--             what a whole listing of the keystore has in it.
--   Base      shared names, lists, text as bytes, decimal numerals, bits, integers.
--   Tests     a keystore in memory, a stand-in for the HMAC, a board of plain fields, and the
--             theorems applied to them.
--
-- State is passed explicitly: `World` is the database file, `Clock` the board with the two variables
-- in RAM. A throw, a null pointer and a read outside an array are `none`. Bytes are natural numbers,
-- text is a list of bytes, and machine integers wrap by `% 2 ^ w` where they can overflow. A shift is a
-- product or a quotient by a power of two, a mask of low bits a remainder.
--
-- Bounds: the fuel of `decimal` is 20 digits, which every uint64_t has at most; that of `dates_loop`
-- is one more than the length of the text, of which each round takes seven bytes. All other loops
-- recurse on their input: a buffer, a list of events, a list of offsets, a number of digits.
-- `split_parts` stops after four pieces, `handle_add` and `place_loop` after 16 attempts, as the source
-- does.
--
-- Parameters: HMAC of OpenSSL and of mbedTLS, RAND_bytes, SQLite, RTClib and Preferences, the time
-- from the operating system and its calls on files and sockets, the build time, std::stoi,
-- std::stol, std::stoul, std::stoull and random. Their hypotheses are documented behaviour: a digest
-- has 32 bytes, a filled buffer has the length that was asked for, a random number is below its
-- bound, the laws of the interfaces.
--
-- Not modelled: log lines and the error stream, the wiping of memory, timing of the constant-time
-- comparison, a signal between two calls of one request, the login page and the admin page
-- (JavaScript; the admin page reads no reply of more than 64 KiB), nginx and deployment.
pub mod Base
pub mod Otp
pub mod Keygen
pub mod Keystore
pub mod Socket
pub mod Verifier
pub mod Admin
pub mod Provision
pub mod Devcode
pub mod Otpgen
pub mod System
pub mod Startup
pub mod Firmware
pub mod Tests
