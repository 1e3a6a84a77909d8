-- ===== src/Keygen.antt =====
-- core/keygen.hpp and core/keygen.cpp. `RAND_bytes` of OpenSSL is an argument: for a length, the
-- bytes that it writes, or `none` for its failure. A throw is `none`.
pub mod Ids
pub mod Keys
pub mod Labels
pub mod Header
use x_auth.Base.{
  ℕ, ◌/◌, ◌%◌, ◌^◌, Bool, true, false, ◌||◌, Bytes, codes, [], ◌∷◌, ◌++◌, Option, none, some, ◌>>=◌,
  get_elem?, length, ltb, ◌==◌, if◌then◌else◌, ◌≡◌, All, IsByte,
}

abbrev pub alphabet : Bytes
alphabet = codes "0123456789ABCDEFGHJKMNPQRSTVWXYZ"

-- The loop `id += alphabet[b % 32]`.
unfoldable pub pick_chars : Bytes → Option Bytes
pick_chars [] = some []
pick_chars (b ∷ buf) = do c ← get_elem? alphabet (b % 32); id ← pick_chars buf; some (c ∷ id)

unfoldable pub generate_device_id : (ℕ → Option Bytes) → ℕ → Option Bytes
generate_device_id rand_bytes len = do buf ← rand_bytes len; pick_chars buf

abbrev pub hex : Bytes
hex = codes "0123456789abcdef"

-- The loop `key += hex[b >> 4]; key += hex[b & 0x0F]`.
unfoldable pub hex_bytes : Bytes → Option Bytes
hex_bytes [] = some []
hex_bytes (b ∷ buf) = do
  high ← get_elem? hex (b / 2 ^ 4)
  low ← get_elem? hex (b % 0x10)
  key ← hex_bytes buf
  some (high ∷ low ∷ key)

unfoldable pub generate_key : (ℕ → Option Bytes) → Option Bytes
generate_key rand_bytes = do buf ← rand_bytes 64; hex_bytes buf

unfoldable pub label_char : ℕ → Bool
label_char c = if ltb c 0x20 || (ltb 0x7e c || (c == b'"' || c == b'\\')) then false else true

unfoldable pub label_chars : Bytes → Bool
label_chars [] = true
label_chars (c ∷ s) = if label_char c then label_chars s else false

unfoldable pub valid_label : Bytes → Bool
unfolding label_chars label_char
valid_label s = if length s == 0 || ltb 64 (length s) then false else label_chars s

unfoldable pub firmware_header : Bytes → Bytes → Bytes
firmware_header id key =
    codes "#pragma once\n\n"
    ++ (codes "// Generated by xAuth provisioning -- do not edit, do not commit.\n"
        ++ (codes "// The ID and the key come from the same provisioning run and must stay\n"
            ++ (codes
                  "// together; flashing one device's key with another's ID fails every login.\n\n"
                ++ (codes "#define DEVICE_ID  \""
                    ++ (id
                        ++ (codes "\"\n"
                            ++ (codes "#define SECURE_KEY \"" ++ (key ++ codes "\"\n"))))))))

-- What a successful call of `RAND_bytes` promises: as many bytes as it was asked for.
abbrev pub FillsBuffer : (ℕ → Option Bytes) → Type 0
FillsBuffer rand_bytes =
    (n : ℕ) (buf : Bytes) → rand_bytes n ≡ some buf → (length buf ≡ n) × All IsByte buf
