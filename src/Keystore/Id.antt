-- ===== src/Keystore/Id.antt =====
-- `crockford_char` and `valid_device_id` of core/keystore.cpp. A byte from 128 up is a negative `char`, which fails the
-- same tests.
use x_auth.Base.{
  ℕ, ◌≤◌, Bool, true, false, ◌&&◌, ◌||◌, not, Bytes, [], ◌∷◌, length, ltb, leb, ◌==◌, if◌then◌else◌,
  ◌≡◌, refl, arith, All, Lacks, ◌≢◌, ◌↔◌,
}

abbrev pub device_id_min : ℕ
device_id_min = 4

abbrev pub device_id_max : ℕ
device_id_max = 8

unfoldable pub crockford_char : ℕ → Bool
crockford_char c =
    if leb b'0' c && leb c b'9'
    then true
    else if ltb c b'A' || ltb b'Z' c
    then false
    else not (c == b'I') && (not (c == b'L') && (not (c == b'O') && not (c == b'U')))

unfoldable pub crockford_chars : Bytes → Bool
crockford_chars [] = true
crockford_chars (c ∷ id) = if not (crockford_char c) then false else crockford_chars id

unfoldable pub valid_device_id : Bytes → Bool
unfolding crockford_chars
valid_device_id id =
    if ltb (length id) device_id_min || ltb device_id_max (length id)
    then false
    else crockford_chars id

pub crockford_chars_iff :
    (id : Bytes) → (crockford_chars id ≡ true) ↔ All (λ c. crockford_char c ≡ true) id
unfolding crockford_chars
crockford_chars_iff [] = ((λ _. tt), (λ _. refl))
crockford_chars_iff (c ∷ id) = ground (arith, crockford_chars_iff id)

crockford_char-ne :
    (c : ℕ) → crockford_char c ≡ true → (c ≢ 0) × (c ≢ b' ') × (c ≢ b'\n') × (c ≢ b'"')
unfolding crockford_char
crockford_char-ne c h = ground arith

-- Exactly the texts of 4 to 8 characters of the Crockford alphabet pass.
pub valid_device_id_iff :
    (id : Bytes)
    → (valid_device_id id ≡ true)
      ↔ ((4 ≤ length id) × (length id ≤ 8) × All (λ c. crockford_char c ≡ true) id)
unfolding valid_device_id
valid_device_id_iff id = ground (arith, crockford_chars_iff id)

All-crockford_ne :
    (b : ℕ) (id : Bytes)
    → ((c : ℕ) → crockford_char c ≡ true → c ≢ b)
    → All (λ c. crockford_char c ≡ true) id
    → Lacks b id
All-crockford_ne b [] f h = tt
All-crockford_ne b (c ∷ id) f h = (f c h.0, All-crockford_ne b id f h.1)

-- A valid ID holds no NUL, no space, no newline and no quote: it is one C string, one token and one
-- line.
pub valid_device_id-Lacks :
    (id : Bytes)
    → valid_device_id id ≡ true
    → Lacks 0 id × Lacks b' ' id × Lacks b'\n' id × Lacks b'"' id
valid_device_id-Lacks id h =
    let chars = ((valid_device_id_iff id).0 h).2 in
    (
      All-crockford_ne 0 id (λ c p. (crockford_char-ne c p).0) chars,
      All-crockford_ne b' ' id (λ c p. (crockford_char-ne c p).1) chars,
      All-crockford_ne b'\n' id (λ c p. (crockford_char-ne c p).2) chars,
      All-crockford_ne b'"' id (λ c p. (crockford_char-ne c p).3) chars,
    )
