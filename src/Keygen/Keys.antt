-- ===== src/Keygen/Keys.antt =====
-- `generate_key` of core/keygen.cpp, and the bytes that its text stands for.
use x_auth.Base.{
  ℕ, ◌+◌, ◌-◌, ◌*◌, ◌/◌, ◌%◌, ◌^◌, ◌<◌, Bool, true, false, ◌&&◌, ◌||◌, Bytes, [], ◌∷◌, Option, none,
  some, get_elem?, get_elem?-some, length, All, ltb, leb, ◌==◌, if◌then◌else◌, ◌≡◌, refl, arith,
  IsByte, ap, ◌∙◌, all_below, all_below_sound,
}
use x_auth.Keygen.{hex, hex_bytes, generate_key, FillsBuffer}

-- The value of a hex digit, and the bytes that pairs of digits spell.
abbrev pub hex_value : ℕ → ℕ
hex_value c = if ltb c b'a' then c - b'0' else c - b'a' + 10

abbrev pub decode_hex : Bytes → Bytes
decode_hex [] = []
decode_hex (c ∷ []) = []
decode_hex (c ∷ d ∷ s) = (hex_value c * 16 + hex_value d) ∷ decode_hex s

abbrev pub is_hex : ℕ → Bool
is_hex c = leb b'0' c && leb c b'9' || leb b'a' c && leb c b'f'

hex_ok : ℕ → Option ℕ → Bool
hex_ok i none = false
hex_ok i (some c) = hex_value c == i && is_hex c

hex_table : all_below 16 (λ i. hex_ok i (get_elem? hex i)) ≡ true
unfolding all_below hex_ok
hex_table = refl

hex_ok_sound : (i c : ℕ) → hex_ok i (some c) ≡ true → (hex_value c ≡ i) × (is_hex c ≡ true)
unfolding hex_ok
hex_ok_sound i c h = ground arith

hex-at :
    (i : ℕ) → i < 16 → (c : ℕ) × (get_elem? hex i ≡ some c) × (hex_value c ≡ i) × (is_hex c ≡ true)
hex-at i h =
    let (c, e) = get_elem?-some hex i h in
    let ok = all_below_sound 16 (λ k. hex_ok k (get_elem? hex k)) i hex_table h in
    let sound = hex_ok_sound i c (rw e at ok) in (c, e, sound.0, sound.1)

hex_bytes-decode :
    (buf : Bytes)
    → All IsByte buf
    → (key : Bytes) × (hex_bytes buf ≡ some key)
      × (length key ≡ 2 * length buf)
      × All (λ c. is_hex c ≡ true) key
      × (decode_hex key ≡ buf)
unfolding hex_bytes
hex_bytes-decode [] h = ([], refl, refl, tt, refl)
hex_bytes-decode (b ∷ buf) (hb, hs) =
    let (c, at_c, vc, xc) = hex-at (b / 2 ^ 4) (omega arith) in
    let (d, at_d, vd, xd) = hex-at (b % 0x10) (omega arith) in
    let (key, made, size, chars, back) = hex_bytes-decode buf hs in
    let whole : hex_value c * 16 + hex_value d ≡ b = omega arith in
    (
      c ∷ d ∷ key,
      rw at_c (rw at_d (rw made)),
      omega arith,
      (xc, (xd, chars)),
      ap (λ n. n ∷ decode_hex key) whole ∙ ap (◌∷◌ b) back,
    )

-- If `RAND_bytes` gives 64 bytes, the key is 128 lowercase hex characters, and they spell all of
-- those bytes.
pub generate_key-hex :
    (rand_bytes : ℕ → Option Bytes) (buf : Bytes)
    → FillsBuffer rand_bytes
    → rand_bytes 64 ≡ some buf
    → (key : Bytes) × (generate_key rand_bytes ≡ some key)
      × (length key ≡ 128)
      × All (λ c. is_hex c ≡ true) key
      × (decode_hex key ≡ buf)
unfolding generate_key
generate_key-hex rand_bytes buf fills drawn =
    let full = fills 64 buf drawn in
    let (key, made, size, chars, back) = hex_bytes-decode buf full.1 in
    (key, rw drawn made, omega (arith, full.0), chars, back)
