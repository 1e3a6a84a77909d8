-- ===== src/Keygen/Ids.antt =====
-- `generate_device_id` of core/keygen.cpp, against `valid_device_id`.
use x_auth.Base.{
  ℕ, zero, suc, ◌%◌, ◌≤◌, ◌<◌, Bool, true, false, ◌&&◌, ◌||◌, Bytes, [], ◌∷◌, Option, none, some,
  get_elem?, get_elem?-some, All-get_elem?, length, All, ◌==◌, ==_iff, if◌then◌else◌, ◌≡◌, refl,
  arith, all_below, all_below_sound, iff, iff_sound, sym, ◌∙◌,
}
use native.Mathlib.Decide.{dec_lt}
use x_auth.Keystore.Id.{
  crockford_char, crockford_chars_iff, crockford_chars, valid_device_id, valid_device_id_iff,
}
use x_auth.Keygen.{alphabet, pick_chars, generate_device_id, FillsBuffer}

alphabet-crockford : All (λ c. crockford_char c ≡ true) alphabet
unfolding crockford_chars crockford_char
alphabet-crockford = (crockford_chars_iff alphabet).0 refl

pick_chars-valid :
    (buf : Bytes)
    → (id : Bytes) × (pick_chars buf ≡ some id)
      × (length id ≡ length buf)
      × All (λ c. crockford_char c ≡ true) id
unfolding pick_chars
pick_chars-valid [] = ([], refl, refl, tt)
pick_chars-valid (b ∷ buf) =
    let (c, at) = get_elem?-some alphabet (b % 32) (omega arith) in
    let (id, rest, size, chars) = pick_chars-valid buf in
    (
      c ∷ id,
      rw at (rw rest),
      omega arith,
      (All-get_elem? (λ x. crockford_char x ≡ true) alphabet (b % 32) alphabet-crockford at, chars),
    )

-- If `RAND_bytes` gives the bytes, a length of 4 to 8 gives a valid device ID of that length.
pub generate_device_id-valid :
    (rand_bytes : ℕ → Option Bytes) (len : ℕ) (buf : Bytes)
    → FillsBuffer rand_bytes
    → rand_bytes len ≡ some buf
    → 4 ≤ len
    → len ≤ 8
    → (id : Bytes) × (generate_device_id rand_bytes len ≡ some id)
      × (length id ≡ len)
      × (valid_device_id id ≡ true)
unfolding generate_device_id
generate_device_id-valid rand_bytes len buf fills drawn lo hi =
    let (id, made, size, chars) = pick_chars-valid buf in
    let full = fills len buf drawn in
    (
      id,
      rw drawn made,
      omega (arith, full.0),
      (valid_device_id_iff id).1 (omega (arith, full.0), omega (arith, full.0), chars),
    )

-- How many of the bytes below `n` pick the character `c`.
abbrev pub picked_by : ℕ → ℕ → ℕ
picked_by zero c = 0
picked_by (suc n) c =
    let rest = picked_by n c in
    elim (get_elem? alphabet (n % 32)) [ some d ↦ if d == c then suc rest else rest | none ↦ rest ]

all_of : (ℕ → Bool) → Bytes → Bool
all_of p [] = true
all_of p (c ∷ s) = p c && all_of p s

all_of_sound : (p : ℕ → Bool) (s : Bytes) → all_of p s ≡ true → All (λ c. p c ≡ true) s
unfolding all_of
all_of_sound p [] h = tt
all_of_sound p (c ∷ s) h = ground (arith, all_of_sound p s)

All-map :
    (p : ℕ → Bool) (n : ℕ → ℕ) (m : ℕ) (s : Bytes)
    → ((c : ℕ) → p c ≡ true → n c ≡ m)
    → All (λ c. p c ≡ true) s
    → All (λ c. n c ≡ m) s
All-map p n m [] f h = tt
All-map p n m (c ∷ s) f h = (f c h.0, All-map p n m s f h.1)

picked_table : all_of (λ c. picked_by 256 c == 8) alphabet ≡ true
unfolding all_of
picked_table = refl

-- Of the 256 bytes, eight pick each character: the `% 32` has no bias.
alphabet-unbiased : All (λ c. picked_by 256 c ≡ 8) alphabet
alphabet-unbiased =
    All-map (λ c. picked_by 256 c == 8) (picked_by 256) 8 alphabet
      (λ c h. (==_iff (picked_by 256 c) 8).0 h) (all_of_sound _ alphabet picked_table)

-- Membership in a text, as a test.
unfoldable has_char : ℕ → Bytes → Bool
has_char c [] = false
has_char c (d ∷ s) = c == d || has_char c s

has_char-below : (n c : ℕ) (s : Bytes) → All (λ d. d < n) s → n ≤ c → has_char c s ≡ false
unfolding has_char
has_char-below n c [] h le = refl
has_char-below n c (d ∷ s) h le = ground (arith, has_char-below n c s h.1 le)

crockford_char-above : (c : ℕ) → 128 ≤ c → crockford_char c ≡ false
unfolding crockford_char
crockford_char-above c h = ground arith

alphabet_table : all_below 128 (λ c. iff (has_char c alphabet) (crockford_char c)) ≡ true
unfolding all_below has_char crockford_char
alphabet_table = refl

-- The generator draws from exactly the characters that `valid_device_id` accepts.
alphabet_exact : (c : ℕ) → has_char c alphabet ≡ crockford_char c
alphabet_exact c = elim (dec_lt c 128) [
  | yes below ↦ iff_sound _ _ (all_below_sound 128 _ c alphabet_table below)
  | no above ↦
      has_char-below 128 c alphabet (omega arith) (omega arith)
      ∙ sym (crockford_char-above c (omega arith))
]
