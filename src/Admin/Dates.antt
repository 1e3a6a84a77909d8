-- ===== src/Admin/Dates.antt =====
-- `single_token_dates` of admin/main.cpp. The position of the loop is the text from it on.
pub mod Listing
pub mod Joined
pub mod RoundTrip
use x_auth.Base.{
  ℕ, zero, suc, not, Bytes, codes, [], ◌∷◌, ◌++◌, Option, none, some, ◌==◌, if◌then◌else◌, length,
  break_at,
}

unfoldable pub strip_prefix : Bytes → Bytes → Option Bytes
strip_prefix [] s = some s
strip_prefix (p ∷ word) [] = none
strip_prefix (p ∷ word) (c ∷ s) = let rest = strip_prefix word s in if c == p then rest else none

abbrev pub in_front : ℕ → Option (Bytes × Bytes) → Option (Bytes × Bytes)
in_front c none = none
in_front c (some (front, rest)) = some (c ∷ front, rest)

-- `find` of a word: the text before its first place, and the text behind it.
unfoldable pub find_word : Bytes → Bytes → Option (Bytes × Bytes)
unfolding strip_prefix
find_word word [] = none
find_word word (c ∷ s) = elim (strip_prefix word (c ∷ s)) [
  | some rest ↦ some ([], rest)
  | none ↦ in_front c (find_word word s)
]

-- `s[n] = 'T'`, if there is a space at `n`.
unfoldable pub join_at : ℕ → Bytes → Bytes
join_at n [] = []
join_at zero (c ∷ s) = (if c == b' ' then b'T' else c) ∷ s
join_at (suc n) (c ∷ s) = c ∷ join_at n s

-- The text from the third token on.
unfoldable pub join_date : Bytes → Bytes
unfolding join_at
join_date [] = []
join_date (c ∷ s) = if not (c == b'-') then join_at 10 (c ∷ s) else c ∷ s

-- `rest` with the date joined in what follows the status, if there is a space behind that.
abbrev join_third : Bytes → Bytes → Bytes × Option Bytes → Bytes
join_third rest id (status, none) = rest
join_third rest id (status, some r2) = id ++ b' ' ∷ (status ++ b' ' ∷ join_date r2)

abbrev join_second : Bytes → Bytes × Option Bytes → Bytes
join_second rest (id, none) = rest
join_second rest (id, some r1) = join_third rest id (break_at b' ' r1)

-- The text behind `DEVICE `.
unfoldable pub join_fields : Bytes → Bytes
join_fields rest = join_second rest (break_at b' ' rest)

-- The fuel bounds the rounds.
unfoldable pub dates_loop : ℕ → Bytes → Bytes
unfolding find_word join_fields
dates_loop zero s = s
dates_loop (suc fuel) s = elim (find_word (codes "DEVICE ") s) [
  | none ↦ s
  | some found ↦
      let fixed = join_fields found.1 in
      found.0
      ++ (codes "DEVICE " ++ elim (break_at b'\n' fixed).1 [
        | none ↦ fixed
        | some more ↦ (break_at b'\n' fixed).0 ++ dates_loop fuel (b'\n' ∷ more)
      ])
]

-- Each round takes a word out of the text.
unfoldable pub single_token_dates : Bytes → Bytes
unfolding dates_loop
single_token_dates s = dates_loop (suc (length s)) s
