-- ===== src/Base/Text.antt =====
-- Text as the list of its bytes, decimal print of an unsigned integer, and the byte-wise test of
-- equality (std::string, std::to_string, operator== of the standard library).
use Prim.Native.Nat.{ℕ, zero, suc, ◌+◌, ◌/◌, ◌%◌, ◌<◌, ◌≤◌}
use Prim.Native.Char.{code}
use Prim.Native.String.{String}
use mathlib.Core.Path.{◌≡◌, refl, ap, ap₂}
use mathlib.Core.Logic.{◌↔◌, ◌≢◌, inl, inr}
use mathlib.Core.Bool.{Bool, true, false, not, ◌&&◌}
use mathlib.Core.Option.{Option, none, some}
use mathlib.Core.List.{List, [], ◌∷◌, ◌++◌}
use native.Mathlib.Omega.{arith}
use x_auth.Base.Tests.{ltb, ◌==◌, ==_iff, if◌then◌else◌, Bool-cases, some_inj}
use x_auth.Base.Lists.{All}

abbrev pub Bytes : Type 0
Bytes = List ℕ

-- The bytes of an ASCII literal.
abbrev pub codes : String → Bytes
codes String.[] = []
codes (String.◌∷◌ c s) = code c ∷ codes s

unfoldable pub equal : Bytes → Bytes → Bool
equal [] [] = true
equal (x ∷ xs) (y ∷ ys) = x == y && equal xs ys
equal _ _ = false

pub equal_iff : (xs ys : Bytes) → (equal xs ys ≡ true) ↔ (xs ≡ ys)
unfolding equal
equal_iff [] [] = ground arith
equal_iff [] (y ∷ ys) = ground arith
equal_iff (x ∷ xs) [] = ground arith
equal_iff (x ∷ xs) (y ∷ ys) = ground (arith, equal_iff xs ys)

pub equal_refl : (a : Bytes) → equal a a ≡ true
equal_refl a = (equal_iff a a).1 refl

abbrev pub IsByte : ℕ → Type 0
IsByte b = b < 256

abbrev pub IsDigit : ℕ → Type 0
IsDigit c = (b'0' ≤ c) × (c ≤ b'9')

abbrev pub Lacks : ℕ → Bytes → Type 0
Lacks b = All (λ c. c ≢ b)

-- The test for it.
unfoldable pub lacks : ℕ → Bytes → Bool
lacks b [] = true
lacks b (c ∷ s) = not (c == b) && lacks b s

pub lacks-Lacks : (b : ℕ) (s : Bytes) → lacks b s ≡ true → Lacks b s
unfolding lacks
lacks-Lacks b [] h = tt
lacks-Lacks b (c ∷ s) h = (ground (arith, h), lacks-Lacks b s (ground (arith, h)))

-- std::to_string of an unsigned integer, most significant digit first. The fuel bounds the digits.
unfoldable pub decimal_fuel : ℕ → ℕ → Bytes
decimal_fuel zero n = []
decimal_fuel (suc f) n =
    let longer = decimal_fuel f (n / 10) ++ (b'0' + n % 10) ∷ [] in
    if ltb n 10 then (b'0' + n) ∷ [] else longer

-- A uint64_t has at most 20 digits.
unfoldable pub decimal : ℕ → Bytes
unfolding decimal_fuel
decimal n = decimal_fuel 20 n

-- A C string ends at its first NUL byte.
unfoldable pub c_str : Bytes → Bytes
c_str [] = []
c_str (c ∷ s) = if c == 0 then [] else c ∷ c_str s

pub c_str-Lacks : (s : Bytes) → Lacks 0 s → c_str s ≡ s
unfolding c_str
c_str-Lacks [] h = refl
c_str-Lacks (c ∷ s) (hc, hs) = ground (arith, c_str-Lacks s hs)

-- The text before the first `b` and, if there is one, the text behind it (std::string::find with
-- the two `substr` calls that follow it).
unfoldable pub break_at : ℕ → Bytes → Bytes × Option Bytes
break_at b [] = ([], none)
break_at b (c ∷ s) =
    let (front, back) = break_at b s in if c == b then ([], some s) else (c ∷ front, back)

-- Up to the first separator, whatever stands behind it.
pub break_at-append :
    (b : ℕ) (s rest : Bytes) → Lacks b s → break_at b (s ++ b ∷ rest) ≡ (s, some rest)
unfolding break_at
break_at-append b [] rest h = ground arith
break_at-append b (c ∷ s) rest (hc, hs) = ground (arith, break_at-append b s rest hs)

pub break_at-Lacks : (b : ℕ) (s : Bytes) → Lacks b s → break_at b s ≡ (s, none)
unfolding break_at
break_at-Lacks b [] h = refl
break_at-Lacks b (c ∷ s) (hc, hs) = ground (arith, break_at-Lacks b s hs)

-- What was broken can be put together.
pub break_at-joins :
    (b : ℕ) (s rest : Bytes)
    → (break_at b s).1 ≡ some rest
    → (s ≡ (break_at b s).0 ++ b ∷ rest) × Lacks b (break_at b s).0
unfolding break_at
break_at-joins b [] rest h = ground arith
break_at-joins b (c ∷ s) rest h = elim (Bool-cases (c == b)) [
  | inl stop ↦ rw stop (ap₂ ◌∷◌ ((==_iff c b).0 stop) (some_inj (rw stop at h)), tt)
  | inr go ↦
      let ih = break_at-joins b s rest (rw go at h) in
      rw go (ap (◌∷◌ c) ih.0, ((λ e. cc (go, (==_iff c b).1 e)), ih.1))
]

pub break_at-whole :
    (b : ℕ) (s : Bytes) → (break_at b s).1 ≡ none → ((break_at b s).0 ≡ s) × Lacks b s
unfolding break_at
break_at-whole b [] h = (refl, tt)
break_at-whole b (c ∷ s) h = elim (Bool-cases (c == b)) [
  | inl stop ↦ absurd (ground (arith, rw stop at h))
  | inr go ↦
      let ih = break_at-whole b s (rw go at h) in
      rw go (ap (◌∷◌ c) ih.0, ((λ e. cc (go, (==_iff c b).1 e)), ih.1))
]
