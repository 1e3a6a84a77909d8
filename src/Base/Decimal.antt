-- ===== src/Base/Decimal.antt =====
-- The decimal print of a number, and its print with a fixed number of digits.
use native.Mathlib.Nat.{pow-suc}
use Prim.Native.Nat.{ℕ, zero, suc, ◌+◌, ◌-◌, ◌*◌, ◌/◌, ◌%◌, ◌^◌, ◌≤◌, ◌<◌}
use mathlib.Core.Path.{◌≡◌, refl, sym, ap, ◌∙◌}
use mathlib.Core.Logic.{inl, inr}
use mathlib.Core.List.{[], ◌∷◌, ◌++◌, append_assoc}
use native.Mathlib.Omega.{arith}
use x_auth.Base.Tests.{ltb, ltb→lt, lt→ltb, Bool-cases}
use x_auth.Base.Lists.{length, replicate, length-append, All, All-append}
use x_auth.Base.Text.{Bytes, IsDigit, decimal_fuel, decimal}

-- The last k decimal digits of n.
abbrev pub digits_of : ℕ → ℕ → Bytes
digits_of zero n = []
digits_of (suc k) n = digits_of k (n / 10) ++ (b'0' + n % 10) ∷ []

-- The number that decimal digits spell, behind the number `n`.
abbrev pub value_from : ℕ → Bytes → ℕ
value_from n [] = n
value_from n (c ∷ cs) = value_from (n * 10 + (c - b'0')) cs

abbrev pub value : Bytes → ℕ
value = value_from 0

value_from-append : (n : ℕ) (s t : Bytes) → value_from n (s ++ t) ≡ value_from (value_from n s) t
value_from-append n [] t = refl
value_from-append n (c ∷ s) t = value_from-append (n * 10 + (c - b'0')) s t

pub value-digits_of : (k n : ℕ) → n < 10 ^ k → value (digits_of k n) ≡ n
value-digits_of zero n h = omega arith
value-digits_of (suc k) n h =
    let small : n / 10 < 10 ^ k = omega (arith, pow-suc 10 k) in
    rw value_from-append (omega (arith, value-digits_of k (n / 10) small))

pub length-digits_of : (k n : ℕ) → length (digits_of k n) ≡ k
length-digits_of zero n = refl
length-digits_of (suc k) n = rw length-append (omega (arith, length-digits_of k (n / 10)))

pub digits_of-IsDigit : (k n : ℕ) → All IsDigit (digits_of k n)
digits_of-IsDigit zero n = tt
digits_of-IsDigit (suc k) n =
    All-append IsDigit (digits_of k (n / 10)) _ (digits_of-IsDigit k (n / 10)) (omega arith)

-- A number of fewer digits, with zeros in front.
pad : ℕ → Bytes → Bytes
pad k s = replicate (k - length s) b'0' ++ s

replicate-suc : (k c : ℕ) → replicate k c ++ c ∷ [] ≡ c ∷ replicate k c
replicate-suc zero c = refl
replicate-suc (suc k) c = ap (◌∷◌ c) (replicate-suc k c)

digits_of-zero : (k : ℕ) → digits_of k 0 ≡ replicate k b'0'
digits_of-zero zero = refl
digits_of-zero (suc k) = ap (λ s. s ++ b'0' ∷ []) (digits_of-zero k) ∙ replicate-suc k b'0'

pad-concat : (k : ℕ) (s : Bytes) (c : ℕ) → pad (suc k) (s ++ c ∷ []) ≡ pad k s ++ c ∷ []
unfolding pad
pad-concat k s c =
    let e : suc k - length (s ++ c ∷ []) ≡ k - length s = rw length-append (omega arith) in
    rw e (sym (append_assoc (replicate (k - length s) b'0') s (c ∷ [])))

pad-one_digit : (k n : ℕ) → n < 10 → pad (suc k) ((b'0' + n) ∷ []) ≡ digits_of (suc k) n
unfolding pad
pad-one_digit k n h =
    let width : suc k - 1 ≡ k = omega arith in
    let high : n / 10 ≡ 0 = omega arith in
    let low : n % 10 ≡ n = omega arith in rw width (rw high (rw (digits_of-zero k) (rw low)))

-- Padding to a width that holds the digits, with enough fuel for them, prints the last digits.
pad-decimal_fuel :
    (k f n : ℕ)
    → k ≤ f
    → n < 10 ^ suc k
    → pad (suc k) (decimal_fuel (suc f) n) ≡ digits_of (suc k) n
unfolding decimal_fuel
pad-decimal_fuel zero f n fits h =
    let small : n < 10 = omega (arith, pow-suc 10 0) in
    rw (lt→ltb n 10 small) (pad-one_digit 0 n small)
pad-decimal_fuel (suc k) zero n fits h = absurd (omega arith)
pad-decimal_fuel (suc k) (suc f) n fits h = elim (Bool-cases (ltb n 10)) [
  | inl small ↦ rw small (pad-one_digit (suc k) n (ltb→lt n 10 small))
  | inr large ↦
      let bound : n / 10 < 10 ^ suc k = omega (arith, pow-suc 10 (suc k)) in
      rw large (
        pad-concat (suc k) _ _
        ∙ ap (λ s. s ++ (b'0' + n % 10) ∷ []) (pad-decimal_fuel k f (n / 10) (omega arith) bound))
]

pub pad-decimal :
    (k n : ℕ)
    → k < 20
    → n < 10 ^ suc k
    → replicate (suc k - length (decimal n)) b'0' ++ decimal n ≡ digits_of (suc k) n
unfolding decimal pad
pad-decimal k n fits h = pad-decimal_fuel k 19 n (omega arith) h
