-- ===== src/Keygen/Labels.antt =====
-- `valid_label` of core/keygen.cpp.
use x_auth.Base.{ℕ, ◌≤◌, true, Bytes, [], ◌∷◌, length, All, Lacks, ◌≡◌, ◌≢◌, ◌↔◌, refl, arith}
use x_auth.Keygen.{label_char, label_chars, valid_label}

-- Printable ASCII that is neither a double quote nor a backslash.
abbrev pub IsLabelChar : ℕ → Type 0
IsLabelChar c = (0x20 ≤ c) × (c ≤ 0x7e) × (c ≢ b'"') × (c ≢ b'\\')

label_chars_iff : (s : Bytes) → (label_chars s ≡ true) ↔ All IsLabelChar s
unfolding label_chars label_char
label_chars_iff [] = ((λ _. tt), (λ _. refl))
label_chars_iff (c ∷ s) = ground (arith, label_chars_iff s)

-- Exactly the texts of 1 to 64 such characters are labels.
valid_label_iff :
    (s : Bytes) → (valid_label s ≡ true) ↔ ((1 ≤ length s) × (length s ≤ 64) × All IsLabelChar s)
unfolding valid_label
valid_label_iff s = ground (arith, label_chars_iff s)

All-IsLabelChar : (s : Bytes) → All IsLabelChar s → Lacks 0 s × Lacks b'\n' s × Lacks b'"' s
All-IsLabelChar [] h = (tt, tt, tt)
All-IsLabelChar (c ∷ s) (hc, hs) =
    let rest = All-IsLabelChar s hs in
    ((λ e. omega arith, rest.0), (λ e. omega arith, rest.1), (hc.2, rest.2))

-- A label is one C string and one line, and can stand in a C string literal.
pub valid_label-Lacks :
    (s : Bytes) → valid_label s ≡ true → Lacks 0 s × Lacks b'\n' s × Lacks b'"' s
valid_label-Lacks s h = All-IsLabelChar s ((valid_label_iff s).0 h).2
