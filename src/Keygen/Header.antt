-- ===== src/Keygen/Header.antt =====
-- `firmware_header` of core/keygen.cpp, and what the compiler reads in it.
use x_auth.Base.{
  Bool, true, false, Bytes, codes, List, [], ◌∷◌, ◌++◌, ◌==◌, Lacks, ◌≡◌, sym, ap, ◌∙◌, arith,
  append_assoc, append-nil,
}
use x_auth.Keygen.{firmware_header}

-- The texts between double quotes, in their order; `text` is what was read of the one that is open.
pub quoted : Bool → Bytes → Bytes → List Bytes
quoted inside text [] = []
quoted false text (c ∷ s) = quoted (c == b'"') [] s
quoted true text (c ∷ s) = elim (c == b'"') [
  | true ↦ text ∷ quoted false [] s
  | false ↦ quoted true (text ++ c ∷ []) s
]

quoted-closes :
    (text s rest : Bytes)
    → Lacks b'"' s
    → quoted true text (s ++ b'"' ∷ rest) ≡ (text ++ s) ∷ quoted false [] rest
unfolding quoted
quoted-closes text [] rest h = ap (λ t. t ∷ quoted false [] rest) (sym (append-nil text))
quoted-closes text (c ∷ s) rest h =
    let other : (c == b'"') ≡ false = ground (arith, h.0) in
    rw (quoted, other)
      (quoted-closes (text ++ c ∷ []) s rest h.1
        ∙ ap (λ t. t ∷ quoted false [] rest) (append_assoc text (c ∷ []) s))

-- The string literals of the header are the ID and the key, if these have no double quote.
pub firmware_header-quoted :
    (id key : Bytes)
    → Lacks b'"' id
    → Lacks b'"' key
    → quoted false [] (firmware_header id key) ≡ id ∷ key ∷ []
unfolding quoted firmware_header
firmware_header-quoted id key hi hk =
    quoted-closes [] id (codes "\n#define SECURE_KEY \"" ++ (key ++ codes "\"\n")) hi
    ∙ ap (◌∷◌ id) (quoted-closes [] key (codes "\n") hk)
