-- ===== src/Provision/Args.antt =====
-- The options of `provision add`, as its usage text gives them.
use x_auth.Base.{
  Bytes, codes, List, [], ◌∷◌, Option, some, bind-eq-some, some_inj, equal, equal_iff, ◌≡◌, refl,
  sym, Bool-cases, inl, inr, subst,
}
use x_auth.Base.Int.{ℤ}
use x_auth.Provision.{AddOptions, set_option, parse_add}

module _ (stoi : Bytes → Option ℤ) where
  -- Options with their values turn the first setting into the second.
  pub data AddArgs : List Bytes → AddOptions → AddOptions → Type 0 where
    no_more : (o : AddOptions) → AddArgs [] o o
    with_label :
        (v : Bytes) (args : List Bytes) (o o' : AddOptions)
        → AddArgs args (record o { label = v }) o'
        → AddArgs (codes "--label" ∷ v ∷ args) o o'
    with_header :
        (v : Bytes) (args : List Bytes) (o o' : AddOptions)
        → AddArgs args (record o { header = v }) o'
        → AddArgs (codes "--firmware-header" ∷ v ∷ args) o o'
    with_id_length :
        (v : Bytes) (n : ℤ) (args : List Bytes) (o o' : AddOptions)
        → stoi v ≡ some n
        → AddArgs args (record o { id_length = n }) o'
        → AddArgs (codes "--id-length" ∷ v ∷ args) o o'

  set_option-AddArgs :
      (arg v : Bytes) (args : List Bytes) (o mid o' : AddOptions)
      → set_option stoi arg v o ≡ some mid
      → AddArgs args mid o'
      → AddArgs (arg ∷ v ∷ args) o o'
  unfolding set_option equal
  set_option-AddArgs arg v args o mid o' h rest = elim (Bool-cases (equal arg (codes "--label"))) [
    | inl a ↦ rw ((equal_iff arg (codes "--label")).0 a) (
        with_label v args o o'
          (subst (λ (x : AddOptions). AddArgs args x o') (sym (some_inj (rw a at h))) rest))
    | inr a ↦ elim (Bool-cases (equal arg (codes "--firmware-header"))) [
      | inl b ↦ rw ((equal_iff arg (codes "--firmware-header")).0 b) (
          with_header v args o o'
            (subst (λ (x : AddOptions). AddArgs args x o') (sym (some_inj (rw (a, b) at h))) rest))
      | inr b ↦ elim (Bool-cases (equal arg (codes "--id-length"))) [
        | inr c ↦ absurd (cc (rw (a, b, c) at h))
        | inl c ↦
            let (n, read, e) =
              bind-eq-some (stoi v) (λ (k : ℤ). some (record o { id_length = k }))
                (rw (a, b, c) at h) in
            rw ((equal_iff arg (codes "--id-length")).0 c) (
              with_id_length v n args o o' read
                (subst (λ (x : AddOptions). AddArgs args x o') (sym (some_inj e)) rest))
      ]
    ]
  ]

  -- The parser accepts exactly these arguments.
  pub parse_add-AddArgs :
      (args : List Bytes) (o o' : AddOptions) → parse_add stoi args o ≡ some o' → AddArgs args o o'
  unfolding parse_add
  parse_add-AddArgs [] o o' h = subst (λ (x : AddOptions). AddArgs [] o x) (some_inj h) (no_more o)
  parse_add-AddArgs (arg ∷ []) o o' h = absurd (cc h)
  parse_add-AddArgs (arg ∷ v ∷ args) o o' h =
      let (mid, set, rest) =
        bind-eq-some (set_option stoi arg v o) (λ (x : AddOptions). parse_add stoi args x) h in
      set_option-AddArgs arg v args o mid o' set (parse_add-AddArgs args mid o' rest)

  pub AddArgs-parse_add :
      (args : List Bytes) (o o' : AddOptions) → AddArgs args o o' → parse_add stoi args o ≡ some o'
  unfolding parse_add set_option equal
  AddArgs-parse_add _ o _ (no_more _) = refl
  AddArgs-parse_add _ o o' (with_label v args _ _ rest) = AddArgs-parse_add args _ o' rest
  AddArgs-parse_add _ o o' (with_header v args _ _ rest) = AddArgs-parse_add args _ o' rest
  AddArgs-parse_add _ o o' (with_id_length v n args _ _ read rest) =
      rw read (AddArgs-parse_add args _ o' rest)
