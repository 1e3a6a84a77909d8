-- ===== src/Verifier/Protocol/Split.antt =====
-- How `handle_request` of verifier/main.cpp cuts a line at its spaces.
use x_auth.Base.{
  ℕ, suc, Bytes, List, [], ◌∷◌, ◌++◌, break_at, break_at-append, break_at-Lacks, break_at-joins,
  break_at-whole, Lacks, ◌≡◌, ◌≢◌, ◌⊎◌, sym, ap, ◌∙◌, Option-cases, inl, inr, cons_inj,
}
use x_auth.Verifier.Protocol.{split_parts}

-- The line that a request makes.
abbrev pub request_line : Bytes → Bytes → Bytes → Bytes
request_line cmd id code = cmd ++ (b' ' ∷ (id ++ b' ' ∷ code))

pub split_parts-request_line :
    (cmd id code : Bytes)
    → Lacks b' ' cmd
    → Lacks b' ' id
    → Lacks b' ' code
    → split_parts 4 (request_line cmd id code) ≡ cmd ∷ id ∷ code ∷ []
unfolding split_parts
split_parts-request_line cmd id code hc hi hk =
    rw (break_at-append b' ' cmd (id ++ b' ' ∷ code) hc)
      (rw (break_at-append b' ' id code hi) (rw (break_at-Lacks b' ' code hk)))

pub split_parts-two :
    (cmd id : Bytes)
    → Lacks b' ' cmd
    → Lacks b' ' id
    → split_parts 4 (cmd ++ b' ' ∷ id) ≡ cmd ∷ id ∷ []
unfolding split_parts
split_parts-two cmd id hc hi = rw (break_at-append b' ' cmd id hc) (rw (break_at-Lacks b' ' id hi))

-- The first piece is the whole line, or a space stands behind it.
split_parts-cons :
    (n : ℕ) (line front : Bytes) (back : List Bytes)
    → split_parts (suc n) line ≡ front ∷ back
    → ((line ≡ front) × (back ≡ []))
      ⊎ ((rest : Bytes) × (line ≡ front ++ b' ' ∷ rest) × (split_parts n rest ≡ back))
unfolding split_parts
split_parts-cons n line front back h = elim (Option-cases (break_at b' ' line).1) [
  | inl last ↦
      let parts = cons_inj (rw last at h) in
      inl (sym (break_at-whole b' ' line last).0 ∙ parts.0, sym parts.1)
  | inr (rest, more) ↦
      let parts = cons_inj (rw more at h) in
      inr
        (rest, (break_at-joins b' ' line rest more).0 ∙ ap (λ t. t ++ b' ' ∷ rest) parts.0, parts.1)
]

split_parts-ne-nil : (n : ℕ) (line : Bytes) → split_parts (suc n) line ≢ []
unfolding split_parts
split_parts-ne-nil n line h = cc

-- Three pieces of at most four are the whole line.
pub split_parts-three :
    (line a b c : Bytes) → split_parts 4 line ≡ a ∷ b ∷ c ∷ [] → line ≡ request_line a b c
split_parts-three line a b c h = elim (split_parts-cons 3 line a (b ∷ c ∷ []) h) [
  | inl (_, impossible) ↦ cc impossible
  | inr (r1, e1, h1) ↦ elim (split_parts-cons 2 r1 b (c ∷ []) h1) [
    | inl (_, impossible) ↦ cc impossible
    | inr (r2, e2, h2) ↦ elim (split_parts-cons 1 r2 c [] h2) [
      | inl (e3, _) ↦ e1 ∙ ap (λ t. a ++ b' ' ∷ t) (e2 ∙ ap (λ t. b ++ b' ' ∷ t) e3)
      | inr (r3, e3, h3) ↦ absurd (split_parts-ne-nil 0 r3 h3)
    ]
  ]
]
