-- ===== src/Socket/WriteAll.antt =====
-- `write_all` of verifier/main.cpp and admin/main.cpp, and the drain loop of `serve`.
use x_auth.Base.{
  ℕ, zero, suc, ◌+◌, ◌≤◌, Bytes, List, [], ◌∷◌, ◌++◌, ◌==◌, length, take, drop, ◌≡◌, refl, ap, ◌∙◌,
  arith, append_assoc, take-append-drop, length-drop, Bool-cases, inl, inr, suc-eq_zero,
}
use x_auth.Socket.{ReadEvent, chunk, WriteEvent, wrote, interrupted, failed, write_all, drain}
use x_auth.Socket.ReadLine.{length-take_le}

-- The peer gets a front part of the text, whatever the calls of `write` return.
pub write_all-prefix :
    (events : List WriteEvent) (s : Bytes) → (rest : Bytes) × (write_all events s ++ rest ≡ s)
unfolding write_all
write_all-prefix [] s = (s, refl)
write_all-prefix (failed ∷ events) s = (s, refl)
write_all-prefix (interrupted ∷ events) s = write_all-prefix events s
write_all-prefix (wrote n ∷ events) s =
    let (rest, e) = write_all-prefix events (drop n s) in
    elim (Bool-cases (length s == 0)) [
      | inl empty ↦ (s, rw empty)
      | inr more ↦ elim (Bool-cases (n == 0)) [
        | inl nothing ↦ (s, rw more (rw nothing))
        | inr some_bytes ↦ (
          rest,
          rw more (
              rw some_bytes (
                append_assoc (take n s) _ rest ∙ ap (λ t. take n s ++ t) e ∙ take-append-drop n s)),
        )
      ]
    ]

-- How much the calls offer to take before one of them fails, or takes nothing.
abbrev pub offered : List WriteEvent → ℕ
offered [] = 0
offered (failed ∷ events) = 0
offered (interrupted ∷ events) = offered events
offered (wrote zero ∷ events) = 0
offered (wrote (suc n) ∷ events) = suc n + offered events

-- If the calls offer to take as much as the text has, with any interruptions, the peer gets all of it.
pub write_all_complete :
    (events : List WriteEvent) (s : Bytes) → length s ≤ offered events → write_all events s ≡ s
unfolding write_all
write_all_complete [] [] h = refl
write_all_complete [] (c ∷ s) h = absurd (omega arith)
write_all_complete (failed ∷ events) [] h = refl
write_all_complete (failed ∷ events) (c ∷ s) h = absurd (omega arith)
write_all_complete (interrupted ∷ events) s h = write_all_complete events s h
write_all_complete (wrote zero ∷ events) [] h = refl
write_all_complete (wrote zero ∷ events) (c ∷ s) h = absurd (omega arith)
write_all_complete (wrote (suc n) ∷ events) [] h = refl
write_all_complete (wrote (suc n) ∷ events) (c ∷ s) h = rw (suc-eq_zero (length s)) (
    rw (suc-eq_zero n) (
      ap (λ t. c ∷ (take n s ++ t))
        (write_all_complete events (drop n s) (omega (arith, length-drop n s)))
      ∙ ap (◌∷◌ c) (take-append-drop n s)))

drain-bound_from :
    (sink_size : ℕ) (events : List ReadEvent) (drained : ℕ)
    → drained ≤ 4095 + sink_size
    → drain sink_size events drained ≤ 4095 + sink_size
unfolding drain
drain-bound_from k [] drained h = h
drain-bound_from k (ReadEvent.failed ∷ events) drained h = h
drain-bound_from k (ReadEvent.interrupted ∷ events) drained h =
    ground (arith, drain-bound_from k events drained h)
drain-bound_from k (chunk c ∷ events) drained h =
    ground (arith, drain-bound_from k events (drained + length (take k c)), length-take_le k c)

-- However much a client sends, fewer than 4096 bytes and one buffer are read after the reply.
pub drain-bound :
    (sink_size : ℕ) (events : List ReadEvent) → drain sink_size events 0 ≤ 4095 + sink_size
drain-bound k events = drain-bound_from k events 0 (omega arith)
