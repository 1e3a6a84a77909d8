-- ===== src/Firmware/Clock/Serial/Lines.antt =====
-- `clock_poll_serial` of clock.cpp on a whole line.
use x_auth.Base.{
  ℕ, ◌+◌, ◌≤◌, ◌<◌, Bool, true, false, Bytes, List, [], ◌∷◌, ◌++◌, ltb, ◌==◌, c_str, length,
  length-append, append_assoc, append-nil, Lacks, ◌≡◌, ◌≢◌, ◌⊎◌, inl, inr, refl, sym, ap, ◌∙◌,
  arith,
}
use native.Mathlib.Decide.{dec_lt}
use x_auth.Firmware.Clock.Hardware.{Board}
use x_auth.Firmware.Clock.{Clock}
use x_auth.Firmware.Clock.Serial.{Reply, handle_command, Port, poll_byte, clock_poll_serial}

-- A byte that is neither the end of a line nor dropped.
abbrev IsPlain : ℕ → Type 0
IsPlain ch = (ch ≢ b'\r') × (ch ≢ b'\n')

module _ (b : Board) (build_epoch : ℕ) where
  abbrev pub port : Bytes → Bool → Clock b → Port b build_epoch
  port line overflow c = record { line = line; overflow = overflow; clock = c }

  abbrev Polled : Type 0
  Polled = List Reply × Port b build_epoch

  poll_byte-fits :
      (ch : ℕ) (buf : Bytes) (o : Bool) (c : Clock b)
      → IsPlain ch
      → length buf < 31
      → poll_byte b build_epoch ch (port buf o c) ≡ ([], port (buf ++ ch ∷ []) o c)
  unfolding poll_byte
  poll_byte-fits ch buf o c plain room =
      let no_return : (ch == b'\r') ≡ false = ground (arith, plain.0) in
      let no_newline : (ch == b'\n') ≡ false = ground (arith, plain.1) in
      let free : ltb (length buf) 31 ≡ true = ground arith in rw no_return (rw no_newline (rw free))

  poll_byte-full :
      (ch : ℕ) (buf : Bytes) (o : Bool) (c : Clock b)
      → IsPlain ch
      → 31 ≤ length buf
      → poll_byte b build_epoch ch (port buf o c) ≡ ([], port buf true c)
  unfolding poll_byte
  poll_byte-full ch buf o c plain full =
      let no_return : (ch == b'\r') ≡ false = ground (arith, plain.0) in
      let no_newline : (ch == b'\n') ≡ false = ground (arith, plain.1) in
      let taken : ltb (length buf) 31 ≡ false = ground arith in
      rw no_return (rw no_newline (rw taken))

  -- Plain bytes that fit are collected.
  poll-fits :
      (s rest buf : Bytes) (c : Clock b)
      → Lacks b'\r' s
      → Lacks b'\n' s
      → length buf + length s ≤ 31
      → clock_poll_serial b build_epoch (s ++ rest) (port buf false c)
        ≡ clock_poll_serial b build_epoch rest (port (buf ++ s) false c)
  unfolding clock_poll_serial
  poll-fits [] rest buf c hr hn h =
      ap (λ t. clock_poll_serial b build_epoch rest (port t false c)) (sym (append-nil buf))
  poll-fits (ch ∷ s) rest buf c hr hn h =
      rw (poll_byte-fits ch buf false c (hr.0, hn.0) (omega arith)) (
        poll-fits s rest (buf ++ ch ∷ []) c hr.1 hn.1 (rw length-append (omega arith))
        ∙ ap (λ t. clock_poll_serial b build_epoch rest (port t false c))
            (append_assoc buf (ch ∷ []) s))

  -- Too many plain bytes set the mark, which stays.
  poll-over :
      (s rest buf : Bytes) (o : Bool) (c : Clock b)
      → Lacks b'\r' s
      → Lacks b'\n' s
      → length buf ≤ 31
      → (o ≡ true) ⊎ (31 < length buf + length s)
      → (buf' : Bytes) × (clock_poll_serial b build_epoch (s ++ rest) (port buf o c)
          ≡ clock_poll_serial b build_epoch rest (port buf' true c))
  unfolding clock_poll_serial
  poll-over [] rest buf o c hr hn le (inl e) = (buf, rw e)
  poll-over [] rest buf o c hr hn le (inr long) = absurd (omega arith)
  poll-over (ch ∷ s) rest buf o c hr hn le h = elim (dec_lt (length buf) 31) [
    | yes room ↦ rw (poll_byte-fits ch buf o c (hr.0, hn.0) room) (
        poll-over s rest (buf ++ ch ∷ []) o c hr.1 hn.1 (rw length-append (omega arith))
          (still_over h))
    | no full ↦
        rw (poll_byte-full ch buf o c (hr.0, hn.0) (omega arith))
          (poll-over s rest buf true c hr.1 hn.1 le (inl refl))
  ]
    where
      still_over :
          (o ≡ true) ⊎ (31 < length buf + length (ch ∷ s))
          → (o ≡ true) ⊎ (31 < length (buf ++ ch ∷ []) + length s)
      still_over (inl e) = inl e
      still_over (inr long) = inr (rw length-append (omega arith))

  abbrev ended : Bytes → Clock b → List Reply × Port b build_epoch
  ended line c =
      let (reply, c') = handle_command b build_epoch (c_str line) c in
      (reply ∷ [], port [] false c')

  poll-newline :
      (buf : Bytes) (c : Clock b)
      → (clock_poll_serial b build_epoch (b'\n' ∷ []) (port buf false c) ≡ ended buf c)
        × (clock_poll_serial b build_epoch (b'\n' ∷ []) (port buf true c) ≡ ([], port [] false c))
  unfolding clock_poll_serial poll_byte
  poll-newline buf c = (refl, refl)

  -- A line without CR, sent to a port that waits for one, is handled if it has at most 31 bytes, up
  -- to its first NUL, and its reply is all that is printed. A longer line is dropped: nothing is printed,
  -- and the clock is as it was. Either way the port waits for the next line.
  pub clock_poll_serial-line :
      (line : Bytes) (c : Clock b)
      → Lacks b'\r' line
      → Lacks b'\n' line
      → ((length line ≤ 31)
          × (clock_poll_serial b build_epoch (line ++ b'\n' ∷ []) (port [] false c) ≡ (
            (handle_command b build_epoch (c_str line) c).0 ∷ [],
            port [] false (handle_command b build_epoch (c_str line) c).1,
          )))
        ⊎ ((31 < length line)
            × (clock_poll_serial b build_epoch (line ++ b'\n' ∷ []) (port [] false c)
                ≡ ([], port [] false c)))
  clock_poll_serial-line line c hr hn = elim (dec_lt 31 (length line)) [
    | yes long ↦
        let (buf, dropped) =
          poll-over line (b'\n' ∷ []) [] false c hr hn (omega arith) (inr (omega arith)) in
        inr (long, dropped ∙ (poll-newline buf c).1)
    | no short ↦ inl (
      omega arith,
      poll-fits line (b'\n' ∷ []) [] c hr hn (omega arith) ∙ (poll-newline line c).0,
    )
  ]
