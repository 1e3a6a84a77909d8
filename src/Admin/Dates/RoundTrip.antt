-- ===== src/Admin/Dates/RoundTrip.antt =====
-- From the table over the reply to `LIST` to its entries.
use x_auth.Base.{
  false, Bytes, codes, List, [], ◌∷◌, ◌++◌, some, ◌==◌, equal, break_at-append, Lacks, All,
  All-append, map, ◌≡◌, ◌≢◌, refl, ap, ◌∙◌, arith, Bool-cases, inl, inr,
}
use x_auth.Base.Int.{ℤ, pos, negsuc}
use x_auth.Keystore.Store.{Device}
use x_auth.Admin.{status_word, list_lines}
use x_auth.Admin.Dates.{strip_prefix, single_token_dates}
use x_auth.Admin.Dates.Listing.{
  Entry, active_status, entry, lines, add_front, read_created, read_status, read_entry, read_lines,
  IsStamp, undated, dated, IsListable,
}
use x_auth.Admin.Dates.Joined.{
  sent, line_with, sent_lines, line_with-Lacks, sent-Lacks, word-Lacks, status_word-Lacks,
  single_token_dates-sent,
}

lines-append :
    (line rest : Bytes) → Lacks b'\n' line → lines (line ++ b'\n' ∷ rest) ≡ line ∷ lines rest
unfolding lines
lines-append [] rest h = refl
lines-append (c ∷ line) rest h =
    let other : (c == b'\n') ≡ false = ground (arith, h.0) in
    rw other (ap (add_front c) (lines-append line rest h.1))

read_status-word : (s : ℤ) → read_status (status_word s) ≡ some (active_status s)
unfolding read_status status_word equal
read_status-word (negsuc n) = refl
read_status-word (pos n) = elim (Bool-cases (n == 1)) [
  | inl one ↦ rw one refl
  | inr more ↦ rw more refl
]

read_created-sent : {s : Bytes} (stamp : IsStamp s) → read_created (sent stamp) ≡ s
unfolding read_created sent equal
read_created-sent undated = refl
read_created-sent (dated c date time _ plain _ mark _ _ _) =
    let other : (c == b'-') ≡ false = ground (arith, plain) in
    rw other (rw (break_at-append b'T' (c ∷ date) time mark) refl)

read_entry-line :
    (d : Device) (h : IsListable d)
    → read_entry (codes "DEVICE " ++ line_with d (sent h.stamp)) ≡ some (entry d)
unfolding read_entry strip_prefix
read_entry-line d h =
    rw
      (break_at-append b' ' d.id (status_word d.status ++ b' ' ∷ (sent h.stamp ++ b' ' ∷ d.note))
        h.id_space)
      (rw
        (break_at-append b' ' (status_word d.status) (sent h.stamp ++ b' ' ∷ d.note)
          (status_word-Lacks d.status).0)
        (rw (read_status-word d.status) (
          rw (break_at-append b' ' (sent h.stamp) d.note (sent-Lacks h.stamp).0)
            (rw (read_created-sent h.stamp) refl))))

lines-device :
    (d : Device) (h : IsListable d) (rest : Bytes)
    → lines (codes "DEVICE " ++ (line_with d (sent h.stamp) ++ b'\n' ∷ rest))
      ≡ (codes "DEVICE " ++ line_with d (sent h.stamp)) ∷ lines rest
lines-device d h rest =
    lines-append (codes "DEVICE " ++ line_with d (sent h.stamp)) rest
      (All-append (λ c. c ≢ b'\n') (codes "DEVICE ") _ word-Lacks (line_with-Lacks d h))

read_lines-cons :
    (line : Bytes) (rest : List Bytes) (e : Entry) (es : List Entry)
    → read_entry line ≡ some e
    → read_lines rest ≡ some es
    → read_lines (line ∷ rest) ≡ some (e ∷ es)
unfolding read_lines
read_lines-cons line [] e es he hes = cc hes
read_lines-cons line (next ∷ rest) e es he hes = rw he (rw hes)

read_lines-sent :
    (devices : List Device) (h : All IsListable devices)
    → read_lines (lines (sent_lines devices h)) ≡ some (map entry devices)
unfolding sent_lines lines read_lines equal
read_lines-sent [] h = refl
read_lines-sent (d ∷ devices) h = rw (lines-device d h.0 (sent_lines devices h.1)) (
    read_lines-cons _ (lines (sent_lines devices h.1)) (entry d) (map entry devices)
      (read_entry-line d h.0) (read_lines-sent devices h.1))

-- The reader reads from the reply to `LIST` exactly the devices of the list, in its order, with
-- the ID, whether the status is 1, the time of creation and the label. The IDs have no space,
-- newlines are in no ID and no label, and a time of creation is empty or as SQLite writes it.
pub single_token_dates-read :
    (devices : List Device)
    → All IsListable devices
    → read_lines (lines (single_token_dates (list_lines devices))) ≡ some (map entry devices)
single_token_dates-read devices h =
    ap (λ s. read_lines (lines s)) (single_token_dates-sent devices h) ∙ read_lines-sent devices h
