-- ===== src/Admin/Dates/Joined.antt =====
-- `single_token_dates` on the reply to `LIST`.
use x_auth.Base.{
  ℕ, zero, suc, ◌<◌, ◌≤◌, false, Bytes, codes, List, [], ◌∷◌, ◌++◌, Option, some, Bool-cases, inl,
  inr, ◌==◌, length, length-append, break_at, break_at-append, Lacks, lacks, lacks-Lacks, All,
  All-append, append_assoc, ◌≡◌, ◌≢◌, refl, sym, ap, ◌∙◌, arith,
}
use x_auth.Base.Int.{ℤ, pos, negsuc}
use x_auth.Keystore.Store.{Device}
use x_auth.Admin.{status_word, or_dash, device_line, list_lines}
use x_auth.Admin.Dates.{
  in_front, strip_prefix, find_word, join_at, join_date, join_fields, dates_loop,
  single_token_dates,
}
use x_auth.Admin.Dates.Listing.{IsStamp, undated, dated, IsListable}

-- The third token that is sent.
unfoldable pub sent : {s : Bytes} → IsStamp s → Bytes
sent undated = codes "-"
sent (dated c date time _ _ _ _ _ _ _) = c ∷ date ++ b'T' ∷ time

-- A line behind `DEVICE `, with `created` as the third token.
abbrev pub line_with : Device → Bytes → Bytes
line_with d created = d.id ++ b' ' ∷ (status_word d.status ++ b' ' ∷ (created ++ b' ' ∷ d.note))

-- The reply with joined dates.
unfoldable pub sent_lines : (devices : List Device) → All IsListable devices → Bytes
sent_lines [] h = codes "END\n"
sent_lines (d ∷ devices) h =
    codes "DEVICE " ++ (line_with d (sent h.0.stamp) ++ b'\n' ∷ sent_lines devices h.1)

join_at-date :
    (n : ℕ) (date s : Bytes) → length date ≡ n → join_at n (date ++ b' ' ∷ s) ≡ date ++ b'T' ∷ s
unfolding join_at
join_at-date zero [] s h = refl
join_at-date zero (c ∷ date) s h = absurd (omega arith)
join_at-date (suc n) [] s h = absurd (omega arith)
join_at-date (suc n) (c ∷ date) s h = ap (◌∷◌ c) (join_at-date n date s (omega arith))

join_date-sent :
    {s : Bytes} (stamp : IsStamp s) (rest : Bytes)
    → join_date (or_dash s ++ b' ' ∷ rest) ≡ sent stamp ++ b' ' ∷ rest
unfolding join_date sent
join_date-sent undated rest = refl
join_date-sent (dated c date time size plain _ _ _ _ _) rest =
    let other : (c == b'-') ≡ false = ground (arith, plain) in
    rw other (
      ap (◌∷◌ c) (
        ap (join_at 9) (append_assoc date (b' ' ∷ time) (b' ' ∷ rest))
        ∙ join_at-date 9 date (time ++ b' ' ∷ rest) size
        ∙ sym (append_assoc date (b'T' ∷ time) (b' ' ∷ rest))))

pub word-Lacks : Lacks b'\n' (codes "DEVICE ")
unfolding lacks
word-Lacks = lacks-Lacks b'\n' (codes "DEVICE ") refl

pub status_word-Lacks : (s : ℤ) → Lacks b' ' (status_word s) × Lacks b'\n' (status_word s)
unfolding status_word lacks
status_word-Lacks (negsuc n) =
    (lacks-Lacks b' ' (codes "revoked") refl, lacks-Lacks b'\n' (codes "revoked") refl)
status_word-Lacks (pos n) = elim (Bool-cases (n == 1)) [
  | inl one ↦
      rw one (lacks-Lacks b' ' (codes "active") refl, lacks-Lacks b'\n' (codes "active") refl)
  | inr more ↦
      rw more (lacks-Lacks b' ' (codes "revoked") refl, lacks-Lacks b'\n' (codes "revoked") refl)
]

-- What stands behind a line.
line_with-append :
    (d : Device) (created rest : Bytes)
    → line_with d created ++ rest
      ≡ d.id ++ b' ' ∷ (status_word d.status ++ b' ' ∷ (created ++ b' ' ∷ (d.note ++ rest)))
line_with-append d created rest =
    append_assoc d.id (b' ' ∷ (status_word d.status ++ b' ' ∷ (created ++ b' ' ∷ d.note))) rest
    ∙ ap (λ t. d.id ++ b' ' ∷ t)
        (append_assoc (status_word d.status) (b' ' ∷ (created ++ b' ' ∷ d.note)) rest
          ∙ ap (λ t. status_word d.status ++ b' ' ∷ t) (append_assoc created (b' ' ∷ d.note) rest))

join_fields-sent :
    (d : Device) (h : IsListable d) (rest : Bytes)
    → join_fields (line_with d (or_dash d.created) ++ rest) ≡ line_with d (sent h.stamp) ++ rest
unfolding join_fields
join_fields-sent d h rest =
    let status = (status_word-Lacks d.status).0 in
    let tail = d.note ++ rest in
    rw (line_with-append d (or_dash d.created) rest) (
      rw (line_with-append d (sent h.stamp) rest) (
        rw
          (break_at-append b' ' d.id
            (status_word d.status ++ b' ' ∷ (or_dash d.created ++ b' ' ∷ tail)) h.id_space)
          (rw
            (break_at-append b' ' (status_word d.status) (or_dash d.created ++ b' ' ∷ tail) status)
            (rw (join_date-sent h.stamp tail) refl))))

pub sent-Lacks :
    {s : Bytes} (stamp : IsStamp s) → Lacks b' ' (sent stamp) × Lacks b'\n' (sent stamp)
unfolding sent
sent-Lacks undated = (((λ e. omega arith), tt), ((λ e. omega arith), tt))
sent-Lacks (dated c date time _ _ space _ line space' line') = (
  (space.0, All-append (λ x. x ≢ b' ') date (b'T' ∷ time) space.1 ((λ e. omega arith), space')),
  (line.0, All-append (λ x. x ≢ b'\n') date (b'T' ∷ time) line.1 ((λ e. omega arith), line')),
)

pub line_with-Lacks : (d : Device) (h : IsListable d) → Lacks b'\n' (line_with d (sent h.stamp))
line_with-Lacks d h =
    let P : ℕ → Type 0 = λ x. x ≢ b'\n' in
    All-append P d.id _ h.id_line (
      (λ e. omega arith),
      All-append P (status_word d.status) _ (status_word-Lacks d.status).1 (
        (λ e. omega arith),
        All-append P (sent h.stamp) _ (sent-Lacks h.stamp).1 ((λ e. omega arith), h.note_line),
      ),
    )

device_line-append :
    (d : Device) (rest : Bytes)
    → device_line d ++ rest ≡ codes "DEVICE " ++ (line_with d (or_dash d.created) ++ b'\n' ∷ rest)
unfolding device_line
device_line-append d rest =
    let line = line_with d (or_dash d.created) in
    ap (λ t. codes "DEVICE " ++ (t ++ rest))
      (sym (line_with-append d (or_dash d.created) (codes "\n")))
    ∙ ap (λ t. codes "DEVICE " ++ t) (append_assoc line (codes "\n") rest)

dates_loop-step :
    (fuel : ℕ) (s front rest line more : Bytes)
    → find_word (codes "DEVICE ") s ≡ some (front, rest)
    → join_fields rest ≡ line ++ b'\n' ∷ more
    → Lacks b'\n' line
    → dates_loop (suc fuel) s
      ≡ front ++ (codes "DEVICE " ++ (line ++ dates_loop fuel (b'\n' ∷ more)))
unfolding dates_loop
dates_loop-step fuel s front rest line more found fixed lacks =
    let broken = ap (break_at b'\n') fixed ∙ break_at-append b'\n' line more lacks in
    let has_more = ap (λ (p : Bytes × Option Bytes). p.1) broken in
    let has_line = ap (λ (p : Bytes × Option Bytes). p.0) broken in
    rw (dates_loop, found, has_more) (rw has_line refl)

find_word-newline :
    (s : Bytes)
    → find_word (codes "DEVICE ") (b'\n' ∷ s) ≡ in_front b'\n' (find_word (codes "DEVICE ") s)
unfolding find_word strip_prefix
find_word-newline s = refl

find_word-here : (s : Bytes) → find_word (codes "DEVICE ") (codes "DEVICE " ++ s) ≡ some ([], s)
unfolding find_word strip_prefix
find_word-here s = refl

no_word_newline : (fuel : ℕ) → dates_loop fuel (codes "\nEND\n") ≡ codes "\nEND\n"
unfolding dates_loop find_word strip_prefix
no_word_newline zero = refl
no_word_newline (suc fuel) = refl

no_word : (fuel : ℕ) → dates_loop fuel (codes "END\n") ≡ codes "END\n"
unfolding dates_loop find_word strip_prefix
no_word zero = refl
no_word (suc fuel) = refl

-- From the end of a line on.
dates_loop-newline :
    (fuel : ℕ) (devices : List Device) (h : All IsListable devices)
    → length devices < fuel
    → dates_loop fuel (b'\n' ∷ list_lines devices) ≡ b'\n' ∷ sent_lines devices h
unfolding list_lines sent_lines
dates_loop-newline fuel [] h enough = no_word_newline fuel
dates_loop-newline zero (d ∷ devices) h enough = absurd (omega arith)
dates_loop-newline (suc fuel) (d ∷ devices) h enough =
    let rest = b'\n' ∷ list_lines devices in
    let found : find_word (codes "DEVICE ") (b'\n' ∷ (device_line d ++ list_lines devices))
        ≡ some (b'\n' ∷ [], line_with d (or_dash d.created) ++ rest) =
      find_word-newline (device_line d ++ list_lines devices)
      ∙ ap (λ s. in_front b'\n' (find_word (codes "DEVICE ") s))
          (device_line-append d (list_lines devices))
      ∙ ap (in_front b'\n') (find_word-here (line_with d (or_dash d.created) ++ rest)) in
    dates_loop-step fuel _ (b'\n' ∷ []) (line_with d (or_dash d.created) ++ rest)
      (line_with d (sent h.0.stamp)) (list_lines devices) found (join_fields-sent d h.0 rest)
      (line_with-Lacks d h.0)
    ∙ ap (λ t. b'\n' ∷ (codes "DEVICE " ++ (line_with d (sent h.0.stamp) ++ t)))
        (dates_loop-newline fuel devices h.1 (omega arith))

dates_loop-lines :
    (fuel : ℕ) (devices : List Device) (h : All IsListable devices)
    → length devices < fuel
    → dates_loop fuel (list_lines devices) ≡ sent_lines devices h
unfolding list_lines sent_lines
dates_loop-lines fuel [] h enough = no_word fuel
dates_loop-lines zero (d ∷ devices) h enough = absurd (omega arith)
dates_loop-lines (suc fuel) (d ∷ devices) h enough =
    let rest = b'\n' ∷ list_lines devices in
    let found : find_word (codes "DEVICE ") (device_line d ++ list_lines devices)
        ≡ some ([], line_with d (or_dash d.created) ++ rest) =
      ap (find_word (codes "DEVICE ")) (device_line-append d (list_lines devices))
      ∙ find_word-here (line_with d (or_dash d.created) ++ rest) in
    dates_loop-step fuel _ [] (line_with d (or_dash d.created) ++ rest)
      (line_with d (sent h.0.stamp)) (list_lines devices) found (join_fields-sent d h.0 rest)
      (line_with-Lacks d h.0)
    ∙ ap (λ t. codes "DEVICE " ++ (line_with d (sent h.0.stamp) ++ t))
        (dates_loop-newline fuel devices h.1 (omega arith))

length-list_lines : (devices : List Device) → length devices ≤ length (list_lines devices)
unfolding list_lines device_line
length-list_lines [] = omega arith
length-list_lines (d ∷ devices) =
    let lower = length-list_lines devices in
    rw (length-append (device_line d) (list_lines devices)) (omega (arith, lower))

pub single_token_dates-sent :
    (devices : List Device) (h : All IsListable devices)
    → single_token_dates (list_lines devices) ≡ sent_lines devices h
unfolding single_token_dates
single_token_dates-sent devices h =
    let lower = length-list_lines devices in
    dates_loop-lines (suc (length (list_lines devices))) devices h (omega (arith, lower))
