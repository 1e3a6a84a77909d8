-- ===== src/Socket/ReadLine.antt =====
-- `read_line` of verifier/main.cpp and admin/main.cpp, against the stream as a whole.
use x_auth.Base.{
  ℕ, zero, suc, ◌+◌, ◌-◌, ◌≤◌, Bytes, List, [], ◌∷◌, ◌++◌, Option, none, some, lt→ltb, ◌==◌, length,
  take, break_at, ◌≡◌, refl, sym, ap, ◌∙◌, arith, Bool-cases, suc-eq_zero, inl, inr, append_assoc,
  length-append, Lacks, take-eq_self, break_at-append,
}
use x_auth.Socket.{ReadEvent, chunk, interrupted, failed, scan_chunk, read_line}

-- The bytes that the reads bring, up to the end of the stream or an error.
abbrev pub stream : List ReadEvent → Bytes
stream [] = []
stream (failed ∷ events) = []
stream (interrupted ∷ events) = stream events
stream (chunk [] ∷ events) = []
stream (chunk (c ∷ cs) ∷ events) = (c ∷ cs) ++ stream events

-- The line that ends within the first `capacity` bytes.
abbrev front_line : Bytes × Option Bytes → Option Bytes
front_line (front, none) = none
front_line (front, some rest) = some front

-- What stands in front of the line.
abbrev put : Bytes → Option Bytes → Option Bytes
put buf none = none
put buf (some s) = some (buf ++ s)

unfoldable pub first_line : ℕ → Bytes → Option Bytes
first_line capacity s = front_line (break_at b'\n' (take capacity s))

take-append :
    (n m : ℕ) (xs ys : Bytes)
    → length (take n xs) + m ≡ n
    → take n (xs ++ ys) ≡ take n xs ++ take m ys
take-append zero m xs ys h = let e : m ≡ 0 = omega arith in rw e
take-append (suc n) m [] ys h = let e : m ≡ suc n = omega arith in rw e
take-append (suc n) m (x ∷ xs) ys h = ap (◌∷◌ x) (take-append n m xs ys (omega arith))

put-nil : (o : Option Bytes) → put [] o ≡ o
put-nil none = refl
put-nil (some s) = refl

put-append : (a b : Bytes) (o : Option Bytes) → put (a ++ b) o ≡ put a (put b o)
put-append a b none = refl
put-append a b (some s) = ap some (append_assoc a b s)

first_line-nil : (n : ℕ) → first_line n [] ≡ none
unfolding first_line break_at
first_line-nil zero = refl
first_line-nil (suc n) = refl

first_line-zero : (s : Bytes) → first_line 0 s ≡ none
unfolding first_line break_at
first_line-zero s = refl

-- What a piece and what follows it give together: `o` says whether the piece has a newline, and
-- `front` is what stands before it.
abbrev after_piece : Option Bytes → Bytes → Option Bytes → Option Bytes
after_piece (some rest) front next = some front
after_piece none front next = next

-- Behind a piece with a newline nothing matters; behind one without, the search goes on.
front_line-append :
    (xs ys : Bytes)
    → front_line (break_at b'\n' (xs ++ ys))
      ≡ after_piece
          (break_at b'\n' xs).1
          (break_at b'\n' xs).0
          (put xs (front_line (break_at b'\n' ys)))
unfolding break_at
front_line-append [] ys = sym (put-nil _)
front_line-append (x ∷ xs) ys = elim (Bool-cases (x == b'\n')) [
  | inl stop ↦ rw stop
  | inr go ↦ rw go (
      front_line-cons x _
      ∙ ap (put (x ∷ [])) (front_line-append xs ys)
      ∙ put-after_piece x xs (break_at b'\n' xs).1 _ _)
]
  where
    front_line-cons :
        (x : ℕ) (r : Bytes × Option Bytes) → front_line (x ∷ r.0, r.1) ≡ put (x ∷ []) (front_line r)
    front_line-cons x (f, none) = refl
    front_line-cons x (f, some rest) = refl

    put-after_piece :
        (x : ℕ) (xs : Bytes) (o : Option Bytes) (f : Bytes) (next : Option Bytes)
        → put (x ∷ []) (after_piece o f (put xs next)) ≡ after_piece o (x ∷ f) (put (x ∷ xs) next)
    put-after_piece x xs none f next = sym (put-append (x ∷ []) xs next)
    put-after_piece x xs (some rest) f next = refl

take-nil : (n : ℕ) → take {A = ℕ} n [] ≡ []
take-nil zero = refl
take-nil (suc n) = refl

pub length-take_le : (n : ℕ) (xs : Bytes) → length (take n xs) ≤ n
length-take_le zero xs = omega arith
length-take_le (suc n) [] = omega arith
length-take_le (suc n) (x ∷ xs) = omega (arith, length-take_le n xs)

first_line-append :
    (n m : ℕ) (xs ys : Bytes)
    → length (take n xs) + m ≡ n
    → first_line n (xs ++ ys)
      ≡ after_piece
          (break_at b'\n' (take n xs)).1
          (break_at b'\n' (take n xs)).0
          (put (take n xs) (first_line m ys))
unfolding first_line
first_line-append n m xs ys h =
    rw (take-append n m xs ys h) (front_line-append (take n xs) (take m ys))

-- One piece that the buffer takes.
scan_chunk-step :
    (buf : Bytes) (c : ℕ) (cs : Bytes) (more next : Option Bytes)
    → more ≡ put (buf ++ (c ∷ cs)) next
    → scan_chunk buf (c ∷ cs) more
      ≡ put buf
          (after_piece (break_at b'\n' (c ∷ cs)).1 (break_at b'\n' (c ∷ cs)).0 (put (c ∷ cs) next))
unfolding scan_chunk
scan_chunk-step buf c cs more next h =
    rw (suc-eq_zero (length cs)) (by_case (break_at b'\n' (c ∷ cs)).1 (break_at b'\n' (c ∷ cs)).0)
  where
    by_case :
        (o : Option Bytes) (f : Bytes)
        → (elim o [ some rest ↦ some (buf ++ f) | none ↦ more ])
          ≡ put buf (after_piece o f (put (c ∷ cs) next))
    by_case none f = h ∙ put-append buf (c ∷ cs) next
    by_case (some rest) f = refl

-- Read by any calls, from a buffer with room for `n` bytes more, the line is the first line of the
-- stream within those bytes.
read_line-room :
    (capacity : ℕ) (events : List ReadEvent) (buf : Bytes) (n : ℕ)
    → length buf + n ≡ capacity
    → read_line capacity events buf ≡ put buf (first_line n (stream events))
unfolding read_line
read_line-room capacity [] buf n h = rw first_line-nil
read_line-room capacity (failed ∷ events) buf n h = rw first_line-nil
read_line-room capacity (interrupted ∷ events) buf zero h = rw first_line-zero (ground arith)
read_line-room capacity (interrupted ∷ events) buf (suc n) h =
    rw (lt→ltb (length buf) capacity (omega arith)) (read_line-room capacity events buf (suc n) h)
read_line-room capacity (chunk [] ∷ events) buf n h =
    rw first_line-nil (rw (take-nil (capacity - length buf)) (unfold scan_chunk in ground arith))
read_line-room capacity (chunk (c ∷ cs) ∷ events) buf zero h = rw first_line-zero (ground arith)
read_line-room capacity (chunk (c ∷ cs) ∷ events) buf (suc n) h =
    let room : capacity - length buf ≡ suc n = omega arith in
    let got = c ∷ take n cs in
    let left = n - length (take n cs) in
    let fits : length (take n cs) ≤ n = length-take_le n cs in
    rw (lt→ltb (length buf) capacity (omega arith)) (
      rw room (
        scan_chunk-step buf c (take n cs) _ (first_line left (stream events))
          (read_line-room capacity events (buf ++ got) left (rw length-append (omega arith)))
        ∙ ap (put buf)
            (sym (first_line-append (suc n) left (c ∷ cs) (stream events) (omega arith)))))

-- From an empty buffer the loop returns the line that ends within the first `capacity` bytes of the
-- stream, and fails if there is none, however the stream is cut into reads and interrupted.
pub read_line-stream :
    (capacity : ℕ) (events : List ReadEvent)
    → read_line capacity events [] ≡ first_line capacity (stream events)
read_line-stream capacity events =
    read_line-room capacity events [] capacity (omega arith) ∙ put-nil _

-- A line that fits in front of its newline.
pub first_line-front :
    (n : ℕ) (line rest : Bytes)
    → length line ≤ n
    → Lacks b'\n' line
    → first_line (suc n) (line ++ b'\n' ∷ rest) ≡ some line
unfolding first_line
first_line-front n line rest short one =
    let whole : take (suc n) line ≡ line = take-eq_self (suc n) line (omega arith) in
    let room : length (take (suc n) line) + suc (n - length line) ≡ suc n =
      rw whole (omega arith) in
    let cut : take (suc n) (line ++ b'\n' ∷ rest) ≡ line ++ b'\n' ∷ take (n - length line) rest =
      take-append (suc n) (suc (n - length line)) line (b'\n' ∷ rest) room
      ∙ ap (λ t. t ++ b'\n' ∷ take (n - length line) rest) whole in
    rw cut (ap front_line (break_at-append b'\n' line (take (n - length line) rest) one))
