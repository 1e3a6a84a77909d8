-- ===== src/Socket.antt =====
-- The socket helpers that verifier/main.cpp and admin/main.cpp both have. What the operating system
-- returns, call by call, is a list of events.
pub mod ReadLine
pub mod WriteAll
use x_auth.Base.{
  ℕ, ◌+◌, ◌-◌, ◌<◌, Bool, true, false, not, Bytes, List, [], ◌∷◌, ◌++◌, Option, none, some, ltb,
  ◌==◌, if◌then◌else◌, length, take, drop, break_at,
}
use x_auth.Base.Int.{ℤ, pos, negsuc, lt_ℤ}

-- One call of `read`: bytes of the stream (none at its end), EINTR, or another error or a timeout.
pub data ReadEvent : Type 0 where
  chunk : Bytes → ReadEvent
  interrupted failed : ReadEvent

-- The scan of the bytes `got` that a call put behind `buf`; `more` is the rest of the loop.
unfoldable pub scan_chunk : Bytes → Bytes → Option Bytes → Option Bytes
scan_chunk buf got more = if length got == 0 then none else elim (break_at b'\n' got).1 [
  | some rest ↦ some (buf ++ (break_at b'\n' got).0)
  | none ↦ more
]

-- The loop of `read_line` on a buffer of `capacity` bytes, of which `buf` is filled. A call is asked
-- for the free bytes at most. The end of the events is the end of the stream.
unfoldable pub read_line : ℕ → List ReadEvent → Bytes → Option Bytes
read_line capacity [] buf = none
read_line capacity (failed ∷ events) buf = none
read_line capacity (interrupted ∷ events) buf =
    let again = read_line capacity events buf in if ltb (length buf) capacity then again else none
read_line capacity (chunk c ∷ events) buf =
    let got = take (capacity - length buf) c in
    let more = read_line capacity events (buf ++ got) in
    if not (ltb (length buf) capacity) then none else scan_chunk buf got more

-- One call of `write`: how many bytes it took, EINTR, or another error or a timeout.
pub data WriteEvent : Type 0 where
  wrote : ℕ → WriteEvent
  interrupted failed : WriteEvent

-- What the peer gets of `s`. The end of the events is an error.
unfoldable pub write_all : List WriteEvent → Bytes → Bytes
write_all [] s = []
write_all (failed ∷ events) s = []
write_all (interrupted ∷ events) s = write_all events s
write_all (wrote n ∷ events) s =
    let more = write_all events (drop n s) in
    if length s == 0 then [] else if n == 0 then [] else take n s ++ more

-- `none` is a peer whose credentials cannot be read.
unfoldable pub peer_allowed : ℤ → Option ℕ → Bool
peer_allowed (negsuc n) uid = true
peer_allowed (pos allow_uid) none = false
peer_allowed (pos allow_uid) (some uid) = uid == allow_uid

-- The drain loop: how many bytes it reads, `sink_size` at most in one call, until it has 4096.
unfoldable pub drain : ℕ → List ReadEvent → ℕ → ℕ
drain sink_size [] drained = drained
drain sink_size (failed ∷ events) drained = drained
drain sink_size (interrupted ∷ events) drained =
    let again = drain sink_size events drained in if ltb drained 4096 then again else drained
drain sink_size (chunk c ∷ events) drained =
    let got = take sink_size c in
    let more = drain sink_size events (drained + length got) in
    if not (ltb drained 4096) then drained else if length got == 0 then drained else more
