-- ===== src/Otp/Counter.antt =====
-- The eight bytes of the counter in core/otp.cpp.
use x_auth.Base.{
  ℕ, zero, suc, ◌+◌, ◌*◌, ◌/◌, ◌%◌, ◌^◌, ◌<◌, Bytes, [], ◌∷◌, ◌≡◌, sym, ◌∙◌, arith, length, All,
  IsByte, ap,
}
use x_auth.Otp.{fill_bytes, counter_bytes}

-- The number that bytes spell, the most significant first, behind the number `n`.
abbrev pub big_endian : ℕ → Bytes → ℕ
big_endian n [] = n
big_endian n (b ∷ bs) = big_endian (n * 256 + b) bs

abbrev pub byte_pow : ℕ → ℕ
byte_pow zero = 1
byte_pow (suc i) = byte_pow i * 256

length-fill_bytes : (i c : ℕ) (out : Bytes) → length (fill_bytes i c out) ≡ i + length out
unfolding fill_bytes
length-fill_bytes zero c out = omega arith
length-fill_bytes (suc i) c out = omega (arith, length-fill_bytes i (c / 2 ^ 8) ((c % 0x100) ∷ out))

fill_bytes-IsByte : (i c : ℕ) (out : Bytes) → All IsByte out → All IsByte (fill_bytes i c out)
unfolding fill_bytes
fill_bytes-IsByte zero c out h = h
fill_bytes-IsByte (suc i) c out h = fill_bytes-IsByte i (c / 2 ^ 8) _ (omega arith, h)

big_endian-fill_bytes :
    (i c : ℕ) (out : Bytes) → c < byte_pow i → big_endian 0 (fill_bytes i c out) ≡ big_endian c out
unfolding fill_bytes
big_endian-fill_bytes zero c out h = ap (λ n. big_endian n out) (omega arith)
big_endian-fill_bytes (suc i) c out h =
    big_endian-fill_bytes i (c / 2 ^ 8) _ (omega arith) ∙ ap (λ n. big_endian n out) (omega arith)

-- The eight bytes are bytes, and spell every uint64_t counter, most significant byte first.
counter_bytes-big_endian :
    (c : ℕ)
    → c < 2 ^ 64
    → (length (counter_bytes c) ≡ 8)
      × All IsByte (counter_bytes c)
      × (big_endian 0 (counter_bytes c) ≡ c)
counter_bytes-big_endian c h =
    (length-fill_bytes 8 c [], fill_bytes-IsByte 8 c [] tt, big_endian-fill_bytes 8 c [] h)

-- Different counters are hashed as different messages.
pub counter_bytes-injective :
    (c d : ℕ) → c < 2 ^ 64 → d < 2 ^ 64 → counter_bytes c ≡ counter_bytes d → c ≡ d
counter_bytes-injective c d hc hd e =
    sym (counter_bytes-big_endian c hc).2 ∙ ap (big_endian 0) e ∙ (counter_bytes-big_endian d hd).2
