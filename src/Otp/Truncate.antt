-- ===== src/Otp/Truncate.antt =====
-- `dynamic_truncate` of core/otp.cpp against the definition of RFC 4226.
use x_auth.Base.{
  ℕ, suc, ◌+◌, ◌*◌, ◌%◌, ◌^◌, ◌<◌, bit_or, Bytes, [], ◌∷◌, some, ◌≡◌, refl, arith, length, All,
  IsByte, get_elem?, get_last?, take, drop, get_elem?-some, get_last?-some, drop-get_elem?,
  All-get_elem?,
}
use native.Mathlib.Numerals.{towards_suc}
use x_auth.Base.Bits.{bit_or-add}
use x_auth.Otp.{mod_loop, bin_code, dynamic_truncate}
use x_auth.Otp.Counter.{big_endian}

-- Four bytes from the place that the low half of the last byte names, read as a big-endian number
-- without its top bit.
abbrev pub rfc_4226_number : ℕ → Bytes → ℕ
rfc_4226_number last hmac = big_endian 0 (take 4 (drop (last % 16) hmac)) % 2 ^ 31

or_24_16 : (q b : ℕ) → b < 2 ^ 8 → bit_or (q * 2 ^ 24) (b * 2 ^ 16) ≡ (q * 256 + b) * 2 ^ 16
or_24_16 q b h = omega (arith, bit_or-add 24 q (b * 2 ^ 16) (omega arith))

or_16_8 : (q b : ℕ) → b < 2 ^ 8 → bit_or (q * 2 ^ 16) (b * 2 ^ 8) ≡ (q * 256 + b) * 2 ^ 8
or_16_8 q b h = omega (arith, bit_or-add 16 q (b * 2 ^ 8) (omega arith))

-- The four fields do not overlap.
bin_code-sum :
    (b0 b1 b2 b3 : ℕ)
    → bin_code b0 b1 b2 b3 ≡ ((b0 % 128 * 256 + b1 % 256) * 256 + b2 % 256) * 2 ^ 8 + b3 % 256
unfolding bin_code
bin_code-sum b0 b1 b2 b3 = rw (or_24_16 (b0 % 128) (b1 % 256) (omega arith)) (
    rw (or_16_8 (b0 % 128 * 256 + b1 % 256) (b2 % 256) (omega arith))
      (bit_or-add 8 ((b0 % 128 * 256 + b1 % 256) * 256 + b2 % 256) (b3 % 256) (omega arith)))

bin_code-big_endian :
    (b0 b1 b2 b3 : ℕ)
    → All IsByte (b0 ∷ b1 ∷ b2 ∷ b3 ∷ [])
    → bin_code b0 b1 b2 b3 ≡ big_endian 0 (b0 ∷ b1 ∷ b2 ∷ b3 ∷ []) % 2 ^ 31
bin_code-big_endian b0 b1 b2 b3 h = omega (arith, bin_code-sum b0 b1 b2 b3)

-- Four bytes in a row that lie inside the list.
record Four (xs : Bytes) (i : ℕ) : Type 0 where
  x0 : ℕ
  x1 : ℕ
  x2 : ℕ
  x3 : ℕ
  at_0 : get_elem? xs i ≡ some x0
  at_1 : get_elem? xs (i + 1) ≡ some x1
  at_2 : get_elem? xs (i + 2) ≡ some x2
  at_3 : get_elem? xs (i + 3) ≡ some x3
  taken : take 4 (drop i xs) ≡ x0 ∷ x1 ∷ x2 ∷ x3 ∷ []
  bytes : All IsByte (x0 ∷ x1 ∷ x2 ∷ x3 ∷ [])

four : (xs : Bytes) (i : ℕ) → All IsByte xs → i + 3 < length xs → Four xs i
four xs i h fits =
    let (x0, e0) = get_elem?-some xs i (omega arith) in
    let (x1, e1) = get_elem?-some xs (suc i) (omega arith) in
    let (x2, e2) = get_elem?-some xs (suc (suc i)) (omega arith) in
    let (x3, e3) = get_elem?-some xs (suc (suc (suc i))) (omega arith) in
    record {
      x0 = x0;
      x1 = x1;
      x2 = x2;
      x3 = x3;
      at_0 = e0;
      at_1 = simp towards_suc e1;
      at_2 = simp towards_suc e2;
      at_3 = simp towards_suc e3;
      taken = rw (drop-get_elem? xs i e0) (
          rw (drop-get_elem? xs (suc i) e1) (
            rw (drop-get_elem? xs (suc (suc i)) e2)
              (rw (drop-get_elem? xs (suc (suc (suc i))) e3))));
      bytes = (
        All-get_elem? IsByte xs i h e0,
        (
          All-get_elem? IsByte xs (suc i) h e1,
          (
            All-get_elem? IsByte xs (suc (suc i)) h e2,
            (All-get_elem? IsByte xs (suc (suc (suc i))) h e3, tt),
          ),
        ),
      );
    }

-- On a digest of 32 bytes every read lies inside it, and the result is the number of RFC 4226
-- modulo the loop's power of ten.
pub dynamic_truncate-rfc_4226 :
    (hmac : Bytes) (digits : ℕ)
    → length hmac ≡ 32
    → All IsByte hmac
    → (last : ℕ) × (get_last? hmac ≡ some last)
      × (dynamic_truncate hmac digits ≡ some (rfc_4226_number last hmac % mod_loop digits 1))
unfolding dynamic_truncate
dynamic_truncate-rfc_4226 hmac digits size bytes =
    let (last, e) = get_last?-some hmac (omega arith) in
    let f = four hmac (last % 16) bytes (omega arith) in
    (
      last,
      e,
      rw e (
          rw f.at_0 (
            rw f.at_1 (
              rw f.at_2
                (rw f.at_3 (rw f.taken (rw (bin_code-big_endian f.x0 f.x1 f.x2 f.x3 f.bytes))))))),
    )

-- A code of `digits` digits: the loop does not wrap for up to nine of them.
pub mod_loop-eight : mod_loop 8 1 ≡ 10 ^ 8
unfolding mod_loop
mod_loop-eight = refl
