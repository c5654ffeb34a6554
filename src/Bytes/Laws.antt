-- ===== src/Bytes/Laws.antt =====
-- Round trips of fixed-width numbers through bytes.
use p2p_network_implementati.Prelude.{
  ℕ, zero, suc, ◌+◌, ◌*◌, ◌/◌, ◌%◌, ◌^◌, ◌<◌, List, [], ◌∷◌, reverse, reverse-reverse, ◌≡◌, refl,
  ap, ◌∙◌, arith, length, length-append, value, true,
}
use mathlib.Core.List.{reverse-append}
use native.Mathlib.Nat.{pow-suc}
use p2p_network_implementati.Bytes.{
  to_le_bytes, from_le_bytes, to_be_bytes, from_be_bytes, I32, pos, negsuc, IsI32, i32_bits,
  i32_of_bits, is_utf8, from_utf8, IsBytes,
}

pub length-to_le_bytes : (k n : ℕ) → length (to_le_bytes k n) ≡ k
unfolding to_le_bytes
length-to_le_bytes zero n = refl
length-to_le_bytes (suc k) n = omega (arith, length-to_le_bytes k (n / 256))

pub from_le_bytes-to_le_bytes : (k n : ℕ) → n < 256 ^ k → from_le_bytes (to_le_bytes k n) ≡ n
unfolding to_le_bytes from_le_bytes
from_le_bytes-to_le_bytes zero n h = omega arith
from_le_bytes-to_le_bytes (suc k) n h =
    omega (arith, from_le_bytes-to_le_bytes k (n / 256) (omega arith))

pub to_le_bytes-from_le_bytes :
    (bs : List ℕ) → IsBytes bs → to_le_bytes (length bs) (from_le_bytes bs) ≡ bs
unfolding to_le_bytes from_le_bytes
to_le_bytes-from_le_bytes [] h = refl
to_le_bytes-from_le_bytes (b ∷ bs) h =
    let low : (b + 256 * from_le_bytes bs) % 256 ≡ b = omega arith in
    let high : (b + 256 * from_le_bytes bs) / 256 ≡ from_le_bytes bs = omega arith in
    rw (low, high, to_le_bytes-from_le_bytes bs h.1)

pub from_le_bytes-lt : (bs : List ℕ) → IsBytes bs → from_le_bytes bs < 256 ^ length bs
unfolding from_le_bytes
from_le_bytes-lt [] h = omega arith
from_le_bytes-lt (b ∷ bs) h = omega (arith, from_le_bytes-lt bs h.1, pow-suc 256 (length bs))

pub to_le_bytes-IsBytes : (k n : ℕ) → IsBytes (to_le_bytes k n)
unfolding to_le_bytes
to_le_bytes-IsBytes zero n = tt
to_le_bytes-IsBytes (suc k) n = (omega arith, to_le_bytes-IsBytes k (n / 256))

pub length-reverse : (bs : List ℕ) → length (reverse bs) ≡ length bs
length-reverse [] = refl
length-reverse (b ∷ bs) =
    rw (reverse-append (b ∷ []) bs)
      (omega (arith, length-append (reverse bs) (b ∷ []), length-reverse bs))

pub length-to_be_bytes : (k n : ℕ) → length (to_be_bytes k n) ≡ k
unfolding to_be_bytes
length-to_be_bytes k n = length-reverse (to_le_bytes k n) ∙ length-to_le_bytes k n

pub from_be_bytes-to_be_bytes : (k n : ℕ) → n < 256 ^ k → from_be_bytes (to_be_bytes k n) ≡ n
unfolding to_be_bytes from_be_bytes
from_be_bytes-to_be_bytes k n h =
    ap from_le_bytes (reverse-reverse (to_le_bytes k n)) ∙ from_le_bytes-to_le_bytes k n h

pub i32_of_bits-i32_bits : (i : I32) → IsI32 i → i32_of_bits (i32_bits i) ≡ i
unfolding i32_bits i32_of_bits
i32_of_bits-i32_bits (pos n) h = ground arith
i32_of_bits-i32_bits (negsuc n) h = ground arith

pub i32_bits-lt : (i : I32) → IsI32 i → i32_bits i < 256 ^ 4
unfolding i32_bits
i32_bits-lt (pos n) h = omega arith
i32_bits-lt (negsuc n) h = omega arith

pub from_utf8_value : (bs : List ℕ) → is_utf8 bs ≡ true → from_utf8 bs ≡ value bs
unfolding from_utf8
from_utf8_value bs h = ground arith
