-- ===== src/Bytes.antt =====
-- Byte strings as the source handles them: `to_le_bytes`, `from_le_bytes` and their big-endian
-- forms, slices `&bytes[a..b]` (which panic out of range), `try_into` arrays of a fixed size, the
-- bit patterns of `i32`, and the check of `String::from_utf8`. A byte is a number below 256.
pub mod Laws
pub mod Cursor
use p2p_network_implementati.Prelude.{
  ℕ, zero, suc, ◌+◌, ◌-◌, ◌*◌, ◌/◌, ◌%◌, ◌^◌, ◌<◌, List, [], ◌∷◌, reverse, Bool, true, false, ◌&&◌,
  ltb, leb, ◌==◌, if◌then◌else◌, Outcome, value, fails, panic, ◌>>=◌, map_err, length, take, drop,
  All,
}

abbrev pub IsByte : ℕ → Type 0
IsByte b = b < 256

abbrev pub IsBytes : List ℕ → Type 0
IsBytes = All IsByte

unfoldable pub to_le_bytes : ℕ → ℕ → List ℕ
to_le_bytes zero n = []
to_le_bytes (suc k) n = n % 256 ∷ to_le_bytes k (n / 256)

unfoldable pub from_le_bytes : List ℕ → ℕ
from_le_bytes [] = 0
from_le_bytes (b ∷ bs) = b + 256 * from_le_bytes bs

unfoldable pub to_be_bytes : ℕ → ℕ → List ℕ
unfolding to_le_bytes
to_be_bytes k n = reverse (to_le_bytes k n)

unfoldable pub from_be_bytes : List ℕ → ℕ
unfolding from_le_bytes
from_be_bytes bs = from_le_bytes (reverse bs)

-- `&bytes[start..stop]`.
unfoldable pub slice {ℓ} : {E : Type ℓ} → List ℕ → ℕ → ℕ → Outcome E (List ℕ)
slice bytes start stop =
    if leb start stop && leb stop (length bytes)
    then value (take (stop - start) (drop start bytes))
    else panic

-- `&bytes[start..]`.
unfoldable pub slice_from {ℓ} : {E : Type ℓ} → List ℕ → ℕ → Outcome E (List ℕ)
slice_from bytes start = if leb start (length bytes) then value (drop start bytes) else panic

pub data TryFromSliceError : Type 0 where
  try_from_slice_error : TryFromSliceError

-- `slice.try_into()` at an array of `size` bytes.
unfoldable pub try_into : ℕ → List ℕ → Outcome TryFromSliceError (List ℕ)
try_into size bytes = if length bytes == size then value bytes else fails try_from_slice_error

-- `bytes[start..start + size].try_into().map_err(e)?`
unfoldable pub array_at {ℓ} :
    {E : Type ℓ} → (TryFromSliceError → E) → List ℕ → ℕ → ℕ → Outcome E (List ℕ)
unfolding slice try_into
array_at e bytes start size = do
  field ← slice bytes start (start + size)
  map_err e (try_into size field)

-- `a + b` on `usize` (64 bits). An overflow panics; in a build without overflow checks the sum
-- wraps below `a`, and the slice that the source takes with it panics.
unfoldable pub usize_add {ℓ} : {E : Type ℓ} → ℕ → ℕ → Outcome E ℕ
usize_add a b = if ltb (a + b) (2 ^ 64) then value (a + b) else panic

-- `i32`, and its two's complement bit pattern.
pub data I32 : Type 0 where
  pos : ℕ → I32
  negsuc : ℕ → I32

abbrev pub IsI32 : I32 → Type 0
IsI32 (pos n) = n < 2 ^ 31
IsI32 (negsuc n) = n < 2 ^ 31

unfoldable pub i32_bits : I32 → ℕ
i32_bits (pos n) = n
i32_bits (negsuc n) = 2 ^ 32 - 1 - n

unfoldable pub i32_of_bits : ℕ → I32
i32_of_bits b = if ltb b (2 ^ 31) then pos b else negsuc (2 ^ 32 - 1 - b)

-- The well-formed byte sequences of UTF-8. `pending` continuation bytes are still to come; the
-- next one lies between `lo` and `hi`, the ones after it between 0x80 and 0xbf.
unfoldable pub utf8_run : ℕ → ℕ → ℕ → List ℕ → Bool
utf8_run zero lo hi [] = true
utf8_run (suc pending) lo hi [] = false
utf8_run (suc pending) lo hi (b ∷ bs) = (leb lo b && leb b hi) && utf8_run pending 0x80 0xbf bs
utf8_run zero lo hi (b ∷ bs) = elim (ltb b 0x80) [
  | true ↦ utf8_run 0 0x80 0xbf bs
  | false ↦ elim (leb 0xc2 b && leb b 0xdf) [
    | true ↦ utf8_run 1 0x80 0xbf bs
    | false ↦ elim (leb 0xe0 b && leb b 0xef) [
      | true ↦ utf8_run 2 (if b == 0xe0 then 0xa0 else 0x80) (if b == 0xed then 0x9f else 0xbf) bs
      | false ↦ elim (leb 0xf0 b && leb b 0xf4) [
        | true ↦ utf8_run 3 (if b == 0xf0 then 0x90 else 0x80) (if b == 0xf4 then 0x8f else 0xbf) bs
        | false ↦ false
      ]
    ]
  ]
]

unfoldable pub is_utf8 : List ℕ → Bool
unfolding utf8_run
is_utf8 = utf8_run 0 0x80 0xbf

pub data FromUtf8Error : Type 0 where
  from_utf8_error : List ℕ → FromUtf8Error

-- `String::from_utf8(bytes)`; a `String` is the list of its bytes.
unfoldable pub from_utf8 : List ℕ → Outcome FromUtf8Error (List ℕ)
from_utf8 bytes = if is_utf8 bytes then value bytes else fails (from_utf8_error bytes)
