-- ===== src/Bytes/Cursor.antt =====
-- A reader at an offset of a byte string: how the fields of a concatenation are cut out again.
use p2p_network_implementati.Prelude.{
  ℕ, ◌+◌, ◌-◌, ◌≤◌, ◌<◌, List, ◌++◌, ◌≡◌, refl, sym, ap, ◌∙◌, arith, length, length-append,
  length-drop, length-take_le, drop, take-append, drop-append, drop-drop, value, fails, panic, leb,
  true, ◌≢◌, bind_value, Bool-cases, inl, inr, ==_refl, map_err,
}
use p2p_network_implementati.Bytes.{
  FromUtf8Error, from_utf8, is_utf8, usize_add, slice, slice_from, array_at, TryFromSliceError,
}

-- What is left of `bytes` from `offset` on is `rest`.
pub record At (bytes : List ℕ) (offset : ℕ) (rest : List ℕ) : Type 0 where
  pub inside : offset ≤ length bytes
  pub rest_eq : drop offset bytes ≡ rest

pub At-start : (bytes : List ℕ) → At bytes 0 bytes
At-start bytes = record { inside = omega arith; rest_eq = refl }

pub length-At :
    {bytes : List ℕ} {offset : ℕ} {rest : List ℕ}
    → At bytes offset rest
    → offset + length rest ≡ length bytes
length-At {bytes} {offset} {rest} a =
    omega (arith, a.inside, ap length a.rest_eq, length-drop offset bytes)

module _ {bytes : List ℕ} {offset : ℕ} (field rest : List ℕ)
    (a : At bytes offset (field ++ rest)) where
  pub At-next : At bytes (offset + length field) rest
  At-next = record {
    inside = omega (arith, length-At a, length-append field rest);
    rest_eq =
        sym (drop-drop offset (length field) bytes)
        ∙ ap (drop (length field)) a.rest_eq
        ∙ drop-append field rest;
  }

  pub slice-At : {E : Type 0} → slice {E = E} bytes offset (offset + length field) ≡ value field
  unfolding slice
  slice-At =
      let fits : offset + length field ≤ length bytes = omega (arith, At-next.inside) in
      let lo : leb offset (offset + length field) ≡ true = ground arith in
      let hi : leb (offset + length field) (length bytes) ≡ true = ground arith in
      let size : offset + length field - offset ≡ length field = omega arith in
      rw (lo, hi, size, a.rest_eq) (ap value (take-append field rest))

-- A whole number of bytes at the cursor is read as an array, and the cursor moves behind it.
module _ {bytes : List ℕ} {offset : ℕ} (field rest : List ℕ) (size : ℕ) where
  pub At-skip :
      At bytes offset (field ++ rest) → length field ≡ size → At bytes (offset + size) rest
  At-skip a e = rw (← e) (At-next field rest a)

  pub array_at-At :
      {E : Type 0} (conversion : TryFromSliceError → E)
      → At bytes offset (field ++ rest)
      → length field ≡ size
      → array_at conversion bytes offset size ≡ value field
  unfolding array_at
  array_at-At conversion a e = rw (← e) (bind_value _ (slice-At field rest a) (rw ==_refl))

-- Past the end of the bytes there is no array, and the read panics.
pub array_at-panic :
    {E : Type 0} (conversion : TryFromSliceError → E) (bytes : List ℕ) (offset size : ℕ)
    → length bytes < offset + size
    → array_at conversion bytes offset size ≡ panic
unfolding array_at
array_at-panic conversion bytes offset size h = ground arith

-- An array that was read lies inside the bytes, and a read never reports a conversion error.
pub array_at-inv :
    {E : Type 0} (conversion : TryFromSliceError → E) (bytes : List ℕ) (offset size : ℕ)
    {field : List ℕ}
    → array_at conversion bytes offset size ≡ value field
    → (offset + size ≤ length bytes) × (length field ≡ size)
unfolding array_at
array_at-inv conversion bytes offset size h = ground arith

pub array_at-ne-fails :
    {E : Type 0} (conversion : TryFromSliceError → E) (bytes : List ℕ) (offset size : ℕ) {e : E}
    → array_at conversion bytes offset size ≢ fails e
unfolding array_at
array_at-ne-fails conversion bytes offset size h =
    ground
      (arith, length-take_le (offset + size - offset) (drop offset bytes), length-drop offset bytes)

pub slice_from-At :
    {E : Type 0} {bytes : List ℕ} {offset : ℕ} {rest : List ℕ}
    → At bytes offset rest
    → slice_from {E = E} bytes offset ≡ value rest
unfolding slice_from
slice_from-At {bytes = bytes} {offset = offset} a =
    let hi : leb offset (length bytes) ≡ true = ground (arith, a.inside) in
    rw hi (ap value a.rest_eq)

pub slice-inv :
    {E : Type 0} (bytes : List ℕ) (start stop : ℕ) {field : List ℕ}
    → slice {E = E} bytes start stop ≡ value field
    → (start ≤ stop) × (stop ≤ length bytes) × (length field ≡ stop - start)
unfolding slice
slice-inv bytes start stop h =
    ground (arith, length-take_le (stop - start) (drop start bytes), length-drop start bytes)

pub usize_add-inv : {E : Type 0} (a b : ℕ) {s : ℕ} → usize_add {E = E} a b ≡ value s → s ≡ a + b
unfolding usize_add
usize_add-inv a b h = ground arith

pub from_utf8-inv :
    {E : Type 0} (e : FromUtf8Error → E) (bytes : List ℕ) {text : List ℕ}
    → map_err e (from_utf8 bytes) ≡ value text
    → (text ≡ bytes) × (is_utf8 text ≡ true)
unfolding from_utf8
from_utf8-inv e bytes {text = text} h = elim (Bool-cases (is_utf8 bytes)) [
  | inl good ↦ let q : bytes ≡ text = cc (rw good at h) in (sym q, rw (← q) good)
  | inr bad ↦ cc (rw bad at h)
]

-- A slice is never an error.
pub slice-ne-fails :
    {E : Type 0} (bytes : List ℕ) (start stop : ℕ) (e : E)
    → slice {E = E} bytes start stop ≢ fails e
unfolding slice
slice-ne-fails bytes start stop e h = ground arith

pub slice_from-ne-fails :
    {E : Type 0} (bytes : List ℕ) (start : ℕ) (e : E) → slice_from {E = E} bytes start ≢ fails e
unfolding slice_from
slice_from-ne-fails bytes start e h = ground arith

pub slice_from-inv :
    {E : Type 0} (bytes : List ℕ) (start : ℕ) {rest : List ℕ}
    → slice_from {E = E} bytes start ≡ value rest
    → start + length rest ≡ length bytes
unfolding slice_from
slice_from-inv bytes start h = ground (arith, length-drop start bytes)
