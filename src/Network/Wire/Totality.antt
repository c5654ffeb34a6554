-- ===== src/Network/Wire/Totality.antt =====
-- What a successful read of a message in src/network/wire.rs says of any input, well formed or not.
use p2p_network_implementati.Prelude.{
  ℕ, suc, zero, ◌+◌, ◌≤◌, ◌<◌, ◌≡◌, List, [], ◌∷◌, Outcome, value, map_err, length, arith,
  get_elem?, some, Option-cases, inl, inr, true, Yields, Yields-bind, Yields-value,
}
use p2p_network_implementati.Bytes.{
  slice, slice_from, usize_add, from_le_bytes, array_at, from_utf8, is_utf8,
}
use p2p_network_implementati.Bytes.Cursor.{slice-inv, usize_add-inv, from_utf8-inv}
use p2p_network_implementati.Network.Errors.{ErrorLowLevelParsing, error_parse_utf8}
use p2p_network_implementati.Network.Wire.{
  UserAgent, VersionMessage, unserialize_netaddr, unserialize_useragent,
  unserialize_version_message, byte_at,
}

get_elem?-lt : (bytes : List ℕ) (i : ℕ) {b : ℕ} → get_elem? bytes i ≡ some b → i < length bytes
get_elem?-lt [] i h = cc
get_elem?-lt (b ∷ bytes) zero h = omega arith
get_elem?-lt (b ∷ bytes) (suc i) h = omega (arith, get_elem?-lt bytes i h)

byte_at-lt : (bytes : List ℕ) (i : ℕ) {b : ℕ} → byte_at bytes i ≡ value b → i < length bytes
byte_at-lt bytes i h = elim (Option-cases (get_elem? bytes i)) [
  | inl none_there ↦ absurd (ground arith)
  | inr (b, there) ↦ get_elem?-lt bytes i there
]

-- A read user agent takes 8 bytes and its text, all of them inside the input, and its text is UTF-8.
unserialize_useragent-Yields :
    (bytes : List ℕ)
    → Yields
        (λ (r : UserAgent × ℕ).
          (r.1 ≤ length bytes) × (r.1 ≡ 8 + length r.0.text) × (is_utf8 r.0.text ≡ true))
        (unserialize_useragent bytes)
unfolding unserialize_useragent
unserialize_useragent-Yields bytes =
    Yields-bind _ (array_at ErrorLowLevelParsing.conversion_error bytes 0 8) _ λ size e0.
      Yields-bind _ (usize_add 8 (from_le_bytes size)) _ λ stop e1.
        Yields-bind _ (slice bytes 8 stop) _ λ text e2.
          Yields-bind _ (map_err error_parse_utf8 (from_utf8 text)) _ λ checked e3.
            Yields-value _ _ (
              let (lo, hi, size_text) = slice-inv bytes 8 stop e2 in
              let sum = usize_add-inv 8 (from_le_bytes size) e1 in
              let (same, good) = from_utf8-inv error_parse_utf8 text e3 in
              (hi, rw same (omega arith), good))

unserialize_version_message-Yields :
    (bytes : List ℕ)
    → Yields
        (λ (r : VersionMessage × ℕ).
          (r.1 ≤ length bytes) × (93 ≤ r.1) × (r.1 ≡ 93 + length r.0.user_agent.text))
        (unserialize_version_message bytes)
unfolding unserialize_version_message
unserialize_version_message-Yields bytes = Yields-bind _ (array 0 4) _ λ version e0.
    Yields-bind _ (array 4 8) _ λ services e1. Yields-bind _ (array 12 8) _ λ timestamp e2.
      Yields-bind _ (slice bytes 20 46) _ λ to_bytes e3.
        Yields-bind _ (unserialize_netaddr to_bytes) _ λ to e4.
          Yields-bind _ (slice bytes 46 72) _ λ from_bytes e5.
            Yields-bind _ (unserialize_netaddr from_bytes) _ λ from e6.
              Yields-bind _ (array 72 8) _ λ nonce e7.
                Yields-bind _ (slice_from bytes 80) _ λ tail e8.
                  Yields-bind _ (unserialize_useragent tail) _ λ r e9.
                    Yields-bind _ (array (80 + r.1) 4) _ λ start_height e10.
                      Yields-bind _ (byte_at bytes (80 + r.1 + 4)) _ λ relay e11. Yields-value _ _ (
                        let (inside, size, text) = (unserialize_useragent-Yields tail).apply r e9 in
                        let last = byte_at-lt bytes (80 + r.1 + 4) e11 in
                        (omega arith, omega arith, omega arith))
  where
    array : ℕ → ℕ → Outcome ErrorLowLevelParsing (List ℕ)
    array = array_at ErrorLowLevelParsing.conversion_error bytes

-- A read version message takes 93 bytes and its user agent, all of them inside the input.
pub unserialize_version_message_takes :
    (bytes : List ℕ) (m : VersionMessage) (n : ℕ)
    → unserialize_version_message bytes ≡ value (m, n)
    → (n ≤ length bytes) × (n ≡ 93 + length m.user_agent.text)
unserialize_version_message_takes bytes m n h =
    let (inside, least, size) = (unserialize_version_message-Yields bytes).apply (m, n) h in
    (inside, size)
