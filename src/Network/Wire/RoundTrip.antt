-- ===== src/Network/Wire/RoundTrip.antt =====
-- What the writers of src/network/wire.rs write, its readers read back.
use p2p_network_implementati.Prelude.{
  sym, ℕ, ◌+◌, ◌≡◌, refl, ap, ◌∙◌, List, [], ◌∷◌, ◌++◌, Bool, true, false, value, bind_value,
  map_err, length, length-append, append-nil, append_assoc, arith, get_elem?-drop,
}
use p2p_network_implementati.Bytes.{to_le_bytes, to_be_bytes, slice, usize_add, i32_bits}
use p2p_network_implementati.Bytes.Laws.{
  length-to_le_bytes, from_le_bytes-to_le_bytes, length-to_be_bytes, from_be_bytes-to_be_bytes,
  i32_of_bits-i32_bits, i32_bits-lt, from_utf8_value,
}
use p2p_network_implementati.Bytes.Cursor.{
  At, At-skip, slice-At, array_at-At, slice_from-At, length-At,
}
use p2p_network_implementati.Network.Errors.{ErrorLowLevelParsing, error_parse_utf8}
use p2p_network_implementati.Network.Wire.{
  NetAddr, UserAgent, VersionMessage, IsNetAddr, IsUserAgent, IsVersionMessage, serialize_netaddr,
  unserialize_netaddr, serialize_useragent, unserialize_useragent, serialize_version_message,
  unserialize_version_message, byte_of_bool, bool_of_byte, byte_at,
}

pub length-serialize_netaddr : (a : NetAddr) → length a.ip ≡ 16 → length (serialize_netaddr a) ≡ 26
unfolding serialize_netaddr
length-serialize_netaddr a h = omega (
  arith,
  length-append (to_le_bytes 8 a.services) (a.ip ++ to_be_bytes 2 a.port),
  length-append a.ip (to_be_bytes 2 a.port),
  length-to_le_bytes 8 a.services,
  length-to_be_bytes 2 a.port,
)

-- A network address is read back, whatever follows it.
pub unserialize_netaddr-serialize_netaddr :
    (a : NetAddr) (rest : List ℕ)
    → IsNetAddr a
    → unserialize_netaddr (serialize_netaddr a ++ rest) ≡ value a
unfolding unserialize_netaddr serialize_netaddr
unserialize_netaddr-serialize_netaddr a rest h =
    bind_value _
      (array_at-At services (a.ip ++ (port ++ rest)) 8 _ c0 (length-to_le_bytes 8 a.services))
      (bind_value _ (array_at-At a.ip (port ++ rest) 16 _ c1 h.ip_size) (
        bind_value _ (array_at-At port rest 2 _ c2 (length-to_be_bytes 2 a.port)) (
          rw
            (
              from_le_bytes-to_le_bytes 8 a.services h.services_u64,
              from_be_bytes-to_be_bytes 2 a.port h.port_u16,
            )
            refl)))
  where
    services : List ℕ
    services = to_le_bytes 8 a.services

    port : List ℕ
    port = to_be_bytes 2 a.port

    c0 : At ((services ++ (a.ip ++ port)) ++ rest) 0 (services ++ (a.ip ++ (port ++ rest)))
    c0 = record {
      inside = omega arith;
      rest_eq =
          append_assoc services (a.ip ++ port) rest
          ∙ ap (λ t. services ++ t) (append_assoc a.ip port rest);
    }

    c1 : At ((services ++ (a.ip ++ port)) ++ rest) 8 (a.ip ++ (port ++ rest))
    c1 = At-skip services _ 8 c0 (length-to_le_bytes 8 a.services)

    c2 : At ((services ++ (a.ip ++ port)) ++ rest) 24 (port ++ rest)
    c2 = At-skip a.ip _ 16 c1 h.ip_size

pub length-serialize_useragent :
    (u : UserAgent) → length (serialize_useragent u) ≡ 8 + length u.text
unfolding serialize_useragent
length-serialize_useragent u = omega (
  arith,
  length-append (to_le_bytes 8 (length u.text)) u.text,
  length-to_le_bytes 8 (length u.text),
)

-- A user agent is read back with the number of bytes that it took, whatever follows it.
pub unserialize_useragent-serialize_useragent :
    (u : UserAgent) (rest : List ℕ)
    → IsUserAgent u
    → unserialize_useragent (serialize_useragent u ++ rest) ≡ value (u, 8 + length u.text)
unfolding unserialize_useragent serialize_useragent
unserialize_useragent-serialize_useragent u rest h =
    bind_value _ (array_at-At size (u.text ++ rest) 8 _ c0 (length-to_le_bytes 8 (length u.text))) (
      rw (from_le_bytes-to_le_bytes 8 (length u.text) (omega (arith, h.text_size))) (
        bind_value _ fits (
          bind_value _ (slice-At u.text rest c1) (
            bind_value _ (ap (map_err error_parse_utf8) (from_utf8_value u.text h.text_utf8))
              refl))))
  where
    size : List ℕ
    size = to_le_bytes 8 (length u.text)

    c0 : At ((size ++ u.text) ++ rest) 0 (size ++ (u.text ++ rest))
    c0 = record { inside = omega arith; rest_eq = append_assoc size u.text rest }

    c1 : At ((size ++ u.text) ++ rest) 8 (u.text ++ rest)
    c1 = At-skip size _ 8 c0 (length-to_le_bytes 8 (length u.text))

    fits : usize_add {E = ErrorLowLevelParsing} 8 (length u.text) ≡ value (8 + length u.text)
    fits = unfold usize_add in ground (arith, h.text_size)

bool_of_byte-byte_of_bool : (b : Bool) → bool_of_byte (byte_of_bool b) ≡ b
bool_of_byte-byte_of_bool true = refl
bool_of_byte-byte_of_bool false = refl

byte_at-At :
    {bytes : List ℕ} {offset b : ℕ} {rest : List ℕ}
    → At bytes offset (b ∷ rest)
    → byte_at bytes offset ≡ value b
byte_at-At {bytes = bytes} {offset = offset} a =
    ground (arith, get_elem?-drop bytes offset a.rest_eq)

-- The bytes of a version message, field by field.
module _ (m : VersionMessage) (rest : List ℕ) where
  abbrev after_user_agent : List ℕ
  after_user_agent = to_le_bytes 4 (i32_bits m.start_height) ++ (byte_of_bool m.relay ∷ rest)

  abbrev after_nonce : List ℕ
  after_nonce = serialize_useragent m.user_agent ++ after_user_agent

  abbrev after_from : List ℕ
  after_from = to_le_bytes 8 m.nonce ++ after_nonce

  abbrev after_to : List ℕ
  after_to = serialize_netaddr m.net_addr_from ++ after_from

  abbrev after_timestamp : List ℕ
  after_timestamp = serialize_netaddr m.net_addr_to ++ after_to

  abbrev after_services : List ℕ
  after_services = to_le_bytes 8 m.timestamp ++ after_timestamp

  abbrev after_version : List ℕ
  after_version = to_le_bytes 8 m.services ++ after_services

  fields_eq : serialize_version_message m ++ rest ≡ to_le_bytes 4 m.version ++ after_version
  unfolding serialize_version_message
  fields_eq = simp append_assoc

  At-version : At (serialize_version_message m ++ rest) 0 (to_le_bytes 4 m.version ++ after_version)
  At-version = record { inside = omega arith; rest_eq = fields_eq }

  At-services : At (serialize_version_message m ++ rest) 4 after_version
  At-services = At-skip _ _ 4 At-version (length-to_le_bytes 4 m.version)

  At-timestamp : At (serialize_version_message m ++ rest) 12 after_services
  At-timestamp = At-skip _ _ 8 At-services (length-to_le_bytes 8 m.services)

  At-to : At (serialize_version_message m ++ rest) 20 after_timestamp
  At-to = At-skip _ _ 8 At-timestamp (length-to_le_bytes 8 m.timestamp)

  module _ (h : IsVersionMessage m) where
    to_size : length (serialize_netaddr m.net_addr_to) ≡ 26
    to_size = length-serialize_netaddr _ h.to_valid.ip_size

    from_size : length (serialize_netaddr m.net_addr_from) ≡ 26
    from_size = length-serialize_netaddr _ h.from_valid.ip_size

    At-from : At (serialize_version_message m ++ rest) 46 after_to
    At-from = At-skip _ _ 26 At-to to_size

    At-nonce : At (serialize_version_message m ++ rest) 72 after_from
    At-nonce = At-skip _ _ 26 At-from from_size

    At-user_agent : At (serialize_version_message m ++ rest) 80 after_nonce
    At-user_agent = At-skip _ _ 8 At-nonce (length-to_le_bytes 8 m.nonce)

    At-start_height :
        At
          (serialize_version_message m ++ rest)
          (80 + (8 + length m.user_agent.text))
          after_user_agent
    At-start_height =
        At-skip _ _ (8 + length m.user_agent.text) At-user_agent
          (length-serialize_useragent m.user_agent)

    At-relay :
        At
          (serialize_version_message m ++ rest)
          (80 + (8 + length m.user_agent.text) + 4)
          (byte_of_bool m.relay ∷ rest)
    At-relay = At-skip _ _ 4 At-start_height (length-to_le_bytes 4 (i32_bits m.start_height))

    slice_to :
        slice {E = ErrorLowLevelParsing} (serialize_version_message m ++ rest) 20 46
        ≡ value (serialize_netaddr m.net_addr_to)
    slice_to = rw to_size at (slice-At _ after_to At-to {E = ErrorLowLevelParsing})

    slice_from_field :
        slice {E = ErrorLowLevelParsing} (serialize_version_message m ++ rest) 46 72
        ≡ value (serialize_netaddr m.net_addr_from)
    slice_from_field = rw from_size at (slice-At _ after_from At-from {E = ErrorLowLevelParsing})

    netaddr_back : (a : NetAddr) → IsNetAddr a → unserialize_netaddr (serialize_netaddr a) ≡ value a
    netaddr_back a v = rw append-nil at (unserialize_netaddr-serialize_netaddr a [] v)

    -- The fields of the reading, with the offset behind the last one.
    pub version_read_back :
        unserialize_version_message (serialize_version_message m ++ rest)
        ≡ value (m, 80 + (8 + length m.user_agent.text) + 4 + 1)
    unfolding unserialize_version_message
    version_read_back =
        bind_value _ (array_at-At _ _ 4 _ At-version (length-to_le_bytes 4 m.version)) (
          bind_value _ (array_at-At _ _ 8 _ At-services (length-to_le_bytes 8 m.services)) (
            bind_value _ (array_at-At _ _ 8 _ At-timestamp (length-to_le_bytes 8 m.timestamp)) (
              bind_value _ slice_to (
                bind_value _ (netaddr_back _ h.to_valid) (
                  bind_value _ slice_from_field (
                    bind_value _ (netaddr_back _ h.from_valid) (
                      bind_value _ (array_at-At _ _ 8 _ At-nonce (length-to_le_bytes 8 m.nonce)) (
                        bind_value _ (slice_from-At At-user_agent) (
                          bind_value _
                            (unserialize_useragent-serialize_useragent m.user_agent after_user_agent
                              h.user_agent_valid)
                            (bind_value _
                              (array_at-At _ _ 4 _ At-start_height
                                (length-to_le_bytes 4 (i32_bits m.start_height)))
                              (bind_value _ (byte_at-At At-relay) (
                                rw
                                  (
                                    from_le_bytes-to_le_bytes 4 m.version h.version_u32,
                                    from_le_bytes-to_le_bytes 8 m.services h.services_u64,
                                    from_le_bytes-to_le_bytes 8 m.timestamp h.timestamp_u64,
                                    from_le_bytes-to_le_bytes 8 m.nonce h.nonce_u64,
                                    from_le_bytes-to_le_bytes 4 (i32_bits m.start_height)
                                        (i32_bits-lt _ h.start_height_i32),
                                    i32_of_bits-i32_bits m.start_height h.start_height_i32,
                                    bool_of_byte-byte_of_bool m.relay,
                                  )
                                  refl))))))))))))

    pub length-serialize_version_message :
        length (serialize_version_message m) ≡ 80 + (8 + length m.user_agent.text) + 4 + 1
    length-serialize_version_message =
        omega (arith, length-At At-relay, length-append (serialize_version_message m) rest)

    -- A version message whose fields are in range is read back from its serialization, whatever bytes
    -- follow, with the number of bytes of the serialization, which are 93 and those of the user agent.
    pub unserialize_version_message-serialize :
        (unserialize_version_message (serialize_version_message m ++ rest)
          ≡ value (m, length (serialize_version_message m)))
        × (length (serialize_version_message m) ≡ 93 + length m.user_agent.text)
    unserialize_version_message-serialize = (
      version_read_back ∙ ap (λ n. value (m, n)) (sym length-serialize_version_message),
      omega (arith, length-serialize_version_message),
    )
