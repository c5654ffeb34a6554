-- ===== src/Network/Wire.antt =====
-- src/network/wire.rs: the messages of the Bitcoin protocol that the node speaks, and their bytes.
-- The offsets of the readers are the constants that `offsit` runs through. SHA-256 (the crate sha2)
-- is the parameter `digest` of `checksum_calculate`, and the clock is an argument of
-- `build_version_message`.
pub mod RoundTrip
pub mod Totality
pub mod Short
use p2p_network_implementati.Prelude.{
  ℕ, ◌+◌, ◌%◌, ◌^◌, ◌<◌, ◌≡◌, List, [], ◌∷◌, ◌++◌, Bool, true, false, Option, none, some, ltb, ◌==◌,
  not, if◌then◌else◌, Result, ok, err, Outcome, value, fails, ◌>>=◌, map_err, length, take,
  replicate, get_elem?,
}
use p2p_network_implementati.Bytes.{
  to_le_bytes, from_le_bytes, to_be_bytes, from_be_bytes, slice, slice_from, array_at, usize_add,
  I32, pos, i32_bits, i32_of_bits, from_utf8, IsI32, is_utf8,
}
use p2p_network_implementati.Network.Errors.{
  ErrorLowLevelParsing, error_parse_utf8, not_enough_bytes, ErrorCreateVersionMessage,
  error_timestamp, SystemTimeError,
}

abbrev pub magic_bytes_value : ℕ
magic_bytes_value = 0xf9beb4d9

abbrev pub bytes_version : List ℕ
bytes_version = b'v' ∷ b'e' ∷ b'r' ∷ b's' ∷ b'i' ∷ b'o' ∷ b'n' ∷ 0 ∷ 0 ∷ 0 ∷ 0 ∷ 0 ∷ []

abbrev pub bytes_verack : List ℕ
bytes_verack = b'v' ∷ b'e' ∷ b'r' ∷ b'a' ∷ b'c' ∷ b'k' ∷ 0 ∷ 0 ∷ 0 ∷ 0 ∷ 0 ∷ 0 ∷ []

-- "/BitcoinCenter:0.0.1/"
abbrev pub useragent : List ℕ
useragent =
    b'/' ∷ b'B' ∷ b'i' ∷ b't' ∷ b'c' ∷ b'o' ∷ b'i' ∷ b'n' ∷ b'C' ∷ b'e' ∷ b'n' ∷ b't' ∷ b'e' ∷ b'r'
    ∷ b':' ∷ b'0' ∷ b'.' ∷ b'0' ∷ b'.' ∷ b'1' ∷ b'/' ∷ []

pub record HeaderMessage : Type 0 where
  pub magic_bytes : ℕ  -- u32
  pub command : List ℕ  -- [u8; 12]
  pub length : ℕ  -- u32
  pub checksum : List ℕ  -- [u8; 4]

unfoldable pub serialize_header_message : HeaderMessage → List ℕ
serialize_header_message h =
    to_le_bytes 4 h.magic_bytes ++ (h.command ++ (to_le_bytes 4 h.length ++ h.checksum))

-- `HeaderMessage::create_header_message`.
unfoldable pub new_header_message : List ℕ → ℕ → List ℕ → HeaderMessage
new_header_message command len checksum = record {
  magic_bytes = magic_bytes_value;
  command = command;
  length = len;
  checksum = checksum;
}

pub record NetAddr : Type 0 where
  pub services : ℕ  -- u64
  pub ip : List ℕ  -- [u8; 16]
  pub port : ℕ  -- u16

unfoldable pub serialize_netaddr : NetAddr → List ℕ
serialize_netaddr a = to_le_bytes 8 a.services ++ (a.ip ++ to_be_bytes 2 a.port)

unfoldable pub unserialize_netaddr : List ℕ → Outcome ErrorLowLevelParsing NetAddr
unserialize_netaddr bytes = do
  bytes_services ← array_at ErrorLowLevelParsing.conversion_error bytes 0 8
  let services = from_le_bytes bytes_services
  ip ← array_at ErrorLowLevelParsing.conversion_error bytes 8 16
  bytes_port ← array_at ErrorLowLevelParsing.conversion_error bytes 24 2
  let port = from_be_bytes bytes_port
  value (record { services = services; ip = ip; port = port })

-- `data`, a `String`, is the list of its bytes.
pub record UserAgent : Type 0 where
  pub text : List ℕ

unfoldable pub serialize_useragent : UserAgent → List ℕ
serialize_useragent u = to_le_bytes 8 (length u.text) ++ u.text

unfoldable pub unserialize_useragent : List ℕ → Outcome ErrorLowLevelParsing (UserAgent × ℕ)
unserialize_useragent bytes = do
  bytes_length ← array_at ErrorLowLevelParsing.conversion_error bytes 0 8
  let len = from_le_bytes bytes_length
  stop ← usize_add 8 len
  bytes_data ← slice bytes 8 stop
  string_useragent ← map_err error_parse_utf8 (from_utf8 bytes_data)
  value (record { text = string_useragent }, stop)

pub record VersionMessage : Type 0 where
  pub version : ℕ  -- u32
  pub services : ℕ  -- u64
  pub timestamp : ℕ  -- u64
  pub net_addr_to : NetAddr
  pub net_addr_from : NetAddr
  pub nonce : ℕ  -- u64
  pub user_agent : UserAgent
  pub start_height : I32
  pub relay : Bool

-- `self.relay as u8`, and the reading of that byte.
abbrev pub byte_of_bool : Bool → ℕ
byte_of_bool b = if b then 1 else 0

abbrev pub bool_of_byte : ℕ → Bool
bool_of_byte b = if b == 0 then false else true

unfoldable pub serialize_version_message : VersionMessage → List ℕ
serialize_version_message m =
    to_le_bytes 4 m.version
    ++ (to_le_bytes 8 m.services
        ++ (to_le_bytes 8 m.timestamp
            ++ (serialize_netaddr m.net_addr_to
                ++ (serialize_netaddr m.net_addr_from
                    ++ (to_le_bytes 8 m.nonce
                        ++ (serialize_useragent m.user_agent
                            ++ (to_le_bytes 4 (i32_bits m.start_height)
                                ++ (byte_of_bool m.relay ∷ []))))))))

-- `bytes.get(offsit).ok_or(NotEnoughBytes)?`
abbrev pub byte_at : List ℕ → ℕ → Outcome ErrorLowLevelParsing ℕ
byte_at bytes offsit = elim (get_elem? bytes offsit) [
  | none ↦ fails not_enough_bytes
  | some b ↦ value b
]

unfoldable pub unserialize_version_message :
    List ℕ → Outcome ErrorLowLevelParsing (VersionMessage × ℕ)
unserialize_version_message bytes = do
  bytes_version ← array_at ErrorLowLevelParsing.conversion_error bytes 0 4
  bytes_services ← array_at ErrorLowLevelParsing.conversion_error bytes 4 8
  bytes_timestamp ← array_at ErrorLowLevelParsing.conversion_error bytes 12 8
  bytes_to ← slice bytes 20 46
  net_addr_to ← unserialize_netaddr bytes_to
  bytes_from ← slice bytes 46 72
  net_addr_from ← unserialize_netaddr bytes_from
  bytes_nonce ← array_at ErrorLowLevelParsing.conversion_error bytes 72 8
  bytes_useragent ← slice_from bytes 80
  (user_agent, length_useragent) ← unserialize_useragent bytes_useragent
  let offsit = 80 + length_useragent
  bytes_start_height ← array_at ErrorLowLevelParsing.conversion_error bytes offsit 4
  byte_relay ← byte_at bytes (offsit + 4)
  value (
    record {
      version = from_le_bytes bytes_version;
      services = from_le_bytes bytes_services;
      timestamp = from_le_bytes bytes_timestamp;
      net_addr_to = net_addr_to;
      net_addr_from = net_addr_from;
      nonce = from_le_bytes bytes_nonce;
      user_agent = user_agent;
      start_height = i32_of_bits (from_le_bytes bytes_start_height);
      relay = bool_of_byte byte_relay;
    },
    offsit + 4 + 1,
  )

unfoldable pub length_version_message : VersionMessage → ℕ
length_version_message m = length (serialize_version_message m) % 2 ^ 32

-- `std::net::SocketAddr`.
pub data SocketAddr : Type 0 where
  v4 : List ℕ → ℕ → SocketAddr
  v6 : List ℕ → ℕ → SocketAddr

-- The 16 bytes that both blocks of `build_version_message` fill in for an address.
unfoldable pub ip_address : SocketAddr → List ℕ
ip_address (v4 octets port) = replicate 10 0 ++ (0x00 ∷ 0xff ∷ octets)
ip_address (v6 octets port) = octets

abbrev pub port_of : SocketAddr → ℕ
port_of (v4 octets port) = port
port_of (v6 octets port) = port

-- `now` is `SystemTime::now().duration_since(UNIX_EPOCH)`, in seconds.
unfoldable pub build_version_message :
    SocketAddr
    → SocketAddr
    → ℕ
    → Result SystemTimeError ℕ
    → Result ErrorCreateVersionMessage VersionMessage
build_version_message local_address remove_address nonce (err e) = err (error_timestamp e)
build_version_message local_address remove_address nonce (ok new_timestamp) = ok (record {
  version = 70001;
  services = 1;
  timestamp = new_timestamp;
  net_addr_to = record {
    services = 1;
    ip = ip_address remove_address;
    port = port_of remove_address;
  };
  net_addr_from = record {
    services = 1;
    ip = ip_address local_address;
    port = port_of local_address;
  };
  nonce = nonce;
  user_agent = record { text = useragent };
  start_height = pos 0;
  relay = true;
})

unfoldable pub validation_version_message : VersionMessage → Bool
validation_version_message m =
    if ltb m.version 70000 then false else if not m.relay then false else true

unfoldable pub checksum_calculate : (List ℕ → List ℕ) → List ℕ → List ℕ
checksum_calculate digest raw_bytes =
    let single_hash256 = digest raw_bytes in
    let double_hash256 = digest single_hash256 in take 4 double_hash256

pub data VerackMessage : Type 0 where
  verack_message : VerackMessage

unfoldable pub serialize_verack_message : VerackMessage → ℕ
serialize_verack_message v = 0

unfoldable pub unserialize_verack_message : VerackMessage × ℕ
unserialize_verack_message = (verack_message, 0)

unfoldable pub length_verack_message : VerackMessage → ℕ
length_verack_message v = 0

unfoldable pub build_verack_message : VerackMessage
build_verack_message = verack_message

-- The ranges that the types of the source enforce.
pub record IsNetAddr (a : NetAddr) : Type 0 where
  pub services_u64 : a.services < 2 ^ 64
  pub ip_size : length a.ip ≡ 16
  pub port_u16 : a.port < 2 ^ 16

pub record IsUserAgent (u : UserAgent) : Type 0 where
  pub text_utf8 : is_utf8 u.text ≡ true
  pub text_size : 8 + length u.text < 2 ^ 64

pub record IsVersionMessage (m : VersionMessage) : Type 0 where
  pub version_u32 : m.version < 2 ^ 32
  pub services_u64 : m.services < 2 ^ 64
  pub timestamp_u64 : m.timestamp < 2 ^ 64
  pub to_valid : IsNetAddr m.net_addr_to
  pub from_valid : IsNetAddr m.net_addr_from
  pub nonce_u64 : m.nonce < 2 ^ 64
  pub user_agent_valid : IsUserAgent m.user_agent
  pub start_height_i32 : IsI32 m.start_height
