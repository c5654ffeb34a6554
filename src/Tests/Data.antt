-- ===== src/Tests/Data.antt =====
-- Concrete messages, addresses, channels and connections.
use p2p_network_implementati.Prelude.{
  ℕ, ◌%◌, List, [], ◌∷◌, true, ◌≡◌, refl, ok, length, replicate, arith,
}
use p2p_network_implementati.Bytes.{pos, is_utf8}
use p2p_network_implementati.Channel.{Sender}
use p2p_network_implementati.Network.Wire.{
  NetAddr, useragent, VersionMessage, SocketAddr, v4, IsUserAgent, IsVersionMessage,
}
use p2p_network_implementati.Network.Types.{TcpStream}

-- A digest of 32 bytes that depends on the length of its input only.
abbrev pub digest : List ℕ → List ℕ
digest bytes = replicate 32 (length bytes % 256)

pub digest_size : (bytes : List ℕ) → length (digest bytes) ≡ 32
digest_size bytes = refl

abbrev pub open_channel : {E : Type 0} → Sender E
open_channel = record { accepts = 9; sent = [] }

abbrev pub home_octets : List ℕ
home_octets = 192 ∷ 168 ∷ 0 ∷ 7 ∷ []

abbrev pub away_octets : List ℕ
away_octets = 10 ∷ 0 ∷ 0 ∷ 200 ∷ []

abbrev pub home : SocketAddr
home = v4 home_octets 8333

abbrev pub away : SocketAddr
away = v4 away_octets 18333

abbrev pub socket_home_away : TcpStream
socket_home_away = record { peer_addr = ok away; local_addr = ok home }

abbrev pub netaddr : List ℕ → ℕ → NetAddr
netaddr octets port = record {
  services = 1;
  ip = 0 ∷ 0 ∷ 0 ∷ 0 ∷ 0 ∷ 0 ∷ 0 ∷ 0 ∷ 0 ∷ 0 ∷ 0x00 ∷ 0xff ∷ octets;
  port = port;
}

-- The version message that the node at `home` builds for the one at `away`.
abbrev pub greeting : VersionMessage
greeting = record {
  version = 70001;
  services = 1;
  timestamp = 1700000000;
  net_addr_to = netaddr away_octets 18333;
  net_addr_from = netaddr home_octets 8333;
  nonce = 77;
  user_agent = record { text = useragent };
  start_height = pos 0;
  relay = true;
}

-- The one that the node at `away` answers.
abbrev pub reply : VersionMessage
reply = record greeting {
  timestamp = 1700000009;
  net_addr_to = netaddr home_octets 8333;
  net_addr_from = netaddr away_octets 18333;
  nonce = 88;
}

useragent-IsUserAgent : IsUserAgent (record { text = useragent })
unfolding is_utf8
useragent-IsUserAgent = record { text_utf8 = refl; text_size = omega arith }

pub greeting-IsVersionMessage : IsVersionMessage greeting
greeting-IsVersionMessage = record {
  version_u32 = omega arith;
  services_u64 = omega arith;
  timestamp_u64 = omega arith;
  to_valid = record { services_u64 = omega arith; ip_size = refl; port_u16 = omega arith };
  from_valid = record { services_u64 = omega arith; ip_size = refl; port_u16 = omega arith };
  nonce_u64 = omega arith;
  user_agent_valid = useragent-IsUserAgent;
  start_height_i32 = omega arith;
}
