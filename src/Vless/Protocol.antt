-- ===== src/Vless/Protocol.antt =====
-- include/proxy/vless/protocol.h: the request, and the numbers of its enumerations.
use cppvless.Common.{ℕ, ◌≡◌, ◌==◌, if◌then◌else◌, [], Bytes, length, replicate, codes}

-- `std::variant<std::array<uint8_t, 4>, std::array<uint8_t, 16>, std::string>`
pub data Address : Type 0 where
  ipv4 : Bytes → Address
  ipv6 : Bytes → Address
  domain : Bytes → Address

-- A cast from a byte may give a value that no enumerator names.
pub data Command : Type 0 where
  tcp udp mux rvs : Command
  other : ℕ → Command

abbrev pub command_of_byte : ℕ → Command
command_of_byte b =
    if b == 1
    then tcp
    else if b == 2
    then udp
    else if b == 3
    then mux
    else if b == 4
    then rvs
    else other b

abbrev pub byte_of_command : Command → ℕ
byte_of_command tcp = 1
byte_of_command udp = 2
byte_of_command mux = 3
byte_of_command rvs = 4
byte_of_command (other b) = b

-- `AddressType`
abbrev pub type_ipv4 : ℕ
type_ipv4 = 1

abbrev pub type_domain : ℕ
type_domain = 2

abbrev pub type_ipv6 : ℕ
type_ipv6 = 3

pub record Request : Type 0 where
  pub version : ℕ
  pub uuid : Bytes
  pub command : Command
  pub port : ℕ
  pub flow : Bytes
  pub encryption : Bytes
  pub seed : Bytes
  pub address : Address

-- `Request req;` with the default member initialisers. The variant starts as its first alternative.
abbrev pub default_request : Request
default_request = record {
  version = 0;
  uuid = replicate 16 0;
  command = tcp;
  port = 0;
  flow = [];
  encryption = [];
  seed = [];
  address = ipv4 (replicate 4 0);
}

-- "v1.mux.cool" and "v1.rvs.cool"
abbrev pub mux_host : Bytes
mux_host = codes "v1.mux.cool"

abbrev pub rvs_host : Bytes
rvs_host = codes "v1.rvs.cool"

-- The sizes that the array types of the alternatives fix.
abbrev pub IsAddress : Address → Type 0
IsAddress (ipv4 a) = length a ≡ 4
IsAddress (ipv6 a) = length a ≡ 16
IsAddress (domain d) = Unit
