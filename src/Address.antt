-- ===== src/Address.antt =====
-- include/beman/net/detail/internet.hpp and endpoint.hpp: addresses and endpoints, on the bytes of
-- a `sockaddr_storage`. `v6` is the content of an `address_v6`, a byte for each number below 16.
-- The layout of the structures and the numbers of the families are those of Linux. A constructor
-- that leaves bytes of its object as they are takes what was there as an argument.
pub mod RoundTrip
pub mod Print
mod Examples
use net.Prelude.{
  ℕ, ◌+◌, ◌-◌, ◌*◌, ◌/◌, ◌%◌, Bool, true, false, Option, none, some, leb, ltb, ◌==◌, ◌&&◌,
  if◌then◌else◌,
}

-- Bytes at their offsets.
abbrev pub Storage : Type 0
Storage = ℕ → ℕ

abbrev pub zeroed : Storage
zeroed i = 0

abbrev pub byte : ℕ → ℕ → Storage → Storage
byte at v s i = if i == at then v % 256 else s i

-- `htons` and `htonl` with the assignment that follows, and `ntohs` and `ntohl` of what is there.
abbrev pub put16 : ℕ → ℕ → Storage → Storage
put16 at v s = byte (at + 1) v (byte at (v / 256) s)

abbrev pub put32 : ℕ → ℕ → Storage → Storage
put32 at v s = put16 (at + 2) v (put16 at (v / 65536) s)

abbrev pub get16 : ℕ → Storage → ℕ
get16 at s = s at * 256 + s (at + 1)

abbrev pub get32 : ℕ → Storage → ℕ
get32 at s = get16 at s * 65536 + get16 (at + 2) s

-- `ss_family`, in the order of the machine.
abbrev pub set_family : ℕ → Storage → Storage
set_family f s = byte 1 (f / 256) (byte 0 f s)

abbrev pub family : Storage → ℕ
family s = s 0 + s 1 * 256

abbrev pub pf_inet : ℕ
pf_inet = 2

abbrev pub pf_inet6 : ℕ
pf_inet6 = 10

-- `sizeof` of `sockaddr_in`, `sockaddr_in6` and `sockaddr_storage`.
abbrev pub inet_size : ℕ
inet_size = 16

abbrev pub inet6_size : ℕ
inet6_size = 28

abbrev pub storage_size : ℕ
storage_size = 128

-- `address_v4`, a number of 32 bits, or an exception.
unfoldable pub address_v4 : ℕ → Option ℕ
address_v4 a = if leb a 4294967295 then some a else none

abbrev pub any_v4 : ℕ
any_v4 = 0

abbrev pub loopback_v4 : ℕ
loopback_v4 = 2130706433

-- `address_v6::any` and `address_v6::loopback`.
unfoldable pub any_v6 : Storage
any_v6 = zeroed

unfoldable pub loopback_v6 : Storage
loopback_v6 = zeroed

abbrev pub put_bytes : ℕ → ℕ → Storage → Storage → Storage
put_bytes at n v s i = if leb at i && ltb i (at + n) then v (i - at) else s i

-- `get_address`: the port, the flow, the bytes and the scope.
unfoldable pub get_address : (v6 : Storage) → ℕ → Storage → Storage
get_address v6 port s =
    put32 24 0 (put_bytes 8 16 v6 (put32 4 0 (put16 2 port (set_family pf_inet6 s))))

-- The constructors of `address`.
unfoldable pub address_default : Storage
address_default = set_family pf_inet zeroed

unfoldable pub address_of_v4 : ℕ → (old : Storage) → Storage
address_of_v4 a old = put16 2 65535 (put32 4 a (set_family pf_inet old))

unfoldable pub address_of_v6 : (v6 old : Storage) → Storage
address_of_v6 v6 old = get_address v6 65535 old

abbrev pub is_v4 : Storage → Bool
is_v4 s = family s == pf_inet

abbrev pub is_v6 : Storage → Bool
is_v6 s = family s == pf_inet6

abbrev pub to_v4 : Storage → Option ℕ
to_v4 s = address_v4 (get32 4 s)

abbrev pub to_v6 : Storage → Storage
to_v6 s i = s (8 + i)

-- `detail::endpoint`.
pub record Endpoint : Type 0 where
  pub storage : Storage
  pub d_size : ℕ

-- `std::min(size, sizeof(sockaddr_storage))` bytes are copied.
abbrev pub copied : ℕ → ℕ
copied size = if ltb storage_size size then storage_size else size

unfoldable pub endpoint : Storage → ℕ → Endpoint
endpoint bytes size = record {
  storage = λ i. if ltb i (copied size) then bytes i else 0;
  d_size = size;
}

-- `basic_endpoint` of an address and a port.
unfoldable pub basic_endpoint : Storage → ℕ → Endpoint
basic_endpoint address port =
    let e = endpoint address (if is_v4 address then inet_size else inet6_size) in
    record e { storage = put16 2 port e.storage }

unfoldable pub endpoint_default : Endpoint
endpoint_default = basic_endpoint address_default 0

pub data Protocol : Type 0 where
  v4 v6 : Protocol

-- `protocol`, `address`, `port` and `size` of `basic_endpoint`.
unfoldable pub protocol : Endpoint → Protocol
protocol e = if family e.storage == pf_inet then v4 else v6

unfoldable pub address : Endpoint → (old : Storage) → Option Storage
address e old =
    if family e.storage == pf_inet
    then elim (address_v4 (get32 4 e.storage)) [ none ↦ none | some a ↦ some (address_of_v4 a old) ]
    else some address_default

unfoldable pub port : Endpoint → ℕ
port e =
    if family e.storage == pf_inet
    then get16 2 e.storage
    else if family e.storage == pf_inet6
    then get16 2 e.storage
    else 0

unfoldable pub size : Endpoint → ℕ
size e = if family e.storage == pf_inet then inet_size else inet6_size
