-- ===== src/Address/RoundTrip.antt =====
-- What an endpoint of internet.hpp says of the address and the port that it was made of.
use net.Prelude.{ℕ, ◌+◌, ◌*◌, ◌/◌, ◌%◌, ◌^◌, ◌<◌, ◌≡◌, refl, true, false, some, arith}
use net.Address.{
  Storage, put16, get16, Endpoint, address_v4, get_address, address_default, address_of_v4,
  address_of_v6, is_v4, is_v6, to_v4, to_v6, endpoint, basic_endpoint, protocol, address, port,
  size, v4, v6, any_v4,
}

pub get16-put16 : (at v : ℕ) (s : Storage) → v < 2 ^ 16 → get16 at (put16 at v s) ≡ v
get16-put16 at v s h = ground arith

word : ℕ → ℕ
word v =
    ((v / 65536 / 256 % 256) * 256 + v / 65536 % 256) * 65536 + ((v / 256 % 256) * 256 + v % 256)

word_lem : (v : ℕ) → v < 2 ^ 32 → word v ≡ v
unfolding word
word_lem v h = omega arith

address_v4-word : (v : ℕ) → v < 2 ^ 32 → address_v4 (word v) ≡ some v
unfolding address_v4
address_v4-word v h = rw (word_lem v h) (ground arith)

pub record Carries4 (a p : ℕ) (e : Endpoint) : Type 0 where
  pub same_port : port e ≡ p
  pub same_protocol : protocol e ≡ v4
  pub same_size : size e ≡ e.d_size
  pub same_address :
      (later : Storage)
      → (b : Storage) × (address e later ≡ some b) × (is_v4 b ≡ true) × (to_v4 b ≡ some a)

-- However the memory was before, an endpoint made of an IPv4 address and a port says this port, the
-- protocol v4, the size that was given to its base, and an address that is v4 and gives this
-- number.
pub address_of_v4-Carries4 :
    (a p : ℕ) (old : Storage)
    → a < 2 ^ 32
    → p < 2 ^ 16
    → Carries4 a p (basic_endpoint (address_of_v4 a old) p)
unfolding port protocol size address basic_endpoint address_of_v4 endpoint word
address_of_v4-Carries4 a p old ha hp = record {
  same_port = omega arith;
  same_protocol = refl;
  same_size = refl;
  same_address =
      λ later. (address_of_v4 a later, rw (address_v4-word a ha) refl, refl, address_v4-word a ha);
}

pub record Carries6 (v : Storage) (p : ℕ) (e : Endpoint) : Type 0 where
  pub same_port : port e ≡ p
  pub same_protocol : protocol e ≡ v6
  pub same_size : size e ≡ e.d_size
  pub same_bytes : (i : ℕ) → i < 16 → to_v6 e.storage i ≡ v i
  pub no_address :
      (later : Storage)
      → (b : Storage) × (address e later ≡ some b) × (is_v6 b ≡ false) × (to_v4 b ≡ some any_v4)

-- However the memory was before, an endpoint made of an IPv6 address and a port says this port, the
-- protocol v6 and the size that was given to its base, and has the 16 bytes of the address at their
-- place, but the address that it says is the unspecified one of IPv4.
pub address_of_v6-Carries6 :
    (v : Storage) (p : ℕ) (old : Storage)
    → p < 2 ^ 16
    → Carries6 v p (basic_endpoint (address_of_v6 v old) p)
unfolding port protocol size address basic_endpoint address_of_v6 endpoint get_address
    address_default address_v4
address_of_v6-Carries6 v p old hp = record {
  same_port = omega arith;
  same_protocol = refl;
  same_size = refl;
  same_bytes = λ i h. ground arith;
  no_address = λ later. (address_default, refl, refl, refl);
}
