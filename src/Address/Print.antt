-- ===== src/Address/Print.antt =====
-- The output operators of internet.hpp. A text is a list of pieces; that a stream prints a number
-- in decimals is left to the stream.
use net.Prelude.{
  ℕ, ◌+◌, ◌*◌, ◌/◌, ◌%◌, ◌^◌, ◌<◌, ◌≡◌, refl, ap, true, Option, none, some, List, [], ◌∷◌, ◌++◌,
  arith, leb, ◌&&◌, if◌then◌else◌,
}
use net.Address.{Storage, Endpoint, is_v4, to_v4, address_of_v4, basic_endpoint, address, port}
use net.Address.RoundTrip.{address_of_v4-Carries4}

pub data Piece : Type 0 where
  number : ℕ → Piece
  dot colon : Piece
  -- "<TODO>::1"
  todo : Piece

-- `(a >> n) & 0xFF`, with 2^n.
abbrev pub octet : ℕ → ℕ → ℕ
octet two_n a = a / two_n % 256

unfoldable pub print_v4 : ℕ → List Piece
print_v4 a =
    number (octet 16777216 a)
    ∷ dot
    ∷ number (octet 65536 a)
    ∷ dot
    ∷ number (octet 256 a)
    ∷ dot
    ∷ number (octet 1 a)
    ∷ []

unfoldable pub print_v6 : Storage → List Piece
print_v6 v = todo ∷ []

unfoldable pub print_address : Storage → Option (List Piece)
print_address s =
    if is_v4 s
    then elim (to_v4 s) [ none ↦ none | some a ↦ some (print_v4 a) ]
    else some (print_v6 s)

-- The address of an endpoint, a colon and its port.
unfoldable pub print_endpoint : Endpoint → (old : Storage) → Option (List Piece)
print_endpoint e old = elim (address e old) [
  | none ↦ none
  | some s ↦ elim (print_address s) [
    | none ↦ none
    | some text ↦ some (text ++ colon ∷ number (port e) ∷ [])
  ]
]

-- The address and the port of a text in the notation of RFC 3986: four numbers below 256, most
-- significant first, and a port.
pub read_endpoint : List Piece → Option (ℕ × ℕ)
read_endpoint
      (number a ∷ dot ∷ number b ∷ dot ∷ number c ∷ dot ∷ number d ∷ colon ∷ number p ∷ []) =
    if leb a 255 && leb b 255 && leb c 255 && leb d 255
    then some (((a * 256 + b) * 256 + c) * 256 + d, p)
    else none
read_endpoint _ = none

print_address-v4 :
    (s : Storage) {a : ℕ} → is_v4 s ≡ true → to_v4 s ≡ some a → print_address s ≡ some (print_v4 a)
unfolding print_address
print_address-v4 s h v = rw (h, print_address) (rw v refl)

octets : ℕ → ℕ
octets a = ((octet 16777216 a * 256 + octet 65536 a) * 256 + octet 256 a) * 256 + octet 1 a

octets_lem : (a : ℕ) → a < 2 ^ 32 → octets a ≡ a
unfolding octets
octets_lem a h = omega arith

octet-leb : (n a : ℕ) → leb (octet n a) 255 ≡ true
octet-leb n a = ground arith

read_endpoint-print_v4 :
    (a p : ℕ) → a < 2 ^ 32 → read_endpoint (print_v4 a ++ colon ∷ number p ∷ []) ≡ some (a, p)
unfolding read_endpoint print_v4 octets
read_endpoint-print_v4 a p h = rw (octet-leb 16777216 a) (
    rw (octet-leb 65536 a)
      (rw (octet-leb 256 a) (rw (octet-leb 1 a) (ap (λ n. some (n, p)) (octets_lem a h)))))

-- An endpoint made of an IPv4 address and a port is printed as the four bytes of the address, most
-- significant first, with dots between them, and the port after a colon: reading this gives the
-- address and the port.
pub read_endpoint-print_endpoint :
    (a p : ℕ) (old later : Storage)
    → a < 2 ^ 32
    → p < 2 ^ 16
    → (text : List Piece) × (print_endpoint (basic_endpoint (address_of_v4 a old) p) later
        ≡ some text)
      × (read_endpoint text ≡ some (a, p))
unfolding print_endpoint
read_endpoint-print_endpoint a p old later ha hp =
    let h = address_of_v4-Carries4 a p old ha hp in
    let (b, there, is4, value) = h.same_address later in
    (
      print_v4 a ++ colon ∷ number p ∷ [],
      rw (there, print_endpoint) (rw (print_address-v4 b is4 value) (rw h.same_port refl)),
      read_endpoint-print_v4 a p ha,
    )
