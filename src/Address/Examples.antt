-- ===== src/Address/Examples.antt =====
-- Tests of `net.Address`, and its theorems at an endpoint.
use net.Prelude.{◌≡◌, refl, arith, none, some, List, ◌==◌, if◌then◌else◌}
use net.Address.{
  Storage, loopback_v4, any_v6, loopback_v6, address_of_v4, address_of_v6, basic_endpoint,
  endpoint_default, port, address_v4, endpoint, address_default,
}
use net.Address.RoundTrip.{Carries6, address_of_v6-Carries6}
use net.Address.Print.{Piece, print_endpoint, read_endpoint, read_endpoint-print_endpoint}

-- Memory that was not cleared.
abbrev dirty : Storage
dirty i = 171

abbrev local_v6 : Storage
local_v6 i = if i == 15 then 1 else 0

test_default : port endpoint_default ≡ 0
unfolding port endpoint_default basic_endpoint endpoint address_default
test_default = refl

test_range : address_v4 4294967296 ≡ none
unfolding address_v4
test_range = refl

-- `loopback` is `any`.
test_loopback : loopback_v6 ≡ any_v6
unfolding loopback_v6 any_v6
test_loopback = refl

address_of_v6-Carries6_example :
    Carries6 local_v6 443 (basic_endpoint (address_of_v6 local_v6 dirty) 443)
address_of_v6-Carries6_example = address_of_v6-Carries6 local_v6 443 dirty (omega arith)

read_endpoint-print_endpoint_example :
    (text : List Piece) × (print_endpoint
        (basic_endpoint (address_of_v4 loopback_v4 dirty) 8080)
        dirty
      ≡ some text)
    × (read_endpoint text ≡ some (loopback_v4, 8080))
read_endpoint-print_endpoint_example =
    read_endpoint-print_endpoint loopback_v4 8080 dirty dirty (omega arith) (omega arith)
