-- ===== src/Http/Examples.antt =====
-- The theorems of `net.Http` for "G / H" with the header "a:" and a body, in pieces of three bytes.
use net.Prelude.{ℕ, zero, suc, ◌++◌, ◌≡◌, refl, List, [], ◌∷◌, arith}
use net.Prelude.Outcome.{returns, undefined}
use net.Stream.{unread}
use net.Stream.Read.{AllPositive}
use net.Http.{method_line, url_line, version_line, Located, tcp_stream, http_client, request}
use net.Http.Parse.{Usable}
use net.Http.RoundTrip.{request_text, header_lines, request-http_client}

abbrev arriving : List ℕ
arriving = request_text (71 ∷ []) (47 ∷ []) (72 ∷ []) ((97 ∷ 58 ∷ []) ∷ []) (33 ∷ [])

abbrev threes : ℕ → List ℕ
threes zero = []
threes (suc n) = 3 ∷ threes n

threes-AllPositive : (n : ℕ) → AllPositive (threes n)
threes-AllPositive zero = tt
threes-AllPositive (suc n) = (omega arith, threes-AllPositive n)

request-http_client_example :
    ((c : Located) × (request (tcp_stream 0 arriving (threes 15))
        ≡ returns
            (method_line (71 ∷ [])
              ∷ url_line (47 ∷ [])
              ∷ version_line (72 ∷ [])
              ∷ header_lines ((97 ∷ 58 ∷ []) ∷ []))
            c)
      × Usable c
      × (unread c.state ++ c.state.incoming ≡ 33 ∷ []))
    × (request (http_client 1 (tcp_stream 0 arriving (threes 15))) ≡ undefined)
request-http_client_example =
    request-http_client (71 ∷ []) (47 ∷ []) (72 ∷ []) ((97 ∷ 58 ∷ []) ∷ []) (33 ∷ []) (threes 15) 0
      1 (threes-AllPositive 15) (omega arith) refl refl refl ((omega arith, refl), tt) refl
