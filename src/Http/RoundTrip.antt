-- ===== src/Http/RoundTrip.antt =====
-- `request` of demo_http.hpp on the text of a request, and what the move of the stream does to it.
use net.Prelude.{
  ℕ, zero, suc, ◌<◌, ◌≡◌, refl, ap, subst, ◌∙◌, inl, inr, Bool, true, false, none, some, List, [],
  ◌∷◌, ◌++◌, arith, Bool-cases, length, length-append, starts_with, search, ◌==◌,
}
use net.Prelude.Outcome.{Outcome, returns, undefined}
use net.Stream.{unread, Sentinel, char}
use net.Stream.Split.{split}
use net.Stream.Read.{AllPositive}
use net.Stream.Buffer.{IsValid}
use net.Http.{
  Line, method_line, url_line, version_line, header_line, end_line, space, crlf, is_empty, request,
  Located, on_read, print_line, url_onwards, tcp_stream, http_client,
}
use net.Http.Parse.{
  on_split-some, with_line, parse, parse_url, parse_version, parse_headers, Answers, Usable,
  request-Answers,
}

-- A text does not occur in another.
abbrev pub IsAbsent : List ℕ → List ℕ → Type 0
IsAbsent t xs = search t xs ≡ length xs

IsAbsent-tail :
    (t : List ℕ) (x : ℕ) (xs : List ℕ)
    → IsAbsent t (x ∷ xs)
    → (starts_with t (x ∷ xs) ≡ false) × IsAbsent t xs
IsAbsent-tail t x xs h = elim (Bool-cases (starts_with t (x ∷ xs))) [
  | inl here ↦ ground arith
  | inr later ↦ (later, ground arith)
]

split-space :
    (xs post : List ℕ)
    → IsAbsent (space ∷ []) xs
    → split (space ∷ []) (xs ++ space ∷ post) ≡ some (xs, post)
split-space [] post h = refl
split-space (x ∷ xs) post h =
    let (other, h') = IsAbsent-tail (space ∷ []) x xs h in rw (other, split-space xs post h') refl

split-crlf :
    (xs post : List ℕ) → IsAbsent crlf xs → split crlf (xs ++ (13 ∷ 10 ∷ post)) ≡ some (xs, post)
split-crlf [] post h = refl
split-crlf (x ∷ []) post h = elim (Bool-cases (x == 13)) [
  | inl cr ↦ rw cr refl
  | inr other ↦ rw other refl
]
split-crlf (x ∷ y ∷ xs) post h =
    let (other, h') = IsAbsent-tail crlf x (y ∷ xs) h in
    rw (other, split-crlf (y ∷ xs) post h') refl

-- Headers, each with the end of its line, the empty line and a body.
abbrev pub headers_text : List (List ℕ) → List ℕ → List ℕ
headers_text [] body = 13 ∷ 10 ∷ body
headers_text (h ∷ hs) body = h ++ (13 ∷ 10 ∷ headers_text hs body)

-- The text of a request with its body.
abbrev pub request_text : (method url version : List ℕ) → List (List ℕ) → List ℕ → List ℕ
request_text method url version hs body =
    method ++ (space ∷ (url ++ (space ∷ (version ++ (13 ∷ 10 ∷ headers_text hs body)))))

abbrev pub header_lines : List (List ℕ) → List Line
header_lines [] = end_line ∷ []
header_lines (h ∷ hs) = header_line h ∷ header_lines hs

-- Headers are not empty and do not contain the end of a line.
abbrev pub AreHeaders : List (List ℕ) → Type 0
AreHeaders [] = Unit
AreHeaders (h ∷ hs) = ((0 < length h) × IsAbsent crlf h) × AreHeaders hs

parse_headers-text :
    (fuel : ℕ) (hs : List (List ℕ)) (body : List ℕ)
    → length hs < fuel
    → AreHeaders hs
    → parse_headers fuel (headers_text hs body) ≡ (header_lines hs, some body)
unfolding parse_headers
parse_headers-text zero hs body enough ok = absurd (omega arith)
parse_headers-text (suc fuel) [] body enough ok = refl
parse_headers-text (suc fuel) ([] ∷ hs) body enough ((some_text, _), _) = absurd (omega arith)
parse_headers-text (suc fuel) ((x ∷ h) ∷ hs) body enough ((some_text, absent), ok) =
    on_split-some crlf ((x ∷ h) ++ (13 ∷ 10 ∷ headers_text hs body))
      (λ header post. elim (is_empty header) [
        | true ↦ (end_line ∷ [], some post)
        | false ↦ with_line (header_line header) (parse_headers fuel post)
      ])
      (end_line ∷ [], none) (split-crlf (x ∷ h) (headers_text hs body) absent)
    ∙ ap (with_line (header_line (x ∷ h))) (parse_headers-text fuel hs body (omega arith) ok)

headers_text-long : (hs : List (List ℕ)) (body : List ℕ) → length hs < length (headers_text hs body)
headers_text-long [] body = omega arith
headers_text-long (h ∷ hs) body =
    omega (arith, length-append h (13 ∷ 10 ∷ headers_text hs body), headers_text-long hs body)

parse-request_text :
    (method url version : List ℕ) (hs : List (List ℕ)) (body : List ℕ)
    → IsAbsent (space ∷ []) method
    → IsAbsent (space ∷ []) url
    → IsAbsent crlf version
    → AreHeaders hs
    → parse (request_text method url version hs body)
      ≡ (method_line method ∷ url_line url ∷ version_line version ∷ header_lines hs, some body)
unfolding parse parse_url parse_version
parse-request_text method url version hs body m u v ok =
    let rest = headers_text hs body in
    let behind_url = version ++ (13 ∷ 10 ∷ rest) in
    let behind_method = url ++ (space ∷ behind_url) in
    let fits : length hs < suc (length rest) = omega (arith, headers_text-long hs body) in
    on_split-some (space ∷ []) (method ++ (space ∷ behind_method))
      (λ text post. with_line (method_line text) (parse_url post)) ([], none)
      (split-space method behind_method m)
    ∙ ap (with_line (method_line method)) (
        on_split-some (space ∷ []) (url ++ (space ∷ behind_url))
          (λ text post. with_line (url_line text) (parse_version post)) ([], none)
          (split-space url behind_url u)
        ∙ ap (with_line (url_line url)) (
            on_split-some crlf (version ++ (13 ∷ 10 ∷ rest))
              (λ text post. with_line (version_line text) (parse_headers (suc (length post)) post))
              ([], none) (split-crlf version rest v)
            ∙ ap (with_line (version_line version))
                (parse_headers-text (suc (length rest)) hs body fits ok)))

on_read-moved :
    (s : Sentinel) (b : Located) (k : Bool → List ℕ → Located → Outcome Located (List Line))
    → (b.into == b.object) ≡ false
    → on_read s b k ≡ undefined
on_read-moved s b k moved = rw (moved, on_read) refl

-- A request is sent to a new stream, which gives at least one byte at each receive until the end of
-- it. Read by a stream that stays where it was constructed, the method, the target, the version and
-- each header would be printed, however the text is cut into pieces, and what follows the empty line
-- left to be read. But the constructor of `http_client` moves the stream to another address, and
-- there `request` has undefined behaviour. This supposes that the method and the target have no
-- space in them, the version and the headers no end of a line, and that no header is empty.
pub request-http_client :
    (method url version : List ℕ) (hs : List (List ℕ)) (body sizes : List ℕ) (from to : ℕ)
    → AllPositive sizes
    → length (request_text method url version hs body) < length sizes
    → IsAbsent (space ∷ []) method
    → IsAbsent (space ∷ []) url
    → IsAbsent crlf version
    → AreHeaders hs
    → (from == to) ≡ false
    → ((c : Located) × (request (tcp_stream from (request_text method url version hs body) sizes)
          ≡ returns (method_line method ∷ url_line url ∷ version_line version ∷ header_lines hs) c)
        × Usable c
        × (unread c.state ++ c.state.incoming ≡ body))
      × (request (http_client to (tcp_stream from (request_text method url version hs body) sizes))
          ≡ undefined)
unfolding request
request-http_client method url version hs body sizes from to positive enough m u v ok moved =
    let s = tcp_stream from (request_text method url version hs body) sizes in
    let valid : IsValid s.state = record {
      full = refl;
      ordered = omega arith;
      within = omega arith;
    } in
    (
      subst (Answers (request s)) (parse-request_text method url version hs body m u v ok)
          (request-Answers s (refl, (valid, (positive, enough)))),
      on_read-moved (char space) (http_client to s)
          (λ ok method c. elim ok [
            | true ↦ print_line (method_line method) (url_onwards c)
            | false ↦ returns [] c
          ])
          moved,
    )
