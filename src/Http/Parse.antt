-- ===== src/Http/Parse.antt =====
-- What `request` of demo_http.hpp prints of a text, and that it prints it in whatever pieces the
-- text arrives.
use net.Prelude.{
  ℕ, zero, suc, ◌+◌, ◌<◌, ◌≡◌, refl, sym, ap, subst, ◌∙◌, inl, inr, Bool, true, false, Option, none,
  some, List, [], ◌∷◌, ◌++◌, arith, Bool-cases, Option-cases, length, length-append, length-drop,
  drop, starts_with, not, ◌&&◌, ◌==◌, ==_refl,
}
use net.Prelude.Outcome.{Outcome, returns}
use net.Stream.{Sentinel, char, text, unread, read, buffer_size}
use net.Stream.Split.{split}
use net.Stream.Buffer.{word}
use net.Stream.Read.{IsReady, Reads, read_lem}
use net.Http.{
  Located, Line, method_line, url_line, version_line, header_line, end_line, space, crlf, is_empty,
  on_read, print_line, headers, version_and_headers, url_onwards, request,
}

-- The lines that are printed, and the rest of the text where the end of it was not met.
abbrev pub Parsed : Type 0
Parsed = List Line × Option (List ℕ)

abbrev pub on_split : List ℕ → List ℕ → (List ℕ → List ℕ → Parsed) → Parsed → Parsed
on_split t all k e = elim (split t all) [ none ↦ e | some (pre, post) ↦ k pre post ]

pub on_split-some :
    (t all : List ℕ) (k : List ℕ → List ℕ → Parsed) (e : Parsed) {pre post : List ℕ}
    → split t all ≡ some (pre, post)
    → on_split t all k e ≡ k pre post
on_split-some t all k e h = ap (λ o. elim o [ none ↦ e | some (pre, post) ↦ k pre post ]) h

abbrev pub with_line : Line → Parsed → Parsed
with_line l (ls, rest) = (l ∷ ls, rest)

unfoldable pub parse_headers : ℕ → List ℕ → Parsed
parse_headers zero all = ([], none)
parse_headers (suc fuel) all =
    on_split crlf all
      (λ header post. elim (is_empty header) [
        | true ↦ (end_line ∷ [], some post)
        | false ↦ with_line (header_line header) (parse_headers fuel post)
      ])
      (end_line ∷ [], none)

unfoldable pub parse_version : List ℕ → Parsed
unfolding parse_headers
parse_version all =
    on_split crlf all
      (λ version post. with_line (version_line version) (parse_headers (suc (length post)) post))
      ([], none)

unfoldable pub parse_url : List ℕ → Parsed
unfolding parse_version
parse_url all =
    on_split (space ∷ []) all (λ url post. with_line (url_line url) (parse_version post)) ([], none)

-- The method and the target up to a space each, the version up to the end of its line, and headers
-- up to an empty line.
unfoldable pub parse : List ℕ → Parsed
unfolding parse_url
parse all =
    on_split (space ∷ []) all (λ method post. with_line (method_line method) (parse_url post))
      ([], none)

-- The iterators of a stream point into its own buffer, and it can go on.
abbrev pub Usable : Located → Type 0
Usable b = (b.into ≡ b.object) × IsReady b.state

-- The code prints the lines; where there is a rest, the stream still has it and can go on.
abbrev pub Answers : Outcome Located (List Line) → Parsed → Type 0
Answers o (ls, none) = (c : Located) × (o ≡ returns ls c)
Answers o (ls, some rest) =
    (c : Located) × (o ≡ returns ls c) × Usable c × (unread c.state ++ c.state.incoming ≡ rest)

print_line-Answers :
    (l : Line) (o : Outcome Located (List Line)) (r : Parsed)
    → Answers o r
    → Answers (print_line l o) (with_line l r)
print_line-Answers l o (ls, none) (c, e) = (c, ap (print_line l) e)
print_line-Answers l o (ls, some rest) (c, e, ready, h) = (c, ap (print_line l) e, ready, h)

on_read-Answers :
    (s : Sentinel) (b : Located) (k : Bool → List ℕ → Located → Outcome Located (List Line))
    (k' : List ℕ → List ℕ → Parsed) (e' : Parsed)
    → 0 < length (word s)
    → length (word s) + 1 < buffer_size
    → Usable b
    → ((pre post : List ℕ) (c : Located)
        → split (word s) (unread b.state ++ b.state.incoming) ≡ some (pre, post)
        → Usable c
        → unread c.state ++ c.state.incoming ≡ post
        → Answers (k true pre c) (k' pre post))
    → ((out : List ℕ) (c : Located) → Answers (k false out c) e')
    → Answers (on_read s b k) (on_split (word s) (unread b.state ++ b.state.incoming) k' e')
on_read-Answers s b k k' e' some_text short ready found missing =
    let all = unread b.state ++ b.state.incoming in
    let h = read_lem s [] b.state some_text short ready.1 in
    let here : (b.into == b.object) ≡ true = ap (λ n. n == b.object) ready.0 ∙ ==_refl b.object in
    elim (Option-cases (split (word s) all)) [
      | inl absent ↦
          let (out, c, e, _, _) = subst (Reads (read s [] b.state) [] all) absent h in
          rw (absent, here, e, on_read, on_split) (missing out (record b { state = c }))
      | inr ((pre, post), present) ↦
          let (c, e, r, rest) = subst (Reads (read s [] b.state) [] all) present h in
          rw (present, here, e, on_read, on_split)
            (found pre post (record b { state = c }) present (ready.0, r) rest)
    ]

split-shorter :
    (t all : List ℕ) {pre post : List ℕ}
    → 0 < length t
    → split t all ≡ some (pre, post)
    → length post < length all
split-shorter t [] some_text e = absurd cc
split-shorter t (x ∷ xs) {pre} {post} some_text e = elim (Bool-cases (starts_with t (x ∷ xs))) [
  | inl here ↦
      let l = length-drop (length t) (x ∷ xs) in
      let same : drop (length t) (x ∷ xs) ≡ post = ground arith in omega (arith, ap length same)
  | inr later ↦ elim (Option-cases (split t xs)) [
    | inl absent ↦ absurd (ground arith)
    | inr ((pre', post'), present) ↦
        let same : post' ≡ post = ground arith in
        omega (arith, split-shorter t xs some_text present, ap length same)
  ]
]

headers-Answers :
    (fuel : ℕ) (b : Located)
    → length (unread b.state ++ b.state.incoming) < fuel
    → Usable b
    → Answers (headers fuel b) (parse_headers fuel (unread b.state ++ b.state.incoming))
unfolding headers parse_headers
headers-Answers zero b enough ready = absurd (omega arith)
headers-Answers (suc fuel) b enough ready =
    on_read-Answers (text crlf) b
      (λ ok header c. elim (ok && not (is_empty header)) [
        | true ↦ print_line (header_line header) (headers fuel c)
        | false ↦ returns (end_line ∷ []) c
      ])
      (λ header post. elim (is_empty header) [
        | true ↦ (end_line ∷ [], some post)
        | false ↦ with_line (header_line header) (parse_headers fuel post)
      ])
      (end_line ∷ [], none) (omega arith) (omega arith) ready
      (λ pre post c found r rest. elim (Bool-cases (is_empty pre)) [
        | inl last ↦ rw last (c, refl, r, rest)
        | inr more ↦ rw more (
            print_line-Answers (header_line pre) (headers fuel c) (parse_headers fuel post) (
              subst (λ l. Answers (headers fuel c) (parse_headers fuel l)) rest
                (headers-Answers fuel c
                  (omega (
                    arith,
                    split-shorter crlf (unread b.state ++ b.state.incoming) (omega arith) found,
                    ap length rest,
                  ))
                  r)))
      ])
      (λ out c. (c, refl))

version-Answers :
    (b : Located)
    → Usable b
    → Answers (version_and_headers b) (parse_version (unread b.state ++ b.state.incoming))
unfolding version_and_headers parse_version
version-Answers b ready =
    on_read-Answers (text crlf) b
      (λ ok version c. elim ok [
        | true ↦
            print_line (version_line version)
              (headers (suc (length (unread c.state) + length c.state.incoming)) c)
        | false ↦ returns [] c
      ])
      (λ version post. with_line (version_line version) (parse_headers (suc (length post)) post))
      ([], none) (omega arith) (omega arith) ready
      (λ pre post c found r rest.
        let n = length (unread c.state) + length c.state.incoming in
        let same : n ≡ length post =
          sym (length-append (unread c.state) c.state.incoming) ∙ ap length rest in
        print_line-Answers (version_line pre) (headers (suc n) c)
          (parse_headers (suc (length post)) post)
          (subst (λ k. Answers (headers (suc n) c) (parse_headers (suc k) post)) same
            (subst (λ l. Answers (headers (suc n) c) (parse_headers (suc n) l)) rest
              (headers-Answers (suc n) c
                (omega (arith, length-append (unread c.state) c.state.incoming)) r))))
      (λ out c. (c, refl))

url-Answers :
    (b : Located)
    → Usable b
    → Answers (url_onwards b) (parse_url (unread b.state ++ b.state.incoming))
unfolding url_onwards parse_url
url-Answers b ready =
    on_read-Answers (char space) b
      (λ ok url c. elim ok [
        | true ↦ print_line (url_line url) (version_and_headers c)
        | false ↦ returns [] c
      ])
      (λ url post. with_line (url_line url) (parse_version post)) ([], none) (omega arith)
      (omega arith) ready
      (λ pre post c found r rest.
        print_line-Answers (url_line pre) (version_and_headers c) (parse_version post) (
          subst (λ l. Answers (version_and_headers c) (parse_version l)) rest
            (version-Answers c r)))
      (λ out c. (c, refl))

-- From a stream that gives at least one byte at each receive until the end of what is sent,
-- `request` ends and prints exactly the lines that the unread bytes with those still to come are
-- parsed to, however they are cut into pieces. Where the text goes on behind the empty line, the
-- rest of it is what the stream still gives.
pub request-Answers :
    (b : Located) → Usable b → Answers (request b) (parse (unread b.state ++ b.state.incoming))
unfolding request parse
request-Answers b ready =
    on_read-Answers (char space) b
      (λ ok method c. elim ok [
        | true ↦ print_line (method_line method) (url_onwards c)
        | false ↦ returns [] c
      ])
      (λ method post. with_line (method_line method) (parse_url post)) ([], none) (omega arith)
      (omega arith) ready
      (λ pre post c found r rest.
        print_line-Answers (method_line pre) (url_onwards c) (parse_url post)
          (subst (λ l. Answers (url_onwards c) (parse_url l)) rest (url-Answers c r)))
      (λ out c. (c, refl))
