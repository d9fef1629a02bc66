-- ===== src/Http.antt =====
-- examples/demo_http.hpp: `request`, the coroutine that reads a request from a buffered stream.
-- What it prints is a list of lines. The loop over the headers runs on fuel; one more than the
-- number of bytes that are unread or still to come is enough.
pub mod Parse
pub mod RoundTrip
mod Examples
use net.Prelude.{
  ℕ, zero, suc, ◌+◌, Bool, true, false, not, ◌&&◌, List, [], ◌∷◌, length, if◌then◌else◌, ◌==◌,
}
use net.Prelude.Outcome.{Outcome, returns, waits, undefined, terminated}
use net.Stream.Buffer.{zeros}
use net.Stream.{Sentinel, char, text, Buffered, unread, read}

pub data Line : Type 0 where
  method_line url_line version_line header_line : List ℕ → Line
  end_line : Line

abbrev pub space : ℕ
space = 32

abbrev pub crlf : List ℕ
crlf = 13 ∷ 10 ∷ []

abbrev pub is_empty : List ℕ → Bool
is_empty [] = true
is_empty (x ∷ xs) = false

-- A stream at the address of its object, and the address of the object whose buffer its iterators
-- `it` and `end` point into.
pub record Located : Type 0 where
  pub object : ℕ
  pub into : ℕ
  pub state : Buffered

-- A stream that is constructed at an address: its iterators are at the start of its buffer.
abbrev pub tcp_stream : (object : ℕ) → (incoming sizes : List ℕ) → Located
tcp_stream object incoming sizes = record {
  object = object;
  into = object;
  state = record { buffer = zeros 1024; it = 0; end = 0; incoming = incoming; sizes = sizes };
}

-- The constructor of `http_client` moves its parameter to the member `stream` at another address.
-- The implicit move constructor of `basic_buffered` copies the buffer and the iterators, so these
-- still point into the parameter, whose life then ends.
abbrev pub http_client : (object : ℕ) → Located → Located
http_client object s = record s { object = object }

-- `co_await stream.read(to, sentinel)` with `to` empty, and what comes after it. Where the
-- iterators point into another object, `read` dereferences them or, when nothing is unread, takes
-- their distance from the end of its own buffer: both are undefined behaviour.
abbrev pub on_read :
    Sentinel
    → Located
    → (Bool → List ℕ → Located → Outcome Located (List Line))
    → Outcome Located (List Line)
on_read s b k = elim (b.into == b.object) [
  | false ↦ undefined
  | true ↦ elim (read s [] b.state) [
    | returns ok r ↦ k ok r.0 (record b { state = r.1 })
    | waits ↦ waits
    | undefined ↦ undefined
    | terminated ↦ terminated
  ]
]

abbrev pub print_line : Line → Outcome Located (List Line) → Outcome Located (List Line)
print_line l (returns ls b) = returns (l ∷ ls) b
print_line l waits = waits
print_line l undefined = undefined
print_line l terminated = terminated

-- The loop over the headers, and the line behind it.
unfoldable pub headers : ℕ → Located → Outcome Located (List Line)
headers zero b = waits
headers (suc fuel) b = on_read (text crlf) b (λ ok header c. elim (ok && not (is_empty header)) [
  | true ↦ print_line (header_line header) (headers fuel c)
  | false ↦ returns (end_line ∷ []) c
])

-- The body of `request` from the version on.
unfoldable pub version_and_headers : Located → Outcome Located (List Line)
unfolding headers
version_and_headers b = on_read (text crlf) b (λ ok version c. elim ok [
  | true ↦
      print_line (version_line version)
        (headers (suc (length (unread c.state) + length c.state.incoming)) c)
  | false ↦ returns [] c
])

-- The body of `request` from the target on.
unfoldable pub url_onwards : Located → Outcome Located (List Line)
unfolding version_and_headers
url_onwards b = on_read (char space) b (λ ok url c. elim ok [
  | true ↦ print_line (url_line url) (version_and_headers c)
  | false ↦ returns [] c
])

unfoldable pub request : Located → Outcome Located (List Line)
unfolding url_onwards
request b = on_read (char space) b (λ ok method c. elim ok [
  | true ↦ print_line (method_line method) (url_onwards c)
  | false ↦ returns [] c
])
