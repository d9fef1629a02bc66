-- ===== src/Stream.antt =====
-- examples/demo_stream.hpp: `basic_buffered` over `memory`, which reads up to a sentinel from what
-- arrives in pieces. The iterators into the buffer are indices. What a stream still gives is
-- `incoming`, the bytes that the other side sends, and `sizes`, how many of them are there at each
-- receive; a receive with none of `sizes` left waits.
pub mod Context
pub mod Split
pub mod Buffer
pub mod Read
mod Examples
use net.Prelude.{
  ℕ, ◌+◌, ◌-◌, ◌/◌, Bool, true, false, List, [], ◌∷◌, ◌++◌, ltb, ◌==◌, if◌then◌else◌, length, min,
  take, drop, find, search,
}
use net.Prelude.Outcome.{Outcome, returns, waits}

-- The sentinels that `consume` and `length` are overloaded on.
pub data Sentinel : Type 0 where
  char : ℕ → Sentinel
  text : List ℕ → Sentinel

pub record Buffered : Type 0 where
  pub buffer : List ℕ
  pub it : ℕ
  pub end : ℕ
  pub incoming : List ℕ
  pub sizes : List ℕ

abbrev pub buffer_size : ℕ
buffer_size = 1024

-- The bytes between the iterators.
abbrev pub unread : Buffered → List ℕ
unread b = drop b.it (take b.end b.buffer)

-- `length`.
abbrev pub sentinel_length : Sentinel → ℕ
sentinel_length (char c) = 1
sentinel_length (text t) = length t

-- `consume`: whether no sentinel was found, with what is added to `to`.
unfoldable pub consume : Sentinel → Buffered → Bool × List ℕ × Buffered
consume (char c) b =
    let stop = b.it + find c (unread b) in
    (stop == b.end, take (stop - b.it) (unread b), record b { it = stop })
consume (text t) b =
    let stop = b.it + search t (unread b) in
    if stop == b.end
    then (let kept = stop - min (stop - b.it) (length t + 1) in
        (true, take (kept - b.it) (unread b), record b { it = kept }))
    else (false, take (stop - b.it) (unread b), record b { it = stop })

-- The move of the unread bytes to the front of the buffer when less than half of it is left.
unfoldable pub make_room : Buffered → Buffered
make_room b =
    if ltb (buffer_size - b.end) (buffer_size / 2)
    then record b {
      buffer = unread b ++ drop (length (unread b)) b.buffer;
      it = 0;
      end = length (unread b);
    }
    else b

-- `add_receive_data`: what is copied, of some data, to a buffer of a length.
unfoldable pub add_receive_data : List ℕ → ℕ → List ℕ
add_receive_data data_in iov_len = take (min (length data_in) iov_len) data_in

-- `receive`, where there are n bytes of data: the number of bytes received.
unfoldable pub receive : ℕ → Buffered → ℕ × Buffered
unfolding add_receive_data
receive n b =
    let data_in = add_receive_data (take n b.incoming) (buffer_size - b.end) in
    (
      length data_in,
      record b {
        buffer = take b.end b.buffer ++ data_in ++ drop (b.end + length data_in) b.buffer;
        incoming = drop (length data_in) b.incoming;
      },
    )

-- The loop of `read`, over the sizes that are left.
unfoldable pub read_loop :
    Sentinel → (sizes : List ℕ) → List ℕ → Buffered → Outcome (List ℕ × Buffered) Bool
unfolding consume make_room receive
read_loop s [] to b =
    let (more, out, c) = consume s b in
    if more
    then waits
    else returns true (to ++ out, record c { it = c.it + sentinel_length s; sizes = [] })
read_loop s (n ∷ sizes) to b =
    let (more, out, c) = consume s b in
    elim more [
      | false ↦
          returns true (to ++ out, record c { it = c.it + sentinel_length s; sizes = n ∷ sizes })
      | true ↦
          let (got, d) = receive n (make_room c) in
          if got == 0
          then returns false (to ++ out, record d { sizes = sizes })
          else read_loop s sizes (to ++ out) (record d { end = d.end + got })
    ]

-- `read`.
unfoldable pub read : Sentinel → List ℕ → Buffered → Outcome (List ℕ × Buffered) Bool
unfolding read_loop
read s to b = read_loop s b.sizes to b
