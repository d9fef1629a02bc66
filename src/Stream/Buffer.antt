-- ===== src/Stream/Buffer.antt =====
-- The buffer of `basic_buffered` of demo_stream.hpp: what `consume`, the move of the unread bytes
-- and `receive` do to the bytes that are unread, for any sentinel that the buffer has room for.
use net.Prelude.{
  ℕ, zero, suc, ◌+◌, ◌-◌, ◌/◌, ◌≤◌, ◌<◌, ◌≡◌, ◌≢◌, refl, sym, ap, subst, ◌∙◌, ◌⊎◌, inl, inr, Bool,
  true, false, none, some, List, [], ◌∷◌, ◌++◌, arith, ltb, ◌==◌, Bool-cases, min, length,
  length-append, length-take, length-drop, take, drop, take-drop, drop-drop, drop-append,
  take-append, append_nil, take-append_behind, take-take, take-drop_length, search, search-le, find,
  find-search,
}
use net.Stream.{
  Sentinel, char, text, Buffered, unread, consume, make_room, add_receive_data, receive,
  buffer_size,
}
use net.Stream.Split.{split, prepend, split-found, split-take, split-absent}

-- The iterators are in order and within the buffer.
pub record IsValid (b : Buffered) : Type 0 where
  pub full : length b.buffer ≡ buffer_size
  pub ordered : b.it ≤ b.end
  pub within : b.end ≤ buffer_size

-- `buffer{}`.
abbrev pub zeros : ℕ → List ℕ
zeros zero = []
zeros (suc n) = 0 ∷ zeros n

abbrev pub word : Sentinel → List ℕ
word (char c) = c ∷ []
word (text t) = t

pub length-unread : (b : Buffered) → IsValid b → length (unread b) ≡ b.end - b.it
length-unread b v =
    let l = length-drop b.it (take b.end b.buffer) in
    let k = length-take b.end b.buffer in let f = v.full in let w = v.within in ground arith

-- Moving the first iterator by n takes n bytes off.
pub unread-advance :
    (b : Buffered) (n k : ℕ) → k ≡ b.it + n → unread (record b { it = k }) ≡ drop n (unread b)
unread-advance b n k e = sym (drop-drop b.it n k (take b.end b.buffer) e)

-- What `consume` gave: the bytes set aside and the new state.
pub record Parts (b : Buffered) (out : List ℕ) (c : Buffered) : Type 0 where
  pub valid : IsValid c
  pub same_incoming : c.incoming ≡ b.incoming
  pub same_sizes : c.sizes ≡ b.sizes
  pub bytes : out ++ unread c ≡ unread b

pub advance-Parts :
    (b : Buffered) (n k : ℕ)
    → IsValid b
    → k ≡ b.it + n
    → n ≤ length (unread b)
    → Parts b (take n (unread b)) (record b { it = k })
advance-Parts b n k v e le = record {
  valid = record {
    full = v.full;
    ordered = omega (arith, length-unread b v, v.ordered);
    within = v.within;
  };
  same_incoming = refl;
  same_sizes = refl;
  bytes = ap (λ l. take n (unread b) ++ l) (unread-advance b n k e) ∙ take-drop n (unread b);
}

-- The two ends of `consume`: the sentinel t is the first of the unread bytes; or there is none, and
-- what was set aside cannot be a part of one.
abbrev pub Found : List ℕ → Buffered → List ℕ → Buffered → Type 0
Found t b out c =
    (length t ≤ length (unread c))
    × ((more : List ℕ)
        → split t (unread b ++ more) ≡ some (out, drop (length t) (unread c) ++ more))

abbrev pub Missing : List ℕ → Buffered → List ℕ → Buffered → Type 0
Missing t b out c =
    (length (unread c) ≤ length t + 1)
    × (split t (unread b) ≡ none)
    × ((more : List ℕ) → split t (unread b ++ more) ≡ prepend out (split t (unread c ++ more)))

abbrev pub Consumed : List ℕ → Buffered → Bool × List ℕ × Buffered → Type 0
Consumed t b (more, out, c) =
    Parts b out c × (((more ≡ false) × Found t b out c) ⊎ ((more ≡ true) × Missing t b out c))

module _ (t : List ℕ) (b : Buffered) (v : IsValid b) (k : ℕ) where
  at_sentinel :
      k ≡ b.it + search t (unread b)
      → (k == b.end) ≡ false
      → Consumed t b (false, take (k - b.it) (unread b), record b { it = k })
  at_sentinel e later =
      let n = search t (unread b) in
      let from : k - b.it ≡ n = omega arith in
      let l = length-unread b v in
      let o = v.ordered in
      let some_found : n ≢ length (unread b) = λ same. ground arith in
      rw from (
        advance-Parts b n k v e (search-le t (unread b)),
        inl (
          refl,
          rw (unread-advance b n k e) (
            (split-found t (unread b) [] some_found).1,
            λ more. (split-found t (unread b) more some_found).0,
          ),
        ),
      )

  at_end :
      0 < length t
      → search t (unread b) ≡ length (unread b)
      → b.it ≤ k
      → k ≤ b.end
      → (b.it < k → length t ≤ b.end - k + 1)
      → b.end - k ≤ length t + 1
      → Consumed t b (true, take (k - b.it) (unread b), record b { it = k })
  at_end some_text none_found ge le enough few =
      let n = k - b.it in
      let l = length-unread b v in
      let l' = length-drop n (unread b) in
      (
        advance-Parts b n k v (omega arith) (omega arith),
        inr (
          refl,
          rw (unread-advance b n k (omega arith)) (
            omega arith,
            split-absent t (unread b) none_found,
            λ more.
                split-take t (unread b) more n some_text none_found
                  (λ some_out. omega (arith, enough (omega arith))),
          ),
        ),
      )

pub consume_lem :
    (s : Sentinel) (b : Buffered)
    → IsValid b
    → 0 < length (word s)
    → Consumed (word s) b (consume s b)
unfolding consume
consume_lem (char c) b v some_text =
    let n = find c (unread b) in
    let same = find-search c (unread b) in
    let l = length-unread b v in
    let o = v.ordered in
    elim (Bool-cases (b.it + n == b.end)) [
      | inl last ↦ rw last (
          at_end (c ∷ []) b v (b.it + n) some_text (ground arith) (omega arith) (ground arith)
            (λ some_out. ground arith) (ground arith))
      | inr later ↦ rw later (at_sentinel (c ∷ []) b v (b.it + n) (omega arith) later)
    ]
consume_lem (text t) b v some_text =
    let n = search t (unread b) in
    let l = length-unread b v in
    let o = v.ordered in
    elim (Bool-cases (b.it + n == b.end)) [
      | inl last ↦
          rw (last, consume)
            (at_end t b v (b.it + n - min (b.it + n - b.it) (length t + 1)) some_text (ground arith)
              (ground arith) (ground arith) (λ some_out. ground arith) (ground arith))
      | inr later ↦ rw (later, consume) (at_sentinel t b v (b.it + n) refl later)
    ]

-- The same unread bytes, and room behind them.
pub record Roomy (c d : Buffered) : Type 0 where
  pub valid : IsValid d
  pub same_incoming : d.incoming ≡ c.incoming
  pub same_sizes : d.sizes ≡ c.sizes
  pub same_unread : unread d ≡ unread c
  pub room : d.end < buffer_size

pub make_room-Roomy :
    (c : Buffered) → IsValid c → length (unread c) < buffer_size → Roomy c (make_room c)
unfolding make_room
make_room-Roomy c v short =
    let u = unread c in
    let n = length u in
    elim (Bool-cases (ltb (buffer_size - c.end) (buffer_size / 2))) [
      | inl tight ↦
          rw (tight, make_room)
            (record {
              valid = record {
                full =
                    omega
                      (arith, length-append u (drop n c.buffer), length-drop n c.buffer, v.full);
                ordered = omega arith;
                within = omega arith;
              };
              same_incoming = refl;
              same_sizes = refl;
              same_unread = take-append u (drop n c.buffer);
              room = short;
            })
      | inr wide ↦
          rw (wide, make_room)
            (record {
              valid = v;
              same_incoming = refl;
              same_sizes = refl;
              same_unread = refl;
              room = ground arith;
            })
    ]

-- The state of `read` after a receive that was told of n bytes.
abbrev pub arrived : ℕ → Buffered → Buffered
arrived n d = let (got, e) = receive n d in record e { end = e.end + got }

-- The bytes that came, which are as many as the receive says, are behind the unread ones.
pub record Received (n : ℕ) (d : Buffered) : Type 0 where
  pub valid : IsValid (arrived n d)
  pub chunk : List ℕ
  pub count : (receive n d).0 ≡ length chunk
  pub behind : unread (arrived n d) ≡ unread d ++ chunk
  pub taken : chunk ++ (receive n d).1.incoming ≡ d.incoming
  pub same_end : (receive n d).1.end ≡ d.end
  pub same_it : (receive n d).1.it ≡ d.it
  pub idle : (receive n d).0 ≡ 0 → unread (receive n d).1 ≡ unread d
  pub some : 0 < n → (receive n d).0 ≡ 0 → d.incoming ≡ []

pub empty_of_length : {A : Type 0} (xs : List A) → length xs ≡ 0 → xs ≡ []
empty_of_length [] e = refl
empty_of_length (x ∷ xs) e = absurd (omega arith)

pub receive-Received : (n : ℕ) (d : Buffered) → IsValid d → d.end < buffer_size → Received n d
unfolding receive add_receive_data
receive-Received n d v room =
    let avail = take n d.incoming in
    let fits = min (length avail) (buffer_size - d.end) in
    let chunk = take fits avail in
    let before = take d.end d.buffer in
    let rest = drop (d.end + length chunk) d.buffer in
    let b_len : length before ≡ d.end =
      ground (arith, length-take d.end d.buffer, v.full, v.within) in
    let c_len = length-take fits avail in
    let a_len = length-take n d.incoming in
    let all_len = length-append (before ++ chunk) rest in
    let some_len = length-append before chunk in
    let r_len = length-drop (d.end + length chunk) d.buffer in
    let f = v.full in
    let o = v.ordered in
    record {
      valid = record { full = ground arith; ordered = omega arith; within = ground arith };
      chunk = chunk;
      count = refl;
      behind =
          ap (λ l. drop d.it l)
            (take-append_behind before chunk rest (d.end + length chunk) (omega arith))
          ∙ drop-append d.it before chunk (omega arith);
      taken =
          subst (λ l. l ++ drop (length l) d.incoming ≡ d.incoming)
            (sym (take-take fits n d.incoming)) (take-drop_length (min fits n) d.incoming);
      same_end = refl;
      same_it = refl;
      idle = λ no_byte.
          ap (λ l. drop d.it l) (take-append_behind before chunk rest d.end (omega arith))
          ∙ drop-append d.it before chunk (omega arith)
          ∙ ap (λ l. drop d.it before ++ l) (empty_of_length chunk no_byte)
          ∙ append_nil (drop d.it before);
      some = λ pos no_byte. empty_of_length d.incoming (ground arith);
    }
