-- ===== src/Stream/Read.antt =====
-- `read` of `basic_buffered` of demo_stream.hpp finds what comes before the sentinel, in whatever
-- pieces the text arrives.
use net.Prelude.{
  ℕ, ◌+◌, ◌<◌, ◌≡◌, ◌≢◌, refl, sym, ap, subst, ◌∙◌, inl, inr, Bool, true, false, Option, none, some,
  List, [], ◌∷◌, ◌++◌, arith, ◌==◌, ==→eq, Bool-cases, length, length-append, drop, append_assoc,
  append_nil,
}
use net.Prelude.Outcome.{Outcome, returns}
use net.Stream.{
  Sentinel, char, text, Buffered, unread, consume, make_room, receive, sentinel_length, buffer_size,
  read_loop, read,
}
use net.Stream.Split.{split, prepend}
use net.Stream.Buffer.{
  IsValid, word, length-unread, unread-advance, consume_lem, Consumed, Missing, Parts,
  make_room-Roomy, Roomy, arrived, receive-Received, Received, empty_of_length,
}

abbrev pub AllPositive : List ℕ → Type 0
AllPositive [] = Unit
AllPositive (n ∷ ns) = (0 < n) × AllPositive ns

-- Each receive gives something until all is there, and then one more says that it is the end.
abbrev Enough : List ℕ → List ℕ → Type 0
Enough incoming sizes = AllPositive sizes × (length incoming < length sizes)

abbrev pub IsReady : Buffered → Type 0
IsReady b = IsValid b × Enough b.incoming b.sizes

-- What `read` ends with for a text that is split so: the text before the sentinel is appended and
-- the rest is still to be read, or all was taken and nothing of it is lost.
abbrev pub Reads :
    Outcome (List ℕ × Buffered) Bool → List ℕ → List ℕ → Option (List ℕ × List ℕ) → Type 0
Reads o to all (some (pre, post)) =
    (c : Buffered) × (o ≡ returns true (to ++ pre, c)) × IsReady c × (unread c ++ c.incoming ≡ post)
Reads o to all none =
    (out : List ℕ) × (c : Buffered) × (o ≡ returns false (out, c))
    × (c.incoming ≡ [])
    × (out ++ unread c ≡ to ++ all)

Reads-prepend :
    (o : Outcome (List ℕ × Buffered) Bool) (to out all : List ℕ) (x : Option (List ℕ × List ℕ))
    → Reads o (to ++ out) all x
    → Reads o to (out ++ all) (prepend out x)
Reads-prepend o to out all (some (pre, post)) (c, e, r, h) =
    (c, e ∙ ap (λ l. returns true (l, c)) (append_assoc to out pre), r, h)
Reads-prepend o to out all none (l, c, e, i, h) = (l, c, e, i, h ∙ append_assoc to out all)

sentinel_length-word : (s : Sentinel) → sentinel_length s ≡ length (word s)
sentinel_length-word (char c) = refl
sentinel_length-word (text t) = refl

module _ (s : Sentinel) (some_text : 0 < length (word s))
    (short : length (word s) + 1 < buffer_size) where
  at_sentinel :
      (b : Buffered) (n : ℕ) (sizes to : List ℕ)
      → IsValid b
      → Enough b.incoming (n ∷ sizes)
      → (consume s b).0 ≡ false
      → Consumed (word s) b (consume s b)
      → Reads
          (read_loop s (n ∷ sizes) to b)
          to
          (unread b ++ b.incoming)
          (split (word s) (unread b ++ b.incoming))
  unfolding read_loop
  at_sentinel b n sizes to v enough e (p, inr (e', _)) = absurd cc
  at_sentinel b n sizes to v enough e (p, inl (_, (fits, text_is))) =
      let c = (consume s b).2 in
      let k = sentinel_length-word s in
      let l = length-unread c p.valid in
      let o = p.valid.ordered in
      let there = unread-advance c (length (word s)) (c.it + sentinel_length s) (omega arith) in
      rw (text_is b.incoming, e, read_loop)
        (
          record c { it = c.it + sentinel_length s; sizes = n ∷ sizes },
          refl,
          (
            record { full = p.valid.full; ordered = omega arith; within = p.valid.within },
            subst (λ i. Enough i (n ∷ sizes)) (sym p.same_incoming) enough,
          ),
          ap (λ l. l ++ c.incoming) there
              ∙ ap (λ i. drop (length (word s)) (unread c) ++ i) p.same_incoming,
        )

  -- The sentinel is not among the unread bytes; n bytes are there at the next receive.
  module _ (b : Buffered) (n : ℕ) (sizes to : List ℕ) (v : IsValid b)
      (enough : Enough b.incoming (n ∷ sizes)) (e : (consume s b).0 ≡ true)
      (p : Parts b (consume s b).1 (consume s b).2)
      (m : Missing (word s) b (consume s b).1 (consume s b).2) where
    roomy : Roomy (consume s b).2 (make_room (consume s b).2)
    roomy = make_room-Roomy (consume s b).2 p.valid (omega (arith, m.0))

    received : Received n (make_room (consume s b).2)
    received = receive-Received n (make_room (consume s b).2) roomy.valid roomy.room

    at_eof :
        (receive n (make_room (consume s b).2)).0 ≡ 0
        → Reads
            (read_loop s (n ∷ sizes) to b)
            to
            (unread b ++ b.incoming)
            (split (word s) (unread b ++ b.incoming))
    unfolding read_loop
    at_eof no_byte =
        let out = (consume s b).1 in
        let c = (consume s b).2 in
        let g = received in
        let all_taken : b.incoming ≡ [] =
          sym p.same_incoming ∙ sym roomy.same_incoming ∙ g.some enough.0.0 no_byte in
        let f = (receive n (make_room c)).1 in
        let zero_read : ((receive n (make_room c)).0 == 0) ≡ true = ground arith in
        let bare : unread b ++ b.incoming ≡ unread b =
          ap (λ i. unread b ++ i) all_taken ∙ append_nil (unread b) in
        let nothing : f.incoming ≡ [] = empty_of_length f.incoming (
          omega (
            arith,
            length-append g.chunk f.incoming,
            ap length (g.taken ∙ roomy.same_incoming ∙ p.same_incoming ∙ all_taken),
          )) in
        subst (λ l. Reads (read_loop s (n ∷ sizes) to b) to l (split (word s) l)) (sym bare)
          (rw m.1 (
            to ++ out,
            record f { sizes = sizes },
            rw (e, zero_read, read_loop) refl,
            nothing,
            append_assoc to out (unread f)
                ∙ ap (λ l. to ++ l)
                    (ap (λ l. out ++ l) (g.idle no_byte ∙ roomy.same_unread) ∙ p.bytes),
          ))

    fewer :
        (receive n (make_room (consume s b).2)).0 ≢ 0
        → length (arrived n (make_room (consume s b).2)).incoming < length sizes
    fewer some_byte =
        let g = received in
        let all = ap length (g.taken ∙ roomy.same_incoming ∙ p.same_incoming) in
        let parts = length-append g.chunk (arrived n (make_room (consume s b).2)).incoming in
        let counted = g.count in
        let some_chunk : length g.chunk ≢ 0 = λ z. some_byte (counted ∙ z) in omega arith

    goes_on :
        (receive n (make_room (consume s b).2)).0 ≢ 0
        → Reads
            (read_loop s sizes (to ++ (consume s b).1) (arrived n (make_room (consume s b).2)))
            (to ++ (consume s b).1)
            (unread (arrived n (make_room (consume s b).2))
              ++ (arrived n (make_room (consume s b).2)).incoming)
            (split (word s) (
              unread (arrived n (make_room (consume s b).2))
              ++ (arrived n (make_room (consume s b).2)).incoming))
        → Reads
            (read_loop s (n ∷ sizes) to b)
            to
            (unread b ++ b.incoming)
            (split (word s) (unread b ++ b.incoming))
    unfolding read_loop
    goes_on some_byte rest =
        let out = (consume s b).1 in
        let c = (consume s b).2 in
        let d = make_room c in
        let g = received in
        let a = arrived n d in
        let not_zero : ((receive n d).0 == 0) ≡ false = ground arith in
        let step : read_loop s (n ∷ sizes) to b ≡ read_loop s sizes (to ++ out) a =
          rw (e, not_zero, read_loop) refl in
        let still : unread a ++ a.incoming ≡ unread c ++ b.incoming =
          ap (λ l. l ++ a.incoming) (g.behind ∙ ap (λ l. l ++ g.chunk) roomy.same_unread)
          ∙ append_assoc (unread c) g.chunk a.incoming
          ∙ ap (λ l. unread c ++ l) (g.taken ∙ roomy.same_incoming ∙ p.same_incoming) in
        let whole : out ++ (unread c ++ b.incoming) ≡ unread b ++ b.incoming =
          sym (append_assoc out (unread c) b.incoming) ∙ ap (λ l. l ++ b.incoming) p.bytes in
        let rest' =
          subst (λ l. Reads (read_loop s sizes (to ++ out) a) (to ++ out) l (split (word s) l))
            still rest in
        rw (m.2 b.incoming, step)
          (subst
            (λ l.
              Reads (read_loop s sizes (to ++ out) a) to l
                (prepend out (split (word s) (unread c ++ b.incoming))))
            whole
            (Reads-prepend (read_loop s sizes (to ++ out) a) to out (unread c ++ b.incoming)
              (split (word s) (unread c ++ b.incoming)) rest'))

  loop-Reads :
      (sizes to : List ℕ) (b : Buffered)
      → IsValid b
      → Enough b.incoming sizes
      → Reads
          (read_loop s sizes to b)
          to
          (unread b ++ b.incoming)
          (split (word s) (unread b ++ b.incoming))
  unfolding read_loop
  loop-Reads [] to b v enough = absurd (omega arith)
  loop-Reads (n ∷ sizes) to b v enough =
      let (p, ends) = consume_lem s b v some_text in
      elim ends [
        | inl f ↦ at_sentinel b n sizes to v enough f.0 (p, inl f)
        | inr (e, m) ↦
            let d = make_room (consume s b).2 in
            let g = received b n sizes to v enough e p m in
            elim (Bool-cases ((receive n d).0 == 0)) [
              | inl no_byte ↦ at_eof b n sizes to v enough e p m (==→eq (receive n d).0 0 no_byte)
              | inr some_byte ↦
                  let not_zero : (receive n d).0 ≢ 0 = λ z. ground arith in
                  goes_on b n sizes to v enough e p m not_zero (
                    loop-Reads sizes (to ++ (consume s b).1) (arrived n d) g.valid
                      (enough.0.1, fewer b n sizes to v enough e p m not_zero))
            ]
      ]

-- For a sentinel that is not empty and that the buffer has room for with a byte to spare, and a
-- stream that gives at least one byte at each receive until the end of what is sent, `read` ends.
-- Where the sentinel occurs in the bytes that are unread or still to come, what comes before its
-- first occurrence is appended and what comes behind it is left to be read; else the result is
-- false, and what was appended with what is unread is the whole text. This holds however the text
-- is cut into the pieces that arrive, and across any number of fillings of the buffer.
pub read_lem :
    (s : Sentinel) (to : List ℕ) (b : Buffered)
    → 0 < length (word s)
    → length (word s) + 1 < buffer_size
    → IsReady b
    → Reads (read s to b) to (unread b ++ b.incoming) (split (word s) (unread b ++ b.incoming))
unfolding read
read_lem s to b some_text short (v, enough) = loop-Reads s some_text short b.sizes to b v enough
