-- ===== src/SortedList/Insert.antt =====
-- The pointer code of `insert` puts the node where the specification does.
use net.Prelude.{
  ℕ, zero, suc, ◌<◌, ◌≡◌, refl, subst, ◌≢◌, inl, inr, sym, ◌∙◌, Bool, some, List, [], ◌∷◌, arith,
  IsIn, Distinct, length, Bool-cases,
}
use net.SortedList.{Store, Link, at_head, next_of, read, write, seek, splice, insert}
use net.SortedList.View.{Segment, Holds, insert_sorted}
use net.SortedList.Links.{
  read-write_self, read-write_ne, Outside, Segment-frame, next_of-injective, Outside-next,
}

module _ (s : Store) (node : ℕ) (it : Link) (xs : List ℕ) (out : Outside it (node ∷ xs)) where
  splice-Outside :
      (m : Link) → m ≢ it → Outside m (node ∷ xs) → read (splice s node it) m ≡ read s m
  splice-Outside m h o =
      read-write_ne (write s (next_of node) (read s it)) it m (some node) (λ e. h (sym e))
      ∙ read-write_ne s (next_of node) m (read s it) (λ e. o node (inl refl) (sym e))

  splice-next : (splice s node it).next node ≡ read s it
  splice-next =
      read-write_ne (write s (next_of node) (read s it)) it (next_of node) (some node)
        (out node (inl refl))
      ∙ read-write_self s (next_of node) (read s it)

  splice-kept : ¬ IsIn node xs → (j : ℕ) → IsIn j xs → (splice s node it).next j ≡ s.next j
  splice-kept fresh j i =
      read-write_ne (write s (next_of node) (read s it)) it (next_of j) (some node) (out j (inr i))
      ∙ read-write_ne s (next_of node) (next_of j) (read s it)
          (λ e. fresh (rw (next_of-injective e) i))

  splice-Segment :
      Segment s (read s it) xs
      → ¬ IsIn node xs
      → Segment (splice s node it) (read (splice s node it) it) (node ∷ xs)
  splice-Segment seg fresh = (
    read-write_self (write s (next_of node) (read s it)) it (some node),
    rw splice-next (Segment-frame s (splice s node it) (read s it) xs seg (splice-kept fresh)),
  )

Outside-drop :
    (l : Link) (node x : ℕ) (xs : List ℕ) → Outside l (node ∷ x ∷ xs) → Outside l (node ∷ xs)
Outside-drop l node x xs out j (inl i) = out j (inl i)
Outside-drop l node x xs out j (inr i) = out j (inr (inr i))

module _ {V : Type 0} (comp : V → V → Bool) (value : ℕ → V) where
  -- The store after the node was spliced in at `l`, seen from the link `it`.
  abbrev Spliced : Store → ℕ → Link → List ℕ → Link → Type 0
  Spliced s node it xs l =
      Segment (splice s node l) (read (splice s node l) it) (insert_sorted comp value node xs)
      × ((m : Link) → m ≢ it → Outside m (node ∷ xs) → read (splice s node l) m ≡ read s m)

  seek-Spliced :
      (k : ℕ) (s : Store) (node : ℕ) (it : Link) (xs : List ℕ)
      → length xs < k
      → Segment s (read s it) xs
      → Outside it (node ∷ xs)
      → Distinct xs
      → ¬ IsIn node xs
      → (l : Link) × (seek comp value k s (value node) it ≡ some l) × Spliced s node it xs l
  unfolding seek
  seek-Spliced zero s node it xs fuel seg out d fresh = absurd (omega arith)
  seek-Spliced (suc k) s node it [] fuel seg out d fresh = (
    it,
    rw (seg, seek),
    (splice-Segment s node it [] out seg fresh, splice-Outside s node it [] out),
  )
  seek-Spliced (suc k) s node it (x ∷ xs) fuel (e, seg) out (ne, d) fresh =
      elim (Bool-cases (comp (value x) (value node))) [
        | inl less ↦
            let (l, found, (seg', same)) =
              seek-Spliced k s node (next_of x) xs (omega arith) seg
                (Outside-next x node xs (λ i. fresh (inl i)) ne) d (λ i. fresh (inr i)) in
            (
              l,
              rw (e, less, seek) found,
              (
                rw less
                    (same it (out x (inr (inl refl))) (Outside-drop it node x xs out) ∙ e, seg'),
                λ m _ o. same m (o x (inr (inl refl))) (Outside-drop m node x xs o),
              ),
            )
        | inr stop ↦ (
          it,
          rw (e, stop, seek),
          (
            rw stop (splice-Segment s node it (x ∷ xs) out (e, seg) fresh),
            splice-Outside s node it (x ∷ xs) out,
          ),
        )
      ]

  -- The nodes after an insertion are the node and the old ones.
  pub mem-insert_sorted :
      (node j : ℕ) (xs : List ℕ) → IsIn j (insert_sorted comp value node xs) → IsIn j (node ∷ xs)
  mem-insert_sorted node j [] h = h
  mem-insert_sorted node j (x ∷ xs) h = elim (Bool-cases (comp (value x) (value node))) [
    | inl less ↦ elim (rw less at h) [
      | inl here ↦ inr (inl here)
      | inr there ↦ elim (mem-insert_sorted node j xs there) [
        | inl new ↦ inl new
        | inr old ↦ inr (inr old)
      ]
    ]
    | inr stop ↦ rw stop at h
  ]

  Distinct-insert_sorted :
      (node : ℕ) (xs : List ℕ)
      → Distinct xs
      → ¬ IsIn node xs
      → Distinct (insert_sorted comp value node xs)
  Distinct-insert_sorted node [] d fresh = (λ i. i, tt)
  Distinct-insert_sorted node (x ∷ xs) (out, d) fresh =
      elim (Bool-cases (comp (value x) (value node))) [
        | inl less ↦ rw less (
          λ i. elim (mem-insert_sorted node x xs i) [
            | inl new ↦ fresh (inl (sym new))
            | inr old ↦ out old
          ],
          Distinct-insert_sorted node xs d (λ i. fresh (inr i)),
        )
        | inr stop ↦ rw stop (fresh, (out, d))
      ]

  -- Given one round of fuel more than there are nodes, `insert` of a node that is not in the list
  -- ends with the list of the specification, and writes no `next` field but those of that node and
  -- of the nodes of the list.
  pub insert-Holds :
      (fuel : ℕ) (s : Store) (node : ℕ) (xs : List ℕ)
      → length xs < fuel
      → Holds s xs
      → ¬ IsIn node xs
      → (t : Store) × (insert comp value fuel s node ≡ some t)
        × Holds t (insert_sorted comp value node xs)
        × ((j : ℕ) → ¬ IsIn j (node ∷ xs) → t.next j ≡ s.next j)
  unfolding insert
  insert-Holds fuel s node xs enough h fresh =
      let (l, found, (seg, same)) =
        seek-Spliced fuel s node at_head xs enough h.segment (λ j i e. cc) h.distinct fresh in
      (
        splice s node l,
        rw found,
        record { segment = seg; distinct = Distinct-insert_sorted node xs h.distinct fresh },
        λ j out.
            same (next_of j) (λ e. cc)
              λ i into e. out (subst (λ k. IsIn k (node ∷ xs)) (sym (next_of-injective e)) into),
      )
