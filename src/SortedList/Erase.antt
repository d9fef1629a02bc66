-- ===== src/SortedList/Erase.antt =====
-- The pointer code of `erase` and `pop_front` does what the specification says.
use net.Prelude.{
  ℕ, zero, suc, ◌<◌, ◌≡◌, refl, subst, ◌≢◌, inl, inr, sym, ◌∙◌, true, Option, none, some, List, [],
  ◌∷◌, arith, ◌==◌, ==→eq, IsIn, Distinct, length, Bool-cases, if◌then◌else◌,
}
use net.SortedList.{Store, Link, at_head, next_of, read, write, find, unlink, erase, pop_front}
use net.SortedList.View.{Segment, Holds, remove, contains}
use net.SortedList.Links.{read-write_self, read-write_ne, Outside, Segment-frame, next_of-injective}

-- What the code after the loop makes of the link `l` that the loop ended with.
abbrev result : Store → ℕ → Link → Option ℕ × Store
result s node l = unlink s node l (read s l)

-- The outcome of `erase`, seen from the link `it` at which the loop was.
abbrev Unlinked : Store → ℕ → Link → List ℕ → Link → Type 0
Unlinked s node it xs l =
    ((result s node l).0 ≡ (if contains node xs then some node else none))
    × Segment (result s node l).1 (read (result s node l).1 it) (remove node xs)
    × ((m : Link) → m ≢ it → Outside m xs → read (result s node l).1 m ≡ read s m)

result_hit :
    (s : Store) (node : ℕ) (it : Link) (x : ℕ)
    → read s it ≡ some x
    → (x == node) ≡ true
    → result s node it ≡ (some node, write s it (s.next node))
result_hit s node it x e hit = rw (e, unlink, hit)

unlink_hit :
    (s : Store) (node : ℕ) (it : Link) (x : ℕ) (xs : List ℕ)
    → (x == node) ≡ true
    → Segment s (read s it) (x ∷ xs)
    → Outside it (x ∷ xs)
    → Unlinked s node it (x ∷ xs) it
unlink_hit s node it x xs hit (e, seg) out =
    rw (result_hit s node it x e hit, hit)
      (
        refl,
        rw (read-write_self s it (s.next node)) (
            Segment-frame s (write s it (s.next node)) (s.next node) xs
              (subst (λ a. Segment s (s.next a) xs) (==→eq x node hit) seg)
              λ j i. read-write_ne s it (next_of j) (s.next node) (out j (inr i))),
        λ m ne _. read-write_ne s it m (s.next node) (λ same. ne (sym same)),
      )

find-Unlinked :
    (k : ℕ) (s : Store) (node : ℕ) (it : Link) (xs : List ℕ)
    → length xs < k
    → Segment s (read s it) xs
    → Outside it xs
    → Distinct xs
    → (l : Link) × (find k s node it ≡ some l) × Unlinked s node it xs l
unfolding find
find-Unlinked zero s node it xs fuel seg out d = absurd (omega arith)
find-Unlinked (suc k) s node it [] fuel seg out d =
    (it, rw (seg, find), rw (seg, unlink) (refl, seg, λ m ne o. refl))
find-Unlinked (suc k) s node it (x ∷ xs) fuel (e, seg) out (ne, d) = elim (Bool-cases (x == node)) [
  | inl hit ↦ (it, rw (e, hit, find), unlink_hit s node it x xs hit (e, seg) out)
  | inr miss ↦
      let (l, found, (which, seg', same)) =
        find-Unlinked k s node (next_of x) xs (omega arith) seg
          (λ j i n. ne (subst (λ a. IsIn a xs) (sym (next_of-injective n)) i)) d in
      (
        l,
        rw (e, miss, find) found,
        (
          rw miss which,
          rw miss (same it (out x (inl refl)) (λ j i. out j (inr i)) ∙ e, seg'),
          λ m _ o. same m (o x (inl refl)) (λ j i. o j (inr i)),
        ),
      )
]

mem-remove : (node j : ℕ) (xs : List ℕ) → IsIn j (remove node xs) → IsIn j xs
mem-remove node j [] h = h
mem-remove node j (x ∷ xs) h = elim (Bool-cases (x == node)) [
  | inl hit ↦ inr (rw hit at h)
  | inr miss ↦ elim (rw miss at h) [
    | inl here ↦ inl here
    | inr there ↦ inr (mem-remove node j xs there)
  ]
]

Distinct-remove : (node : ℕ) (xs : List ℕ) → Distinct xs → Distinct (remove node xs)
Distinct-remove node [] d = tt
Distinct-remove node (x ∷ xs) (out, d) = elim (Bool-cases (x == node)) [
  | inl hit ↦ rw hit d
  | inr miss ↦ rw miss (λ i. out (mem-remove node x xs i), Distinct-remove node xs d)
]

-- Given one round of fuel more than there are nodes, `erase` ends with the node taken out of the
-- list if it was there, and with the list as it was if not; it returns the node in the first case
-- and `nullptr` in the second, and writes no `next` field of a node outside the list.
pub erase-Holds :
    (fuel : ℕ) (s : Store) (node : ℕ) (xs : List ℕ)
    → length xs < fuel
    → Holds s xs
    → (t : Store) × (erase fuel s node ≡ some ((if contains node xs then some node else none), t))
      × Holds t (remove node xs)
      × ((j : ℕ) → ¬ IsIn j xs → t.next j ≡ s.next j)
unfolding erase
erase-Holds fuel s node xs enough h =
    let (l, found, (which, seg, same)) =
      find-Unlinked fuel s node at_head xs enough h.segment (λ j i e. cc) h.distinct in
    (
      (result s node l).1,
      rw found (rw (← which)),
      record { segment = seg; distinct = Distinct-remove node xs h.distinct },
      λ j out.
          same (next_of j) (λ e. cc)
            λ i into e. out (subst (λ k. IsIn k xs) (sym (next_of-injective e)) into),
    )

-- `pop_front` of a list with a first node returns it, leaves the rest, and writes no `next` field.
pub pop_front-Holds :
    (s : Store) (x : ℕ) (xs : List ℕ)
    → Holds s (x ∷ xs)
    → (t : Store) × (pop_front s ≡ some (x, t)) × Holds t xs × ((j : ℕ) → t.next j ≡ s.next j)
unfolding pop_front
pop_front-Holds s x xs h = (
  record s { head = s.next x },
  rw (h.segment.0, pop_front),
  record {
    segment =
        Segment-frame s (record s { head = s.next x }) (s.next x) xs h.segment.1 (λ j i. refl);
    distinct = h.distinct.1;
  },
  λ j. refl,
)
