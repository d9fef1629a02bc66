-- ===== src/Poll/Removal.antt =====
-- `remove_outstanding` of `net.Poll`: the last element takes the place of the removed one, in both
-- vectors alike.
use net.Prelude.{
  ℕ, zero, suc, ◌+◌, ◌-◌, ◌<◌, ◌≤◌, ◌≡◌, refl, sym, ◌∙◌, ap, some, List, [], ◌∷◌, ◌++◌, arith, ◌==◌,
  if◌then◌else◌, ==_refl, ne→==, length, get_elem?, set, total, total-append, snoc_view, set-snoc,
  set-length, total-set, length-append, get_elem?-append_last, get_elem?-append_ne,
  get_elem?-some_lt, subst, subst₂, ap₂,
}
use native.Mathlib.Decide.{ℕ_discrete}
use net.Poll.{PollFd, Context, put_back, pop_back, remove_outstanding}

module _ {A : Type 0} where
  -- What `remove_outstanding` does to one vector.
  abbrev pub swap_remove : List A → ℕ → List A
  swap_remove xs i = pop_back (if i + 1 == length xs then xs else put_back xs i)

  pop_back-snoc : (ys : List A) (b : A) → pop_back (ys ++ b ∷ []) ≡ ys
  pop_back-snoc [] b = refl
  pop_back-snoc (y ∷ []) b = refl
  pop_back-snoc (y ∷ z ∷ ys) b = ap (λ l. y ∷ l) (pop_back-snoc (z ∷ ys) b)

  put_back-snoc :
      (ys : List A) (b : A) (i : ℕ)
      → i < length ys
      → put_back (ys ++ b ∷ []) i ≡ set ys i b ++ b ∷ []
  unfolding put_back
  put_back-snoc ys b i h =
      let last : length (ys ++ b ∷ []) - 1 ≡ length ys = omega (arith, length-append ys (b ∷ [])) in
      rw (last, get_elem?-append_last ys b, put_back) (set-snoc ys b b i h)

  pub swap_remove-snoc :
      (ys : List A) (b : A) (i : ℕ) → i ≤ length ys → swap_remove (ys ++ b ∷ []) i ≡ set ys i b
  swap_remove-snoc ys b i h =
      let size : length (ys ++ b ∷ []) ≡ length ys + 1 = omega (arith, length-append ys (b ∷ [])) in
      elim (ℕ_discrete i (length ys)) [
        | yes last ↦
            rw (size, last, ==_refl (length ys + 1), pop_back-snoc ys b) (sym (set-length ys b))
        | no inner ↦
            rw
              (
                size,
                ne→== (i + 1) (length ys + 1) (λ e. inner (omega arith)),
                put_back-snoc ys b i (omega arith),
              )
              (pop_back-snoc (set ys i b) b)
      ]

  total-snoc :
      (f : A → ℕ) (ys : List A) (b : A) (i : ℕ) {x : A}
      → get_elem? (ys ++ b ∷ []) i ≡ some x
      → total f (ys ++ b ∷ []) ≡ f x + total f (swap_remove (ys ++ b ∷ []) i)
  total-snoc f ys b i {x} g =
      let inside : i < length (ys ++ b ∷ []) = get_elem?-some_lt (ys ++ b ∷ []) i g in
      let size : length (ys ++ b ∷ []) ≡ length ys + 1 = omega (arith, length-append ys (b ∷ [])) in
      rw (swap_remove-snoc ys b i (omega arith)) (elim (ℕ_discrete i (length ys)) [
        | yes last ↦
            let here : some b ≡ some x =
              sym (get_elem?-append_last ys b) ∙ ap (get_elem? (ys ++ b ∷ [])) (sym last) ∙ g in
            ground (
              arith,
              total-append f ys (b ∷ []),
              ap (λ k. total f (set ys k b)) last,
              ap (total f) (set-length ys b),
            )
        | no inner ↦ omega (
          arith,
          total-append f ys (b ∷ []),
          total-set f ys i b (sym (get_elem?-append_ne ys b i inner) ∙ g),
        )
      ])

  -- Removing the element at an index takes away that element and nothing else.
  pub total-swap_remove :
      (f : A → ℕ) (xs : List A) (i : ℕ) {x : A}
      → get_elem? xs i ≡ some x
      → total f xs ≡ f x + total f (swap_remove xs i)
  total-swap_remove f [] i g = cc
  total-swap_remove f (y ∷ xs) i {x} g =
      let (ys, b, e) = snoc_view y xs in
      subst (λ l. total f l ≡ f x + total f (swap_remove l i)) (sym e)
        (total-snoc f ys b i (ap (λ l. get_elem? l i) (sym e) ∙ g))

  total_ones : (xs : List A) → total (λ _. 1) xs ≡ length xs
  total_ones [] = refl
  total_ones (x ∷ xs) = omega (arith, total_ones xs)

  pub length-swap_remove :
      (xs : List A) (i : ℕ) {x : A}
      → get_elem? xs i ≡ some x
      → length xs ≡ length (swap_remove xs i) + 1
  length-swap_remove xs i g =
      omega (arith, total-swap_remove (λ _. 1) xs i g, total_ones xs, total_ones (swap_remove xs i))

-- `d_poll` and `d_outstanding` side by side, as `run_one` reads them.
abbrev pub entries : List PollFd → List ℕ → List (PollFd × ℕ)
entries [] ops = []
entries (p ∷ ps) [] = []
entries (p ∷ ps) (op ∷ ops) = (p, op) ∷ entries ps ops

entries-snoc :
    (ps : List PollFd) (ops : List ℕ) (p : PollFd) (op : ℕ)
    → length ps ≡ length ops
    → entries (ps ++ p ∷ []) (ops ++ op ∷ []) ≡ entries ps ops ++ (p, op) ∷ []
entries-snoc [] [] p op h = refl
entries-snoc [] (o ∷ ops) p op h = absurd (omega arith)
entries-snoc (q ∷ ps) [] p op h = absurd (omega arith)
entries-snoc (q ∷ ps) (o ∷ ops) p op h =
    ap (λ l. (q, o) ∷ l) (entries-snoc ps ops p op (omega arith))

entries-set :
    (ps : List PollFd) (ops : List ℕ) (i : ℕ) (p : PollFd) (op : ℕ)
    → length ps ≡ length ops
    → entries (set ps i p) (set ops i op) ≡ set (entries ps ops) i (p, op)
entries-set [] [] i p op h = refl
entries-set [] (o ∷ ops) i p op h = absurd (omega arith)
entries-set (q ∷ ps) [] i p op h = absurd (omega arith)
entries-set (q ∷ ps) (o ∷ ops) zero p op h = refl
entries-set (q ∷ ps) (o ∷ ops) (suc i) p op h =
    ap (λ l. (q, o) ∷ l) (entries-set ps ops i p op (omega arith))

pub length-entries :
    (ps : List PollFd) (ops : List ℕ)
    → length ps ≡ length ops
    → length (entries ps ops) ≡ length ops
length-entries [] [] h = refl
length-entries [] (o ∷ ops) h = absurd (omega arith)
length-entries (q ∷ ps) [] h = absurd (omega arith)
length-entries (q ∷ ps) (o ∷ ops) h = ap suc (length-entries ps ops (omega arith))

pub entries-get_elem? :
    (ps : List PollFd) (ops : List ℕ) (i : ℕ) {p : PollFd} {op : ℕ}
    → get_elem? ps i ≡ some p
    → get_elem? ops i ≡ some op
    → get_elem? (entries ps ops) i ≡ some (p, op)
entries-get_elem? [] ops i g k = cc
entries-get_elem? (q ∷ ps) [] i g k = cc
entries-get_elem? (q ∷ ps) (o ∷ ops) zero g k = ground arith
entries-get_elem? (q ∷ ps) (o ∷ ops) (suc i) g k = entries-get_elem? ps ops i g k

entries-swap_snoc :
    (ps : List PollFd) (ops : List ℕ) (p : PollFd) (op i : ℕ)
    → length ps ≡ length ops
    → i ≤ length ops
    → entries (swap_remove (ps ++ p ∷ []) i) (swap_remove (ops ++ op ∷ []) i)
      ≡ swap_remove (entries (ps ++ p ∷ []) (ops ++ op ∷ [])) i
entries-swap_snoc ps ops p op i h small =
    rw
      (
        swap_remove-snoc ps p i (omega arith),
        swap_remove-snoc ops op i small,
        entries-snoc ps ops p op h,
        swap_remove-snoc (entries ps ops) (p, op) i (omega (arith, length-entries ps ops h)),
      )
      (entries-set ps ops i p op h)

-- Taking the element at an index out of both vectors takes it out of the pairs.
entries-swap_remove :
    (ps : List PollFd) (ops : List ℕ) (i : ℕ)
    → length ps ≡ length ops
    → i < length ops
    → entries (swap_remove ps i) (swap_remove ops i) ≡ swap_remove (entries ps ops) i
entries-swap_remove ps [] i h small = elim small [ ]
entries-swap_remove [] (o ∷ ops) i h small = absurd (omega arith)
entries-swap_remove (q ∷ ps) (o ∷ ops) i h small =
    let (ps', p, e) = snoc_view q ps in
    let (ops', op, k) = snoc_view o ops in
    let left : length (q ∷ ps) ≡ length ps' + 1 =
      ap length e ∙ omega (arith, length-append ps' (p ∷ [])) in
    let right : length (o ∷ ops) ≡ length ops' + 1 =
      ap length k ∙ omega (arith, length-append ops' (op ∷ [])) in
    subst₂ (λ l m. entries (swap_remove l i) (swap_remove m i) ≡ swap_remove (entries l m) i)
      (sym e) (sym k)
      (entries-swap_snoc ps' ops' p op i (omega (arith, left, right)) (omega (arith, right)))

module _ (i : ℕ) (c : Context) (aligned : length c.d_poll ≡ length c.d_outstanding) where
  pub d_poll-remove_outstanding : (remove_outstanding i c).d_poll ≡ swap_remove c.d_poll i
  unfolding remove_outstanding
  d_poll-remove_outstanding = ground arith

  pub d_outstanding-remove_outstanding :
      (remove_outstanding i c).d_outstanding ≡ swap_remove c.d_outstanding i
  unfolding remove_outstanding
  d_outstanding-remove_outstanding = ground (arith, aligned)

  -- With both vectors of one size, remove_outstanding takes exactly one entry out of the pairs of
  -- a pollfd and its operation: for every weight of such pairs, the sum falls by the weight of
  -- that entry, and the sizes stay equal.
  pub remove_outstanding_lem :
      {p : PollFd} {op : ℕ}
      → get_elem? c.d_poll i ≡ some p
      → get_elem? c.d_outstanding i ≡ some op
      → ((f : PollFd × ℕ → ℕ)
          → total f (entries c.d_poll c.d_outstanding)
            ≡ f (p, op)
              + total f
                  (entries (remove_outstanding i c).d_poll (remove_outstanding i c).d_outstanding))
        × (length (remove_outstanding i c).d_poll ≡ length (remove_outstanding i c).d_outstanding)
  remove_outstanding_lem {p} {op} g k = (
    λ f.
        total-swap_remove f (entries c.d_poll c.d_outstanding) i
          (entries-get_elem? c.d_poll c.d_outstanding i g k)
        ∙ ap (λ l. f (p, op) + total f l)
            (sym (
                entries-swap_remove c.d_poll c.d_outstanding i aligned
                  (get_elem?-some_lt c.d_outstanding i k))
              ∙ ap₂ entries (sym d_poll-remove_outstanding) (sym d_outstanding-remove_outstanding)),
    rw (d_poll-remove_outstanding, d_outstanding-remove_outstanding)
        (omega (
          arith,
          aligned,
          length-swap_remove c.d_poll i g,
          length-swap_remove c.d_outstanding i k,
        )),
  )
