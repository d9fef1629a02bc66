-- ===== src/Container/Invariant.antt =====
-- The free slots of `net.Container` form a chain without repetition that misses none of them,
-- and every operation of the table keeps it so.
use net.Prelude.{
  ℕ, ◌+◌, ◌≤◌, ◌<◌, ◌≡◌, refl, inl, inr, sym, ◌∙◌, List, [], ◌∷◌, ◌++◌, ap, some, arith, length,
  get_elem?, set, IsIn, Distinct, get_elem?-set_ne, get_elem?-set_self, get_elem?-some_lt,
  length-append, length-set, get_elem?-append_ne, get_elem?-append_last, ne→==, ==_refl,
}
use native.Mathlib.Decide.{ℕ_discrete}
use net.Container.{Slot, Container, empty, insert, invalid}
use net.Container.Chain.{Chain, Chain-link, Chain-set}

module _ {R : Type 0} where
  pub record IsValid (c : Container R) : Type 0 where
    -- the free slots, in the order in which they will be handed out
    pub frees : List ℕ
    pub chain : Chain c.records c.free frees
    pub distinct : Distinct frees
    pub complete : (i n : ℕ) → get_elem? c.records i ≡ some (Slot.link n) → IsIn i frees
    pub fits : length c.records ≤ invalid

  pub empty-IsValid : IsValid (empty {R = R})
  empty-IsValid = record {
    frees = [];
    chain = refl;
    distinct = tt;
    complete = λ i n h. cc;
    fits = omega arith;
  }

  -- The two ways in which `insert` ends: the vector grows, or the first free slot is taken.
  pub data Inserts (r : R) (c : Container R) (id : ℕ) (c' : Container R) : Type 0 where
    grows :
        c.free ≡ length c.records
        → id ≡ length c.records
        → c' ≡ record { records = c.records ++ Slot.used r ∷ []; free = length c.records + 1 }
        → IsValid c'
        → Inserts r c id c'
    reuses :
        (n : ℕ)
        → get_elem? c.records id ≡ some (Slot.link n)
        → id ≡ c.free
        → c' ≡ record { records = set c.records id (Slot.used r); free = n }
        → IsValid c'
        → Inserts r c id c'

  module _ (r : R) (c : Container R) where
    grown_complete :
        Chain c.records c.free []
        → ((i n : ℕ) → get_elem? c.records i ≡ some (Slot.link n) → IsIn i [])
        → (i n : ℕ) → get_elem? (c.records ++ Slot.used r ∷ []) i ≡ some (Slot.link n)
        → ⊥
    grown_complete e none_free i n h = elim (ℕ_discrete i (length c.records)) [
      | yes at ↦ cc (
        sym (get_elem?-append_last c.records (Slot.used r)),
        ap (get_elem? (c.records ++ Slot.used r ∷ [])) at,
        h,
      )
      | no off ↦ none_free i n (sym (get_elem?-append_ne c.records (Slot.used r) i off) ∙ h)
    ]

    grown-IsValid :
        length c.records < invalid
        → ((i n : ℕ) → get_elem? c.records i ≡ some (Slot.link n) → IsIn i [])
        → Chain c.records c.free []
        → IsValid (record { records = c.records ++ Slot.used r ∷ []; free = length c.records + 1 })
    grown-IsValid room none_free e = record {
      frees = [];
      chain = omega (arith, length-append c.records (Slot.used r ∷ []));
      distinct = tt;
      complete = grown_complete e none_free;
      fits = omega (arith, length-append c.records (Slot.used r ∷ []));
    }

    reused_complete :
        (i : ℕ) (is : List ℕ)
        → i < length c.records
        → ((j n : ℕ) → get_elem? c.records j ≡ some (Slot.link n) → IsIn j (i ∷ is))
        → (j n : ℕ) → get_elem? (set c.records i (Slot.used r)) j ≡ some (Slot.link n)
        → IsIn j is
    reused_complete i is lt known j n h = elim (ℕ_discrete i j) [
      | yes same ↦ cc (
        sym (get_elem?-set_self c.records i (Slot.used r) lt),
        ap (get_elem? (set c.records i (Slot.used r))) same,
        h,
      )
      | no other ↦ elim (known j n (sym (get_elem?-set_ne c.records i j (Slot.used r) other) ∙ h)) [
        | inl same ↦ absurd (other same)
        | inr rest ↦ rest
      ]
    ]

  insert-by :
      (r : R) (c : Container R) (is : List ℕ)
      → length c.records < invalid
      → Chain c.records c.free is
      → Distinct is
      → ((i n : ℕ) → get_elem? c.records i ≡ some (Slot.link n) → IsIn i is)
      → (id : ℕ) × (c' : Container R) × (insert r c ≡ some (id, c')) × Inserts r c id c'
  unfolding insert
  insert-by r c [] room e d known = (
    length c.records,
    record { records = c.records ++ Slot.used r ∷ []; free = length c.records + 1 },
    rw (e, ==_refl (length c.records)) (ground arith),
    grows e refl refl (grown-IsValid r c room known e),
  )
  insert-by r c (i ∷ is) room (e, (n, g, rest)) (out, d) known =
      let lt : i < length c.records = get_elem?-some_lt c.records i g in
      (
        i,
        record { records = set c.records i (Slot.used r); free = n },
        rw (e, ne→== i (length c.records) (omega arith), g) (ground arith),
        reuses n g (sym e) refl (record {
          frees = is;
          chain = Chain-set c.records n is i (Slot.used r) rest out;
          distinct = d;
          complete = reused_complete r c i is lt known;
          fits = omega (arith, length-set c.records i (Slot.used r));
        }),
      )

  -- On a valid table with fewer than 2^32 - 1 slots `insert` succeeds and the table stays valid.
  pub insert_lem :
      (r : R) (c : Container R)
      → IsValid c
      → length c.records < invalid
      → (id : ℕ) × (c' : Container R) × (insert r c ≡ some (id, c')) × Inserts r c id c'
  insert_lem r c v room = insert-by r c v.frees room v.chain v.distinct v.complete

  erased_complete :
      (id : ℕ) (c : Container R) (is : List ℕ)
      → ((j n : ℕ) → get_elem? c.records j ≡ some (Slot.link n) → IsIn j is)
      → (j n : ℕ) → get_elem? (set c.records id (Slot.link c.free)) j ≡ some (Slot.link n)
      → IsIn j (id ∷ is)
  erased_complete id c is known j n h = elim (ℕ_discrete id j) [
    | yes same ↦ inl same
    | no other ↦
        inr (known j n (sym (get_elem?-set_ne c.records id j (Slot.link c.free) other) ∙ h))
  ]

  pub erase_lem :
      (id : ℕ) (c : Container R) {r : R}
      → IsValid c
      → get_elem? c.records id ≡ some (Slot.used r)
      → IsValid (record { records = set c.records id (Slot.link c.free); free = id })
  erase_lem id c v live =
      let fresh : ¬ IsIn id v.frees =
        λ p. cc (live, (Chain-link c.records c.free v.frees id v.chain p).1) in
      record {
        frees = id ∷ v.frees;
        chain = (
          refl,
          (
            c.free,
            get_elem?-set_self c.records id (Slot.link c.free)
                (get_elem?-some_lt c.records id live),
            Chain-set c.records c.free v.frees id (Slot.link c.free) v.chain fresh,
          ),
        );
        distinct = (fresh, v.distinct);
        complete = erased_complete id c v.frees v.complete;
        fits = omega (arith, length-set c.records id (Slot.link c.free));
      }
