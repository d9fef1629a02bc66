-- ===== src/Container/Lookup.antt =====
-- `net.Container` seen as a finite map from ids to records: what each operation does to it.
use net.Prelude.{
  ℕ, ◌+◌, ◌<◌, ◌≡◌, refl, inl, inr, sym, ◌∙◌, List, [], ◌∷◌, ◌++◌, ap, Option, none, some, arith,
  ◌==◌, length, get_elem?, set, if◌then◌else◌, get_elem?-set_ne, get_elem?-set_self,
  get_elem?-some_lt, IsIn, get_elem?-append_ne, get_elem?-append_last, length-set, get_elem?-none,
  get_elem?-ne-none, some_state, Option-cases, ne→==, ==_refl,
}
use native.Mathlib.Decide.{ℕ_discrete}
use net.Container.{Slot, Container, insert, erase, lookup, invalid, record_of}
use net.Container.Chain.{Chain}
use net.Container.Invariant.{IsValid, Inserts, grows, reuses, insert_lem, erase_lem}

module _ {R : Type 0} where
  -- The table `c'` is `c` with the entry of `id` replaced by `entry`.
  abbrev pub Updates : Container R → ℕ → Option R → Container R → Type 0
  Updates c id entry c' = (j : ℕ) → lookup j c' ≡ (if j == id then entry else lookup j c)

  slot-lookup :
      (c : Container R) (id : ℕ) {r : R}
      → lookup id c ≡ some r
      → get_elem? c.records id ≡ some (Slot.used r)
  unfolding lookup
  slot-lookup c id h = ground arith

  lookup-set :
      (c : Container R) (id : ℕ) (s : Slot R) (f : ℕ)
      → id < length c.records
      → Updates c id
          (lookup id (record { records = set c.records id s; free = f }))
          (record { records = set c.records id s; free = f })
  unfolding lookup
  lookup-set c id s f lt j = elim (ℕ_discrete id j) [
    | yes same ↦ rw (← same, ==_refl id)
    | no other ↦ rw (ne→== j id (λ e. other (sym e)), get_elem?-set_ne c.records id j s other)
  ]

  lookup-grow :
      (c : Container R) (r : R) (f : ℕ)
      → Updates c
          (length c.records)
          (some r)
          (record { records = c.records ++ Slot.used r ∷ []; free = f })
  unfolding lookup
  lookup-grow c r f j = elim (ℕ_discrete j (length c.records)) [
    | yes same ↦
        rw (same, ==_refl (length c.records), get_elem?-append_last c.records (Slot.used r))
    | no other ↦
        rw (ne→== j (length c.records) other, get_elem?-append_ne c.records (Slot.used r) j other)
  ]

  Inserts-Updates :
      (r : R) (c : Container R) (id : ℕ) (c' : Container R)
      → IsValid c
      → length c.records < invalid
      → Inserts r c id c'
      → IsValid c' × (lookup id c ≡ none) × (id < invalid) × Updates c id (some r) c'
  unfolding lookup
  Inserts-Updates r c id c' v room (grows full at e ok) = (
    ok,
    rw (at, get_elem?-none c.records),
    omega arith,
    rw (at, e) (lookup-grow c r (length c.records + 1)),
  )
  Inserts-Updates r c id c' v room (reuses n g at e ok) =
      let lt : id < length c.records = get_elem?-some_lt c.records id g in
      (
        ok,
        rw g,
        omega arith,
        λ j. ground (
          arith,
          ap (lookup j) e,
          lookup-set c id (Slot.used r) n lt j,
          get_elem?-set_self c.records id (Slot.used r) lt,
        ),
      )

  -- On a valid table with fewer than 2^32 - 1 slots insert succeeds; the id that it returns was
  -- not in use and is not invalid, the table stays valid, and looking up any id afterwards gives
  -- the new record at the new id and what it gave before at every other.
  pub lookup-insert :
      (r : R) (c : Container R)
      → IsValid c
      → length c.records < invalid
      → (id : ℕ) × (c' : Container R) × (insert r c ≡ some (id, c'))
        × IsValid c'
        × (lookup id c ≡ none)
        × (id < invalid)
        × Updates c id (some r) c'
  lookup-insert r c v room =
      let (id, c', e, how) = insert_lem r c v room in
      let (ok, fresh, small, upd) = Inserts-Updates r c id c' v room how in
      (id, c', e, ok, fresh, small, upd)

  lookup-link :
      (c : Container R) (id : ℕ) (n f : ℕ)
      → id < length c.records
      → lookup id (record { records = set c.records id (Slot.link n); free = f }) ≡ none
  unfolding lookup
  lookup-link c id n f lt = rw (get_elem?-set_self c.records id (Slot.link n) lt)

  -- Erasing an id in use succeeds, the table stays valid and as long as it was, and afterwards
  -- that id has no record while every other id has the record it had.
  pub lookup-erase :
      (id : ℕ) (c : Container R) {r : R}
      → IsValid c
      → lookup id c ≡ some r
      → (c' : Container R) × (erase id c ≡ some c')
        × IsValid c'
        × (length c'.records ≡ length c.records)
        × Updates c id none c'
  unfolding erase
  lookup-erase id c v live =
      let slot = slot-lookup c id live in
      let lt : id < length c.records = get_elem?-some_lt c.records id slot in
      (
        record { records = set c.records id (Slot.link c.free); free = id },
        rw slot,
        erase_lem id c v slot,
        length-set c.records id (Slot.link c.free),
        λ j.
            ground
              (arith, lookup-set c id (Slot.link c.free) id lt j, lookup-link c id c.free id lt),
      )

  abbrev erased : ℕ → Container R → Container R
  erased id c = record { records = set c.records id (Slot.link c.free); free = id }

  -- What `insert` makes of `c` at the id in `erased id c`.
  abbrev refilled : ℕ → R → Container R → Container R
  refilled id r c = record { records = set (erased id c).records id (Slot.used r); free = c.free }

  insert-erased :
      (id : ℕ) (c : Container R) (r : R)
      → IsValid c
      → id < length c.records
      → insert r (erased id c) ≡ some (id, refilled id r c)
  unfolding insert
  insert-erased id c r v lt =
      rw
        (
          length-set c.records id (Slot.link c.free),
          ne→== id (length c.records) (omega arith),
          get_elem?-set_self c.records id (Slot.link c.free) lt,
        )
        (ground arith)

  Updates-refilled :
      (id : ℕ) (c : Container R) (r : R)
      → id < length c.records
      → Updates c id (some r) (refilled id r c)
  unfolding lookup
  Updates-refilled id c r lt j = elim (ℕ_discrete id j) [
    | yes same ↦ rw (
      ← same,
      ==_refl id,
      get_elem?-set_self (erased id c).records id (Slot.used r)
          (omega (arith, length-set c.records id (Slot.link c.free))),
    )
    | no other ↦ rw (
      ne→== j id (λ e. other (sym e)),
      get_elem?-set_ne (erased id c).records id j (Slot.used r) other,
      get_elem?-set_ne c.records id j (Slot.link c.free) other,
    )
  ]

  -- The id that was erased last is the next one to be handed out; the table is then as long as
  -- it was, has the same next free slot, and differs only in the new record at that id.
  pub insert-erase :
      (id : ℕ) (c : Container R) {r : R} (r' : R) {c' : Container R}
      → IsValid c
      → lookup id c ≡ some r
      → erase id c ≡ some c'
      → (c'' : Container R) × (insert r' c' ≡ some (id, c''))
        × (length c''.records ≡ length c.records)
        × (c''.free ≡ c.free)
        × Updates c id (some r') c''
  unfolding erase
  insert-erase id c r' v live e =
      let slot = slot-lookup c id live in
      let lt : id < length c.records = get_elem?-some_lt c.records id slot in
      (
        refilled id r' c,
        ap (insert r') (ground arith) ∙ insert-erased id c r' v lt,
        length-set (erased id c).records id (Slot.used r')
            ∙ length-set c.records id (Slot.link c.free),
        refl,
        Updates-refilled id c r' lt,
      )

  full-frees :
      (c : Container R) (is : List ℕ) (i : ℕ)
      → Chain c.records c.free is
      → c.free ≡ length c.records
      → ¬ IsIn i is
  full-frees c [] i e full p = p
  full-frees c (j ∷ is) i (e, (n, g, rest)) full p = omega (arith, get_elem?-some_lt c.records j g)

  free-slot :
      (c : Container R) (i : ℕ)
      → i < length c.records
      → lookup i c ≡ none
      → (n : ℕ) × (get_elem? c.records i ≡ some (Slot.link n))
  unfolding lookup
  free-slot c i lt h = elim (Option-cases (get_elem? c.records i)) [
    | inl out ↦ absurd (get_elem?-ne-none c.records i lt out)
    | inr (Slot.link n, e) ↦ (n, e)
    | inr (Slot.used r, e) ↦ cc (h, ap record_of e)
  ]

  -- The vector grows only when every slot of it is in use: if some id below its length has no
  -- record, then `insert` leaves the length as it is.
  pub length-insert :
      (r : R) (c : Container R) (i : ℕ) {id : ℕ} {c' : Container R}
      → IsValid c
      → length c.records < invalid
      → i < length c.records
      → lookup i c ≡ none
      → insert r c ≡ some (id, c')
      → length c'.records ≡ length c.records
  length-insert r c i v room lt unused e =
      let (n, g) = free-slot c i lt unused in
      let (_, c'', e', how) = insert_lem r c v room in
      elim how [
        | grows full _ _ _ ↦ absurd (full-frees c v.frees i v.chain full (v.complete i n g))
        | reuses _ _ _ shape _ ↦
            ap (λ (t : Container R). length t.records) (some_state (sym e ∙ e') ∙ shape)
            ∙ length-set c.records _ (Slot.used r)
      ]
