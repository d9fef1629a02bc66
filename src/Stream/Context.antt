-- ===== src/Stream/Context.antt =====
-- examples/demo_stream.hpp: `context`, which drives memory streams by a list of updates. The
-- function of an update is a parameter, `call`. A stream is looked up by its name; that the lookup
-- makes an entry with a null pointer is the same as no entry.
use net.Prelude.{
  ℕ, suc, ◌+◌, ◌<◌, ◌≡◌, refl, ap, ◌∙◌, ◌⊎◌, inl, inr, Bool, true, false, Option, none, some, List,
  ◌++◌, arith, ◌==◌, if◌then◌else◌, Bool-cases, Option-cases, length, length-append, length-take,
  length-drop, get_elem?, get_elem?-some_lt, get_elem?-none, take, drop,
}
use net.Prelude.Outcome.{Outcome, returns, undefined}

pub record Context (U S : Type 0) : Type 0 where
  pub streams : ℕ → Option S
  pub updates : List (ℕ × U)
  pub next_index : ℕ

-- `erase` of the element at an index.
abbrev pub erase : {A : Type 0} → List A → ℕ → List A
erase xs i = take i xs ++ drop (suc i) xs

module _ {U S : Type 0} (call : U → S → Context U S → Bool × Context U S) where
  -- Whether the update is over: its stream is not there, or its function says so.
  unfoldable pub update : ℕ × U → Context U S → Bool × Context U S
  update (name, fun) c = elim (c.streams name) [
    | none ↦ (true, c)
    | some stream ↦ call fun stream c
  ]

  unfoldable pub next : Context U S → Outcome (Context U S) Unit
  unfolding update
  next c = elim (get_elem? c.updates c.next_index) [
    | none ↦ undefined
    | some u ↦
        let (over, d) = update u c in
        if over
        then returns tt (record d { updates = erase d.updates d.next_index })
        else if length d.updates == d.next_index + 1
        then returns tt (record d { next_index = 0 })
        else returns tt (record d { next_index = d.next_index + 1 })
  ]

  -- The function of an update leaves the list of updates and the index as they are.
  unfoldable pub Keeps : Type 0
  Keeps =
      (fun : U) (stream : S) (c : Context U S)
      → ((call fun stream c).1.updates ≡ c.updates)
        × ((call fun stream c).1.next_index ≡ c.next_index)

  update-Keeps :
      Keeps
      → (u : ℕ × U) (c : Context U S)
      → ((update u c).1.updates ≡ c.updates) × ((update u c).1.next_index ≡ c.next_index)
  unfolding update Keeps
  update-Keeps keeps (name, fun) c = elim (Option-cases (c.streams name)) [
    | inl absent ↦ rw (absent, update) (refl, refl)
    | inr (s, there) ↦ rw (there, update) (keeps fun s c)
  ]

  -- The next update is one of those there are.
  abbrev pub InRange : Context U S → Type 0
  InRange c = c.next_index < length c.updates

  length-erase :
      {A : Type 0} (xs : List A) (i : ℕ) → i < length xs → length (erase xs i) + 1 ≡ length xs
  length-erase xs i lt =
      ground (
        arith,
        length-append (take i xs) (drop (suc i) xs),
        length-take i xs,
        length-drop (suc i) xs,
      )

  -- What `next` does with an update that is over, and with one that is not.
  next-over :
      (c : Context U S) {u : ℕ × U}
      → Keeps
      → get_elem? c.updates c.next_index ≡ some u
      → (update u c).0 ≡ true
      → (d : Context U S) × (next c ≡ returns tt d)
        × (length d.updates + 1 ≡ length c.updates)
        × (d.next_index ≡ c.next_index)
  unfolding next
  next-over c {u} keeps here over =
      let d = (update u c).1 in
      let (same, index) = update-Keeps keeps u c in
      let lt = get_elem?-some_lt c.updates c.next_index here in
      (
        record d { updates = erase d.updates d.next_index },
        rw (here, over, next) refl,
        length-erase d.updates d.next_index (omega (arith, ap length same, index)) ∙ ap length same,
        index,
      )

  next-not_over :
      (c : Context U S) {u : ℕ × U}
      → Keeps
      → get_elem? c.updates c.next_index ≡ some u
      → (update u c).0 ≡ false
      → (d : Context U S) × (next c ≡ returns tt d) × InRange d
  unfolding next
  next-not_over c {u} keeps here on =
      let d = (update u c).1 in
      let (same, index) = update-Keeps keeps u c in
      let lt = get_elem?-some_lt c.updates c.next_index here in
      let size = ap length same in
      elim (Bool-cases (length d.updates == d.next_index + 1)) [
        | inl last ↦ (record d { next_index = 0 }, rw (here, on, last, next) refl, omega arith)
        | inr more ↦ (
          record d { next_index = d.next_index + 1 },
          rw (here, on, more, next) refl,
          ground arith,
        )
      ]

  -- Where the next update is one of those there are, `next` has no undefined behaviour, and the one
  -- after it is one of those there are then, unless the update that was made is over and was the last
  -- of the list.
  pub next-InRange :
      (c : Context U S) {u : ℕ × U}
      → Keeps
      → get_elem? c.updates c.next_index ≡ some u
      → ((update u c).0 ≡ false) ⊎ (c.next_index + 1 < length c.updates)
      → (d : Context U S) × (next c ≡ returns tt d) × InRange d
  next-InRange c keeps here (inl on) = next-not_over c keeps here on
  next-InRange c {u} keeps here (inr before) = elim (Bool-cases (update u c).0) [
    | inl over ↦ let (d, e, fewer, index) = next-over c keeps here over in (d, e, omega arith)
    | inr on ↦ next-not_over c keeps here on
  ]

  -- Where the update that is made is the last of several and is over, `next` leaves updates to be
  -- made, and a second `next` reads behind the end of the list.
  pub next-undefined :
      (c : Context U S) {u : ℕ × U}
      → Keeps
      → get_elem? c.updates c.next_index ≡ some u
      → (update u c).0 ≡ true
      → 0 < c.next_index
      → c.next_index + 1 ≡ length c.updates
      → (d : Context U S) × (next c ≡ returns tt d) × (0 < length d.updates) × (next d ≡ undefined)
  unfolding next
  next-undefined c keeps here over several at_end =
      let (d, e, fewer, index) = next-over c keeps here over in
      let outside : get_elem? d.updates d.next_index ≡ none =
        ap (λ i. get_elem? d.updates i) (omega arith) ∙ get_elem?-none d.updates in
      (d, e, omega arith, rw (outside, next) refl)
