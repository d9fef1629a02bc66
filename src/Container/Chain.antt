-- ===== src/Container/Chain.antt =====
-- The chain of free slots of `net.Container`, as the list of their indices.
use net.Prelude.{
  ℕ, ◌≡◌, inl, inr, sym, List, [], ◌∷◌, some, arith, length, get_elem?, set, IsIn, get_elem?-set_ne,
  length-set,
}
use mathlib.Core.Path.{◌∙◌}
use net.Container.{Slot}

module _ {R : Type 0} where
  -- From `f` the links lead through the slots `is` to the end of the vector.
  abbrev pub Chain : List (Slot R) → ℕ → List ℕ → Type 0
  Chain rs f [] = f ≡ length rs
  Chain rs f (i ∷ is) = (f ≡ i) × ((n : ℕ) × (get_elem? rs i ≡ some (Slot.link n)) × Chain rs n is)

  pub Chain-link :
      (rs : List (Slot R)) (f : ℕ) (is : List ℕ) (j : ℕ)
      → Chain rs f is
      → IsIn j is
      → (n : ℕ) × (get_elem? rs j ≡ some (Slot.link n))
  Chain-link rs f (i ∷ is) j (e, (n, g, c)) (inl p) = (n, ground arith)
  Chain-link rs f (i ∷ is) j (e, (n, g, c)) (inr p) = Chain-link rs n is j c p
  Chain-link rs f [] j c p = elim p [ ]

  -- A write outside the chain keeps it.
  pub Chain-set :
      (rs : List (Slot R)) (f : ℕ) (is : List ℕ) (j : ℕ) (v : Slot R)
      → Chain rs f is
      → ¬ IsIn j is
      → Chain (set rs j v) f is
  Chain-set rs f [] j v c out = c ∙ sym (length-set rs j v)
  Chain-set rs f (i ∷ is) j v (e, (n, g, c)) out = (
    e,
    (
      n,
      get_elem?-set_ne rs j i v (λ p. out (inl (sym p))) ∙ g,
      Chain-set rs n is j v c (λ p. out (inr p)),
    ),
  )
