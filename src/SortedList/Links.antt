-- ===== src/SortedList/Links.antt =====
-- Reads after writes through the links of a `net.SortedList`.
use net.Prelude.{
  ℕ, ◌≡◌, refl, ◌≢◌, ◌∙◌, inl, inr, sym, Option, List, [], ◌∷◌, arith, ap, ==_refl, ne→==, IsIn,
}
use net.SortedList.{Store, Link, at_head, next_of, read, write}
use net.SortedList.View.{Segment}

pub read-write_self : (s : Store) (l : Link) (p : Option ℕ) → read (write s l p) l ≡ p
read-write_self s at_head p = refl
read-write_self s (next_of a) p = rw (==_refl a)

pub read-write_ne :
    (s : Store) (l m : Link) (p : Option ℕ) → l ≢ m → read (write s l p) m ≡ read s m
read-write_ne s at_head at_head p h = absurd (h refl)
read-write_ne s at_head (next_of b) p h = refl
read-write_ne s (next_of a) at_head p h = refl
read-write_ne s (next_of a) (next_of b) p h = rw (ne→== b a (λ e. h (ap next_of (sym e))))

-- The link is no `next` field of these nodes.
abbrev pub Outside : Link → List ℕ → Type 0
Outside l xs = (j : ℕ) → IsIn j xs → l ≢ next_of j

-- A segment stays as it is where its own fields do.
pub Segment-frame :
    (s t : Store) (p : Option ℕ) (xs : List ℕ)
    → Segment s p xs
    → ((j : ℕ) → IsIn j xs → t.next j ≡ s.next j)
    → Segment t p xs
Segment-frame s t p [] h same = h
Segment-frame s t p (x ∷ xs) (e, h) same =
    (e, rw (same x (inl refl)) (Segment-frame s t (s.next x) xs h (λ j i. same j (inr i))))

pub next_of-injective : {a b : ℕ} → next_of a ≡ next_of b → a ≡ b
next_of-injective e = ground arith

pub Outside-next :
    (x node : ℕ) (xs : List ℕ) → x ≢ node → ¬ IsIn x xs → Outside (next_of x) (node ∷ xs)
Outside-next x node xs ne out j (inl i) e = ne (next_of-injective e ∙ sym i)
Outside-next x node xs ne out j (inr i) e = out (rw (next_of-injective e) i)
