-- ===== src/SortedList.antt =====
-- include/beman/net/detail/sorted_list.hpp: the intrusive list of timers. Nodes are numbered;
-- `Store` holds the list's `head` and every node's `next` field, with `none` for `nullptr`, and
-- `Link` is what a `next_t*` points at: the head, or the `next` field of a node. The loops of
-- `insert` and `erase` run on fuel. `View` is the list as a sequence of nodes; the children
-- `Insert` and `Erase` prove that the pointer code implements it, `Order` that it stays sorted.
pub mod View
mod Links
pub mod Insert
pub mod Erase
pub mod Order
mod Examples
use net.Prelude.{ℕ, zero, suc, Bool, true, false, Option, none, some, ◌==◌, if◌then◌else◌}
use mathlib.Core.Option

pub record Store : Type 0 where
  pub head : Option ℕ
  pub next : ℕ → Option ℕ

pub data Link : Type 0 where
  at_head : Link
  next_of : ℕ → Link

-- `*it` and `*it = p`.
abbrev pub read : Store → Link → Option ℕ
read s at_head = s.head
read s (next_of a) = s.next a

abbrev pub write : Store → Link → Option ℕ → Store
write s at_head p = record s { head = p }
write s (next_of a) p = record s { next = λ b. if b == a then p else s.next b }

pub is_empty : Store → Bool
is_empty s = elim s.head [ none ↦ true | some _ ↦ false ]

pub value_or {κ} : {V : Type κ} → (ℕ → V) → Store → V → V
value_or value s v = elim s.head [ none ↦ v | some p ↦ value p ]

-- `none`: the source reads through a null pointer. The node's own `next` field is left as it is.
pub pop_front : Store → Option (ℕ × Store)
pop_front s = elim s.head [ none ↦ none | some p ↦ some (p, record s { head = s.next p }) ]

-- `node->next = *it; *it = node;`
abbrev pub splice : Store → ℕ → Link → Store
splice s node it = write (write s (next_of node) (read s it)) it (some node)

module _ {V : Type 0} (comp : V → V → Bool) (value : ℕ → V) where
  -- The loop of `insert`, from the link `it`; `none` means that the fuel ran out.
  pub seek : ℕ → Store → V → Link → Option Link
  seek zero s v it = none
  seek (suc k) s v it = elim (read s it) [
    | none ↦ some it
    | some p ↦ elim (comp (value p) v) [ true ↦ seek k s v (next_of p) | false ↦ some it ]
  ]

  pub insert : ℕ → Store → ℕ → Option Store
  unfolding seek
  insert fuel s node = Option.map (splice s node) (seek fuel s (value node) at_head)

-- The loop of `erase`.
pub find : ℕ → Store → ℕ → Link → Option Link
find zero s node it = none
find (suc k) s node it = elim (read s it) [
  | none ↦ some it
  | some p ↦ elim (p == node) [ true ↦ some it | false ↦ find k s node (next_of p) ]
]

-- The code after that loop: the node that `erase` returns, and the store.
abbrev pub unlink : Store → ℕ → Link → Option ℕ → Option ℕ × Store
unlink s node it none = (none, s)
unlink s node it (some p) = if p == node then (some node, write s it (s.next node)) else (none, s)

pub erase : ℕ → Store → ℕ → Option (Option ℕ × Store)
unfolding find
erase fuel s node = Option.map (λ it. unlink s node it (read s it)) (find fuel s node at_head)
