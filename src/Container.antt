-- ===== src/Container.antt =====
-- include/beman/net/detail/container.hpp: the table from which a context hands out socket ids.
-- `records` is the vector of variants, `Slot.link` its first alternative (the index of the next
-- free slot) and `Slot.used` its second. `none` stands for what the source leaves undefined or
-- ends by an exception: an index past the vector, a failed `assert`, `std::bad_variant_access`.
-- `Invariant` proves that the free slots stay a chain, `Lookup` that the table is a finite map.
mod Chain
pub mod Invariant
pub mod Lookup
mod Examples
use net.Prelude.{
  ℕ, ◌+◌, ◌%◌, ◌^◌, List, [], ◌∷◌, ◌++◌, Option, none, some, ◌==◌, if◌then◌else◌, length, get_elem?,
  set,
}

pub data Slot (R : Type 0) : Type 0 where
  link : ℕ → Slot R
  used : R → Slot R

pub record Container (R : Type 0) : Type 0 where
  pub records : List (Slot R)
  pub free : ℕ

-- `netfwd.hpp`: ids are 32 bits wide, and the largest value marks a socket that is not there.
abbrev pub invalid : ℕ
invalid = 4294967295

-- The conversion `socket_id(n)`.
abbrev pub to_socket_id : ℕ → ℕ
to_socket_id n = n % 2 ^ 32

module _ {R : Type 0} where
  abbrev pub empty : Container R
  empty = record { records = []; free = 0 }

  -- `std::get<0>` of a slot, then the write of the record into it.
  abbrev reuse : R → Container R → Option (Slot R) → Option (ℕ × Container R)
  reuse r c none = none
  reuse r c (some (Slot.used s)) = none
  reuse r c (some (Slot.link next)) =
      some
        (to_socket_id c.free, record { records = set c.records c.free (Slot.used r); free = next })

  unfoldable pub insert : R → Container R → Option (ℕ × Container R)
  insert r c =
      if c.free == length c.records
      then some (
        to_socket_id c.free,
        record { records = c.records ++ Slot.used r ∷ []; free = (c.free + 1) % 2 ^ 64 },
      )
      else reuse r c (get_elem? c.records c.free)

  -- Any slot may be erased, a free one too: the source does not test the variant.
  abbrev link_in : ℕ → Container R → Option (Slot R) → Option (Container R)
  link_in id c none = none
  link_in id c (some _) = some (record { records = set c.records id (Slot.link c.free); free = id })

  unfoldable pub erase : ℕ → Container R → Option (Container R)
  erase id c = link_in id c (get_elem? c.records id)

  abbrev record_of : Option (Slot R) → Option R
  record_of none = none
  record_of (some (Slot.link n)) = none
  record_of (some (Slot.used r)) = some r

  -- `operator[]`.
  unfoldable pub lookup : ℕ → Container R → Option R
  lookup id c = record_of (get_elem? c.records id)
