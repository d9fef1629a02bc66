-- ===== src/Uring/Sockets.antt =====
-- The calls of uring_context.hpp that create, change and release a socket. Each takes the system
-- call that it makes, or its answer, as an argument.
use net.Prelude.{
  ℕ, ◌≡◌, ◌∙◌, Option, none, some, List, ◌==◌, length, ◌<◌, ==_refl, ==→eq, Bool-cases, inl, inr,
  sym, ap,
}
use net.Container
use net.Container.{Container, invalid}
use net.Container.Invariant.{IsValid}
use net.Container.Lookup.{Updates, lookup-insert, lookup-erase}
use net.Poll.{Errno, Rc, ok, failed, error_of}
use net.Uring.{Call, returns, undefined, and_then, Context, make_socket, native_handle}

restored :
    (id : ℕ) (fd : ℕ) (c s t : Container ℕ)
    → Container.lookup id c ≡ none
    → Updates c id (some fd) s
    → Updates s id none t
    → (j : ℕ) → Container.lookup j t ≡ Container.lookup j c
restored id fd c s t fresh upd upd' j = elim (Bool-cases (j == id)) [
  | inl hit ↦ upd' j ∙ (rw hit (sym (ap (λ k. Container.lookup k c) (==→eq j id hit) ∙ fresh)))
  | inr miss ↦ upd' j ∙ (rw miss (upd j ∙ (rw miss)))
]

module _ {R : Type 0} where
  -- `make_socket` by `socket(2)`: the id, and the error if there is one.
  unfoldable pub open_socket : Rc → Context R → Call (Context R) (ℕ × Option Errno)
  open_socket (failed e) c = returns (invalid, some e) c
  open_socket (ok fd) c = and_then (make_socket fd c) (λ id. returns (id, none))

  -- `release`, with the answer of `close(2)`.
  unfoldable pub release : ℕ → Rc → Context R → Call (Context R) (Option Errno)
  release id closed c = elim (Container.lookup id c.sockets) [
    | none ↦ undefined
    | some fd ↦ elim (Container.erase id c.sockets) [
      | none ↦ undefined
      | some sockets ↦ returns (error_of closed) (record c { sockets = sockets })
    ]
  ]

  unfoldable pub set_option :
      {V : Type 0}
      → (ℕ → ℕ → ℕ → V → Rc)
      → (id level name : ℕ) → V
      → Context R
      → Call (Context R) (Option Errno)
  set_option setsockopt id level name value c =
      and_then (native_handle id c) λ fd. returns (error_of (setsockopt fd level name value))

  unfoldable pub bind :
      (ℕ → List ℕ → Rc) → (id : ℕ) → List ℕ → Context R → Call (Context R) (Option Errno)
  bind bind_call id endpoint c =
      and_then (native_handle id c) λ fd. returns (error_of (bind_call fd endpoint))

  unfoldable pub listen :
      (ℕ → ℕ → Rc) → (id backlog : ℕ) → Context R → Call (Context R) (Option Errno)
  listen listen_call id backlog c =
      and_then (native_handle id c) λ fd. returns (error_of (listen_call fd backlog))

  -- With a valid table of fewer than 2^32 - 1 slots, a socket that socket(2) made gets an id that
  -- was not in use, under which native_handle finds its handle; releasing that id returns the error
  -- of close(2) if it has one, and every id then has the handle that it had at first.
  pub release-open_socket :
      (fd : ℕ) (closed : Rc) (c : Context R)
      → IsValid c.sockets
      → length c.sockets.records < invalid
      → (id : ℕ) × (d e : Context R) × (open_socket (ok fd) c ≡ returns (id, none) d)
        × (Container.lookup id c.sockets ≡ none)
        × (native_handle id d ≡ returns fd d)
        × (release id closed d ≡ returns (error_of closed) e)
        × ((j : ℕ) → Container.lookup j e.sockets ≡ Container.lookup j c.sockets)
  unfolding open_socket make_socket native_handle release
  release-open_socket fd closed c v room =
      let (id, s, made, valid, fresh, _, upd) = lookup-insert fd c.sockets v room in
      let there : Container.lookup id s ≡ some fd = upd id ∙ (rw (==_refl id)) in
      let (t, gone, _, _, upd') = lookup-erase id s valid there in
      (
        id,
        record c { sockets = s },
        record c { sockets = t },
        rw (made, make_socket),
        fresh,
        rw (there, native_handle),
        rw (there, gone, release),
        restored id fd c.sockets s t fresh upd upd',
      )
