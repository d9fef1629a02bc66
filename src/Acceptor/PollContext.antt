-- ===== src/Acceptor/PollContext.antt =====
-- The calls of poll_context.hpp on sockets as those that the owners of basic_socket_acceptor.hpp
-- make.
use net.Prelude.{
  ℕ, ◌≡◌, ◌≢◌, ◌<◌, refl, sym, subst, ◌∙◌, true, false, Option, none, some, List, length, ◌==◌,
  ==_refl, ==→eq, Bool-cases, inl, inr, arith,
}
use net.Prelude.Outcome.{Outcome, returns}
use net.Container
use net.Container.{Container, invalid}
use net.Container.Invariant.{IsValid}
use net.Container.Lookup.{lookup-insert, lookup-erase}
use net.Poll.{
  Errno, Rc, ok, failed, error_of, Context, PollRecord, open_socket, make_socket, native_handle,
  release, set_option, bind, listen,
}
use net.Acceptor.{Calls}
use net.Acceptor.Laws.{Laws, SameElsewhere}

abbrev pub IsReady : Context → Type 0
IsReady c = IsValid c.d_sockets

abbrev pub HasRoom : Context → Type 0
HasRoom c = length c.d_sockets.records < invalid

-- The answers of socket(2) by family and of close(2), and the other system calls.
module _ (socket_call : ℕ → Rc) (closed : Rc) (setsockopt : ℕ → ℕ → ℕ → ℕ → Rc)
    (bind_call : ℕ → List ℕ → Rc) (listen_call : ℕ → ℕ → Rc) where
  abbrev pub poll_calls : Calls Context PollRecord Errno
  poll_calls = record {
    at = λ id c. Container.lookup id c.d_sockets;
    make_socket = λ family. open_socket (socket_call family);
    release_socket = λ id. release id closed;
    set_socket_option = λ id level name value. set_option setsockopt id level name value;
    bind_socket = λ id endpoint. bind bind_call id endpoint;
    listen_socket = λ id backlog. listen listen_call id backlog;
  }

  differs : {id j : ℕ} → j ≢ id → (j == id) ≡ false
  differs {id} {j} h = elim (Bool-cases (j == id)) [
    | inl hit ↦ absurd (h (==→eq j id hit))
    | inr miss ↦ miss
  ]

  abbrev pub Made : Context → Outcome Context (ℕ × Option Errno) → Type 0
  Made s (returns (id, _) d) =
      IsReady d
      × (id ≢ invalid)
      × (poll_calls.at id s ≡ none)
      × SameElsewhere poll_calls id s d
      × ((r : PollRecord) × (poll_calls.at id d ≡ some r))
  Made s _ = Unit {0}

  open_socket-Made :
      (answer : Rc) (s d : Context) {id : ℕ}
      → IsReady s
      → HasRoom s
      → open_socket answer s ≡ returns (id, none) d
      → Made s (returns (id, none) d)
  unfolding open_socket make_socket
  open_socket-Made (failed e) s d ready room made = absurd cc
  open_socket-Made (ok fd) s d ready room made =
      let r : PollRecord = record { handle = fd; blocking = true } in
      let (id, c, e, valid, fresh, small, upd) = lookup-insert r s.d_sockets ready room in
      let opened : open_socket (ok fd) s ≡ returns (id, none) (record s { d_sockets = c }) =
        rw (e, make_socket) refl in
      subst (Made s) (sym opened ∙ made) (
        valid,
        (λ at_end. ground arith),
        fresh,
        (λ j h. upd j ∙ rw (differs h)),
        (r, upd id ∙ rw (==_refl id)),
      )

  -- poll_context.hpp meets what the owners of sockets ask of a context.
  pub poll_calls-Laws : Laws poll_calls IsReady HasRoom
  unfolding open_socket make_socket native_handle release set_option bind listen
  poll_calls-Laws = record {
    makes = λ family s d ready room made. open_socket-Made (socket_call family) s d ready room made;
    releases = λ s {id} {r} ready there.
        let (c, gone, valid, _, upd) = lookup-erase id s.d_sockets ready there in
        (
          error_of closed,
          record s { d_sockets = c },
          rw (there, gone, release) refl,
          valid,
          upd id ∙ rw (==_refl id),
          λ j h. upd j ∙ rw (differs h),
        );
    sets = λ level name value s {id} {r} there. (
      error_of (setsockopt r.handle level name value),
      rw (there, native_handle, set_option) refl,
    );
    binds = λ endpoint s {id} {r} there.
        (error_of (bind_call r.handle endpoint), rw (there, native_handle, bind) refl);
    listens = λ backlog s {id} {r} there.
        (error_of (listen_call r.handle backlog), rw (there, native_handle, listen) refl);
  }
