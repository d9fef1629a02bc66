-- ===== src/Acceptor.antt =====
-- include/beman/net/detail/basic_socket_acceptor.hpp and basic_socket.hpp: the owners of a socket
-- id. The context is an argument: a record of its calls on sockets (`Calls`), with the table that
-- they change as the field `at`. What is asked of these calls is in `Laws`, and `PollContext` shows
-- that poll_context.hpp gives it.
pub mod Laws
pub mod Lifetime
pub mod PollContext
mod Examples
use net.Prelude.{ℕ, Bool, true, false, Option, none, some, List, not, ◌==◌, if◌then◌else◌}
use net.Prelude.Outcome.{Outcome, returns, and_then}
use net.Container.{invalid}

-- `S` is the state of the context, `R` what its table has for a socket, `X` an error of the system.
-- Each call returns the error that it sets, if any.
pub record Calls (S R X : Type 0) : Type 0 where
  pub at : ℕ → S → Option R
  -- of a family; the type and the protocol are those of TCP
  pub make_socket : ℕ → S → Outcome S (ℕ × Option X)
  pub release_socket : ℕ → S → Outcome S (Option X)
  -- of an id, a level, a name and a value
  pub set_socket_option : ℕ → ℕ → ℕ → ℕ → S → Outcome S (Option X)
  pub bind_socket : ℕ → List ℕ → S → Outcome S (Option X)
  pub listen_socket : ℕ → ℕ → S → Outcome S (Option X)

-- `std::error_code` with an error in it.
pub data ErrorCode (X : Type 0) : Type 0 where
  system : X → ErrorCode X
  already_open : ErrorCode X

-- A function that throws `std::system_error`, or does not.
pub data Ended (X A : Type 0) : Type 0 where
  normally : A → Ended X A
  throws : ErrorCode X → Ended X A

-- `basic_socket_acceptor`, but for its context, and `basic_socket`.
pub record Acceptor : Type 0 where
  pub d_family : ℕ
  pub d_id : ℕ

abbrev pub is_open : Acceptor → Bool
is_open a = not (a.d_id == invalid)

-- The move constructor: the new object, and the one that was moved from.
unfoldable pub move_from : Acceptor → Acceptor × Acceptor
move_from a = (a, record a { d_id = invalid })

-- `SOL_SOCKET`, `SO_REUSEADDR` and `SOMAXCONN`.
abbrev pub sol_socket : ℕ
sol_socket = 1

abbrev pub so_reuseaddr : ℕ
so_reuseaddr = 2

abbrev pub max_listen_connections : ℕ
max_listen_connections = 4096

module _ {S R X : Type 0} (calls : Calls S R X) where
  -- `dispatch`, of a call that sets an error code.
  abbrev pub dispatch : Outcome S (Option X) → Outcome S (Ended X (Unit {0}))
  dispatch m =
      and_then m λ error. returns (elim error [ none ↦ normally tt | some x ↦ throws (system x) ])

  -- `open` with an error code, which `make_socket` sets only where it fails.
  unfoldable pub open_with : ℕ → Acceptor → S → Outcome S (Acceptor × Option (ErrorCode X))
  open_with family a s = and_then (calls.make_socket family s) λ made. returns (
    record a { d_id = made.0 },
    elim made.1 [ none ↦ if is_open a then some already_open else none | some x ↦ some (system x) ],
  )

  -- `close` with an error code.
  unfoldable pub close : Acceptor → S → Outcome S (Acceptor × Option X)
  close a s =
      if is_open a
      then and_then (calls.release_socket a.d_id s)
          (λ error. returns (record a { d_id = invalid }, error))
      else returns (a, none) s

  -- The destructor. That of `basic_socket` does the same.
  unfoldable pub destroy : Acceptor → S → Outcome S (Unit {0})
  destroy a s = and_then (close a s) λ _. returns tt

  unfoldable pub set_option : ℕ → ℕ → ℕ → Acceptor → S → Outcome S (Ended X (Unit {0}))
  set_option level name value a s = dispatch (calls.set_socket_option a.d_id level name value s)

  unfoldable pub bind : List ℕ → Acceptor → S → Outcome S (Ended X (Unit {0}))
  bind endpoint a s = dispatch (calls.bind_socket a.d_id endpoint s)

  unfoldable pub listen : ℕ → Acceptor → S → Outcome S (Ended X (Unit {0}))
  listen backlog a s = dispatch (calls.listen_socket a.d_id backlog s)

  -- What follows where nothing was thrown.
  abbrev pub then_do :
      {A : Type 0}
      → Outcome S (Ended X (Unit {0}))
      → (S → Outcome S (Ended X A))
      → Outcome S (Ended X A)
  then_do m next =
      and_then m λ ended d. elim ended [ normally _ ↦ next d | throws e ↦ returns (throws e) d ]

  abbrev pub opened :
      Acceptor × Option (ErrorCode X)
      → (Acceptor → S → Outcome S (Ended X Acceptor))
      → S
      → Outcome S (Ended X Acceptor)
  opened (a, none) next s = next a s
  opened (a, some e) next s = returns (throws e) s

  -- The constructor of an endpoint with its family. Where it throws, no destructor is called.
  unfoldable pub construct :
      (family : ℕ) (endpoint : List ℕ) (reuse : Bool) → S → Outcome S (Ended X Acceptor)
  construct family endpoint reuse s =
      let closed : Acceptor = record { d_family = family; d_id = invalid } in
      and_then (open_with family closed s) λ o. opened o λ a d.
        then_do
          (if reuse then set_option sol_socket so_reuseaddr 1 a d else returns (normally tt) d)
          λ e.
            then_do (bind endpoint a e)
              λ f. then_do (listen max_listen_connections a f) (returns (normally a))
