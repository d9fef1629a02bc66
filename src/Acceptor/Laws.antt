-- ===== src/Acceptor/Laws.antt =====
-- What the owners of basic_socket_acceptor.hpp ask of the calls of a context.
use net.Prelude.{ℕ, ◌≡◌, ◌≢◌, Option, none, some, List}
use net.Prelude.Outcome.{returns}
use net.Container.{invalid}
use net.Acceptor.{Calls}

module _ {S R X : Type 0} where
  -- The table is as it was, but at one id.
  abbrev pub SameElsewhere : Calls S R X → ℕ → S → S → Type 0
  SameElsewhere calls id s d = (j : ℕ) → j ≢ id → calls.at j d ≡ calls.at j s

  -- `Ready` says that the table is valid, and `HasRoom` that it can grow.
  pub record Laws (calls : Calls S R X) (Ready HasRoom : S → Type 0) : Type 0 where
    pub makes :
        (family : ℕ) (s d : S) {id : ℕ}
        → Ready s
        → HasRoom s
        → calls.make_socket family s ≡ returns (id, none) d
        → Ready d
          × (id ≢ invalid)
          × (calls.at id s ≡ none)
          × SameElsewhere calls id s d
          × ((r : R) × (calls.at id d ≡ some r))
    pub releases :
        (s : S) {id : ℕ} {r : R}
        → Ready s
        → calls.at id s ≡ some r
        → (error : Option X) × (d : S) × (calls.release_socket id s ≡ returns error d)
          × Ready d
          × (calls.at id d ≡ none)
          × SameElsewhere calls id s d
    pub sets :
        (level name value : ℕ) (s : S) {id : ℕ} {r : R}
        → calls.at id s ≡ some r
        → (error : Option X) × (calls.set_socket_option id level name value s ≡ returns error s)
    pub binds :
        (endpoint : List ℕ) (s : S) {id : ℕ} {r : R}
        → calls.at id s ≡ some r
        → (error : Option X) × (calls.bind_socket id endpoint s ≡ returns error s)
    pub listens :
        (backlog : ℕ) (s : S) {id : ℕ} {r : R}
        → calls.at id s ≡ some r
        → (error : Option X) × (calls.listen_socket id backlog s ≡ returns error s)
