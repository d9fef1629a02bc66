-- ===== src/Acceptor/Lifetime.antt =====
-- What the owners of a socket of basic_socket_acceptor.hpp and basic_socket.hpp do with it, from
-- the constructor to the destructor.
use net.Prelude.{
  arith, ℕ, ◌≡◌, ◌≢◌, refl, sym, ap, ◌∙◌, ◌⊎◌, inl, inr, Bool, true, false, Option, none, some,
  List, ◌==◌, if◌then◌else◌, Bool-cases, ==→eq,
}
use net.Prelude.Outcome.{Outcome, returns}
use net.Container.{invalid}
use net.Acceptor.{
  Calls, Acceptor, ErrorCode, system, already_open, Ended, normally, throws, is_open, move_from,
  sol_socket, so_reuseaddr, max_listen_connections, dispatch, open_with, close, destroy, set_option,
  bind, listen, then_do, construct,
}
use net.Acceptor.Laws.{Laws, SameElsewhere}

is_open-true : (a : Acceptor) → a.d_id ≢ invalid → is_open a ≡ true
is_open-true a h = elim (Bool-cases (a.d_id == invalid)) [
  | inl hit ↦ absurd (h (==→eq a.d_id invalid hit))
  | inr miss ↦ rw miss
]

abbrev pub owner : ℕ → ℕ → Acceptor
owner family id = record { d_family = family; d_id = id }

module _ {S R X : Type 0} (calls : Calls S R X) {Ready HasRoom : S → Type 0}
    (laws : Laws calls Ready HasRoom) where
  -- The function returns or throws, and leaves the context as d.
  abbrev pub Ends : {A : Type 0} → Outcome S (Ended X A) → S → A → Type 0
  Ends m d a = (m ≡ returns (normally a) d) ⊎ ((x : ErrorCode X) × (m ≡ returns (throws x) d))

  dispatch-Ends :
      (error : Option X) (m : Outcome S (Option X)) (d : S)
      → m ≡ returns error d
      → Ends (dispatch calls m) d tt
  dispatch-Ends none m d e = inl (rw e refl)
  dispatch-Ends (some x) m d e = inr (system x, rw e refl)

  then_do-Ends :
      {A : Type 0} (m : Outcome S (Ended X (Unit {0}))) (next : S → Outcome S (Ended X A)) (d : S)
      (a : A)
      → Ends m d tt
      → Ends (next d) d a
      → Ends (then_do calls m next) d a
  then_do-Ends m next d a (inl e) after = rw e after
  then_do-Ends m next d a (inr (x, e)) after = inr (x, rw e refl)

  module _ {id : ℕ} {r : R} {d : S} (there : calls.at id d ≡ some r) (family : ℕ) where
    own : Acceptor
    own = record { d_family = family; d_id = id }

    reuse-Ends :
        (reuse : Bool)
        → Ends
            (if reuse
              then set_option calls sol_socket so_reuseaddr 1 own d
              else returns (normally tt) d)
            d
            tt
    unfolding set_option own
    reuse-Ends true =
        let (error, e) = laws.sets sol_socket so_reuseaddr 1 d there in dispatch-Ends error _ d e
    reuse-Ends false = inl refl

    bind-Ends : (endpoint : List ℕ) → Ends (bind calls endpoint own d) d tt
    unfolding bind own
    bind-Ends endpoint = let (error, e) = laws.binds endpoint d there in dispatch-Ends error _ d e

    listen-Ends : (backlog : ℕ) → Ends (listen calls backlog own d) d tt
    unfolding listen own
    listen-Ends backlog = let (error, e) = laws.listens backlog d there in dispatch-Ends error _ d e

    construct-Ends :
        (endpoint : List ℕ) (reuse : Bool) (s : S)
        → calls.make_socket family s ≡ returns (id, none) d
        → Ends (construct calls family endpoint reuse s) d own
    unfolding construct open_with own
    construct-Ends endpoint reuse s made =
        rw (made, construct, open_with)
          (then_do-Ends _ _ d own (reuse-Ends reuse) (
            then_do-Ends _ _ d own (bind-Ends endpoint)
              (then_do-Ends _ _ d own (listen-Ends max_listen_connections) (inl refl))))

  -- The destructor of an owner takes its socket out of the table.
  destroy_lem :
      (a : Acceptor) (d : S) {r : R}
      → Ready d
      → a.d_id ≢ invalid
      → calls.at a.d_id d ≡ some r
      → (e : S) × (destroy calls a d ≡ returns tt e)
        × Ready e
        × (calls.at a.d_id e ≡ none)
        × SameElsewhere calls a.d_id d e
  unfolding destroy close
  destroy_lem a d ready valid there =
      let (error, e, released, ready', gone, same) = laws.releases d ready there in
      (e, rw (is_open-true a valid) (rw released refl), ready', gone, same)

  destroy-moved : (a : Acceptor) (d : S) → destroy calls (move_from a).1 d ≡ returns tt d
  unfolding destroy close move_from
  destroy-moved a d = refl

  restored :
      (id : ℕ) (s d e : S)
      → calls.at id s ≡ none
      → SameElsewhere calls id s d
      → calls.at id e ≡ none
      → SameElsewhere calls id d e
      → (j : ℕ) → calls.at j e ≡ calls.at j s
  restored id s d e fresh same gone same' j = elim (Bool-cases (j == id)) [
    | inl hit ↦
        let at_id = ==→eq j id hit in
        ap (λ k. calls.at k e) at_id ∙ gone ∙ sym (ap (λ k. calls.at k s) at_id ∙ fresh)
    | inr miss ↦ let other : j ≢ id = λ at_id. ground arith in same' j other ∙ same j other
  ]

  -- Where make_socket makes a socket for it, the constructor of an acceptor either returns an owner
  -- of that socket or throws. In the first case the destructors of the object that is moved to and
  -- of the one that is moved from, in this order or the other, leave every id with what it had
  -- before the constructor. In the second case the socket stays in the table with no owner, under an
  -- id that was not in use.
  pub construct-destroy :
      (family : ℕ) (endpoint : List ℕ) (reuse : Bool) (s d : S) {id : ℕ}
      → Ready s
      → HasRoom s
      → calls.make_socket family s ≡ returns (id, none) d
      → ((construct calls family endpoint reuse s ≡ returns (normally (owner family id)) d)
          × ((e : S) × (destroy calls (move_from (owner family id)).0 d ≡ returns tt e)
              × (destroy calls (move_from (owner family id)).1 d ≡ returns tt d)
              × (destroy calls (move_from (owner family id)).1 e ≡ returns tt e)
              × ((j : ℕ) → calls.at j e ≡ calls.at j s)))
        ⊎ ((x : ErrorCode X) × (r : R) × (construct calls family endpoint reuse s
              ≡ returns (throws x) d)
            × (calls.at id s ≡ none)
            × (calls.at id d ≡ some r))
  unfolding move_from own
  construct-destroy family endpoint reuse s d {id} ready room made =
      let (ready', valid, fresh, same, (r, there)) = laws.makes family s d ready room made in
      let a = owner family id in
      elim (construct-Ends there family endpoint reuse s made) [
        | inl built ↦
            let (e, gone, _, free, same') = destroy_lem a d ready' valid there in
            inl (
              built,
              (
                e,
                gone,
                destroy-moved a d,
                destroy-moved a e,
                restored id s d e fresh same free same',
              ),
            )
        | inr (x, thrown) ↦ inr (x, r, thrown, fresh, there)
      ]

  -- Calling open for an acceptor that is open sets the error already_open, but makes a socket all
  -- the same and puts its id in place of the old one: the old socket then stays in the table, also
  -- after the destructor.
  pub open_with-already :
      (family : ℕ) (a : Acceptor) (s d : S) {id : ℕ} {r : R}
      → Ready s
      → HasRoom s
      → a.d_id ≢ invalid
      → calls.at a.d_id s ≡ some r
      → calls.make_socket family s ≡ returns (id, none) d
      → (open_with calls family a s ≡ returns (record a { d_id = id }, some already_open) d)
        × ((e : S) × (destroy calls (record a { d_id = id }) d ≡ returns tt e)
            × (calls.at id e ≡ none)
            × (calls.at a.d_id e ≡ some r))
  unfolding open_with
  open_with-already family a s d {id} ready room valid there made =
      let (ready', valid', fresh, same, (_, new)) = laws.makes family s d ready room made in
      let (e, gone, _, free, same') = destroy_lem (record a { d_id = id }) d ready' valid' new in
      let other : a.d_id ≢ id = λ at_id. cc in
      (
        rw made (rw (is_open-true a valid) refl),
        (e, gone, free, same' a.d_id other ∙ same a.d_id other ∙ there),
      )
