-- ===== src/Scope/Examples.antt =====
-- The theorem of `net.Scope` for two jobs that complete in the other order.
use net.Prelude.{◌≡◌, refl, List, [], ◌∷◌, arith, some, get_elem?}
use net.Scope.{gone, fresh, run, Event, spawns, stops, completes}
use net.Scope.Live.{complains-run}

abbrev history : List Event
history = spawns ∷ spawns ∷ stops ∷ completes 1 ∷ completes 0 ∷ completes 0 ∷ completes 1 ∷ []

complains-run_example : get_elem? (run history fresh).jobs 1 ≡ some gone
unfolding net.Scope.complains net.Scope.run
complains-run_example = complains-run history 1 (omega arith) refl (omega arith)
