-- ===== src/Tests/Store.antt =====
-- A history of the in-memory store, and instances of the theorems on it.
use tpm_go.Prelude.{◌≡◌, refl, true, false, none, some, [], ◌∷◌, arith}
use tpm_go.Prelude.Int.{pos, ◌+ℤ◌}
use tpm_go.Events.Message.{ProtoMessage, stop}
use tpm_go.StateStore.InMemory.{
  new_in_memory_state_store, get, set, delete, close, sweep, sweep_interval,
}
use tpm_go.StateStore.InMemory.Sweeps.{
  History, get_op, set_op, sweep_op, results, without_sweeps, results-without_sweeps,
}
use tpm_go.Tests.Base.{empty_store}

store : Unit {0}
unfolding new_in_memory_state_store get set delete close sweep sweep_interval results without_sweeps
    ◌+ℤ◌
store = tt

abbrev m : ProtoMessage
m = some (stop none)

-- An entry lives until its time is over, and no longer; a sweep between does not show.
abbrev history : History
history =
    (pos 1, set_op "a" m (pos 5))
    ∷ (pos 3, sweep_op)
    ∷ (pos 6, get_op "a" none)
    ∷ (pos 7, sweep_op)
    ∷ (pos 7, get_op "a" none)
    ∷ []

answers : results history empty_store ≡ (m, true) ∷ (none, false) ∷ []
unfolding store
answers = refl

default_expiry : (new_in_memory_state_store (pos 0)).ttl ≡ pos 3600000000000
unfolding store
default_expiry = refl

close_twice : close (record empty_store { done = true }) ≡ none
unfolding store
close_twice = refl

results-without_sweeps_example :
    results history empty_store ≡ results (without_sweeps history) empty_store
results-without_sweeps_example = results-without_sweeps (pos 0) history empty_store (omega arith)
