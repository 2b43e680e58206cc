-- ===== src/StateStore/InMemory/Sweeps.antt =====
-- The goroutine `expire` of statestore/in_memory_store.go runs between the operations of the
-- clients. A history is the sequence of critical sections, each with the instant that it reads.
use tpm_go.Prelude.{◌≡◌, refl, Bool, String, Option, List, [], ◌∷◌, arith}
use tpm_go.Prelude.Int.{ℤ, ◌≤ℤ◌}
use tpm_go.Events.Message.{ProtoMessage}
use tpm_go.StateStore.InMemory.{
  InMemoryState, InMemoryStateStore, get, set, delete, sweep, unexpired, found_or,
}
use tpm_go.StateStore.InMemory.Laws.{live, live_entry}

pub data StoreOp : Type 0 where
  get_op : String → ProtoMessage → StoreOp
  set_op : String → ProtoMessage → ℤ → StoreOp
  delete_op : String → StoreOp
  sweep_op : StoreOp

abbrev pub History : Type 0
History = List (ℤ × StoreOp)

pub step : ℤ → StoreOp → InMemoryStateStore → InMemoryStateStore
unfolding set delete sweep
step t (get_op k new) s = s
step t (set_op k m ttl) s = (set t k m ttl s).0
step t (delete_op k) s = delete k s
step t sweep_op s = sweep t s

-- The results of the calls of `Get`, in order.
unfoldable pub results : History → InMemoryStateStore → List (ProtoMessage × Bool)
unfolding get step
results [] s = []
results ((t, get_op k new) ∷ h) s = get t k new s ∷ results h s
results ((t, set_op k m ttl) ∷ h) s = results h (step t (set_op k m ttl) s)
results ((t, delete_op k) ∷ h) s = results h (step t (delete_op k) s)
results ((t, sweep_op) ∷ h) s = results h (step t sweep_op s)

unfoldable pub without_sweeps : History → History
without_sweeps [] = []
without_sweeps ((t, sweep_op) ∷ h) = without_sweeps h
without_sweeps ((t, get_op k new) ∷ h) = (t, get_op k new) ∷ without_sweeps h
without_sweeps ((t, set_op k m ttl) ∷ h) = (t, set_op k m ttl) ∷ without_sweeps h
without_sweeps ((t, delete_op k) ∷ h) = (t, delete_op k) ∷ without_sweeps h

-- The instants do not go back, from `t` on.
abbrev pub IsOrdered : ℤ → History → Type 0
IsOrdered t [] = Unit
IsOrdered t ((u, op) ∷ h) = (t ≤ℤ u) × IsOrdered u h

-- The stores show the same from `t` on.
record Agree (t : ℤ) (s s' : InMemoryStateStore) : Type 0 where
  same_ttl : s.ttl ≡ s'.ttl
  same_live : (u : ℤ) (k : String) → t ≤ℤ u → live u k s ≡ live u k s'

found_or-live :
    (t : ℤ) (new : ProtoMessage) (a b : Option InMemoryState)
    → live_entry t a ≡ live_entry t b
    → found_or t new a ≡ found_or t new b
found_or-live t new a b h = ground arith

live_entry-unexpired :
    (t u : ℤ) (o : Option InMemoryState) → t ≤ℤ u → live_entry u (unexpired t o) ≡ live_entry u o
live_entry-unexpired t u o h = ground arith

get-Agree :
    (t : ℤ) (k : String) (new : ProtoMessage) {s s' : InMemoryStateStore}
    → Agree t s s'
    → get t k new s ≡ get t k new s'
unfolding get
get-Agree t k new {s} {s'} a =
    found_or-live t new (s.states k) (s'.states k) (a.same_live t k (omega arith))

later-Agree : {t u : ℤ} {s s' : InMemoryStateStore} → t ≤ℤ u → Agree t s s' → Agree u s s'
later-Agree le a = record {
  same_ttl = a.same_ttl;
  same_live = λ v k h. a.same_live v k (omega arith);
}

step-Agree :
    (t : ℤ) (op : StoreOp) {s s' : InMemoryStateStore}
    → Agree t s s'
    → Agree t (step t op s) (step t op s')
unfolding step
step-Agree t (get_op k new) a = a
step-Agree t (set_op k m ttl) a = record {
  same_ttl = a.same_ttl;
  same_live = λ u j h. ground (arith, a.same_ttl, a.same_live u j h);
}
step-Agree t (delete_op k) a = record {
  same_ttl = a.same_ttl;
  same_live = λ u j h. ground (arith, a.same_live u j h);
}
step-Agree t sweep_op {s} {s'} a = record {
  same_ttl = a.same_ttl;
  same_live = λ u j h. ground (
    arith,
    a.same_live u j h,
    live_entry-unexpired t u (s.states j) h,
    live_entry-unexpired t u (s'.states j) h,
  );
}

sweep-Agree : (t : ℤ) {s s' : InMemoryStateStore} → Agree t s s' → Agree t (step t sweep_op s) s'
unfolding step
sweep-Agree t {s} a = record {
  same_ttl = a.same_ttl;
  same_live = λ u j h. ground (arith, a.same_live u j h, live_entry-unexpired t u (s.states j) h);
}

results-Agree :
    (t : ℤ) (h : History) (s s' : InMemoryStateStore)
    → IsOrdered t h
    → Agree t s s'
    → results h s ≡ results (without_sweeps h) s'
unfolding results without_sweeps
results-Agree t [] s s' o a = refl
results-Agree t ((u, sweep_op) ∷ h) s s' (le, o) a =
    results-Agree u h (step u sweep_op s) s' o (sweep-Agree u (later-Agree le a))
results-Agree t ((u, get_op k new) ∷ h) s s' (le, o) a =
    let now : Agree u s s' = later-Agree le a in
    ground (arith, get-Agree u k new now, results-Agree u h s s' o now)
results-Agree t ((u, set_op k m ttl) ∷ h) s s' (le, o) a =
    results-Agree u h (step u (set_op k m ttl) s) (step u (set_op k m ttl) s') o
      (step-Agree u (set_op k m ttl) (later-Agree le a))
results-Agree t ((u, delete_op k) ∷ h) s s' (le, o) a =
    results-Agree u h (step u (delete_op k) s) (step u (delete_op k) s') o
      (step-Agree u (delete_op k) (later-Agree le a))

-- In a history whose instants do not go back, the sweeps change no answer of `Get`: the answers
-- are those of the history without its sweeps.
pub results-without_sweeps :
    (t : ℤ) (h : History) (s : InMemoryStateStore)
    → IsOrdered t h
    → results h s ≡ results (without_sweeps h) s
results-without_sweeps t h s o =
    results-Agree t h s s o (record { same_ttl = refl; same_live = λ u k le. refl })
