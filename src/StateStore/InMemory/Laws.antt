-- ===== src/StateStore/InMemory/Laws.antt =====
-- statestore/in_memory_store.go against the laws of the interface: what is live in it at an
-- instant, and the interval of its sweeper.
use tpm_go.Prelude.{refl, String, Option, none, some, arith}
use tpm_go.Prelude.Int.{ℤ, pos, ◌≤ℤ◌}
use tpm_go.Events.Message.{ProtoMessage}
use tpm_go.StateStore.Interface.{StateStore, StoreLaws, until}
use tpm_go.StateStore.InMemory.{InMemoryState, InMemoryStateStore, get, set, delete, sweep_interval}

abbrev pub in_memory : StateStore
in_memory = record { State = InMemoryStateStore; get = get; set = set; delete = delete }

abbrev pub live_entry : ℤ → Option InMemoryState → Option ProtoMessage
live_entry u none = none
live_entry u (some e) = until e.expiration u e.msg

abbrev pub live : ℤ → String → InMemoryStateStore → Option ProtoMessage
live u k s = live_entry u (s.states k)

-- The in-memory store keeps the laws of the interface: `Get` answers with what is live under its
-- key, or with the new message; `Set` succeeds, and what it sets for a time other than 0 is live
-- under its key exactly until that time is over; after `Delete` nothing is live under its key;
-- both leave the other keys alone.
pub in_memory-StoreLaws : StoreLaws in_memory live
unfolding get set delete
in_memory-StoreLaws = record {
  get-live = λ t k new s. ground arith;
  set_succeeds = λ t k m ttl s. refl;
  live-set = λ t u k j m ttl s h. ground arith;
  live-delete = λ u k j s. ground arith;
}

-- The ticker's interval is at least ten seconds, also where the configured time is negative.
pub sweep_interval_positive : (ttl : ℤ) → pos 10000000000 ≤ℤ sweep_interval ttl
unfolding sweep_interval
sweep_interval_positive ttl = ground arith
