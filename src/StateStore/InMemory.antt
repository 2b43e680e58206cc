-- ===== src/StateStore/InMemory.antt =====
-- statestore/in_memory_store.go. The mutex makes each operation one step, so an operation is a
-- function on the store. A Go map is a function from keys; the sweep visits every key of it.
pub mod Laws
pub mod Sweeps
use tpm_go.Prelude.{Bool, true, false, String, Option, none, some, ◌/◌, if◌then◌else◌}
use tpm_go.Prelude.Int.{ℤ, pos, negsuc, ◌+ℤ◌, ltb_ℤ, is_zero_ℤ, pos_part, neg_part, sub_ℕ}
use tpm_go.Prelude.Text.{◌==◌}
use tpm_go.Events.Timestamp.{hour}
use tpm_go.Events.Message.{ProtoMessage}
use tpm_go.StateStore.Interface.{StoreError}

pub record InMemoryState : Type 0 where
  pub msg : ProtoMessage
  pub expiration : ℤ

pub record InMemoryStateStore : Type 0 where
  pub ttl : ℤ
  pub states : String → Option InMemoryState
  pub done : Bool  -- the channel `done` is closed

-- m[key] = v, and delete(m, key) where `v` is none
abbrev pub update :
    (String → Option InMemoryState) → String → Option InMemoryState → String → Option InMemoryState
update m key v j = if key == j then v else m j

unfoldable pub new_in_memory_state_store : ℤ → InMemoryStateStore
new_in_memory_state_store expiry = record {
  ttl = if is_zero_ℤ expiry then hour else expiry;
  states = λ _. none;
  done = false;
}

-- The entry's message, and whether it was found, or the new message.
abbrev pub found_or : ℤ → ProtoMessage → Option InMemoryState → ProtoMessage × Bool
found_or now new none = (new, false)
found_or now new (some state) =
    if ltb_ℤ state.expiration now then (new, false) else (state.msg, true)

unfoldable pub get : ℤ → String → ProtoMessage → InMemoryStateStore → ProtoMessage × Bool
get now key new s = found_or now new (s.states key)

unfoldable pub set :
    ℤ → String → ProtoMessage → ℤ → InMemoryStateStore → InMemoryStateStore × Option StoreError
set now key msg ttl s =
    let kept = if is_zero_ℤ ttl then s.ttl else ttl in
    let entry = some (record { msg = msg; expiration = now +ℤ kept }) in
    (record s { states = update s.states key entry }, none)

unfoldable pub delete : String → InMemoryStateStore → InMemoryStateStore
delete key s = record s { states = update s.states key none }

-- `close(s.done)`, which panics on a closed channel: then there is no next state.
unfoldable pub close : InMemoryStateStore → Option InMemoryStateStore
close s = if s.done then none else some (record s { done = true })

-- ttl / 10, which Go cuts towards zero
abbrev tenth : ℤ → ℤ
tenth ttl = sub_ℕ (pos_part ttl / 10) (neg_part ttl / 10)

abbrev ten_seconds : ℤ
ten_seconds = pos 10000000000

-- The interval of the ticker that `expire` makes.
unfoldable pub sweep_interval : ℤ → ℤ
sweep_interval ttl = if ltb_ℤ (tenth ttl) ten_seconds then ten_seconds else tenth ttl

abbrev unexpired : ℤ → Option InMemoryState → Option InMemoryState
unexpired now none = none
unexpired now (some state) = if ltb_ℤ state.expiration now then none else some state

-- One tick of `expire`: the loop that deletes what has expired.
unfoldable pub sweep : ℤ → InMemoryStateStore → InMemoryStateStore
sweep now s = record s { states = λ key. unexpired now (s.states key) }
