-- ===== src/StateStore/Interface.antt =====
-- statestore/state_store.go: the interface `StateStore`. The clock is outside the store, so an
-- operation that reads it takes the instant that it reads. `get` takes the message that its
-- argument `new` makes. `StoreLaws` is what a client may rely on.
use tpm_go.Prelude.{◌≡◌, arith, Bool, true, false, String, Option, none, some, if◌then◌else◌}
use tpm_go.Prelude.Int.{ℤ, pos, ◌+ℤ◌, ltb_ℤ, is_zero_ℤ}
use tpm_go.Prelude.Text.{◌==◌}
use tpm_go.Events.Message.{
  ProtoMessage, vehicle_position, stop, dwell_time, travel_time, headway_time,
}

pub data StoreError : Type 0 where
  marshal_failed client_failed : StoreError

pub record StateStore : Type 1 where
  pub State : Type 0
  pub get : ℤ → String → ProtoMessage → State → ProtoMessage × Bool
  pub set : ℤ → String → ProtoMessage → ℤ → State → State × Option StoreError
  pub delete : String → State → State

-- What `Get` returns for the message that is live at its key, if there is one.
abbrev pub answer : Option ProtoMessage → ProtoMessage → ProtoMessage × Bool
answer none new = (new, false)
answer (some m) new = (m, true)

-- The message of an entry that is written at `t` for `ttl`, as it is seen at `u`.
abbrev pub until : ℤ → ℤ → ProtoMessage → Option ProtoMessage
until end u m = if ltb_ℤ end u then none else some m

-- `live u k s` is what a client sees under `k` at the instant `u`.
pub record StoreLaws (S : StateStore) (live : ℤ → String → S.State → Option ProtoMessage)
    : Type 0 where
  pub get-live :
      (t : ℤ) (k : String) (new : ProtoMessage) (s : S.State)
      → S.get t k new s ≡ answer (live t k s) new
  pub set_succeeds :
      (t : ℤ) (k : String) (m : ProtoMessage) (ttl : ℤ) (s : S.State) → (S.set t k m ttl s).1 ≡ none
  pub live-set :
      (t u : ℤ) (k j : String) (m : ProtoMessage) (ttl : ℤ) (s : S.State)
      → is_zero_ℤ ttl ≡ false
      → live u j (S.set t k m ttl s).0 ≡ (if k == j then until (t +ℤ ttl) u m else live u j s)
  pub live-delete :
      (u : ℤ) (k j : String) (s : S.State)
      → live u j (S.delete k s) ≡ (if k == j then none else live u j s)

-- Two pointers to messages of one type, neither of them nil.
abbrev pub is_kind : ProtoMessage → ProtoMessage → Bool
is_kind (some (vehicle_position (some _))) (some (vehicle_position (some _))) = true
is_kind (some (stop (some _))) (some (stop (some _))) = true
is_kind (some (dwell_time (some _))) (some (dwell_time (some _))) = true
is_kind (some (travel_time (some _))) (some (travel_time (some _))) = true
is_kind (some (headway_time (some _))) (some (headway_time (some _))) = true
is_kind _ _ = false

-- What a client may rely on that stores messages of one type, which `new` makes, for a positive
-- time.
pub record TypedLaws (S : StateStore) (live : ℤ → String → S.State → Option ProtoMessage)
    (new : ProtoMessage) : Type 0 where
  pub get-live : (t : ℤ) (k : String) (s : S.State) → S.get t k new s ≡ answer (live t k s) new
  pub set_succeeds :
      (t : ℤ) (k : String) (m : ProtoMessage) (ttl : ℤ) (s : S.State)
      → is_kind new m ≡ true
      → ltb_ℤ (pos 0) ttl ≡ true
      → (S.set t k m ttl s).1 ≡ none
  pub live-set :
      (t u : ℤ) (k j : String) (m : ProtoMessage) (ttl : ℤ) (s : S.State)
      → is_kind new m ≡ true
      → ltb_ℤ (pos 0) ttl ≡ true
      → live u j (S.set t k m ttl s).0 ≡ (if k == j then until (t +ℤ ttl) u m else live u j s)
  pub live-delete :
      (u : ℤ) (k j : String) (s : S.State)
      → live u j (S.delete k s) ≡ (if k == j then none else live u j s)

pub nonzero_of_positive : (ttl : ℤ) → ltb_ℤ (pos 0) ttl ≡ true → is_zero_ℤ ttl ≡ false
nonzero_of_positive ttl h = ground arith

-- A store that keeps the laws keeps them for the messages of each type.
pub typed :
    {S : StateStore} {live : ℤ → String → S.State → Option ProtoMessage} {new : ProtoMessage}
    → StoreLaws S live
    → TypedLaws S live new
typed {S} {live} {new} L = record {
  get-live = λ t k s. L.get-live t k new s;
  set_succeeds = λ t k m ttl s kind h. L.set_succeeds t k m ttl s;
  live-set = λ t u k j m ttl s kind h. L.live-set t u k j m ttl s (nonzero_of_positive ttl h);
  live-delete = L.live-delete;
}
