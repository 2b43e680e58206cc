-- ===== src/Tests/Redis.antt =====
-- A server that keeps messages as they are, and the Redis store over it.
use tpm_go.Prelude.{◌≡◌, refl, true, String, Option, none, some, if◌then◌else◌, arith}
use tpm_go.Prelude.Int.{ℤ, pos, ◌+ℤ◌}
use tpm_go.Prelude.Text.{◌==◌}
use tpm_go.Events.Timestamp.{hour}
use tpm_go.Events.Stop.{arrival}
use tpm_go.Events.Message.{ProtoMessage, stop}
use tpm_go.StateStore.Interface.{TypedLaws}
use tpm_go.StateStore.Redis.{Client, Codec, new_redis_state_store, get, set}
use tpm_go.StateStore.Redis.Laws.{ClientLaws, kept_until, redis, live, redis-TypedLaws}
use tpm_go.Processors.Element.{new_stop_event}
use tpm_go.Tests.Base.{stop_event}

abbrev Kept : Type 0
Kept = String → Option (ProtoMessage × ℤ)

abbrev visible : ℤ → Option (ProtoMessage × ℤ) → Option ProtoMessage
visible u none = none
visible u (some (m, end)) = kept_until end u m

abbrev exact_client : Client ProtoMessage
exact_client = record {
  Server = Kept;
  get = λ u k s. visible u (s k);
  set = λ t k m ttl s. (λ j. if k == j then some (m, t +ℤ ttl) else s j, none);
  del = λ k s j. if k == j then none else s j;
  close = λ s. s;
}

abbrev exact_codec : Codec ProtoMessage
exact_codec = record { marshal = λ m. some m; unmarshal = λ b new. some b }

exact_client-ClientLaws : ClientLaws exact_client
exact_client-ClientLaws = record {
  set_succeeds = λ t k b ttl s h. refl;
  get-set = λ t u k j b ttl s h. ground arith;
  get-del = λ u k j s. ground arith;
}

redis-TypedLaws_example :
    TypedLaws
      (redis exact_client exact_codec)
      (live exact_client exact_codec new_stop_event)
      new_stop_event
redis-TypedLaws_example =
    redis-TypedLaws exact_client exact_codec exact_client-ClientLaws
      (record { unmarshal-marshal = λ m new h. (m, refl, refl) }) new_stop_event

abbrev arrived : ProtoMessage
arrived = some (stop (some (stop_event arrival "v" "A" 100)))

-- A message that is set at 10 for an hour is found at its end.
found_again :
    let s =
      (set exact_client exact_codec
        (pos 10)
        "k"
        arrived
        hour
        (new_redis_state_store exact_client exact_codec (pos 0) (λ k. none))).0 in
    get exact_client exact_codec (pos 3600000000010) "k" new_stop_event s ≡ (arrived, true)
unfolding set get new_redis_state_store ◌+ℤ◌
found_again = refl
