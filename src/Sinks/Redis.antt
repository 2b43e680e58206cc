-- ===== src/Sinks/Redis.antt =====
-- sinks/redis_sink.go: the calls of the client's `Publish`, in order. An error of a call is
-- logged and the loop goes on. `marshal` is `proto.Marshal`: none where it fails.
use tpm_go.Prelude.{ℕ, String, Option, none, some, List, [], ◌∷◌}
use tpm_go.Events.Message.{ProtoMessage}
use tpm_go.Sinks.Turns.{Turn, cancelled, closed, other, item}

pub record Publication : Type 0 where
  pub channel : String
  pub payload : List ℕ

module _ (channel : String) (marshal : ProtoMessage → Option (List ℕ)) where
  -- The part of a turn after the assertion, before what is published later.
  unfoldable pub publish : Option (List ℕ) → List Publication → List Publication
  publish none later = later
  publish (some b) later = record { channel = channel; payload = b } ∷ later

  unfoldable pub do_sink : List (Turn ProtoMessage) → List Publication
  unfolding publish
  do_sink [] = []
  do_sink (cancelled ∷ rest) = []
  do_sink (closed ∷ rest) = []
  do_sink (other ∷ rest) = do_sink rest
  do_sink (item m ∷ rest) = publish (marshal m) (do_sink rest)
