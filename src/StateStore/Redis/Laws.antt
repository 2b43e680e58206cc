-- ===== src/StateStore/Redis/Laws.antt =====
-- statestore/redis_store.go against the interface, for a processor that stores messages of one
-- type, where the server answers and messages can be read back.
use tpm_go.Prelude.{◌≡◌, refl, true, String, Option, none, some, arith, if◌then◌else◌}
use tpm_go.Prelude.Int.{ℤ, pos, ◌+ℤ◌, ltb_ℤ}
use tpm_go.Prelude.Text.{◌==◌}
use tpm_go.Events.Message.{ProtoMessage}
use tpm_go.StateStore.Interface.{StateStore, TypedLaws, is_kind, answer, nonzero_of_positive}
use tpm_go.StateStore.Redis.{Client, Codec, RedisStateStore, read, get, set, delete}

-- The bytes of an entry that expires at `end`, as they are seen at `u`.
abbrev pub kept_until : {Bytes : Type 0} → ℤ → ℤ → Bytes → Option Bytes
kept_until end u b = if ltb_ℤ end u then none else some b

-- What the server documents, where it answers: `GET` reads what was set last under the key and
-- has not expired, and `SET` for a positive time and `DEL` change their key only. The server's clock
-- is as fine as the times that it is given.
pub record ClientLaws {Bytes : Type 0} (C : Client Bytes) : Type 0 where
  pub set_succeeds :
      (t : ℤ) (k : String) (b : Bytes) (ttl : ℤ) (s : C.Server)
      → ltb_ℤ (pos 0) ttl ≡ true
      → (C.set t k b ttl s).1 ≡ none
  pub get-set :
      (t u : ℤ) (k j : String) (b : Bytes) (ttl : ℤ) (s : C.Server)
      → ltb_ℤ (pos 0) ttl ≡ true
      → C.get u j (C.set t k b ttl s).0
        ≡ (if k == j then kept_until (t +ℤ ttl) u b else C.get u j s)
  pub get-del :
      (u : ℤ) (k j : String) (s : C.Server)
      → C.get u j (C.del k s) ≡ (if k == j then none else C.get u j s)

-- What the encoding documents: a message that is not nil can be written, and is read back into a
-- new message of its type.
pub record CodecLaws {Bytes : Type 0} (P : Codec Bytes) : Type 0 where
  pub unmarshal-marshal :
      (m new : ProtoMessage)
      → is_kind new m ≡ true
      → (b : Bytes) × (P.marshal m ≡ some b) × (P.unmarshal b new ≡ some m)

module _ {Bytes : Type 0} (C : Client Bytes) (P : Codec Bytes) where
  abbrev pub redis : StateStore
  redis = record { State = RedisStateStore C P; get = get C P; set = set C P; delete = delete C P }

  abbrev decoded : ProtoMessage → Option Bytes → Option ProtoMessage
  decoded new none = none
  decoded new (some b) = P.unmarshal b new

  -- The message that a reader with the new message `new` finds.
  abbrev pub live : ProtoMessage → ℤ → String → RedisStateStore C P → Option ProtoMessage
  live new u k s = decoded new (C.get u k s.client)

  read-decoded :
      (new : ProtoMessage) (o : Option Bytes) → read C P new o ≡ answer (decoded new o) new
  read-decoded new none = refl
  read-decoded new (some b) = ground arith

  -- Where the server answers as it documents and messages can be read back, the Redis store keeps
  -- the laws of the interface for a processor that stores messages of one type for a positive
  -- time: `Get` answers with what is live under its key, or with the new message; `Set` succeeds,
  -- and what it sets is live exactly until its time is over; after `Delete` nothing is live; both
  -- leave the other keys alone.
  pub redis-TypedLaws :
      ClientLaws C → CodecLaws P → (new : ProtoMessage) → TypedLaws redis (live new) new
  unfolding get set delete
  redis-TypedLaws CL PL new = record {
    get-live = λ t k s. read-decoded new (C.get t k s.client);
    set_succeeds = λ t k m ttl s kind h.
        let (b, written, back) = PL.unmarshal-marshal m new kind in
        ground (arith, written, nonzero_of_positive ttl h, CL.set_succeeds t k b ttl s.client h);
    live-set = λ t u k j m ttl s kind h.
        let (b, written, back) = PL.unmarshal-marshal m new kind in
        ground
          (arith, written, back, nonzero_of_positive ttl h, CL.get-set t u k j b ttl s.client h);
    live-delete = λ u k j s. ground (arith, CL.get-del u k j s.client);
  }
