-- ===== src/StateStore/Redis.antt =====
-- statestore/redis_store.go. The client and proto.Marshal are packages outside the repository:
-- what the server holds, the client's operations at an instant of the server's clock, and the
-- encoding of messages are parameters, and so is the type of byte strings. A result is none where the operation returns an error.
pub mod Laws
use tpm_go.Prelude.{ℕ, Bool, true, false, String, Option, none, some, List, if◌then◌else◌}
use tpm_go.Prelude.Int.{ℤ, is_zero_ℤ}
use tpm_go.Events.Message.{ProtoMessage}
use tpm_go.StateStore.Interface.{StoreError, marshal_failed}

pub record Client (Bytes : Type 0) : Type 1 where
  pub Server : Type 0
  -- client.Get(ctx, key).Result()
  pub get : ℤ → String → Server → Option Bytes
  -- client.Set(ctx, key, value, ttl).Err()
  pub set : ℤ → String → Bytes → ℤ → Server → Server × Option StoreError
  -- client.Del(ctx, key)
  pub del : String → Server → Server
  -- client.Close()
  pub close : Server → Server

pub record Codec (Bytes : Type 0) : Type 0 where
  -- proto.Marshal(msg)
  pub marshal : ProtoMessage → Option Bytes
  -- proto.Unmarshal(b, msg): the message that `msg` points to after it
  pub unmarshal : Bytes → ProtoMessage → Option ProtoMessage

-- `if err != nil { return new(), false }`, and the last return
abbrev pub unmarshalled : ProtoMessage → Option ProtoMessage → ProtoMessage × Bool
unmarshalled new none = (new, false)
unmarshalled new (some m) = (m, true)

module _ {Bytes : Type 0} (C : Client Bytes) (P : Codec Bytes) where
  pub record RedisStateStore : Type 0 where
    pub ttl : ℤ
    pub client : C.Server

  unfoldable pub new_redis_state_store : ℤ → C.Server → RedisStateStore
  new_redis_state_store expiry client = record { ttl = expiry; client = client }

  -- What `Get` makes of the text of the key: the new message where there is none, or where it
  -- cannot be read.
  abbrev pub read : ProtoMessage → Option Bytes → ProtoMessage × Bool
  read new none = (new, false)
  read new (some b) = unmarshalled new (P.unmarshal b new)

  unfoldable pub get : ℤ → String → ProtoMessage → RedisStateStore → ProtoMessage × Bool
  get now key new s = read new (C.get now key s.client)

  -- From the call of `client.Set` on.
  abbrev pub write :
      ℤ → String → ℤ → Option Bytes → RedisStateStore → RedisStateStore × Option StoreError
  write now key ttl none s = (s, some marshal_failed)
  write now key ttl (some b) s =
      let (server, err) = C.set now key b ttl s.client in (record s { client = server }, err)

  unfoldable pub set :
      ℤ → String → ProtoMessage → ℤ → RedisStateStore → RedisStateStore × Option StoreError
  set now key msg ttl s =
      let kept = if is_zero_ℤ ttl then s.ttl else ttl in write now key kept (P.marshal msg) s

  unfoldable pub delete : String → RedisStateStore → RedisStateStore
  delete key s = record s { client = C.del key s.client }

  unfoldable pub close : RedisStateStore → RedisStateStore
  close s = record s { client = C.close s.client }
