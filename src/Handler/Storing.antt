-- ===== src/Handler/Storing.antt =====
-- server/Handler: `SET` at the master of its key.
use kvjet.Prelude.{◌++◌, Bytes, ◌≡◌}
use kvjet.Prelude.Assoc.{Assoc}
use kvjet.Prelude.Outcome.{Outcome}
use kvjet.Resp.Value.{Value}
use kvjet.Resp.Encoder.{encode}
use kvjet.Store.KvStore.View.{IsStore, view}
use kvjet.Commands.Replies.{request, set_key, effect}
use kvjet.Server.{Server}
use kvjet.Store.KvStore.{set as store_set}

-- The data of the server are the same.
pub record SameData (s t : Server) : Type 0 where
  pub kvstore : t.kvstore ≡ s.kvstore
  pub aof : t.aof ≡ s.aof
  pub cluster : t.cluster ≡ s.cluster

-- What `SET` leaves: the answer is `OK` and the store has the new value for the key and the old ones for
-- all other keys; the log has the request behind all that it had; the cluster is the same.
pub record IsAccepted (dflt : Value) (key : Bytes) (value : Value) (s t : Server) : Type 0 where
  pub store : IsStore dflt t.kvstore
  pub maps :
      (k : Bytes) → view dflt t.kvstore k ≡ effect (set_key key value) k (view dflt s.kvstore k)
  pub logged :
      t.aof.file ++ t.aof.buffer
      ≡ (s.aof.file ++ s.aof.buffer) ++ encode (request (set_key key value))
  pub cluster : t.cluster ≡ s.cluster
