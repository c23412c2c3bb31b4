-- ===== src/Agent/Etcd.antt =====
-- The etcd cluster behind crates/cmx-agent/src/metadata.rs, as an interface: the calls of the crate
-- `etcd_client` that the program makes. A call takes the connection, with the cluster behind it, and
-- gives the one after it; `none` stands for an error. Leases and their times to live are `i64`s,
-- written as their 64 bits.
use cmx_rdma.Base.{ℕ, ◌≡◌, true, Option, some, List, [], ◌∷◌, has, bytes_eq, Bytes}
use cmx_rdma.Base.Affix.{strip_prefix}

pub record Etcd : Type 1 where
  pub Client : Type 0
  pub connect : List Bytes → Option Client
  pub lease_grant : ℕ → Client → Option ℕ × Client
  pub lease_revoke : ℕ → Client → Option (Unit {0}) × Client
  pub lease_keep_alive : ℕ → Client → Option (Unit {0}) × Client
  -- `put` with a key, a value and a lease
  pub put : Bytes → Bytes → Option ℕ → Client → Option (Unit {0}) × Client
  -- The values under a key, at most one, and those under the keys with a prefix.
  pub get : Bytes → Client → Option (List Bytes) × Client
  pub get_prefix : Bytes → Client → Option (List Bytes) × Client
  pub watch : Bytes → Client → Option (Unit {0}) × Client
  -- A read that comes right after a write sees it.
  pub get-put :
      (key value : Bytes) (lease : Option ℕ) (before after later : Client) (found : List Bytes)
      → put key value lease before ≡ (some tt, after)
      → get key after ≡ (some found, later)
      → found ≡ value ∷ []
  pub get_prefix-put :
      (prefix key rest value : Bytes) (lease : Option ℕ) (before after later : Client)
      (found : List Bytes)
      → put key value lease before ≡ (some tt, after)
      → strip_prefix prefix key ≡ some rest
      → get_prefix prefix after ≡ (some found, later)
      → has value found ≡ true

pub data EventType : Type 0 where
  put_event : EventType
  delete_event : EventType

pub record KeyValue : Type 0 where
  pub key : Bytes
  pub value : Bytes

pub record Event : Type 0 where
  pub kv : Option KeyValue
  pub event_type : EventType

-- What `message()` of a watch stream gives: the events of a response, the end, or an error.
pub data Received : Type 0 where
  response : List Event → Received
  ended : Received
  failed : Received
