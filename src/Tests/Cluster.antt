-- ===== src/Tests/Cluster.antt =====
-- A cluster for the runs: etcd as a list of keys and values, and texts that can be read back.
use cmx_rdma.Base.{
  sym, ◌≡◌, refl, true, Option, none, some, List, [], ◌∷◌, ◌++◌, arith, has, bytes_eq, length, take,
  drop, take-append, drop-append, same_refl, sym, Bytes,
}
use cmx_rdma.Base.Assoc
use cmx_rdma.Base.Affix.{strip_prefix}
use cmx_rdma.Agent.Etcd.{Etcd}
use cmx_rdma.Agent.Codecs.{NodeInfo, BlockLocationMeta, Json}

abbrev pub Store : Type 0
Store = List (Bytes × Bytes)

abbrev values : Option Bytes → List Bytes
values none = []
values (some v) = v ∷ []

abbrev with_prefix : Bytes → Store → List Bytes
with_prefix p [] = []
with_prefix p ((k, v) ∷ rest) =
    let more = with_prefix p rest in elim (strip_prefix p k) [ none ↦ more | some _ ↦ v ∷ more ]

pub sees :
    (key value : Bytes) (before after later : Store) (found : List Bytes)
    → ◌≡◌ {A = Option (Unit {0}) × Store} (some tt, (key, value) ∷ before) (some tt, after)
    → ◌≡◌ {A = Option (List Bytes) × Store}
        (some (values (Assoc.lookup key after)), after)
        (some found, later)
    → found ≡ value ∷ []
sees key value before after later found stored got =
    let same_store : (key, value) ∷ before ≡ after = ground arith in
    let there : Assoc.lookup key after ≡ some value = rw (sym same_store, same_refl key) refl in
    let one : values (Assoc.lookup key after) ≡ value ∷ [] = rw there refl in ground arith

pub lists :
    (prefix key rest value : Bytes) (before after later : Store) (found : List Bytes)
    → ◌≡◌ {A = Option (Unit {0}) × Store} (some tt, (key, value) ∷ before) (some tt, after)
    → strip_prefix prefix key ≡ some rest
    → ◌≡◌ {A = Option (List Bytes) × Store}
        (some (with_prefix prefix after), after)
        (some found, later)
    → has value found ≡ true
lists prefix key rest value before after later found stored at got =
    let same_store : (key, value) ∷ before ≡ after = ground arith in
    let listed : with_prefix prefix after ≡ value ∷ with_prefix prefix before =
      rw (sym same_store, with_prefix, at) refl in
    let all_found : with_prefix prefix after ≡ found = ground arith in
    rw (sym all_found, listed, same_refl value) refl

abbrev pub etcd : Etcd
etcd = record {
  Client = Store;
  connect = λ endpoints. some [];
  lease_grant = λ ttl s. (some 7, s);
  lease_revoke = λ id s. (some tt, s);
  lease_keep_alive = λ id s. (some tt, s);
  put = λ k v lease s. (some tt, (k, v) ∷ s);
  get = λ k s. (some (values (Assoc.lookup k s)), s);
  get_prefix = λ p s. (some (with_prefix p s), s);
  watch = λ p s. (some tt, s);
  get-put = λ key value lease before after later found stored got.
      sees key value before after later found stored got;
  get_prefix-put = λ prefix key rest value lease before after later found stored at got.
      lists prefix key rest value before after later found stored at got;
}

-- The fields of a block, with the length of the first text in front.
abbrev write_meta : BlockLocationMeta → Bytes
write_meta m = length m.node_id ∷ m.offset ∷ m.size ∷ m.generation ∷ (m.node_id ++ m.node_addr)

abbrev read_meta : Bytes → Option BlockLocationMeta
read_meta (n ∷ offset ∷ size ∷ generation ∷ rest) = some (record {
  node_id = take n rest;
  node_addr = drop n rest;
  offset = offset;
  size = size;
  generation = generation;
})
read_meta [] = none
read_meta (a ∷ []) = none
read_meta (a ∷ b ∷ []) = none
read_meta (a ∷ b ∷ d ∷ []) = none

read_meta-write_meta : (m : BlockLocationMeta) → read_meta (write_meta m) ≡ some m
read_meta-write_meta m =
    rw (take-append m.node_id m.node_addr, drop-append m.node_id m.node_addr) refl

pub meta_written :
    (m : BlockLocationMeta) (text : Bytes)
    → some (write_meta m) ≡ some text
    → read_meta text ≡ some m
meta_written m text h =
    let same_text : write_meta m ≡ text = ground arith in
    rw (sym same_text) (read_meta-write_meta m)

abbrev pub meta_json : Json BlockLocationMeta
meta_json = record {
  to_string = λ m. some (write_meta m);
  from_slice = read_meta;
  from_slice-to_string = λ m text h. meta_written m text h;
}

abbrev read_node : Bytes → Option NodeInfo
read_node [] = none
read_node (n ∷ rest) = some (record { node_id = take n rest; addr = drop n rest })

pub node_written :
    (i : NodeInfo) (text : Bytes)
    → some (length i.node_id ∷ (i.node_id ++ i.addr)) ≡ some text
    → read_node text ≡ some i
node_written i text h =
    let same_text : length i.node_id ∷ (i.node_id ++ i.addr) ≡ text = ground arith in
    rw (sym same_text, take-append i.node_id i.addr, drop-append i.node_id i.addr) refl

abbrev pub node_json : Json NodeInfo
node_json = record {
  to_string = λ i. some (length i.node_id ∷ (i.node_id ++ i.addr));
  from_slice = read_node;
  from_slice-to_string = λ i text h. node_written i text h;
}
