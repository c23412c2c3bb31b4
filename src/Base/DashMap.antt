-- ===== src/Base/DashMap.antt =====
-- The concurrent map of the `dashmap` crate as an interface: the operations that the program calls,
-- and what the crate's documentation says of them. Each call is atomic.
use Prim.Native.Nat.{ℕ, suc}
use mathlib.Core.Path.{◌≡◌, refl}
use mathlib.Core.Bool.{Bool}
use mathlib.Core.Option.{Option, none, some}
use mathlib.Core.List.{List, []}
use cmx_rdma.Base.Tests.{if◌then◌else◌, is_some, ◌>>=◌}
use cmx_rdma.Base.Lists.{length}
use cmx_rdma.Base.Keys.{Eq, same, has, Distinct}
use cmx_rdma.Base.Assoc.{
  lookup, insert, remove, retain, keys, has-keys, lookup-insert, lookup-remove, lookup-retain,
  insert-Distinct, remove-Distinct, retain-Distinct, length-insert, length-remove,
}

pub record DashMap (K V : Type 0) ⦃e : Eq K⦄ : Type 1 where
  pub Map : Type 0
  pub empty : Map
  pub get : K → Map → Option V
  pub insert : K → V → Map → Map
  pub remove : K → Map → Map
  pub retain : (V → Option V) → Map → Map
  pub len : Map → ℕ
  pub keys : Map → List K
  pub get-empty : (k : K) → get k empty ≡ none
  pub get-insert :
      (k j : K) (v : V) (m : Map) → get j (insert k v m) ≡ (if same k j then some v else get j m)
  pub get-remove : (k j : K) (m : Map) → get j (remove k m) ≡ (if same k j then none else get j m)
  pub get-retain : (f : V → Option V) (k : K) (m : Map) → get k (retain f m) ≡ (get k m >>= f)
  pub len-empty : len empty ≡ 0
  pub len-insert :
      (k : K) (v : V) (m : Map)
      → len (insert k v m) ≡ (if is_some (get k m) then len m else suc (len m))
  pub len-remove :
      (k : K) (m : Map)
      → len m ≡ (if is_some (get k m) then suc (len (remove k m)) else len (remove k m))
  pub has-keys : (k : K) (m : Map) → has k (keys m) ≡ is_some (get k m)
  pub keys-Distinct : (m : Map) → Distinct (keys m)

-- `contains_key`
abbrev pub contains_key : {K V : Type 0} ⦃e : Eq K⦄ (M : DashMap K V) → K → M.Map → Bool
contains_key M k m = is_some (M.get k m)

-- Association lists with distinct keys meet the interface.
abbrev pub assoc_map : (K V : Type 0) ⦃e : Eq K⦄ → DashMap K V
assoc_map K V = record {
  Map = (m : List (K × V)) × Distinct (keys m);
  empty = ([], tt);
  get = λ k m. lookup k m.0;
  insert = λ k v m. (insert k v m.0, insert-Distinct k v m.0 m.1);
  remove = λ k m. (remove k m.0, remove-Distinct k m.0 m.1);
  retain = λ f m. (retain f m.0, retain-Distinct f m.0 m.1);
  len = λ m. length m.0;
  keys = λ m. keys m.0;
  get-empty = λ k. refl;
  get-insert = λ k j v m. lookup-insert k j v m.0;
  get-remove = λ k j m. lookup-remove k j m.0 m.1;
  get-retain = λ f k m. lookup-retain f k m.0 m.1;
  len-empty = refl;
  len-insert = λ k v m. length-insert k v m.0;
  len-remove = λ k m. length-remove k m.0;
  has-keys = λ k m. has-keys k m.0;
  keys-Distinct = λ m. m.1;
}
