-- ===== src/Base/Assoc.antt =====
-- Association lists: the standard library's `HashMap`, whose order of iteration no code here reads.
use Prim.Native.Nat.{suc}
use mathlib.Core.Path.{◌≡◌, refl}
use mathlib.Core.Logic.{◌≢◌}
use mathlib.Core.Bool.{false}
use mathlib.Core.Option.{Option, none, some}
use mathlib.Core.List.{List, [], ◌∷◌}
use native.Mathlib.Omega.{arith}
use cmx_rdma.Base.Tests.{if◌then◌else◌, is_some, ◌>>=◌}
use cmx_rdma.Base.Lists.{length}
use cmx_rdma.Base.Keys.{Eq, same, has, Distinct}

module _ {ℓ κ} {K : Type ℓ} {V : Type κ} where
  -- `retain` with a closure that may change the value it keeps.
  abbrev pub retain : (V → Option V) → List (K × V) → List (K × V)
  retain f [] = []
  retain f ((j, w) ∷ m) = elim (f w) [ none ↦ retain f m | some w' ↦ (j, w') ∷ retain f m ]

  abbrev pub keys : List (K × V) → List K
  keys [] = []
  keys ((j, w) ∷ m) = j ∷ keys m

  pub length-keys : (m : List (K × V)) → length (keys m) ≡ length m
  length-keys [] = refl
  length-keys (p ∷ m) = ground (arith, length-keys m)

module _ {ℓ κ} {K : Type ℓ} {V : Type κ} ⦃e : Eq K⦄ where
  abbrev pub lookup : K → List (K × V) → Option V
  lookup k [] = none
  lookup k ((j, v) ∷ m) = if same j k then some v else lookup k m

  abbrev pub insert : K → V → List (K × V) → List (K × V)
  insert k v [] = (k, v) ∷ []
  insert k v ((j, w) ∷ m) = if same j k then (k, v) ∷ m else (j, w) ∷ insert k v m

  abbrev pub remove : K → List (K × V) → List (K × V)
  remove k [] = []
  remove k ((j, w) ∷ m) = if same j k then m else (j, w) ∷ remove k m

  pub has-keys : (k : K) (m : List (K × V)) → has k (keys m) ≡ is_some (lookup k m)
  has-keys k [] = refl
  has-keys k ((j, w) ∷ m) = ground (arith, has-keys k m)

  pub lookup-insert :
      (k j : K) (v : V) (m : List (K × V))
      → lookup j (insert k v m) ≡ (if same k j then some v else lookup j m)
  lookup-insert k j v [] = refl
  lookup-insert k j v ((i, w) ∷ m) = ground (arith, lookup-insert k j v m)

  pub lookup_absent : (k : K) (m : List (K × V)) → has k (keys m) ≡ false → lookup k m ≡ none
  lookup_absent k [] h = refl
  lookup_absent k ((j, w) ∷ m) h = ground (arith, lookup_absent k m)

  pub lookup-remove :
      (k j : K) (m : List (K × V))
      → Distinct (keys m)
      → lookup j (remove k m) ≡ (if same k j then none else lookup j m)
  lookup-remove k j [] d = ground arith
  lookup-remove k j ((i, w) ∷ m) d = ground (arith, lookup-remove k j m, lookup_absent j m)

  pub lookup-retain :
      (f : V → Option V) (k : K) (m : List (K × V))
      → Distinct (keys m)
      → lookup k (retain f m) ≡ (lookup k m >>= f)
  lookup-retain f k [] d = refl
  lookup-retain f k ((i, w) ∷ m) d = ground (arith, lookup-retain f k m, lookup_absent k m)

  pub has-keys-insert :
      (k j : K) (v : V) (m : List (K × V)) → k ≢ j → has j (keys (insert k v m)) ≡ has j (keys m)
  has-keys-insert k j v [] h = ground arith
  has-keys-insert k j v ((i, w) ∷ m) h = ground (arith, has-keys-insert k j v m)

  pub has-keys-remove :
      (k j : K) (m : List (K × V)) → has j (keys m) ≡ false → has j (keys (remove k m)) ≡ false
  has-keys-remove k j [] h = refl
  has-keys-remove k j ((i, w) ∷ m) h = ground (arith, has-keys-remove k j m)

  pub has-keys-retain :
      (f : V → Option V) (j : K) (m : List (K × V))
      → has j (keys m) ≡ false
      → has j (keys (retain f m)) ≡ false
  has-keys-retain f j [] h = refl
  has-keys-retain f j ((i, w) ∷ m) h = ground (arith, has-keys-retain f j m)

  pub insert-Distinct :
      (k : K) (v : V) (m : List (K × V)) → Distinct (keys m) → Distinct (keys (insert k v m))
  insert-Distinct k v [] d = (refl, tt)
  insert-Distinct k v ((i, w) ∷ m) d =
      ground (arith, insert-Distinct k v m, has-keys-insert k i v m)

  pub remove-Distinct :
      (k : K) (m : List (K × V)) → Distinct (keys m) → Distinct (keys (remove k m))
  remove-Distinct k [] d = d
  remove-Distinct k ((i, w) ∷ m) d = ground (arith, remove-Distinct k m, has-keys-remove k i m)

  pub retain-Distinct :
      (f : V → Option V) (m : List (K × V)) → Distinct (keys m) → Distinct (keys (retain f m))
  retain-Distinct f [] d = d
  retain-Distinct f ((i, w) ∷ m) d = ground (arith, retain-Distinct f m, has-keys-retain f i m)

  pub length-insert :
      (k : K) (v : V) (m : List (K × V))
      → length (insert k v m) ≡ (if is_some (lookup k m) then length m else suc (length m))
  length-insert k v [] = refl
  length-insert k v ((i, w) ∷ m) = ground (arith, length-insert k v m)

  pub length-remove :
      (k : K) (m : List (K × V))
      → length m ≡ (if is_some (lookup k m) then suc (length (remove k m)) else length (remove k m))
  length-remove k [] = refl
  length-remove k ((i, w) ∷ m) = ground (arith, length-remove k m)
