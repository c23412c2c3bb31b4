-- ===== src/Base/Keys.antt =====
-- Decidable equality as an interface, membership, erasure, and association lists that stand for
-- the standard library's `HashMap`.
use Prim.Native.Nat.{ℕ, suc}
use mathlib.Core.Path.{◌≡◌, refl, ap}
use mathlib.Core.Logic.{◌≢◌}
use mathlib.Core.Bool.{Bool, true, false, ◌||◌}
use mathlib.Core.List.{List, [], ◌∷◌, ◌++◌}
use native.Mathlib.Decide.{ℕ_discrete}
use native.Mathlib.Omega.{arith}
use cmx_rdma.Base.Tests.{if◌then◌else◌}
use cmx_rdma.Base.Lists.{length}

pub record Eq {ℓ} (A : Type ℓ) : Type ℓ where
  pub dec : Discrete A

abbrev pub same {ℓ} : {A : Type ℓ} ⦃e : Eq A⦄ → A → A → Bool
same ⦃e⦄ a b = elim (e.dec a b) [ yes _ ↦ true | no _ ↦ false ]

instance abbrev pub nat_eq : Eq ℕ
nat_eq = record { dec = ℕ_discrete }

module _ {ℓ} {A : Type ℓ} ⦃e : Eq A⦄ where
  pub same_refl : (a : A) → same a a ≡ true
  same_refl a = ground arith

  pub eq-of-same : (a b : A) → same a b ≡ true → a ≡ b
  eq-of-same a b h = ground arith

  pub same_ne : (a b : A) → a ≢ b → same a b ≡ false
  same_ne a b h = ground arith

  abbrev pub has : A → List A → Bool
  has a [] = false
  has a (x ∷ xs) = same x a || has a xs

  abbrev pub erase : A → List A → List A
  erase a [] = []
  erase a (x ∷ xs) = if same x a then xs else x ∷ erase a xs

  abbrev pub Distinct : List A → Type 0
  Distinct [] = Unit {0}
  Distinct (x ∷ xs) = (has x xs ≡ false) × Distinct xs

  pub has-append : (a : A) (xs ys : List A) → has a (xs ++ ys) ≡ (has a xs || has a ys)
  has-append a [] ys = refl
  has-append a (x ∷ xs) ys = ground (arith, has-append a xs ys)

  pub has-erase_ne : (a b : A) (xs : List A) → a ≢ b → has a (erase b xs) ≡ has a xs
  has-erase_ne a b [] h = refl
  has-erase_ne a b (x ∷ xs) h = ground (arith, has-erase_ne a b xs)

  pub has-erase_self : (a : A) (xs : List A) → Distinct xs → has a (erase a xs) ≡ false
  has-erase_self a [] d = refl
  has-erase_self a (x ∷ xs) d = ground (arith, has-erase_self a xs)

  pub erase_absent : (a : A) (xs : List A) → has a xs ≡ false → erase a xs ≡ xs
  erase_absent a [] h = refl
  erase_absent a (x ∷ xs) h = ground (arith, erase_absent a xs)

  pub length-erase : (a : A) (xs : List A) → has a xs ≡ true → suc (length (erase a xs)) ≡ length xs
  length-erase a [] h = ground arith
  length-erase a (x ∷ xs) h = ground (arith, length-erase a xs)

  pub erase-Distinct : (a : A) (xs : List A) → Distinct xs → Distinct (erase a xs)
  erase-Distinct a [] d = d
  erase-Distinct a (x ∷ xs) d = ground (arith, erase-Distinct a xs, has-erase_ne x a xs)

  pub Distinct-split :
      (xs ys : List A)
      → Distinct (xs ++ ys)
      → Distinct xs × Distinct ys × ((a : A) → has a xs ≡ true → has a ys ≡ false)
  Distinct-split [] ys d = (tt, d, λ a h. ground arith)
  Distinct-split (x ∷ xs) ys d =
      let (l, r, apart) = Distinct-split xs ys d.1 in
      (ground (arith, has-append x xs ys), r, λ a h. ground (arith, has-append x xs ys, apart a))

  pub Distinct-append :
      (xs ys : List A)
      → Distinct xs
      → Distinct ys
      → ((a : A) → has a xs ≡ true → has a ys ≡ false)
      → Distinct (xs ++ ys)
  Distinct-append [] ys l r apart = r
  Distinct-append (x ∷ xs) ys l r apart = (
    ground (arith, has-append x xs ys, apart x),
    Distinct-append xs ys l.1 r (λ a h. ground (arith, apart a)),
  )

  pub not_mem_of_apart :
      (xs : List A) (a : A) → ((b : A) → has b xs ≡ true → same a b ≡ false) → has a xs ≡ false
  not_mem_of_apart [] a h = refl
  not_mem_of_apart (x ∷ xs) a h =
      ground (arith, h x, not_mem_of_apart xs a (λ b m. ground (arith, h b)))

both {ℓ κ} :
    {A : Type ℓ} {B : Type κ} {a c : A} {b d : B}
    → Dec (a ≡ c)
    → Dec (b ≡ d)
    → Dec (◌≡◌ {A = A × B} (a, b) (c, d))
both (yes p) (yes q) = yes (λ i. (p i, q i))
both (no p) _ = no (λ h. p (ap (λ x. x.0) h))
both (yes p) (no q) = no (λ h. q (ap (λ x. x.1) h))

unfoldable pub pair_discrete {ℓ κ} :
    {A : Type ℓ} {B : Type κ} ⦃e : Eq A⦄ ⦃f : Eq B⦄ → Discrete (A × B)
unfolding both
pair_discrete ⦃e⦄ ⦃f⦄ x y = both (e.dec x.0 y.0) (f.dec x.1 y.1)

instance abbrev pub pair_eq {ℓ κ} : {A : Type ℓ} {B : Type κ} ⦃e : Eq A⦄ ⦃f : Eq B⦄ → Eq (A × B)
pair_eq = record { dec = pair_discrete }
