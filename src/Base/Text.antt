-- ===== src/Base/Text.antt =====
-- Byte strings: Rust's `String`, `&str` and `Vec<u8>` as lists of bytes.
use Prim.Native.Nat.{ℕ}
use Prim.Native.Char.{code}
use Prim.Native.String.{String}
use mathlib.Core.Path.{◌≡◌, refl, ap₂}
use native.Mathlib.Omega.{arith}
use mathlib.Core.List.{List, [], ◌∷◌}
use native.Mathlib.Decide.{ℕ_discrete}
use cmx_rdma.Base.Keys.{Eq}

abbrev pub Bytes : Type 0
Bytes = List ℕ

-- The UTF-8 bytes of an ASCII literal.
abbrev pub codes : String → Bytes
codes String.[] = []
codes (String.◌∷◌ c s) = code c ∷ codes s

both : {x y : ℕ} {xs ys : Bytes} → Dec (x ≡ y) → Dec (xs ≡ ys) → Dec (x ∷ xs ≡ y ∷ ys)
both (yes p) (yes q) = yes (ap₂ ◌∷◌ p q)
both (no p) _ = no (λ h. p (ground arith))
both (yes p) (no q) = no (λ h. q (ground arith))

list_discrete : (xs ys : Bytes) → Dec (xs ≡ ys)
list_discrete [] [] = yes refl
list_discrete [] (y ∷ ys) = no (λ h. ground arith)
list_discrete (x ∷ xs) [] = no (λ h. ground arith)
list_discrete (x ∷ xs) (y ∷ ys) = both (ℕ_discrete x y) (list_discrete xs ys)

unfoldable pub bytes_discrete : Discrete Bytes
unfolding list_discrete both ℕ_discrete
bytes_discrete = list_discrete

instance abbrev pub bytes_eq : Eq Bytes
bytes_eq = record { dec = bytes_discrete }
