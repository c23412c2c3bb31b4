-- ===== src/Agent/Floats.antt =====
-- Rust's `f64`, as far as the program uses it: a type with its comparisons, the literals in
-- hundredths, and the quotient of two counts.
use cmx_rdma.Base.{ℕ, ◌≡◌, ◌<◌, Bool, true, leb}

pub record Floats : Type 1 where
  pub Float : Type 0
  -- `a >= b`
  pub ge : Float → Float → Bool
  -- the literal of `n` hundredths
  pub hundredths : ℕ → Float
  -- `a as f64 / b as f64`
  pub ratio : ℕ → ℕ → Float
  pub ge_trans : (a b c : Float) → ge a b ≡ true → ge b c ≡ true → ge a c ≡ true
  pub ge-hundredths : (a b : ℕ) → a < 101 → b < 101 → ge (hundredths a) (hundredths b) ≡ leb b a
