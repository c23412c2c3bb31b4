-- ===== src/Memory/Numa/Mask.antt =====
-- The mask that crates/cmx-memory/src/numa.rs hands to the system names exactly the node.
use native.Mathlib.Nat.{div-eq_of_lt, div-one, mul-div-mul_left}
use cmx_rdma.Base.{
  ap₂, ℕ, zero, suc, ◌*◌, ◌/◌, ◌%◌, ◌^◌, ◌<◌, ◌≡◌, ◌≢◌, refl, ◌∙◌, inl, inr, Bool, false, Option,
  none, some, List, arith, ◌==◌, length, get_elem?, get_elem?-set_self, get_elem?-set_ne,
  Bool-cases,
}
use cmx_rdma.Memory.Numa.{zero_words, mask_size, nodemask}

-- The bit of a mask of words of 64 bits.
abbrev pub word_bit : Option ℕ → ℕ → Bool
word_bit none b = false
word_bit (some w) b = w / 2 ^ b % 2 == 1

abbrev pub bit : List ℕ → ℕ → Bool
bit mask i = word_bit (get_elem? mask (i / 64)) (i % 64)

power_pos : (a : ℕ) → 0 < 2 ^ a
power_pos zero = omega arith
power_pos (suc a) = omega (arith, power_pos a)

-- The bit `b` of a power of two.
power_bit : (a b : ℕ) → (2 ^ a / 2 ^ b % 2 == 1) ≡ (a == b)
power_bit zero zero = refl
power_bit (suc a) zero =
    let one_word : 2 ^ suc a / 2 ^ 0 ≡ 2 ^ suc a = div-one (2 ^ suc a) in
    let double : 2 ^ suc a ≡ 2 * 2 ^ a = omega arith in ground arith
power_bit zero (suc b) =
    let small : 2 ^ 0 / 2 ^ suc b ≡ 0 = div-eq_of_lt (omega (arith, power_pos b)) in ground arith
power_bit (suc a) (suc b) =
    let double : (n : ℕ) → 2 ^ suc n ≡ 2 * 2 ^ n = λ n. omega arith in
    let same_word : 2 ^ suc a / 2 ^ suc b ≡ 2 ^ a / 2 ^ b =
      ap₂ (λ x y. x / y) (double a) (double b) ∙ mul-div-mul_left (2 ^ a) (2 ^ b) (omega arith) in
    rw same_word (power_bit a b ∙ ground arith)

get_elem?-zero_words : (n i : ℕ) (w : ℕ) → get_elem? (zero_words n) i ≡ some w → w ≡ 0
unfolding zero_words
get_elem?-zero_words zero i w h = absurd (ground arith)
get_elem?-zero_words (suc n) zero w h = ground arith
get_elem?-zero_words (suc n) (suc i) w h = get_elem?-zero_words n i w h

length-zero_words : (n : ℕ) → length (zero_words n) ≡ n
unfolding zero_words
length-zero_words zero = refl
length-zero_words (suc n) = omega (arith, length-zero_words n)

zero_bit : (o : Option ℕ) (b : ℕ) → ((w : ℕ) → o ≡ some w → w ≡ 0) → word_bit o b ≡ false
zero_bit none b h = refl
zero_bit (some w) b h =
    let none_set : w / 2 ^ b ≡ 0 = rw (h w refl) (div-eq_of_lt (power_pos b)) in ground arith

-- The mask for a node has exactly one bit set, the one with the number of the node.
pub bit-nodemask : (node i : ℕ) → bit (nodemask node) i ≡ (i == node)
unfolding nodemask mask_size
bit-nodemask node i = elim (Bool-cases (i / 64 == node / 64)) [
  | inl here ↦
      let same_word : i / 64 ≡ node / 64 = ground arith in
      let word : get_elem? (nodemask node) (i / 64) ≡ some (2 ^ (node % 64)) = rw same_word (
        get_elem?-set_self (zero_words (mask_size node)) (node / 64) (2 ^ (node % 64))
          (omega (arith, length-zero_words (mask_size node)))) in
      rw word (power_bit (node % 64) (i % 64) ∙ ground arith)
  | inr elsewhere ↦
      let other : node / 64 ≢ i / 64 = λ h. ground arith in
      let word : get_elem? (nodemask node) (i / 64)
          ≡ get_elem? (zero_words (mask_size node)) (i / 64) =
        get_elem?-set_ne (zero_words (mask_size node)) (node / 64) (i / 64) (2 ^ (node % 64))
          other in
      rw word (
        zero_bit (get_elem? (zero_words (mask_size node)) (i / 64)) (i % 64)
          (λ w h. get_elem?-zero_words (mask_size node) (i / 64) w h)
        ∙ ground arith)
]
