-- ===== src/Base/Bits.antt =====
-- Exclusive or and or of the binary digits of numbers, where the result is zero.
use Prim.Native.Nat.{
  ℕ, zero, suc, ◌+◌, ◌*◌, ◌/◌, ◌%◌, ◌≤◌, max, digits, differ, bit_or, bit_xor, bit_or-bitwise,
  bit_xor-bitwise,
}
use mathlib.Core.Path.{◌≡◌, refl, sym, ◌∙◌}
use native.Mathlib.Omega.{arith}

differ_zero : (a b : ℕ) → differ a b ≡ 0 → a ≡ b
differ_zero zero b h = sym h
differ_zero (suc a) zero h = h
differ_zero (suc a) (suc b) h = omega (arith, differ_zero a b h)

digits-differ : (n a b : ℕ) → a ≤ n → digits (λ b. b) differ n a b ≡ 0 → a ≡ b
digits-differ zero a b l h = omega (arith, l, h)
digits-differ (suc n) zero b l h = sym h
digits-differ (suc n) (suc a) b l h =
    let rest : digits (λ c. c) differ n (suc a / 2) (b / 2) * 2 + differ (suc a % 2) (b % 2) ≡ 0 =
      h in
    let high = digits-differ n (suc a / 2) (b / 2) (omega (arith, l)) (omega (arith, rest)) in
    let low = differ_zero (suc a % 2) (b % 2) (omega (arith, rest)) in omega (arith, high, low)

pub bit_xor_zero : (a b : ℕ) → bit_xor a b ≡ 0 → a ≡ b
bit_xor_zero a b h = digits-differ a a b (omega arith) (sym (λ i. bit_xor-bitwise a b i) ∙ h)

digits-max : (n a b : ℕ) → a ≤ n → digits (λ c. c) max n a b ≡ 0 → (a ≡ 0) × (b ≡ 0)
digits-max zero a b l h = (omega (arith, l), h)
digits-max (suc n) zero b l h = (refl, h)
digits-max (suc n) (suc a) b l h =
    let rest : digits (λ c. c) max n (suc a / 2) (b / 2) * 2 + max (suc a % 2) (b % 2) ≡ 0 = h in
    let (high, _) = digits-max n (suc a / 2) (b / 2) (omega (arith, l)) (omega (arith, rest)) in
    absurd (omega (arith, high, rest))

pub bit_or_zero : (a b : ℕ) → bit_or a b ≡ 0 → (a ≡ 0) × (b ≡ 0)
bit_or_zero a b h = digits-max a a b (omega arith) (sym (λ i. bit_or-bitwise a b i) ∙ h)
