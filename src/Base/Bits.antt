-- ===== src/Base/Bits.antt =====
-- When a bitwise or, and an exclusive or, are 0.
use Prim.Native.Nat.{
  ℕ, zero, suc, ◌/◌, ◌%◌, ◌≤◌, max, digits, differ, bit_or, bit_xor, bit_or-bitwise,
  bit_xor-bitwise,
}
use mathlib.Core.Path.{◌≡◌, refl, sym, ◌∙◌}
use native.Mathlib.Omega.{arith}

or_digits : (n a b : ℕ) → a ≤ n → digits (λ (b : ℕ). b) max n a b ≡ 0 → (a ≡ 0) × (b ≡ 0)
or_digits zero zero b h e = (refl, e)
or_digits zero (suc a) b h e = absurd (omega arith)
or_digits (suc n) zero b h e = (refl, e)
or_digits (suc n) (suc a) b h e =
    let (low, high) = or_digits n (suc a / 2) (b / 2) (omega arith) (omega (arith, e)) in
    let m : max (suc a % 2) (b % 2) ≡ 0 = omega (arith, e) in absurd (omega (arith, low, high, m))

differ-eq : (x y : ℕ) → differ x y ≡ 0 → x ≡ y
differ-eq zero y e = sym e
differ-eq (suc x) zero e = e
differ-eq (suc x) (suc y) e = let h = differ-eq x y e in omega (arith, h)

xor_digits : (n a b : ℕ) → a ≤ n → digits (λ (b : ℕ). b) differ n a b ≡ 0 → a ≡ b
xor_digits zero zero b h e = sym e
xor_digits zero (suc a) b h e = absurd (omega arith)
xor_digits (suc n) zero b h e = sym e
xor_digits (suc n) (suc a) b h e =
    let high = xor_digits n (suc a / 2) (b / 2) (omega arith) (omega (arith, e)) in
    let low = differ-eq (suc a % 2) (b % 2) (omega (arith, e)) in omega (arith, low, high)

pub bit_or-zero : (a b : ℕ) → bit_or a b ≡ 0 → (a ≡ 0) × (b ≡ 0)
bit_or-zero a b h = or_digits a a b (omega arith) (sym (λ i. bit_or-bitwise a b i) ∙ h)

pub bit_xor-eq : (a b : ℕ) → bit_xor a b ≡ 0 → a ≡ b
bit_xor-eq a b h = xor_digits a a b (omega arith) (sym (λ i. bit_xor-bitwise a b i) ∙ h)

differ_self : (x : ℕ) → differ x x ≡ 0
differ_self zero = refl
differ_self (suc x) = differ_self x

xor_digits_self : (n a : ℕ) → a ≤ n → digits (λ (b : ℕ). b) differ n a a ≡ 0
xor_digits_self zero zero h = refl
xor_digits_self zero (suc a) h = absurd (omega arith)
xor_digits_self (suc n) zero h = refl
xor_digits_self (suc n) (suc a) h =
    omega (arith, xor_digits_self n (suc a / 2) (omega arith), differ_self (suc a % 2))

pub bit_xor_self : (a : ℕ) → bit_xor a a ≡ 0
bit_xor_self a = (λ i. bit_xor-bitwise a a i) ∙ xor_digits_self a a (omega arith)
