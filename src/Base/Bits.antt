-- ===== src/Base/Bits.antt =====
-- Laws of `bit_and` and `bit_or` at variables: disjoint parts add up, a low mask is a remainder.
use Prim.Native.Nat.{
  ℕ, zero, suc, ◌+◌, ◌-◌, ◌*◌, ◌/◌, ◌%◌, ◌^◌, ◌≤◌, ◌<◌, min, max, bit_and, bit_or, digits,
  bit_and-bitwise, bit_or-bitwise,
}
use mathlib.Core.Path.{◌≡◌, refl, ap, ◌∙◌}
use native.Mathlib.Omega.{arith}
use native.Mathlib.Nat.{
  pow-suc, one-le-pow, mul_comm, mod-lt, mod-eq_of_lt, div-add-mod, add-mul-mod_self_right,
}

-- The digits below `2 ^ n` of a number that needs no more than `n` of them do not depend on `n`.
digits_enough :
    (z : ℕ → ℕ) (f : ℕ → ℕ → ℕ) (n m a b : ℕ) → a ≤ n → a ≤ m → digits z f n a b ≡ digits z f m a b
digits_enough z f zero zero a b p q = refl
digits_enough z f zero (suc m) zero b p q = refl
digits_enough z f zero (suc m) (suc a) b p q = absurd (omega arith)
digits_enough z f (suc n) zero zero b p q = refl
digits_enough z f (suc n) zero (suc a) b p q = absurd (omega arith)
digits_enough z f (suc n) (suc m) zero b p q = refl
digits_enough z f (suc n) (suc m) (suc a) b p q =
    omega (arith, digits_enough z f n m (suc a / 2) (b / 2) (omega arith) (omega arith))

-- The lowest binary digit of `|`, and the rest.
bit_or_lowest : (a b : ℕ) → bit_or a b ≡ bit_or (a / 2) (b / 2) * 2 + max (a % 2) (b % 2)
bit_or_lowest zero b = omega (arith, bit_or-bitwise 0 b, bit_or-bitwise 0 (b / 2))
bit_or_lowest (suc a) b = omega (
  arith,
  bit_or-bitwise (suc a) b,
  bit_or-bitwise (suc a / 2) (b / 2),
  digits_enough (λ y. y) max a (suc a / 2) (suc a / 2) (b / 2) (omega arith) (omega arith),
)

bit_and_lowest : (a b : ℕ) → bit_and a b ≡ bit_and (a / 2) (b / 2) * 2 + min (a % 2) (b % 2)
bit_and_lowest zero b = omega (arith, bit_and-bitwise 0 b, bit_and-bitwise 0 (b / 2))
bit_and_lowest (suc a) b = omega (
  arith,
  bit_and-bitwise (suc a) b,
  bit_and-bitwise (suc a / 2) (b / 2),
  digits_enough (λ _. 0) min a (suc a / 2) (suc a / 2) (b / 2) (omega arith) (omega arith),
)

pub bit_or_none : (n a : ℕ) → a ≤ n → bit_or a 0 ≡ a
bit_or_none n zero h = refl
bit_or_none zero (suc a) h = absurd (omega arith)
bit_or_none (suc n) (suc a) h =
    omega (arith, bit_or_lowest (suc a) 0, bit_or_none n (suc a / 2) (omega arith))

bit_and_none : (n a : ℕ) → a ≤ n → bit_and a 0 ≡ 0
bit_and_none n zero h = refl
bit_and_none zero (suc a) h = absurd (omega arith)
bit_and_none (suc n) (suc a) h =
    omega (arith, bit_and_lowest (suc a) 0, bit_and_none n (suc a / 2) (omega arith))

-- One binary digit of a remainder by an even number.
mod_double : (m x : ℕ) → 0 < m → x % (2 * m) ≡ 2 * (x / 2 % m) + x % 2
mod_double m x h =
    let split : x ≡ 2 * (x / 2 % m) + x % 2 + x / 2 / m * (2 * m) =
      omega (arith, ap (λ (t : ℕ). 2 * t) (div-add-mod (x / 2) m)) in
    ap (λ (t : ℕ). t % (2 * m)) split
    ∙ add-mul-mod_self_right (2 * (x / 2 % m) + x % 2) (x / 2 / m) (2 * m)
    ∙ mod-eq_of_lt (omega (arith, mod-lt (x / 2) h))

mod_two_pow : (k x : ℕ) → x % 2 ^ suc k ≡ 2 * (x / 2 % 2 ^ k) + x % 2
mod_two_pow k x =
    ap (λ (t : ℕ). x % t) (pow-suc 2 k ∙ mul_comm (2 ^ k) 2)
    ∙ mod_double (2 ^ k) x (one-le-pow k 2 (omega arith))

-- `x | r` is a sum when `r` fits in the `k` low bits, which are clear in `x`.
pub bit_or_clear : (k x r : ℕ) → x % 2 ^ k ≡ 0 → r < 2 ^ k → bit_or x r ≡ x + r
bit_or_clear zero x r e h = ground (arith, bit_or_none x x (omega arith))
bit_or_clear (suc k) x r e h =
    ground (arith, bit_or_lowest x r, mod_two_pow k x, pow-suc 2 k, bit_or_clear k (x / 2) (r / 2))

-- `x & (2^k - 1)` is the remainder.
pub bit_and_mask : (k x : ℕ) → bit_and x (2 ^ k - 1) ≡ x % 2 ^ k
bit_and_mask zero x = omega (arith, bit_and_none x x (omega arith))
bit_and_mask (suc k) x =
    let halves : (2 ^ suc k - 1) / 2 ≡ 2 ^ k - 1 =
      omega (arith, pow-suc 2 k, one-le-pow k 2 (omega arith)) in
    bit_and_lowest x (2 ^ suc k - 1)
    ∙ rw (halves, bit_and_mask k (x / 2), mod_two_pow k x)
        (omega (arith, pow-suc 2 k, one-le-pow k 2 (omega arith)))

bit_and_bounded : (n a b : ℕ) → a ≤ n → bit_and a b ≤ b
bit_and_bounded n zero b h = omega (arith, bit_and-bitwise 0 b)
bit_and_bounded zero (suc a) b h = absurd (omega arith)
bit_and_bounded (suc n) (suc a) b h =
    omega (arith, bit_and_lowest (suc a) b, bit_and_bounded n (suc a / 2) (b / 2) (omega arith))

-- A mask bounds what it keeps.
pub bit_and-le : (a b : ℕ) → bit_and a b ≤ b
bit_and-le a b = bit_and_bounded a a b (omega arith)
