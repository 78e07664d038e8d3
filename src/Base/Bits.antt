-- ===== src/Base/Bits.antt =====
-- Masks and disjoint fields as arithmetic, at every width, and tables over the byte values.
use Prim.Native.Nat.{ℕ, zero, suc, ◌+◌, ◌-◌, ◌*◌, ◌/◌, ◌%◌, ◌^◌, ◌≤◌, ◌<◌, min, max}
use Prim.Native.Nat.{bit_and, bit_or, bitwise, digits, bit_and-bitwise, bit_or-bitwise}
use mathlib.Core.Path.{◌≡◌, refl, ap, ◌∙◌}
use mathlib.Core.Bool.{Bool, true, ◌&&◌}
use native.Mathlib.Nat.{pow-suc, one-le-pow, div-div-eq-div-mul}
use native.Mathlib.Omega.{arith}

-- The native operations are a recursion on binary digits, with the first number for fuel.
module _ (rest : ℕ → ℕ) (bit : ℕ → ℕ → ℕ) where
  fuel_irrelevant : (k l a b : ℕ) → a ≤ k → a ≤ l → digits rest bit k a b ≡ digits rest bit l a b
  fuel_irrelevant k l zero b p q = both k l
    where
      both : (k l : ℕ) → digits rest bit k 0 b ≡ digits rest bit l 0 b
      both zero zero = refl
      both zero (suc l) = refl
      both (suc k) zero = refl
      both (suc k) (suc l) = refl
  fuel_irrelevant zero l (suc a) b p q = absurd (omega arith)
  fuel_irrelevant (suc k) zero (suc a) b p q = absurd (omega arith)
  fuel_irrelevant (suc k) (suc l) (suc a) b p q =
      rw (fuel_irrelevant k l (suc a / 2) (b / 2) (omega arith) (omega arith))

  bitwise_step :
      (a b : ℕ)
      → bitwise rest bit (suc a) b
        ≡ bitwise rest bit (suc a / 2) (b / 2) * 2 + bit (suc a % 2) (b % 2)
  bitwise_step a b =
      omega (arith, fuel_irrelevant a (suc a / 2) (suc a / 2) (b / 2) (omega arith) (omega arith))

-- One equation for the lowest digit of each operation.
pub bit_and_low : (a b : ℕ) → bit_and a b ≡ bit_and (a / 2) (b / 2) * 2 + min (a % 2) (b % 2)
bit_and_low zero b = simp bit_and-bitwise (omega arith)
bit_and_low (suc a) b = simp bit_and-bitwise (bitwise_step (λ y. 0) min a b)

pub bit_or_low : (a b : ℕ) → bit_or a b ≡ bit_or (a / 2) (b / 2) * 2 + max (a % 2) (b % 2)
bit_or_low zero b = simp bit_or-bitwise (omega arith)
bit_or_low (suc a) b = simp bit_or-bitwise (bitwise_step (λ y. y) max a b)

bit_and-zero_below : (bound x : ℕ) → x ≤ bound → bit_and x 0 ≡ 0
bit_and-zero_below bound zero le = refl
bit_and-zero_below (suc bound) (suc x) le =
    omega (arith, bit_and_low (suc x) 0, bit_and-zero_below bound (suc x / 2) (omega arith))
bit_and-zero_below zero (suc x) le = absurd (omega arith)

bit_or-zero_fuel : (k a : ℕ) → a ≤ k → bit_or a 0 ≡ a
bit_or-zero_fuel k zero h = refl
bit_or-zero_fuel zero (suc a) h = absurd (omega arith)
bit_or-zero_fuel (suc k) (suc a) h =
    omega (arith, bit_or_low (suc a) 0, bit_or-zero_fuel k (suc a / 2) (omega arith))

shift_suc : (q k : ℕ) → q * 2 ^ suc k ≡ 2 * (q * 2 ^ k)
shift_suc q k = omega (arith, ap (λ (t : ℕ). q * t) (pow-suc 2 k))

bit_and_fields : (k q r : ℕ) → r < 2 ^ k → bit_and (q * 2 ^ k + r) (2 ^ k - 1) ≡ r
bit_and_fields zero q r fits =
    rw (bit_and-zero_below (q * 1 + r) (q * 1 + r) (omega arith)) (omega arith)
bit_and_fields (suc k) q r fits = ground (
  arith,
  bit_and_low (q * 2 ^ suc k + r) (2 ^ suc k - 1),
  shift_suc q k,
  pow-suc 2 k,
  bit_and_fields k q (r / 2) (omega arith),
)

-- `a & (2^k - 1)` is the remainder by `2^k`.
pub bit_and_mask : (k a : ℕ) → bit_and a (2 ^ k - 1) ≡ a % 2 ^ k
bit_and_mask k a = ground (arith, one-le-pow k 2, bit_and_fields k (a / 2 ^ k) (a % 2 ^ k))

-- `a & (m << k)` masks the part above bit `k`.
pub bit_and_shifted : (k a m : ℕ) → bit_and a (m * 2 ^ k) ≡ bit_and (a / 2 ^ k) m * 2 ^ k
bit_and_shifted zero a m = ground arith
bit_and_shifted (suc k) a m = ground (
  arith,
  bit_and_low a (m * 2 ^ suc k),
  shift_suc m k,
  shift_suc (bit_and (a / 2 ^ suc k) m) k,
  halves,
  bit_and_shifted k (a / 2) m,
)
  where
    halves : a / 2 / 2 ^ k ≡ a / 2 ^ suc k
    halves = div-div-eq-div-mul a 2 (2 ^ k) ∙ ap (λ (t : ℕ). a / t) (omega (arith, pow-suc 2 k))

-- `(q << k) | r` is a sum when `r` fits `k` bits; so it is the other way round.
pub bit_or_fields : (k q r : ℕ) → r < 2 ^ k → bit_or (q * 2 ^ k) r ≡ q * 2 ^ k + r
bit_or_fields zero q r fits = ground (arith, bit_or-zero_fuel (q * 1) (q * 1))
bit_or_fields (suc k) q r fits =
    ground
      (arith, bit_or_low (q * 2 ^ suc k) r, shift_suc q k, bit_or_fields k q (r / 2) (omega arith))

zero-bit_or : (b : ℕ) → bit_or 0 b ≡ b
zero-bit_or b = bit_or-bitwise 0 b

pub fields_bit_or : (k q r : ℕ) → r < 2 ^ k → bit_or r (q * 2 ^ k) ≡ q * 2 ^ k + r
fields_bit_or zero q zero fits = omega (arith, zero-bit_or (q * 2 ^ 0))
fields_bit_or zero q (suc r) fits = absurd (omega arith)
fields_bit_or (suc k) q r fits =
    ground
      (arith, bit_or_low r (q * 2 ^ suc k), shift_suc q k, fields_bit_or k q (r / 2) (omega arith))

-- A test of each number below a bound, for tables that evaluation settles.
unfoldable pub holds_below : ℕ → (ℕ → Bool) → Bool
holds_below zero test = true
holds_below (suc bound) test = holds_below bound test && test bound

pub holds_below_at :
    (bound : ℕ) (test : ℕ → Bool) (k : ℕ)
    → holds_below bound test ≡ true
    → k < bound
    → test k ≡ true
unfolding holds_below
holds_below_at (suc bound) test k table small = ground (arith, holds_below_at bound test k)
holds_below_at zero test k table small = absurd (omega arith)
