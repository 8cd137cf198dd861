-- ===== src/Common/Bits.antt =====
-- Masks and disjoint fields of a word as arithmetic, for every width: the native bit operations
-- stand for a recursion on binary digits, which is taken one digit at a time here.
use Prim.Native.Nat.{
  ℕ, zero, suc, ◌+◌, ◌-◌, ◌*◌, ◌/◌, ◌%◌, ◌^◌, ◌≤◌, ◌<◌, min, max, digits, bit_and, bit_or,
  bit_and-bitwise, bit_or-bitwise,
}
use mathlib.Core.Path.{◌≡◌, ◌∙◌, ap}
use native.Mathlib.Nat.{pow-suc, div-add-mod, mod-lt}
use native.Mathlib.Omega.{arith}

abbrev and_digits : ℕ → ℕ → ℕ → ℕ
and_digits = digits (λ b. 0) min

abbrev or_digits : ℕ → ℕ → ℕ → ℕ
or_digits = digits (λ b. b) max

-- A mask of `w` ones keeps the low part of a number that is split at bit `w`.
and_digits_mask :
    (k w lo hi a : ℕ) → lo < 2 ^ w → a ≡ lo + 2 ^ w * hi → a ≤ k → and_digits k a (2 ^ w - 1) ≡ lo
and_digits_mask zero w lo hi zero h e p = omega arith
and_digits_mask zero w lo hi (suc a) h e p = absurd (omega arith)
and_digits_mask (suc k) w lo hi zero h e p = omega arith
and_digits_mask (suc k) zero lo hi (suc a) h e p =
    let q : lo ≡ 0 = omega arith in
    let ih =
      and_digits_mask k zero (suc a / 2 - suc a / 2) (suc a / 2) (suc a / 2) (omega arith)
        (omega arith) (omega arith) in
    omega (arith, ih)
and_digits_mask (suc k) (suc w) lo hi (suc a) h e p =
    let half : (2 ^ suc w - 1) / 2 ≡ 2 ^ w - 1 = omega (arith, pow-suc 2 w) in
    let odd : (2 ^ suc w - 1) % 2 ≡ 1 = omega (arith, pow-suc 2 w) in
    let split : suc a ≡ lo + 2 * (2 ^ w * hi) =
      omega (arith, ap (λ (t : ℕ). t * hi) (pow-suc 2 w), e) in
    let ih =
      and_digits_mask k w (lo / 2) hi (suc a / 2) (omega (arith, pow-suc 2 w)) (omega arith)
        (omega arith) in
    rw (half, odd, ih) (omega arith)

or_digits_disjoint : (k w a b : ℕ) → a < 2 ^ w → a ≤ k → or_digits k a (b * 2 ^ w) ≡ a + b * 2 ^ w
or_digits_disjoint zero w zero b h p = omega arith
or_digits_disjoint zero w (suc a) b h p = absurd (omega arith)
or_digits_disjoint (suc k) w zero b h p = omega arith
or_digits_disjoint (suc k) zero (suc a) b h p = absurd (omega arith)
or_digits_disjoint (suc k) (suc w) (suc a) b h p =
    let double : b * 2 ^ suc w ≡ 2 * (b * 2 ^ w) =
      omega (arith, ap (λ (t : ℕ). b * t) (pow-suc 2 w)) in
    let half : b * 2 ^ suc w / 2 ≡ b * 2 ^ w = omega (arith, double) in
    let even : b * 2 ^ suc w % 2 ≡ 0 = omega (arith, double) in
    let ih = or_digits_disjoint k w (suc a / 2) b (omega (arith, pow-suc 2 w)) (omega arith) in
    rw (half, even, ih) (omega (arith, double))

two_pow_pos : (w : ℕ) → 0 < 2 ^ w
two_pow_pos zero = omega arith
two_pow_pos (suc w) = omega (arith, pow-suc 2 w, two_pow_pos w)

pub bit_and_mask : (w a : ℕ) → bit_and a (2 ^ w - 1) ≡ a % 2 ^ w
bit_and_mask w a = simp bit_and-bitwise (
    and_digits_mask a w (a % 2 ^ w) (a / 2 ^ w) a (mod-lt a (two_pow_pos w))
      (omega (arith, div-add-mod a (2 ^ w))) (omega arith))

pub bit_or_disjoint : (w a b : ℕ) → a < 2 ^ w → bit_or a (b * 2 ^ w) ≡ a + b * 2 ^ w
bit_or_disjoint w a b h = simp bit_or-bitwise (or_digits_disjoint a w a b h (omega arith))

-- A mask of `v` ones above bit `w` keeps the high part.
and_digits_field :
    (k w v lo hi a : ℕ)
    → lo < 2 ^ w
    → hi < 2 ^ v
    → a ≡ lo + 2 ^ w * hi
    → a ≤ k
    → and_digits k a ((2 ^ v - 1) * 2 ^ w) ≡ hi * 2 ^ w
and_digits_field zero w v lo hi zero h g e p = omega arith
and_digits_field zero w v lo hi (suc a) h g e p = absurd (omega arith)
and_digits_field (suc k) w v lo hi zero h g e p = omega arith
and_digits_field (suc k) zero v lo hi (suc a) h g e p =
    let unit : (2 ^ v - 1) * 1 ≡ 2 ^ v - 1 = omega arith in
    rw unit (and_digits_mask (suc k) v hi 0 (suc a) g (omega arith) p ∙ omega arith)
and_digits_field (suc k) (suc w) v lo hi (suc a) h g e p =
    let double : (t : ℕ) → t * 2 ^ suc w ≡ 2 * (t * 2 ^ w) =
      λ t. omega (arith, ap (λ (u : ℕ). t * u) (pow-suc 2 w)) in
    let half : (2 ^ v - 1) * 2 ^ suc w / 2 ≡ (2 ^ v - 1) * 2 ^ w =
      omega (arith, double (2 ^ v - 1)) in
    let even : (2 ^ v - 1) * 2 ^ suc w % 2 ≡ 0 = omega (arith, double (2 ^ v - 1)) in
    let split : suc a ≡ lo + 2 * (2 ^ w * hi) = omega (arith, double hi, e) in
    let ih =
      and_digits_field k w v (lo / 2) hi (suc a / 2) (omega (arith, pow-suc 2 w)) g (omega arith)
        (omega arith) in
    rw (half, even, ih) (omega (arith, double hi))

pub bit_and_field :
    (w v lo hi : ℕ)
    → lo < 2 ^ w
    → hi < 2 ^ v
    → bit_and (lo + hi * 2 ^ w) ((2 ^ v - 1) * 2 ^ w) ≡ hi * 2 ^ w
bit_and_field w v lo hi h g =
    simp bit_and-bitwise
      (and_digits_field _ w v lo hi (lo + hi * 2 ^ w) h g (omega arith) (omega arith))
