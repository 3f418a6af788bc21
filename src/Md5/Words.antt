-- ===== src/Md5/Words.antt =====
-- The words of src/Md5.cpp as numbers: the sum behind `|` of parts that share no digit.
use Prim.Native.Nat.{zero, suc, max, ◌≤◌, digits, bit_or, bit_or-bitwise}
use native.Mathlib.Nat.{
  mul_left_comm, mul_comm, mul_assoc, add-mul, one-mul, one-le-pow, mul-lt-mul_of_pos_right,
  div-lt_iff_lt-mul, mod-lt,
}
use mathlib.Core.Path.{subst}
use native.Mathlib.Omega.{pow_step, div_any}
use cpe_acs_connector_tr.Base.{ℕ, ◌+◌, ◌-◌, ◌*◌, ◌/◌, ◌%◌, ◌^◌, ◌<◌, ◌≡◌, refl, ap, sym, ◌∙◌, arith}

abbrev or_digits : ℕ → ℕ → ℕ → ℕ
or_digits n a b = digits (λ b. b) max n a b

or_digits_enough : (n m a b : ℕ) → a ≤ n → a ≤ m → or_digits n a b ≡ or_digits m a b
or_digits_enough zero zero a b h k = refl
or_digits_enough zero (suc m) zero b h k = refl
or_digits_enough zero (suc m) (suc a) b h k = absurd (omega arith)
or_digits_enough (suc n) zero zero b h k = refl
or_digits_enough (suc n) zero (suc a) b h k = absurd (omega arith)
or_digits_enough (suc n) (suc m) zero b h k = refl
or_digits_enough (suc n) (suc m) (suc a) b h k =
    omega (arith, or_digits_enough n m (suc a / 2) (b / 2) (omega arith) (omega arith))

zero-bit_or : (b : ℕ) → bit_or 0 b ≡ b
zero-bit_or b = bit_or-bitwise 0 b

-- The lowest digit.
bit_or-halves : (a b : ℕ) → bit_or a b ≡ bit_or (a / 2) (b / 2) * 2 + max (a % 2) (b % 2)
bit_or-halves zero b = omega (arith, zero-bit_or b, zero-bit_or (b / 2))
bit_or-halves (suc a) b = omega (
  arith,
  bit_or-bitwise (suc a) b,
  bit_or-bitwise (suc a / 2) (b / 2),
  or_digits_enough a (suc a / 2) (suc a / 2) (b / 2) (omega arith) (omega arith),
)

bit_or-zero : (n a : ℕ) → a ≤ n → bit_or a 0 ≡ a
bit_or-zero n zero h = zero-bit_or 0
bit_or-zero zero (suc a) h = absurd (omega arith)
bit_or-zero (suc n) (suc a) h =
    omega (arith, bit_or-halves (suc a) 0, bit_or-zero n (suc a / 2) (omega arith))

pub bit_or-add : (s h l : ℕ) → l < 2 ^ s → bit_or (h * 2 ^ s) l ≡ h * 2 ^ s + l
bit_or-add zero h l small =
    let none_left : l ≡ 0 = omega arith in
    rw none_left (bit_or-zero (h * 1) (h * 1) (omega arith) ∙ omega arith)
bit_or-add (suc s) h l small =
    let double : h * 2 ^ suc s ≡ 2 * (h * 2 ^ s) =
      ap (λ x. h * x) (pow_step 2 s) ∙ mul_left_comm h 2 (2 ^ s) in
    let whole = h * 2 ^ s in
    let halves = bit_or-halves (2 * whole) l in
    let half : 2 * whole / 2 ≡ whole = omega arith in
    let smaller : l / 2 < 2 ^ s = omega (arith, small, pow_step 2 s) in
    let rest = bit_or-add s h (l / 2) smaller in rw double (omega (arith, rw half at halves, rest))

two_powers : (s t : ℕ) → 2 ^ s * 2 ^ t ≡ 2 ^ (s + t)
two_powers zero t = one-mul (2 ^ t) ∙ ap (λ x. 2 ^ x) (omega arith)
two_powers (suc s) t =
    let shifted : suc s + t ≡ suc (s + t) = omega arith in
    ap (λ x. x * 2 ^ t) (pow_step 2 s)
    ∙ mul_assoc 2 (2 ^ s) (2 ^ t)
    ∙ ap (λ x. 2 * x) (two_powers s t)
    ∙ sym (pow_step 2 (s + t))
    ∙ ap (λ x. 2 ^ x) (sym shifted)

positive : (s : ℕ) → 0 < 2 ^ s
positive s = one-le-pow s 2 (omega arith)

-- What is cut off at the top, and what stays.
cut : (v p q : ℕ) → 0 < p → 0 < q → p * q ≡ 2 ^ 32 → v * p % 2 ^ 32 ≡ v % q * p
cut v p q p_pos q_pos pq =
    let parts : v * p ≡ (v / q) * (p * q) + v % q * p =
      ap (λ x. x * p) (sym (div_any v q))
      ∙ add-mul (q * (v / q)) (v % q) p
      ∙ ap (λ x. x * p + v % q * p) (mul_comm q (v / q))
      ∙ ap (λ x. x + v % q * p) (mul_assoc (v / q) q p ∙ ap (λ x. v / q * x) (mul_comm q p)) in
    let less : v % q * p < 2 ^ 32 =
      subst (λ x. v % q * p < x) (mul_comm q p ∙ pq)
        (mul-lt-mul_of_pos_right (mod-lt v q_pos) p_pos) in
    omega (arith, parts, rw pq at parts, less)

-- A rotation to the left, as the sum of what stays in 32 bits and what comes round.
pub bit_or-rotated :
    (v s : ℕ)
    → v < 2 ^ 32
    → s ≤ 32
    → bit_or (v * 2 ^ s % 2 ^ 32) (v / 2 ^ (32 - s)) ≡ v * 2 ^ s % 2 ^ 32 + v / 2 ^ (32 - s)
bit_or-rotated v s bound few =
    let p = 2 ^ s in
    let q = 2 ^ (32 - s) in
    let whole : s + (32 - s) ≡ 32 = omega arith in
    let pq : p * q ≡ 2 ^ 32 = two_powers s (32 - s) ∙ ap (λ x. 2 ^ x) whole in
    let up : v * p % 2 ^ 32 ≡ v % q * p = cut v p q (positive s) (positive (32 - s)) pq in
    let round : v / q < p =
      (div-lt_iff_lt-mul (positive (32 - s))).1 (subst (λ x. v < x) (sym pq) bound) in
    rw up (bit_or-add s (v % q) (v / q) round)

bit_or_comm : (n a b : ℕ) → a ≤ n → b ≤ n → bit_or a b ≡ bit_or b a
bit_or_comm zero zero zero h k = refl
bit_or_comm zero (suc a) b h k = absurd (omega arith)
bit_or_comm zero zero (suc b) h k = absurd (omega arith)
bit_or_comm (suc n) a b h k = omega (
  arith,
  bit_or-halves a b,
  bit_or-halves b a,
  bit_or_comm n (a / 2) (b / 2) (omega arith) (omega arith),
)

low_bit_or-add : (s h l : ℕ) → l < 2 ^ s → bit_or l (h * 2 ^ s) ≡ l + h * 2 ^ s
low_bit_or-add s h l small =
    bit_or_comm (l + h * 2 ^ s) l (h * 2 ^ s) (omega arith) (omega arith)
    ∙ bit_or-add s h l small
    ∙ omega arith

-- Four bytes as a word, the low one first.
pub bit_or-word :
    (b0 b1 b2 b3 : ℕ)
    → b0 < 256
    → b1 < 256
    → b2 < 256
    → bit_or b0 (bit_or (b1 * 2 ^ 8) (bit_or (b2 * 2 ^ 16) (b3 * 2 ^ 24)))
      ≡ b0 + 256 * b1 + 65536 * b2 + 16777216 * b3
bit_or-word b0 b1 b2 b3 h0 h1 h2 =
    let high : bit_or (b2 * 2 ^ 16) (b3 * 2 ^ 24) ≡ (b3 * 2 ^ 8 + b2) * 2 ^ 16 =
      low_bit_or-add 24 b3 (b2 * 2 ^ 16) (omega arith) ∙ omega arith in
    let middle : bit_or (b1 * 2 ^ 8) ((b3 * 2 ^ 8 + b2) * 2 ^ 16)
        ≡ ((b3 * 2 ^ 8 + b2) * 2 ^ 8 + b1) * 2 ^ 8 =
      low_bit_or-add 16 (b3 * 2 ^ 8 + b2) (b1 * 2 ^ 8) (omega arith) ∙ omega arith in
    ap (λ x. bit_or b0 (bit_or (b1 * 2 ^ 8) x)) high
    ∙ ap (bit_or b0) middle
    ∙ low_bit_or-add 8 ((b3 * 2 ^ 8 + b2) * 2 ^ 8 + b1) b0 (omega arith)
    ∙ omega arith
