-- ===== src/Md5/Padding.antt =====
-- The padding of a message, and the shape of a digest.
use mathlib.Core.List.{append-nil, append_assoc}
use cpe_acs_connector_tr.Base.{
  ℕ, zero, suc, ◌+◌, ◌-◌, ◌*◌, ◌/◌, ◌%◌, ◌^◌, ◌<◌, [], ◌∷◌, ◌++◌, ◌≡◌, refl, ◌∙◌, ap, sym, arith,
  ◌==◌, inl, inr, Bool-cases, Bytes, length, length-append, all, ltb, true,
}
use cpe_acs_connector_tr.Md5.{pad_zeros, length_bytes, padded}

-- How many bytes are missing to 56 past a multiple of 64.
abbrev missing : Bytes → ℕ
missing s = (120 - length s % 64) % 64

pad_zeros-length : (fuel : ℕ) (s : Bytes) → missing s < fuel → length (pad_zeros fuel s) % 64 ≡ 56
unfolding pad_zeros
pad_zeros-length zero s h = elim h [ ]
pad_zeros-length (suc fuel) s h = elim (Bool-cases (length s % 64 == 56)) [
  | inl e ↦ rw e (ground arith)
  | inr e ↦
      let longer : length (s ++ 0 ∷ []) ≡ length s + 1 = length-append s (0 ∷ []) in
      rw e (pad_zeros-length fuel (s ++ 0 ∷ []) (ground (arith, longer)))
]

-- The zeros that the loop adds.
pad_zeros-zeros :
    (fuel : ℕ) (s : Bytes)
    → missing s < fuel
    → (zeros : Bytes) × (pad_zeros fuel s ≡ s ++ zeros)
      × (all (λ c. c == 0) zeros ≡ true)
      × (length zeros ≡ missing s)
unfolding pad_zeros
pad_zeros-zeros zero s h = elim h [ ]
pad_zeros-zeros (suc fuel) s h = elim (Bool-cases (length s % 64 == 56)) [
  | inl e ↦ ([], rw e (sym (append-nil s)), refl, ground arith)
  | inr e ↦
      let longer : length (s ++ 0 ∷ []) ≡ length s + 1 = length-append s (0 ∷ []) in
      let (zeros, same, all_zero, count) =
        pad_zeros-zeros fuel (s ++ 0 ∷ []) (ground (arith, longer)) in
      (
        0 ∷ zeros,
        rw e (same ∙ append_assoc s (0 ∷ []) zeros),
        all_zero,
        ground (arith, longer, count),
      )
]

pub length-length_bytes : (n v : ℕ) → length (length_bytes n v) ≡ n
unfolding length_bytes
length-length_bytes zero v = refl
length-length_bytes (suc n) v = ap suc (length-length_bytes n (v / 256))

-- The number that bytes stand for, the low one first.
abbrev pub number_of : Bytes → ℕ
number_of [] = 0
number_of (c ∷ s) = let rest = number_of s in c + 256 * rest

-- The number is used up by that many bytes.
abbrev Fits : ℕ → ℕ → Type 0
Fits zero v = v ≡ 0
Fits (suc n) v = Fits n (v / 256)

number_of-length_bytes : (n v : ℕ) → Fits n v → number_of (length_bytes n v) ≡ v
unfolding length_bytes
number_of-length_bytes zero v h = sym h
number_of-length_bytes (suc n) v h = omega (arith, number_of-length_bytes n (v / 256) h)

length_bytes-all : (n v : ℕ) → all (λ c. ltb c 256) (length_bytes n v) ≡ true
unfolding length_bytes
length_bytes-all zero v = refl
length_bytes-all (suc n) v = ground (arith, length_bytes-all n (v / 256))

Fits-u64 : (v : ℕ) → v < 2 ^ 64 → Fits 8 v
Fits-u64 v h = omega arith

-- Sections 3.1 and 3.2 of RFC 1321: behind the message a bit 1, that is the byte 0x80, as few zeros
-- as bring the length to 56 past a multiple of 64, and the length in bits modulo 2^64 in eight
-- bytes, the low one first.
abbrev pub IsPadding : Bytes → Bytes → Type 0
IsPadding s p =
    (zeros bits : Bytes) × (p ≡ (s ++ (0x80 ∷ zeros)) ++ bits)
    × (all (λ c. c == 0) zeros ≡ true)
    × (length zeros < 64)
    × (length (s ++ (0x80 ∷ zeros)) % 64 ≡ 56)
    × (length bits ≡ 8)
    × (all (λ c. ltb c 256) bits ≡ true)
    × (number_of bits ≡ length s * 8 % 2 ^ 64)

-- The padded message is that of RFC 1321: the message, the byte 0x80, fewer than 64 zeros, up to 56
-- past a multiple of 64, and the length of the message in bits, modulo 2^64, in eight bytes with
-- the low one first.
pub padded-IsPadding : (s : Bytes) → IsPadding s (padded s)
unfolding padded
padded-IsPadding s =
    let marked = s ++ 0x80 ∷ [] in
    let bits = length_bytes 8 (length s * 8 % 2 ^ 64) in
    let (zeros, same, all_zero, count) = pad_zeros-zeros 64 marked (omega arith) in
    let body : pad_zeros 64 marked ≡ s ++ (0x80 ∷ zeros) =
      same ∙ append_assoc s (0x80 ∷ []) zeros in
    (
      zeros,
      bits,
      ap (λ b. b ++ bits) body,
      all_zero,
      omega (arith, count),
      ap (λ (b : Bytes). length b % 64) (sym body) ∙ pad_zeros-length 64 marked (omega arith),
      length-length_bytes 8 (length s * 8 % 2 ^ 64),
      length_bytes-all 8 (length s * 8 % 2 ^ 64),
      number_of-length_bytes 8 (length s * 8 % 2 ^ 64)
          (Fits-u64 (length s * 8 % 2 ^ 64) (omega arith)),
    )
