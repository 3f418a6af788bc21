-- ===== src/Md5/Rounds.antt =====
-- The rounds of src/Md5.cpp against the text of RFC 1321.
use Prim.Native.Nat.{zero, suc, min, ◌≤◌, digits, bit_and, bit_and-bitwise}
use cpe_acs_connector_tr.Base.{
  ℕ, ◌+◌, ◌*◌, ◌/◌, ◌%◌, ◌<◌, Bool, true, all, List, [], ◌∷◌, ltb, if◌then◌else◌, inl, inr,
  Bool-cases, ◌≡◌, refl, ap, sym, ◌∙◌, arith, Bytes, get_or,
}
use cpe_acs_connector_tr.Md5.{
  Digest, u32, complement, left_rotate, word_at, constants, shifts, mix, md5_round, md5_rounds,
  md5_chunk,
}
use cpe_acs_connector_tr.Md5.Words.{bit_or-word, bit_or-rotated}
use cpe_acs_connector_tr.Md5.Reference.{
  Function, fun_f, fun_g, fun_h, fun_i, applied, Operation, result_of, rotated, word_of, Target,
  abcd, dabc, cdab, bcda, next, performed, all_performed, operations, block_processed,
}

-- `bit_and` is the same either way round, digit by digit.
abbrev and_digits : ℕ → ℕ → ℕ → ℕ
and_digits n a b = digits (λ b. zero) min n a b

and_digits-zero : (n a : ℕ) → and_digits n a 0 ≡ 0
and_digits-zero zero a = refl
and_digits-zero (suc n) zero = refl
and_digits-zero (suc n) (suc a) = omega (arith, and_digits-zero n (suc a / 2))

zero-and_digits : (n b : ℕ) → and_digits n 0 b ≡ 0
zero-and_digits zero b = refl
zero-and_digits (suc n) b = refl

and_digits_comm : (n m a b : ℕ) → a ≤ n → b ≤ m → and_digits n a b ≡ and_digits m b a
and_digits_comm zero m zero b h k = sym (and_digits-zero m b)
and_digits_comm zero m (suc a) b h k = absurd (omega arith)
and_digits_comm (suc n) m zero b h k = sym (and_digits-zero m b)
and_digits_comm (suc n) m (suc a) zero h k =
    and_digits-zero (suc n) (suc a) ∙ sym (zero-and_digits m (suc a))
and_digits_comm (suc n) zero (suc a) (suc b) h k = absurd (omega arith)
and_digits_comm (suc n) (suc m) (suc a) (suc b) h k =
    omega (arith, and_digits_comm n m (suc a / 2) (suc b / 2) (omega arith) (omega arith))

bit_and_comm : (a b : ℕ) → bit_and a b ≡ bit_and b a
bit_and_comm a b =
    (bit_and-bitwise a b
      ∙ and_digits_comm a b a b (omega arith) (omega arith)
      ∙ sym (bit_and-bitwise b a))

-- The registers as the code names them before an operation on this target.
abbrev seen : Target → Digest → Digest
seen abcd r = r
seen dabc r = record { a = r.d; b = r.a; c = r.b; d = r.c }
seen cdab r = record { a = r.c; b = r.d; c = r.a; d = r.b }
seen bcda r = record { a = r.b; b = r.c; c = r.d; d = r.a }

-- The operation of a round of the code's loop.
abbrev function_at : ℕ → Function
function_at n =
    if ltb n 16 then fun_f else if ltb n 32 then fun_g else if ltb n 48 then fun_h else fun_i

abbrev word_index : ℕ → ℕ
word_index n =
    if ltb n 16
    then n
    else if ltb n 32
    then (5 * n + 1) % 16
    else if ltb n 48
    then (3 * n + 5) % 16
    else (7 * n) % 16

abbrev operation_at : ℕ → Operation
operation_at n = record {
  function = function_at n;
  k = word_index n;
  s = get_or shifts n 0;
  t = get_or constants n 0;
}

mix-function_at :
    (n : ℕ) (r : Digest) → mix n r ≡ (applied (function_at n) r.b r.c r.d, word_index n)
unfolding mix
mix-function_at n r = elim (Bool-cases (ltb n 16)) [
  | inl e ↦ rw e refl
  | inr e ↦ elim (Bool-cases (ltb n 32)) [
    | inl k ↦ rw (e, k, bit_and_comm r.d r.b, bit_and_comm (complement r.d) r.c) refl
    | inr k ↦ elim (Bool-cases (ltb n 48)) [ inl l ↦ rw (e, k, l) refl | inr l ↦ rw (e, k, l) refl ]
  ]
]

-- Every byte is one.
abbrev are_bytes : Bytes → Bool
are_bytes s = all (λ c. ltb c 256) s

get_or-all :
    (p : ℕ → Bool) (xs : List ℕ) (n : ℕ) → p 0 ≡ true → all p xs ≡ true → p (get_or xs n 0) ≡ true
get_or-all p [] n h k = h
get_or-all p (x ∷ xs) zero h k = ground arith
get_or-all p (x ∷ xs) (suc n) h k = get_or-all p xs n h (ground arith)

byte_bound : (block : Bytes) (n : ℕ) → are_bytes block ≡ true → get_or block n 0 < 256
byte_bound block n h =
    let small = get_or-all (λ c. ltb c 256) block n refl h in ground (arith, small)

word_at-word_of :
    (block : Bytes) (k : ℕ) → are_bytes block ≡ true → word_at block k ≡ word_of block k
unfolding word_at
word_at-word_of block k h =
    bit_or-word (get_or block (k * 4) 0) (get_or block (k * 4 + 1) 0) (get_or block (k * 4 + 2) 0)
      (get_or block (k * 4 + 3) 0) (byte_bound block (k * 4) h) (byte_bound block (k * 4 + 1) h)
      (byte_bound block (k * 4 + 2) h)

left_rotate-rotated :
    (m n : ℕ) → left_rotate (u32 m) (get_or shifts n 0) ≡ rotated (u32 m) (get_or shifts n 0)
unfolding left_rotate
left_rotate-rotated m n =
    let few = get_or-all (λ s. ltb s 32) shifts n refl refl in
    bit_or-rotated (u32 m) (get_or shifts n 0) (omega arith) (ground (arith, few))

swapped : (x y m n : ℕ) → x + y + m + n ≡ x + y + n + m
swapped x y m n = omega arith

md5_round-result_of :
    (block : Bytes) (n : ℕ) (r : Digest)
    → are_bytes block ≡ true
    → md5_round block n r
      ≡ record { a = r.d; b = result_of block (operation_at n) r.a r.b r.c r.d; c = r.b; d = r.c }
unfolding md5_round
md5_round-result_of block n r h =
    let value = applied (function_at n) r.b r.c r.d in
    let sum = r.a + value + word_of block (word_index n) + get_or constants n 0 in
    rw (mix-function_at n r, word_at-word_of block (word_index n) h)
      (ap
          (λ m. record {
            a = r.d;
            b = u32 (r.b + left_rotate (u32 m) (get_or shifts n 0));
            c = r.b;
            d = r.c;
          })
          (swapped r.a value (get_or constants n 0) (word_of block (word_index n)))
        ∙ ap (λ m. record { a = r.d; b = u32 (r.b + m); c = r.b; d = r.c })
            (left_rotate-rotated sum n))

md5_round-seen :
    (block : Bytes) (n : ℕ) (target : Target) (r : Digest)
    → are_bytes block ≡ true
    → md5_round block n (seen target r)
      ≡ seen (next target) (performed block target (operation_at n) r)
md5_round-seen block n abcd r h = md5_round-result_of block n (seen abcd r) h
md5_round-seen block n dabc r h = md5_round-result_of block n (seen dabc r) h
md5_round-seen block n cdab r h = md5_round-result_of block n (seen cdab r) h
md5_round-seen block n bcda r h = md5_round-result_of block n (seen bcda r) h

-- The operations from `n` on.
abbrev from : ℕ → ℕ → List Operation
from n zero = []
from n (suc left) = operation_at n ∷ from (n + 1) left

abbrev target_behind : ℕ → Target → Target
target_behind zero target = target
target_behind (suc left) target = target_behind left (next target)

md5_rounds-seen :
    (left n : ℕ) (block : Bytes) (target : Target) (r : Digest)
    → are_bytes block ≡ true
    → md5_rounds left n block (seen target r)
      ≡ seen (target_behind left target) (all_performed block target (from n left) r)
unfolding md5_rounds
md5_rounds-seen zero n block target r h = refl
md5_rounds-seen (suc left) n block target r h =
    ap (λ (x : Digest). md5_rounds left (n + 1) block x) (md5_round-seen block n target r h)
    ∙ md5_rounds-seen left (n + 1) block (next target) (performed block target (operation_at n) r) h

operations_lem : operations ≡ from 0 64
operations_lem = refl

-- One turn of the loop over the chunks is one block of RFC 1321, with the table T of the code, if
-- the block is of bytes: the sixty-four operations as the text lists them, each on one register in
-- place, with its functions, its rotation and its words of four bytes, the low-order byte first,
-- and the sum with the registers before. The loop's formulas for the word and its renaming of the
-- four registers give just these.
pub md5_chunk-block_processed :
    (block : Bytes) (r : Digest)
    → are_bytes block ≡ true
    → md5_chunk block r ≡ block_processed block r
unfolding md5_chunk
md5_chunk-block_processed block r h =
    ap
      (λ (r' : Digest). record {
        a = u32 (r.a + r'.a);
        b = u32 (r.b + r'.b);
        c = u32 (r.c + r'.c);
        d = u32 (r.d + r'.d);
      })
      (md5_rounds-seen 64 0 block abcd r h)
