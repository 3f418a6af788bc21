-- ===== src/Md5/Reference.antt =====
-- One block of RFC 1321, section 3.4: the functions F, G, H and I, and the sixty-four operations as
-- the text lists them, each on one of the four registers in place. The table T is that of
-- src/Md5.cpp; the text defines it by sines.
use Prim.Native.Nat.{bit_and, bit_or, bit_xor}
use cpe_acs_connector_tr.Base.{ℕ, ◌+◌, ◌-◌, ◌*◌, ◌/◌, ◌%◌, ◌^◌, List, [], ◌∷◌, ◌++◌, Bytes, get_or}
use cpe_acs_connector_tr.Md5.{Digest, u32, complement, constants}

-- "F(X,Y,Z) = XY v not(X) Z" and so on.
pub data Function : Type 0 where
  fun_f fun_g fun_h fun_i : Function

abbrev pub applied : Function → ℕ → ℕ → ℕ → ℕ
applied fun_f x y z = bit_or (bit_and x y) (bit_and (complement x) z)
applied fun_g x y z = bit_or (bit_and x z) (bit_and y (complement z))
applied fun_h x y z = bit_xor (bit_xor x y) z
applied fun_i x y z = bit_xor y (bit_or x (complement z))

-- "[abcd k s i]" with its function: which word of the block, and by how much the sum is rotated.
pub record Operation : Type 0 where
  pub function : Function
  pub k : ℕ
  pub s : ℕ
  pub t : ℕ

-- "X <<< s": the top `s` bits of the 32 come round to the bottom.
abbrev pub rotated : ℕ → ℕ → ℕ
rotated x s = x * 2 ^ s % 2 ^ 32 + x / 2 ^ (32 - s)

-- "X[k]": four bytes of the block, with the low-order byte given first.
abbrev pub word_of : Bytes → ℕ → ℕ
word_of block k =
    get_or block (k * 4) 0
    + 256 * get_or block (k * 4 + 1) 0
    + 65536 * get_or block (k * 4 + 2) 0
    + 16777216 * get_or block (k * 4 + 3) 0

-- "a = b + ((a + F(b,c,d) + X[k] + T[i]) <<< s)".
abbrev pub result_of : Bytes → Operation → (a b c d : ℕ) → ℕ
result_of block o a b c d =
    u32 (b + rotated (u32 (a + applied o.function b c d + word_of block o.k + o.t)) o.s)

-- The register that an operation changes: the letter that comes first in its brackets.
pub data Target : Type 0 where
  abcd dabc cdab bcda : Target

abbrev pub next : Target → Target
next abcd = dabc
next dabc = cdab
next cdab = bcda
next bcda = abcd

abbrev pub performed : Bytes → Target → Operation → Digest → Digest
performed block abcd o r = record r { a = result_of block o r.a r.b r.c r.d }
performed block dabc o r = record r { d = result_of block o r.d r.a r.b r.c }
performed block cdab o r = record r { c = result_of block o r.c r.d r.a r.b }
performed block bcda o r = record r { b = result_of block o r.b r.c r.d r.a }

-- The operations in the order of the text: in each line four, on A, D, C and B.
abbrev pub all_performed : Bytes → Target → List Operation → Digest → Digest
all_performed block target [] r = r
all_performed block target (o ∷ later) r =
    all_performed block (next target) later (performed block target o r)

-- The operations of one round, from the `i` of its first, counted from 0 here.
abbrev pub round_of : Function → (i : ℕ) → List (ℕ × ℕ) → List Operation
round_of f i [] = []
round_of f i ((k, s) ∷ later) =
    let rest = round_of f (i + 1) later in
    record { function = f; k = k; s = s; t = get_or constants i 0 } ∷ rest

abbrev first_round : List (ℕ × ℕ)
first_round =
    (0, 7)
    ∷ (1, 12)
    ∷ (2, 17)
    ∷ (3, 22)
    ∷ (4, 7)
    ∷ (5, 12)
    ∷ (6, 17)
    ∷ (7, 22)
    ∷ (8, 7)
    ∷ (9, 12)
    ∷ (10, 17)
    ∷ (11, 22)
    ∷ (12, 7)
    ∷ (13, 12)
    ∷ (14, 17)
    ∷ (15, 22)
    ∷ []

abbrev second_round : List (ℕ × ℕ)
second_round =
    (1, 5)
    ∷ (6, 9)
    ∷ (11, 14)
    ∷ (0, 20)
    ∷ (5, 5)
    ∷ (10, 9)
    ∷ (15, 14)
    ∷ (4, 20)
    ∷ (9, 5)
    ∷ (14, 9)
    ∷ (3, 14)
    ∷ (8, 20)
    ∷ (13, 5)
    ∷ (2, 9)
    ∷ (7, 14)
    ∷ (12, 20)
    ∷ []

abbrev third_round : List (ℕ × ℕ)
third_round =
    (5, 4)
    ∷ (8, 11)
    ∷ (11, 16)
    ∷ (14, 23)
    ∷ (1, 4)
    ∷ (4, 11)
    ∷ (7, 16)
    ∷ (10, 23)
    ∷ (13, 4)
    ∷ (0, 11)
    ∷ (3, 16)
    ∷ (6, 23)
    ∷ (9, 4)
    ∷ (12, 11)
    ∷ (15, 16)
    ∷ (2, 23)
    ∷ []

abbrev fourth_round : List (ℕ × ℕ)
fourth_round =
    (0, 6)
    ∷ (7, 10)
    ∷ (14, 15)
    ∷ (5, 21)
    ∷ (12, 6)
    ∷ (3, 10)
    ∷ (10, 15)
    ∷ (1, 21)
    ∷ (8, 6)
    ∷ (15, 10)
    ∷ (6, 15)
    ∷ (13, 21)
    ∷ (4, 6)
    ∷ (11, 10)
    ∷ (2, 15)
    ∷ (9, 21)
    ∷ []

abbrev pub operations : List Operation
operations =
    round_of fun_f 0 first_round
    ++ (round_of fun_g 16 second_round
        ++ (round_of fun_h 32 third_round ++ round_of fun_i 48 fourth_round))

-- "Process each 16-word block": the registers are saved, and added behind the operations.
abbrev pub block_processed : Bytes → Digest → Digest
block_processed block r =
    let r' = all_performed block abcd operations r in
    record {
      a = u32 (r.a + r'.a);
      b = u32 (r.b + r'.b);
      c = u32 (r.c + r'.c);
      d = u32 (r.d + r'.d);
    }
