-- ===== src/Md5.antt =====
-- MD5 as the daemon computes it (src/Md5.cpp). A `uint32_t` is a number below 2^32.
pub mod Padding
pub mod Words
pub mod Reference
pub mod Rounds
pub mod Text
use Prim.Native.Nat.{bit_and, bit_or, bit_xor}
use cpe_acs_connector_tr.Base.{
  ℕ, zero, suc, ◌+◌, ◌-◌, ◌*◌, ◌/◌, ◌%◌, ◌^◌, List, [], ◌∷◌, ◌++◌, ◌==◌, ltb, if◌then◌else◌, Bytes,
  length, get_or, drop,
}

abbrev pub u32 : ℕ → ℕ
u32 n = n % 2 ^ 32

-- `~x`.
abbrev pub complement : ℕ → ℕ
complement x = 2 ^ 32 - 1 - x

unfoldable pub left_rotate : ℕ → ℕ → ℕ
left_rotate value bits = bit_or (u32 (value * 2 ^ bits)) (value / 2 ^ (32 - bits))

abbrev pub shifts : List ℕ
shifts =
    7 ∷ 12 ∷ 17 ∷ 22 ∷ 7 ∷ 12 ∷ 17 ∷ 22 ∷ 7 ∷ 12 ∷ 17 ∷ 22 ∷ 7 ∷ 12 ∷ 17 ∷ 22 ∷ 5 ∷ 9 ∷ 14 ∷ 20 ∷ 5
    ∷ 9 ∷ 14 ∷ 20 ∷ 5 ∷ 9 ∷ 14 ∷ 20 ∷ 5 ∷ 9 ∷ 14 ∷ 20 ∷ 4 ∷ 11 ∷ 16 ∷ 23 ∷ 4 ∷ 11 ∷ 16 ∷ 23 ∷ 4 ∷ 11
    ∷ 16 ∷ 23 ∷ 4 ∷ 11 ∷ 16 ∷ 23 ∷ 6 ∷ 10 ∷ 15 ∷ 21 ∷ 6 ∷ 10 ∷ 15 ∷ 21 ∷ 6 ∷ 10 ∷ 15 ∷ 21 ∷ 6 ∷ 10
    ∷ 15 ∷ 21 ∷ []

abbrev pub constants : List ℕ
constants =
    0xd76aa478 ∷ 0xe8c7b756 ∷ 0x242070db ∷ 0xc1bdceee ∷ 0xf57c0faf ∷ 0x4787c62a ∷ 0xa8304613
    ∷ 0xfd469501 ∷ 0x698098d8 ∷ 0x8b44f7af ∷ 0xffff5bb1 ∷ 0x895cd7be ∷ 0x6b901122 ∷ 0xfd987193
    ∷ 0xa679438e ∷ 0x49b40821 ∷ 0xf61e2562 ∷ 0xc040b340 ∷ 0x265e5a51 ∷ 0xe9b6c7aa ∷ 0xd62f105d
    ∷ 0x02441453 ∷ 0xd8a1e681 ∷ 0xe7d3fbc8 ∷ 0x21e1cde6 ∷ 0xc33707d6 ∷ 0xf4d50d87 ∷ 0x455a14ed
    ∷ 0xa9e3e905 ∷ 0xfcefa3f8 ∷ 0x676f02d9 ∷ 0x8d2a4c8a ∷ 0xfffa3942 ∷ 0x8771f681 ∷ 0x6d9d6122
    ∷ 0xfde5380c ∷ 0xa4beea44 ∷ 0x4bdecfa9 ∷ 0xf6bb4b60 ∷ 0xbebfbc70 ∷ 0x289b7ec6 ∷ 0xeaa127fa
    ∷ 0xd4ef3085 ∷ 0x04881d05 ∷ 0xd9d4d039 ∷ 0xe6db99e5 ∷ 0x1fa27cf8 ∷ 0xc4ac5665 ∷ 0xf4292244
    ∷ 0x432aff97 ∷ 0xab9423a7 ∷ 0xfc93a039 ∷ 0x655b59c3 ∷ 0x8f0ccc92 ∷ 0xffeff47d ∷ 0x85845dd1
    ∷ 0x6fa87e4f ∷ 0xfe2ce6e0 ∷ 0xa3014314 ∷ 0x4e0811a1 ∷ 0xf7537e82 ∷ 0xbd3af235 ∷ 0x2ad7d2bb
    ∷ 0xeb86d391 ∷ []

-- `while ((data.size() % 64) != 56) data.push_back(0);`, on fuel.
pub pad_zeros : ℕ → Bytes → Bytes
pad_zeros zero s = s
pad_zeros (suc fuel) s =
    let more = pad_zeros fuel (s ++ 0 ∷ []) in if length s % 64 == 56 then s else more

-- The eight bytes of the length in bits, the low one first; `uint64_t` wraps.
pub length_bytes : ℕ → ℕ → Bytes
length_bytes zero bit_length = []
length_bytes (suc n) bit_length = (bit_length % 256) ∷ length_bytes n (bit_length / 256)

-- Fewer than 64 rounds bring the size to 56 past a multiple of 64.
unfoldable pub padded : Bytes → Bytes
unfolding pad_zeros length_bytes
padded input = pad_zeros 64 (input ++ 0x80 ∷ []) ++ length_bytes 8 (length input * 8 % 2 ^ 64)

pub record Digest : Type 0 where
  pub a : ℕ
  pub b : ℕ
  pub c : ℕ
  pub d : ℕ

-- `words[i]` of a chunk.
unfoldable pub word_at : Bytes → ℕ → ℕ
word_at chunk i = bit_or (get_or chunk (i * 4) 0) (
    bit_or (get_or chunk (i * 4 + 1) 0 * 2 ^ 8)
      (bit_or (get_or chunk (i * 4 + 2) 0 * 2 ^ 16) (get_or chunk (i * 4 + 3) 0 * 2 ^ 24)))

-- `f` and `g` of round `i`.
unfoldable pub mix : ℕ → Digest → ℕ × ℕ
mix i s =
    if ltb i 16
    then (bit_or (bit_and s.b s.c) (bit_and (complement s.b) s.d), i)
    else if ltb i 32
    then (bit_or (bit_and s.d s.b) (bit_and (complement s.d) s.c), (5 * i + 1) % 16)
    else if ltb i 48
    then (bit_xor (bit_xor s.b s.c) s.d, (3 * i + 5) % 16)
    else (bit_xor s.c (bit_or s.b (complement s.d)), (7 * i) % 16)

unfoldable pub md5_round : Bytes → ℕ → Digest → Digest
unfolding mix left_rotate word_at
md5_round chunk i s =
    let (f, g) = mix i s in
    record {
      a = s.d;
      b = u32 (
          s.b
          + left_rotate (u32 (s.a + f + get_or constants i 0 + word_at chunk g))
              (get_or shifts i 0));
      c = s.b;
      d = s.c;
    }

-- The loop over `i`, with the rounds left.
unfoldable pub md5_rounds : ℕ → ℕ → Bytes → Digest → Digest
unfolding md5_round
md5_rounds zero i chunk s = s
md5_rounds (suc left) i chunk s = md5_rounds left (i + 1) chunk (md5_round chunk i s)

unfoldable pub md5_chunk : Bytes → Digest → Digest
unfolding md5_rounds
md5_chunk chunk s =
    let r = md5_rounds 64 0 chunk s in
    record { a = u32 (s.a + r.a); b = u32 (s.b + r.b); c = u32 (s.c + r.c); d = u32 (s.d + r.d) }

-- The loop over `offset`, with the chunks left.
unfoldable pub md5_chunks : ℕ → Bytes → Digest → Digest
unfolding md5_chunk
md5_chunks zero data' s = s
md5_chunks (suc left) data' s = md5_chunks left (drop 64 data') (md5_chunk data' s)

abbrev pub initial_digest : Digest
initial_digest = record { a = 0x67452301; b = 0xefcdab89; c = 0x98badcfe; d = 0x10325476 }

abbrev hex_digit : ℕ → ℕ
hex_digit n = if ltb n 10 then b'0' + n else b'a' + (n - 10)

-- The bytes of a word in hexadecimal, the low one first.
unfoldable pub hex_word : ℕ → ℕ → Bytes
hex_word zero word = []
hex_word (suc n) word =
    hex_digit (word % 256 / 16) ∷ hex_digit (word % 16) ∷ hex_word n (word / 256)

unfoldable pub md5_hex : Bytes → Bytes
unfolding padded md5_chunks hex_word
md5_hex input =
    let data' = padded input in
    let s = md5_chunks (length data' / 64) data' initial_digest in
    hex_word 4 s.a ++ (hex_word 4 s.b ++ (hex_word 4 s.c ++ hex_word 4 s.d))
