-- ===== src/Md5/Text.antt =====
-- The text of a digest.
use cpe_acs_connector_tr.Base.{
  ℕ, zero, suc, ◌*◌, ◌%◌, ◌/◌, Bool, true, ◌&&◌, ◌||◌, [], ◌∷◌, ◌++◌, ◌≡◌, refl, arith, leb, Bytes,
  length, length-append, all, is_digit,
}
use cpe_acs_connector_tr.Md5.{
  Digest, hex_digit, hex_word, md5_hex, md5_chunks, padded, initial_digest,
}

-- A digit of lower-case hexadecimal.
abbrev pub is_hex : ℕ → Bool
is_hex c = is_digit c || (leb b'a' c && leb c b'f')

length-hex_word : (n word : ℕ) → length (hex_word n word) ≡ 2 * n
unfolding hex_word
length-hex_word zero word = refl
length-hex_word (suc n) word = omega (arith, length-hex_word n (word / 256))

hex_digit-is_hex : (d : ℕ) → is_hex (hex_digit (d % 16)) ≡ true
hex_digit-is_hex d = ground arith

hex_word-is_hex : (n word : ℕ) → all is_hex (hex_word n word) ≡ true
unfolding hex_word
hex_word-is_hex zero word = refl
hex_word-is_hex (suc n) word = ground (arith, hex_word-is_hex n (word / 256))

all_hex-append :
    (s t : Bytes) → all is_hex s ≡ true → all is_hex t ≡ true → all is_hex (s ++ t) ≡ true
all_hex-append [] t h k = k
all_hex-append (c ∷ s) t h k = ground (arith, all_hex-append s t)

-- The text of four words.
abbrev hex_words : Digest → Bytes
hex_words s = hex_word 4 s.a ++ (hex_word 4 s.b ++ (hex_word 4 s.c ++ hex_word 4 s.d))

hex_words-is_hex : (s : Digest) → (length (hex_words s) ≡ 32) × (all is_hex (hex_words s) ≡ true)
hex_words-is_hex s = (
  simp (length-append, length-hex_word),
  all_hex-append (hex_word 4 s.a) (hex_word 4 s.b ++ (hex_word 4 s.c ++ hex_word 4 s.d))
      (hex_word-is_hex 4 s.a)
      (all_hex-append (hex_word 4 s.b) (hex_word 4 s.c ++ hex_word 4 s.d) (hex_word-is_hex 4 s.b) (
        all_hex-append (hex_word 4 s.c) (hex_word 4 s.d) (hex_word-is_hex 4 s.c)
          (hex_word-is_hex 4 s.d))),
)

-- Every digest is written as 32 digits of lower-case hexadecimal.
pub md5_hex-is_hex : (s : Bytes) → (length (md5_hex s) ≡ 32) × (all is_hex (md5_hex s) ≡ true)
unfolding md5_hex
md5_hex-is_hex s = hex_words-is_hex (md5_chunks (length (padded s) / 64) (padded s) initial_digest)
