-- ===== src/Base/Numbers.antt =====
-- `std::stoul` in base 10, on a target whose `unsigned long` has 64 bits.
use Prim.Native.Nat.{ℕ, zero, suc, ◌+◌, ◌-◌, ◌*◌, ◌/◌, ◌%◌, ◌^◌, ◌≤◌, ◌<◌}
use mathlib.Core.Path.{◌≡◌, refl, ◌∙◌, ap}
use mathlib.Core.Bool.{Bool, true, false, ◌&&◌, ◌||◌}
use mathlib.Core.List.{[], ◌∷◌}
use mathlib.Core.Option.{Option, none, some}
use native.Mathlib.Omega.{arith}
use cpe_acs_connector_tr.Base.Tests.{leb, ◌==◌, if◌then◌else◌}
use cpe_acs_connector_tr.Base.Lists.{length, all}
use cpe_acs_connector_tr.Base.Text.{Bytes, is_digit, decimal_onto, to_string, to_string-is_digit}

-- `isspace` in the C locale.
abbrev is_space : ℕ → Bool
is_space c = c == b' ' || (leb 9 c && leb c 13)

-- The blanks in front, counted, and what follows them.
pub skip_space : ℕ → Bytes → ℕ × Bytes
skip_space n [] = (n, [])
skip_space n (c ∷ cs) = let rest = skip_space (n + 1) cs in if is_space c then rest else (n, c ∷ cs)

-- The value of the digits in front, read onto `v`, and how many there are.
pub read_digits : ℕ → ℕ → Bytes → ℕ × ℕ
read_digits v n [] = (v, n)
read_digits v n (c ∷ cs) =
    let rest = read_digits (v * 10 + (c - b'0')) (n + 1) cs in if is_digit c then rest else (v, n)

-- No digit throws `invalid_argument`, a value past the range `out_of_range`. A minus sign negates
-- the value in the unsigned type. `n` characters stand in front of the digits.
abbrev in_range : Bool → ℕ → ℕ × ℕ → Option (ℕ × ℕ)
in_range negative n (v, digits) =
    if digits == 0
    then none
    else if leb (2 ^ 64) v
    then none
    else some (if negative then (2 ^ 64 - v) % 2 ^ 64 else v, n + digits)

pub read_sign : ℕ → Bytes → Option (ℕ × ℕ)
read_sign n [] = none
read_sign n (c ∷ cs) =
    if c == b'-'
    then in_range true (n + 1) (read_digits 0 0 cs)
    else if c == b'+'
    then in_range false (n + 1) (read_digits 0 0 cs)
    else in_range false n (read_digits 0 0 (c ∷ cs))

-- The value and the number of characters read; none where the call throws.
unfoldable pub stoul : Bytes → Option (ℕ × ℕ)
unfolding skip_space read_digits read_sign
stoul s = let (n, rest) = skip_space 0 s in read_sign n rest

-- `static_cast<unsigned>`.
abbrev pub unsigned : ℕ → ℕ
unsigned n = n % 2 ^ 32

-- A text of digits is all read.
stoul_digits : (s : Bytes) → all is_digit s ≡ true → stoul s ≡ in_range false 0 (read_digits 0 0 s)
unfolding stoul
stoul_digits [] h = refl
stoul_digits (c ∷ s) h = ground arith

decimal_onto_grows : (f n : ℕ) (acc : Bytes) → length acc ≤ length (decimal_onto f n acc)
unfolding decimal_onto
decimal_onto_grows zero n acc = omega arith
decimal_onto_grows (suc f) n acc =
    ground (arith, decimal_onto_grows f (n / 10) ((b'0' + n % 10) ∷ acc))

decimal_onto_has_digit : (f n : ℕ) → 0 < length (decimal_onto (suc f) n [])
unfolding decimal_onto
decimal_onto_has_digit f n = ground (arith, decimal_onto_grows f (n / 10) ((b'0' + n % 10) ∷ []))

read_digits-decimal_onto :
    (f n : ℕ) (acc : Bytes)
    → n < f
    → read_digits 0 0 (decimal_onto f n acc)
      ≡ read_digits n (length (decimal_onto f n acc) - length acc) acc
unfolding decimal_onto read_digits
read_digits-decimal_onto zero n acc h = elim h [ ]
read_digits-decimal_onto (suc f) n acc h =
    let digit = b'0' + n % 10 in
    ground (
      arith,
      decimal_onto_grows f (n / 10) (digit ∷ acc),
      read_digits-decimal_onto f (n / 10) (digit ∷ acc),
    )

-- `std::stoul` reads back what `std::to_string` wrote, to the last character; past 64 bits it
-- throws.
pub stoul-to_string :
    (n : ℕ)
    → stoul (to_string n) ≡ (if leb (2 ^ 64) n then none else some (n, length (to_string n)))
unfolding to_string read_digits
stoul-to_string n =
    stoul_digits (to_string n) (to_string-is_digit n)
    ∙ ap (in_range false 0) (read_digits-decimal_onto (suc n) n [] (omega arith))
    ∙ ground (arith, decimal_onto_has_digit n n)
