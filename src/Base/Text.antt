-- ===== src/Base/Text.antt =====
-- `std::string` as a list of byte values, with the operations of the C++ standard library that
-- the code calls.
use Prim.Native.Char.{code}
use Prim.Native.Nat.{ℕ, zero, suc, ◌+◌, ◌/◌, ◌%◌}
use Prim.Native.String.{String}
use mathlib.Core.Path.{◌≡◌, refl}
use mathlib.Core.Logic.{◌↔◌}
use mathlib.Core.Bool.{Bool, true, false, not, ◌&&◌, ◌||◌}
use mathlib.Core.List.{List, [], ◌∷◌, ◌++◌}
use native.Mathlib.Omega.{arith}
use cpe_acs_connector_tr.Base.Tests.{ltb, leb, ◌==◌, if◌then◌else◌}
use cpe_acs_connector_tr.Base.Lists.{take, drop, all}

abbrev pub Bytes : Type 0
Bytes = List ℕ

-- The bytes of a literal; every literal of the sources is ASCII.
unfoldable pub codes : String → Bytes
codes String.[] = []
codes (String.◌∷◌ c s) = code c ∷ codes s

-- `operator==`.
unfoldable pub equal : Bytes → Bytes → Bool
equal [] [] = true
equal (x ∷ xs) (y ∷ ys) = x == y && equal xs ys
equal _ _ = false

abbrev pub is_empty : Bytes → Bool
is_empty [] = true
is_empty (x ∷ xs) = false

-- `operator==` decides equality.
pub equal_iff : (s t : Bytes) → (equal s t ≡ true) ↔ (s ≡ t)
unfolding equal
equal_iff [] [] = ground arith
equal_iff [] (d ∷ t) = ground arith
equal_iff (c ∷ s) [] = ground arith
equal_iff (c ∷ s) (d ∷ t) = let tail = equal_iff s t in ground (arith, tail)

pub equal_refl : (a : Bytes) → equal a a ≡ true
equal_refl a = (equal_iff a a).1 refl

-- A text that is `a` is not another text `b`.
pub equal_other : (s a b : Bytes) → equal a b ≡ false → equal s a ≡ true → equal s b ≡ false
equal_other s a b differ h = rw ((equal_iff s a).0 h) differ

-- What an `ostringstream` holds after `out << p << q << …`.
abbrev pub stream : List Bytes → Bytes
stream [] = []
stream (p ∷ ps) = p ++ stream ps

-- `substr(pos, n)`; the code never calls it with `pos` past the end.
abbrev pub substr : Bytes → ℕ → ℕ → Bytes
substr s pos n = take n (drop pos s)

abbrev pub is_digit : ℕ → Bool
is_digit c = leb b'0' c && leb c b'9'

-- `std::isalnum` in the C locale.
abbrev pub is_alnum : ℕ → Bool
is_alnum c = is_digit c || (leb b'a' c && leb c b'z') || (leb b'A' c && leb c b'Z')

-- `std::tolower` in the C locale.
abbrev pub to_lower : ℕ → ℕ
to_lower c = if leb b'A' c && leb c b'Z' then c + 32 else c

-- The decimal digits of `n` in front of `acc`, on fuel.
unfoldable pub decimal_onto : ℕ → ℕ → Bytes → Bytes
decimal_onto zero n acc = acc
decimal_onto (suc f) n acc =
    let rest = decimal_onto f (n / 10) ((b'0' + n % 10) ∷ acc) in
    if ltb n 10 then (b'0' + n) ∷ acc else rest

-- `std::to_string` of an unsigned number; a number has at most as many digits as its value.
unfoldable pub to_string : ℕ → Bytes
unfolding decimal_onto
to_string n = decimal_onto (suc n) n []

decimal_onto-is_digit :
    (f n : ℕ) (acc : Bytes) → all is_digit acc ≡ true → all is_digit (decimal_onto f n acc) ≡ true
unfolding decimal_onto
decimal_onto-is_digit zero n acc h = h
decimal_onto-is_digit (suc f) n acc h =
    ground (arith, decimal_onto-is_digit f (n / 10) ((b'0' + n % 10) ∷ acc))

pub to_string-is_digit : (n : ℕ) → all is_digit (to_string n) ≡ true
unfolding to_string
to_string-is_digit n = decimal_onto-is_digit (suc n) n [] refl

-- `c_str()`, for a function that stops at a NUL.
unfoldable pub c_str : Bytes → Bytes
c_str [] = []
c_str (c ∷ s) = if c == 0 then [] else c ∷ c_str s

abbrev pub no_nul : Bytes → Bool
no_nul s = all (λ c. not (c == 0)) s

pub c_str-no_nul : (s : Bytes) → no_nul s ≡ true → c_str s ≡ s
unfolding c_str
c_str-no_nul [] h = refl
c_str-no_nul (c ∷ s) h = ground (arith, c_str-no_nul s)

pub no_nul-append : (s t : Bytes) → no_nul s ≡ true → no_nul t ≡ true → no_nul (s ++ t) ≡ true
no_nul-append [] t h k = k
no_nul-append (c ∷ s) t h k = ground (arith, no_nul-append s t)
