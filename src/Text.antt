-- ===== src/Text.antt =====
-- C strings as lists of bytes, without the final zero, and what the plugin uses of the C library:
-- strcmp, strstr, strrchr, strtol, atoi and the `%d` of printf and scanf.
pub mod Laws
mod Tests
use Prim.Native.String.{String}
use Prim.Native.Char.{code}
use schwung_monomodule.Prelude.{
  ℕ, zero, suc, ◌+◌, ◌-◌, ◌*◌, ◌/◌, ◌%◌, Bool, true, false, ◌&&◌, ◌||◌, Option, none, some, List,
  [], ◌∷◌, ◌++◌, leb, ltb, ◌==◌, if◌then◌else◌,
}
use schwung_monomodule.Prelude.Int.{ℤ, pos, negsuc}

abbrev pub Bytes : Type 0
Bytes = List ℕ

-- The bytes of a literal, which is ASCII.
abbrev pub codes : String → Bytes
codes String.[] = []
codes (String.◌∷◌ c s) = code c ∷ codes s

-- `strcmp(s, t) == 0`
unfoldable pub same : Bytes → Bytes → Bool
same [] [] = true
same [] (_ ∷ _) = false
same (_ ∷ _) [] = false
same (a ∷ s) (b ∷ t) = a == b && same s t

-- Whether `s` begins with `t`, and what follows.
unfoldable pub after : Bytes → Bytes → Option Bytes
after s [] = some s
after [] (_ ∷ _) = none
after (a ∷ s) (b ∷ t) = let rest = after s t in if a == b then rest else none

-- `strstr(s, t) + strlen(t)`: what follows the first occurrence of `t`.
unfoldable pub after_first : Bytes → Bytes → Option Bytes
after_first [] t = after [] t
after_first (a ∷ s) t = elim (after (a ∷ s) t) [ some rest ↦ some rest | none ↦ after_first s t ]

-- `strstr(s, t)`: from the first occurrence on.
unfoldable pub from_first : Bytes → Bytes → Option Bytes
from_first [] t = elim (after [] t) [ some _ ↦ some [] | none ↦ none ]
from_first (a ∷ s) t = elim (after (a ∷ s) t) [ some _ ↦ some (a ∷ s) | none ↦ from_first s t ]

-- What follows the last colon, or all of it: `k = strrchr(key, ':'); k = k ? k + 1 : key`.
unfoldable pub base_name : Bytes → Bytes
base_name [] = []
base_name (c ∷ s) = elim (from_first s (b':' ∷ [])) [
  | some _ ↦ base_name s
  | none ↦ if c == b':' then s else c ∷ s
]

abbrev pub is_space : ℕ → Bool
is_space c = c == 32 || (leb 9 c && leb c 13)

abbrev pub is_digit : ℕ → Bool
is_digit c = leb b'0' c && leb c b'9'

unfoldable pub skip_spaces : Bytes → Bytes
skip_spaces [] = []
skip_spaces (c ∷ s) = let rest = skip_spaces s in if is_space c then rest else c ∷ s

-- Reads digits after the value `acc` of those before.
unfoldable pub digits : ℕ → Bytes → ℕ × Bytes
digits acc [] = (acc, [])
digits acc (c ∷ s) =
    let rest = digits (acc * 10 + (c - b'0')) s in if is_digit c then rest else (acc, c ∷ s)

-- Digits after the sign: at least one.
unfoldable pub unsigned : Bytes → Option (ℕ × Bytes)
unfolding digits
unsigned [] = none
unsigned (c ∷ s) = if is_digit c then some (digits 0 (c ∷ s)) else none

abbrev pub negate : ℕ → ℤ
negate zero = pos 0
negate (suc n) = negsuc n

abbrev pub with_sign : (ℕ → ℤ) → Option (ℕ × Bytes) → Option (ℤ × Bytes)
with_sign f none = none
with_sign f (some (n, rest)) = some (f n, rest)

unfoldable pub signed : Bytes → Option (ℤ × Bytes)
unfolding unsigned
signed [] = none
signed (c ∷ s) =
    if c == b'-'
    then with_sign negate (unsigned s)
    else with_sign pos (unsigned (if c == b'+' then s else c ∷ s))

-- `strtol(s, &end, 10)`: the value and what follows it, or `none` where `end == s`. The value is not
-- saturated at the ends of `long`: every caller clamps it or compares it with small numbers.
unfoldable pub strtol : Bytes → Option (ℤ × Bytes)
unfolding skip_spaces signed
strtol s = signed (skip_spaces s)

unfoldable pub atoi : Bytes → ℤ
unfolding strtol
atoi s = elim (strtol s) [ none ↦ pos 0 | some (v, _) ↦ v ]

-- The decimal digits of `n`, with fuel; the last digit is written in any case.
unfoldable pub decimal : ℕ → ℕ → Bytes
decimal zero n = (b'0' + n % 10) ∷ []
decimal (suc f) n =
    let upper = decimal f (n / 10) ++ ((b'0' + n % 10) ∷ []) in
    if ltb n 10 then (b'0' + n) ∷ [] else upper

-- `%d`; `n` rounds are more than it has digits.
unfoldable pub print : ℤ → Bytes
unfolding decimal
print (pos n) = decimal n n
print (negsuc n) = b'-' ∷ decimal (suc n) (suc n)
