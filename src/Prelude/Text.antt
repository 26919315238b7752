-- ===== src/Prelude/Text.antt =====
-- The functions of the C library on strings that the code calls. A string is the list of its bytes.
use Prim.Native.Char.{code}
use Prim.Native.String.{String}
use Prim.Native.Nat.{ℕ, ◌+◌, ◌-◌, ◌*◌, ◌^◌, ◌%◌, ◌≤◌}
use mathlib.Core.Path.{◌≡◌, refl}
use native.Mathlib.Omega.{arith}
use mathlib.Core.Bool.{Bool, true, false, ◌&&◌, ◌||◌}
use mathlib.Core.List.{List, [], ◌∷◌, ◌++◌}
use mathlib.Core.Option.{Option, none, some}
use irqbalance.Prelude.Tests.{leb, ltb, ◌==◌, if◌then◌else◌}
use irqbalance.Prelude.Int.{ℤ, pos, sub_ℕ}

-- The bytes of a literal.
abbrev pub codes : String → List ℕ
codes String.[] = []
codes (String.◌∷◌ c s) = code c ∷ codes s

abbrev pub lower : ℕ → ℕ
lower c = if leb 65 c && leb c 90 then c + 32 else c

-- `!strcasecmp(a, b)`.
abbrev pub same_text : List ℕ → List ℕ → Bool
same_text [] [] = true
same_text (a ∷ xs) (b ∷ ys) = lower a == lower b && same_text xs ys
same_text _ _ = false

abbrev pub is_prefix : List ℕ → List ℕ → Bool
is_prefix [] b = true
is_prefix (a ∷ xs) [] = false
is_prefix (a ∷ xs) (b ∷ ys) = a == b && is_prefix xs ys

-- `strstr(text, part) != NULL`.
abbrev pub has_substring : List ℕ → List ℕ → Bool
has_substring [] part = is_prefix part []
has_substring (t ∷ ts) part = is_prefix part (t ∷ ts) || has_substring ts part

abbrev pub before_char : ℕ → List ℕ → List ℕ
before_char c [] = []
before_char c (x ∷ xs) = if x == c then [] else x ∷ before_char c xs

-- Every character is above `b`.
abbrev pub all_above : ℕ → List ℕ → Bool
all_above b [] = true
all_above b (x ∷ xs) = ltb b x && all_above b xs

pub all_above-append :
    (b : ℕ) (xs ys : List ℕ)
    → all_above b xs ≡ true
    → all_above b ys ≡ true
    → all_above b (xs ++ ys) ≡ true
all_above-append b [] ys h k = k
all_above-append b (x ∷ xs) ys h k = ground (arith, all_above-append b xs ys)

pub before_char-above :
    (b c : ℕ) (xs : List ℕ) → c ≤ b → all_above b xs ≡ true → before_char c xs ≡ xs
before_char-above b c [] l h = refl
before_char-above b c (x ∷ xs) l h = ground (arith, before_char-above b c xs)

-- What stands after the first `c`, if there is one: `strchr`.
abbrev pub after_char : ℕ → List ℕ → Option (List ℕ)
after_char c [] = none
after_char c (x ∷ xs) = if x == c then some xs else after_char c xs

abbrev pub is_digit : ℕ → Bool
is_digit c = leb 48 c && leb c 57

abbrev pub digits : ℕ → List ℕ → ℕ
digits acc [] = acc
digits acc (c ∷ cs) = if is_digit c then digits (acc * 10 + (c - 48)) cs else acc

abbrev pub is_space : ℕ → Bool
is_space c = c == 32 || leb 9 c && leb c 13

abbrev pub skip_spaces : List ℕ → List ℕ
skip_spaces [] = []
skip_spaces (c ∷ cs) = if is_space c then skip_spaces cs else c ∷ cs

-- Where strtol and strtoul stop behind a number.
abbrev pub after_digits : List ℕ → List ℕ
after_digits [] = []
after_digits (c ∷ cs) = let rest = after_digits cs in if is_digit c then rest else c ∷ cs

abbrev pub after_sign : List ℕ → List ℕ
after_sign [] = []
after_sign (c ∷ cs) = if c == 45 || c == 43 then after_digits cs else after_digits (c ∷ cs)

-- A digit stands first, or behind a sign.
abbrev pub has_digit : List ℕ → Bool
has_digit [] = false
has_digit (c ∷ []) = is_digit c
has_digit (c ∷ d ∷ cs) = if c == 45 || c == 43 then is_digit d else is_digit c

-- Where there is no number they stop at the start.
abbrev pub after_number : List ℕ → List ℕ
after_number s = if has_digit (skip_spaces s) then after_sign (skip_spaces s) else s

-- `strtoul(s, NULL, 10)`, with ULONG_MAX for what does not fit.
abbrev pub saturated : ℕ → ℕ
saturated n = if ltb n (2 ^ 64) then n else 2 ^ 64 - 1

abbrev pub strtoul_signed : List ℕ → ℕ
strtoul_signed [] = 0
strtoul_signed (c ∷ cs) =
    if c == 45
    then (if ltb (digits 0 cs) (2 ^ 64) then (2 ^ 64 - digits 0 cs) % 2 ^ 64 else 2 ^ 64 - 1)
    else if c == 43
    then saturated (digits 0 cs)
    else saturated (digits 0 (c ∷ cs))

abbrev pub strtoul : List ℕ → ℕ
strtoul s = strtoul_signed (skip_spaces s)

-- The conversion of an unsigned number to `int`.
abbrev pub to_int : ℕ → ℤ
to_int n = let low = n % 2 ^ 32 in if ltb low (2 ^ 31) then pos low else sub_ℕ low (2 ^ 32)
