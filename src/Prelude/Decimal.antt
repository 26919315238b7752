-- ===== src/Prelude/Decimal.antt =====
-- printf's %d and %lu, strtol, and strtok_r on spaces: the two ends of the text that the daemon and
-- its user interface exchange.
use Prim.Native.Nat.{ℕ, zero, suc, ◌+◌, ◌-◌, ◌*◌, ◌/◌, ◌%◌, ◌<◌, ◌≤◌}
use mathlib.Core.Path.{◌≡◌, refl, sym, ◌∙◌, ap}
use mathlib.Core.Bool.{Bool, true, false, ◌&&◌, not}
use mathlib.Core.List.{List, [], ◌∷◌, ◌++◌, append_assoc}
use native.Mathlib.Omega.{arith}
use irqbalance.Prelude.Tests.{leb, ◌==◌, if◌then◌else◌}
use irqbalance.Prelude.Int.{ℤ, pos, negsuc, sub_ℕ}
use irqbalance.Prelude.Lists.{length}
use irqbalance.Prelude.Text.{digits, is_digit, skip_spaces, to_int, all_above}

-- The digits of `n` before `out`; the first number is how many are tried.
unfoldable pub emit : ℕ → ℕ → List ℕ → List ℕ
emit zero n out = out
emit (suc f) n out =
    let rest = emit f (n / 10) ((48 + n % 10) ∷ out) in if n == 0 then out else rest

-- `%lu`, and `%d` of what is not negative: 64 bits have 20 digits at most.
unfoldable pub print_ℕ : ℕ → List ℕ
print_ℕ n = if n == 0 then 48 ∷ [] else emit 20 n []

-- `%d`.
unfoldable pub print_ℤ : ℤ → List ℕ
print_ℤ (pos n) = print_ℕ n
print_ℤ (negsuc n) = 45 ∷ print_ℕ (suc n)

pub print_ℤ-pos : (n : ℕ) → print_ℤ (pos n) ≡ print_ℕ n
unfolding print_ℤ
print_ℤ-pos n = refl

abbrev pub long_max : ℕ
long_max = 9223372036854775807

abbrev pub at_most : ℕ → ℕ → ℕ
at_most m n = if leb n m then n else m

unfoldable pub strtol_signed : List ℕ → ℤ
strtol_signed [] = pos 0
strtol_signed (c ∷ cs) =
    if c == 45
    then sub_ℕ 0 (at_most (suc long_max) (digits 0 cs))
    else if c == 43
    then pos (at_most long_max (digits 0 cs))
    else pos (at_most long_max (digits 0 (c ∷ cs)))

-- `strtol(s, NULL, 10)`: LONG_MIN and LONG_MAX for what does not fit.
unfoldable pub strtol : List ℕ → ℤ
unfolding strtol_signed
strtol s = strtol_signed (skip_spaces s)

-- A `long` in a uint64_t, and in an `int`.
abbrev pub word64 : ℤ → ℕ
word64 (pos n) = n % 18446744073709551616
word64 (negsuc n) = 18446744073709551615 - n % 18446744073709551616

abbrev pub narrow : ℤ → ℤ
narrow z = to_int (word64 z)

-- The word that a text begins with, and the words after it, as strtok_r(_, " ", _) finds them.
abbrev pub flush : List ℕ → List (List ℕ) → List (List ℕ)
flush [] ts = ts
flush (c ∷ w) ts = (c ∷ w) ∷ ts

unfoldable pub split_words : List ℕ → List ℕ × List (List ℕ)
split_words [] = ([], [])
split_words (c ∷ cs) =
    let rest = split_words cs in if c == 32 then ([], flush rest.0 rest.1) else (c ∷ rest.0, rest.1)

unfoldable pub tokens : List ℕ → List (List ℕ)
unfolding split_words
tokens s = let w = split_words s in flush w.0 w.1

-- Words, each with a space after it.
abbrev pub unwords : List (List ℕ) → List ℕ
unwords [] = []
unwords (w ∷ ws) = w ++ 32 ∷ unwords ws

pub unwords-append : (vs ws : List (List ℕ)) → unwords (vs ++ ws) ≡ unwords vs ++ unwords ws
unwords-append [] ws = refl
unwords-append (v ∷ vs) ws =
    ap (λ t. v ++ 32 ∷ t) (unwords-append vs ws)
    ∙ sym (append_assoc v (32 ∷ unwords vs) (unwords ws))

abbrev pub no_space : List ℕ → Bool
no_space [] = true
no_space (c ∷ cs) = not (c == 32) && no_space cs

abbrev pub is_word : List ℕ → Bool
is_word [] = false
is_word (c ∷ cs) = no_space (c ∷ cs)

abbrev pub all_words : List (List ℕ) → Bool
all_words [] = true
all_words (w ∷ ws) = is_word w && all_words ws

pub all_words-append :
    (vs ws : List (List ℕ))
    → all_words vs ≡ true
    → all_words ws ≡ true
    → all_words (vs ++ ws) ≡ true
all_words-append [] ws h k = k
all_words-append (v ∷ vs) ws h k = ground (arith, all_words-append vs ws)

split_words-word :
    (w rest : List ℕ) → no_space w ≡ true → split_words (w ++ 32 ∷ rest) ≡ (w, tokens rest)
unfolding split_words tokens
split_words-word [] rest h = refl
split_words-word (c ∷ cs) rest h = ground (arith, split_words-word cs rest)

-- strtok_r finds the words of a text that puts a space after each.
pub tokens-unwords : (ws : List (List ℕ)) → all_words ws ≡ true → tokens (unwords ws) ≡ ws
unfolding tokens split_words
tokens-unwords [] h = refl
tokens-unwords ([] ∷ ws) h = absurd (ground arith)
tokens-unwords ((c ∷ cs) ∷ ws) h =
    ground (arith, split_words-word (c ∷ cs) (unwords ws), tokens-unwords ws)

split_words-last : (w : List ℕ) → no_space w ≡ true → split_words w ≡ (w, [])
unfolding split_words
split_words-last [] h = refl
split_words-last (c ∷ cs) h = ground (arith, split_words-last cs)

-- The same of a text that ends with a word.
pub tokens-last :
    (ws : List (List ℕ)) (w : List ℕ)
    → all_words ws ≡ true
    → is_word w ≡ true
    → tokens (unwords ws ++ w) ≡ ws ++ w ∷ []
unfolding tokens split_words
tokens-last [] [] h k = absurd cc
tokens-last [] (c ∷ cs) h k = ground (arith, split_words-last (c ∷ cs))
tokens-last ([] ∷ ws) w h k = absurd (ground arith)
tokens-last ((c ∷ cs) ∷ ws) w h k =
    rw (append_assoc cs (32 ∷ unwords ws) w)
      (ground (arith, split_words-word (c ∷ cs) (unwords ws ++ w), tokens-last ws w))

abbrev pub pow10 : ℕ → ℕ
pow10 zero = 1
pow10 (suc f) = 10 * pow10 f

digits-emit : (f n : ℕ) (out : List ℕ) → n < pow10 f → digits 0 (emit f n out) ≡ digits n out
unfolding emit
digits-emit zero n out h = let e : n ≡ 0 = omega arith in rw e refl
digits-emit (suc f) n out h =
    let down = digits-emit f (n / 10) ((48 + n % 10) ∷ out) (omega arith) in ground (arith, down)

length-emit : (f k n : ℕ) (out : List ℕ) → n < pow10 k → length (emit f n out) ≤ k + length out
unfolding emit
length-emit zero k n out h = omega arith
length-emit (suc f) zero n out h = let e : n ≡ 0 = omega arith in rw e (omega arith)
length-emit (suc f) (suc k) n out h =
    ground (arith, length-emit f k (n / 10) ((48 + n % 10) ∷ out) (omega arith))

-- A number below a power of ten has no more digits than the power.
pub length-print_ℕ : (k n : ℕ) → n < pow10 (suc k) → length (print_ℕ n) ≤ suc k
unfolding print_ℕ
length-print_ℕ k n h = ground (arith, length-emit 20 (suc k) n [] h)

abbrev pub all_digits : List ℕ → Bool
all_digits [] = true
all_digits (c ∷ cs) = is_digit c && all_digits cs

all_digits-emit :
    (f n : ℕ) (out : List ℕ) → all_digits out ≡ true → all_digits (emit f n out) ≡ true
unfolding emit
all_digits-emit zero n out h = h
all_digits-emit (suc f) n out h = ground (arith, all_digits-emit f (n / 10) ((48 + n % 10) ∷ out))

pub all_digits-print : (n : ℕ) → all_digits (print_ℕ n) ≡ true
unfolding print_ℕ
all_digits-print n = ground (arith, all_digits-emit 20 n [])

pub all_above-digits : (b : ℕ) (w : List ℕ) → b < 48 → all_digits w ≡ true → all_above b w ≡ true
all_above-digits b [] l h = refl
all_above-digits b (c ∷ cs) l h = ground (arith, all_above-digits b cs)

-- A printed number has no blanks and no zero byte.
pub all_above-print : (b n : ℕ) → b < 48 → all_above b (print_ℕ n) ≡ true
all_above-print b n l = all_above-digits b (print_ℕ n) l (all_digits-print n)

pub digits-print : (n : ℕ) → n < 100000000000000000000 → digits 0 (print_ℕ n) ≡ n
unfolding print_ℕ
digits-print n h = ground (arith, digits-emit 20 n [] h)

pub strtol-digits :
    (w : List ℕ) → all_digits w ≡ true → strtol w ≡ pos (at_most long_max (digits 0 w))
unfolding strtol strtol_signed
strtol-digits [] h = refl
strtol-digits (c ∷ cs) h = ground arith

no_space-digits : (w : List ℕ) → all_digits w ≡ true → no_space w ≡ true
no_space-digits [] h = refl
no_space-digits (c ∷ cs) h = ground (arith, no_space-digits cs)

is_word-emit : (f n : ℕ) (out : List ℕ) → is_word out ≡ true → is_word (emit f n out) ≡ true
unfolding emit
is_word-emit zero n out h = h
is_word-emit (suc f) n [] h = absurd (ground arith)
is_word-emit (suc f) n (c ∷ cs) h = ground (arith, is_word-emit f (n / 10) ((48 + n % 10) ∷ c ∷ cs))

is_word-emit_pos : (f n : ℕ) → 0 < n → is_word (emit (suc f) n []) ≡ true
unfolding emit
is_word-emit_pos f n h = ground (arith, is_word-emit f (n / 10) ((48 + n % 10) ∷ []))

pub is_word-print_ℕ : (n : ℕ) → is_word (print_ℕ n) ≡ true
unfolding print_ℕ
is_word-print_ℕ n = ground (arith, is_word-emit_pos 19 n)

-- strtol reads back what %lu prints, up to LONG_MAX.
pub strtol-print_ℕ : (n : ℕ) → n ≤ long_max → strtol (print_ℕ n) ≡ pos n
strtol-print_ℕ n h = ground (arith, strtol-digits (print_ℕ n) (all_digits-print n), digits-print n)

narrow_pos : (n : ℕ) → narrow (pos n) ≡ pos n → n ≤ long_max
narrow_pos n h = ground arith

narrow_neg : (n : ℕ) → narrow (negsuc n) ≡ negsuc n → n ≤ long_max
narrow_neg n h = ground arith

strtol_minus : (w : List ℕ) → strtol (45 ∷ w) ≡ sub_ℕ 0 (at_most (suc long_max) (digits 0 w))
unfolding strtol strtol_signed
strtol_minus w = refl

-- The same of %d, for what an `int` can hold.
pub strtol-print_ℤ : (z : ℤ) → narrow z ≡ z → strtol (print_ℤ z) ≡ z
unfolding print_ℤ
strtol-print_ℤ (pos n) h = strtol-print_ℕ n (narrow_pos n h)
strtol-print_ℤ (negsuc n) h =
    ground (arith, strtol_minus (print_ℕ (suc n)), digits-print (suc n), narrow_neg n h)

pub is_word-print_ℤ : (z : ℤ) → is_word (print_ℤ z) ≡ true
unfolding print_ℤ
is_word-print_ℤ (pos n) = is_word-print_ℕ n
is_word-print_ℤ (negsuc n) =
    ground (arith, no_space-digits (print_ℕ (suc n)) (all_digits-print (suc n)))
