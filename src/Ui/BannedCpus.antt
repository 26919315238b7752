-- ===== src/Ui/BannedCpus.antt =====
-- ui/irqbalance-ui.c: the banned CPUs of parse_setup against the number that the digits stand for.
use irqbalance.Prelude.{
  ℕ, zero, suc, ◌+◌, ◌-◌, ◌*◌, ◌/◌, ◌%◌, ◌<◌, ◌≡◌, refl, sym, ap, ◌∙◌, ◌==◌, ==_refl, leb, ltb,
  ◌&&◌, Bool, true, false, List, [], ◌∷◌, ◌++◌, codes, arith, bit, count, count-append,
  if◌then◌else◌, Bool-cases, inl, inr, subst,
}
use irqbalance.Ui.Setup.{hex_digit, hex_to_bitmap, ban_bits, four_back, ban_digits}

-- The place of the character in the text, counted from `n` on, and 0 for one that is not there.
abbrev pub place_in : List ℕ → ℕ → ℕ → ℕ
place_in [] n c = 0
place_in (x ∷ xs) n c = let rest = place_in xs (n + 1) c in if c == x then n else rest

-- A digit stands for its place among the sixteen; the last six have a second form.
abbrev pub digit_value : ℕ → ℕ
digit_value c = place_in (codes "0123456789abcdef") 0 c + place_in (codes "ABCDEF") 10 c

-- The number that a list of hexadecimal digits and commas stands for, the last digit first.
abbrev pub hex_value : List ℕ → ℕ
hex_value [] = 0
hex_value (c ∷ cs) = let rest = hex_value cs in if c == 44 then rest else digit_value c + 16 * rest

abbrev pub test_bit : ℕ → ℕ → Bool
test_bit n zero = n % 2 == 1
test_bit n (suc k) = test_bit (n / 2) k

abbrev nth : List Bool → ℕ → Bool
nth [] k = false
nth (b ∷ bs) zero = b
nth (b ∷ bs) (suc k) = nth bs k

all_bits : List ℕ → List Bool
all_bits [] = []
all_bits (c ∷ cs) =
    let rest = all_bits cs in if c == 44 then rest else four_back (hex_to_bitmap c) ++ rest

ban_bits-append :
    (xs bs : List Bool) (cpu : ℕ) (banned : List ℕ)
    → let r = ban_bits cpu xs banned in ban_bits cpu (xs ++ bs) banned ≡ ban_bits r.1 bs r.0
unfolding ban_bits
ban_bits-append [] bs cpu banned = refl
ban_bits-append (a ∷ xs) bs cpu banned =
    ban_bits-append xs bs (cpu + 1) (if a then banned ++ cpu ∷ [] else banned)

ban_digits-bits :
    (cs : List ℕ) (cpu : ℕ) (banned : List ℕ)
    → ban_digits cpu cs banned ≡ (ban_bits cpu (all_bits cs) banned).0
unfolding ban_digits all_bits
ban_digits-bits [] cpu banned = refl
ban_digits-bits (c ∷ cs) cpu banned =
    let four = four_back (hex_to_bitmap c) in
    let r = ban_bits cpu four banned in
    let P = λ (b : Bool).
      (if b then ban_digits cpu cs banned else ban_digits r.1 cs r.0)
      ≡ (ban_bits cpu (if b then all_bits cs else four ++ all_bits cs) banned).0 in
    elim (Bool-cases (c == 44)) [
      | inl e ↦ subst P (sym e) (ban_digits-bits cs cpu banned)
      | inr e ↦ subst P (sym e) (
          ban_digits-bits cs r.1 r.0
          ∙ ap (λ (x : List ℕ × ℕ). x.0) (sym (ban_bits-append four (all_bits cs) cpu banned)))
    ]

ban_bits-below :
    (bs : List Bool) (cpu k : ℕ) (banned : List ℕ)
    → k < cpu
    → count k (ban_bits cpu bs banned).0 ≡ count k banned
unfolding ban_bits
ban_bits-below [] cpu k banned h = refl
ban_bits-below (true ∷ bs) cpu k banned h =
    ban_bits-below bs (cpu + 1) k (banned ++ cpu ∷ []) (omega arith)
    ∙ ground (arith, count-append k banned (cpu ∷ []))
ban_bits-below (false ∷ bs) cpu k banned h = ban_bits-below bs (cpu + 1) k banned (omega arith)

ban_bits-count :
    (bs : List Bool) (cpu j : ℕ) (banned : List ℕ)
    → count (cpu + j) (ban_bits cpu bs banned).0 ≡ count (cpu + j) banned + bit (nth bs j)
unfolding ban_bits
ban_bits-count [] cpu j banned = omega arith
ban_bits-count (b ∷ bs) cpu zero banned = ground (
  arith,
  ban_bits-below bs (cpu + 1) cpu banned,
  ban_bits-below bs (cpu + 1) cpu (banned ++ cpu ∷ []),
  count-append cpu banned (cpu ∷ []),
  ==_refl cpu,
)
ban_bits-count (b ∷ bs) cpu (suc j) banned =
    let next : cpu + suc j ≡ cpu + 1 + j = omega arith in
    rw next (
      ground (
        arith,
        ban_bits-count bs (cpu + 1) j banned,
        ban_bits-count bs (cpu + 1) j (banned ++ cpu ∷ []),
        count-append (cpu + 1 + j) banned (cpu ∷ []),
      ))

digit-test_bit :
    (d v : ℕ) (bs : List Bool)
    → d < 16
    → ((k : ℕ) → nth bs k ≡ test_bit v k)
    → (k : ℕ)
    → nth ((d % 2 == 1) ∷ (d / 2 % 2 == 1) ∷ (d / 4 % 2 == 1) ∷ (d / 8 % 2 == 1) ∷ bs) k
      ≡ test_bit (d + 16 * v) k
digit-test_bit d v bs h t zero = ap (λ n. n == 1) (omega arith)
digit-test_bit d v bs h t (suc zero) = ap (λ n. n == 1) (omega arith)
digit-test_bit d v bs h t (suc (suc zero)) = ap (λ n. n == 1) (omega arith)
digit-test_bit d v bs h t (suc (suc (suc zero))) = ap (λ n. n == 1) (omega arith)
digit-test_bit d v bs h t (suc (suc (suc (suc k)))) =
    let e : (d + 16 * v) / 2 / 2 / 2 / 2 ≡ v = omega arith in t k ∙ ap (λ n. test_bit n k) (sym e)

up_from : ℕ → ℕ → List ℕ
up_from a zero = []
up_from a (suc k) = a ∷ up_from (a + 1) k

-- Characters that follow one another.
place_in-run :
    (k a n c : ℕ) (xs : List ℕ)
    → place_in (up_from a k ++ xs) n c
      ≡ (if leb a c && ltb c (a + k) then n + (c - a) else place_in xs (n + k) c)
unfolding up_from
place_in-run zero a n c xs =
    let none_there : (leb a c && ltb c (a + 0)) ≡ false = ground arith in
    rw none_there (ap (λ m. place_in xs m c) (omega arith))
place_in-run (suc k) a n c xs =
    let next : n + 1 + k ≡ n + suc k = omega arith in
    let ih =
      place_in-run k (a + 1) (n + 1) c xs
      ∙ ap
          (λ m.
            if leb (a + 1) c && ltb c (a + 1 + k) then n + 1 + (c - (a + 1)) else place_in xs m c)
          next in
    ground (arith, ih)

-- The value of a digit by the ranges of the characters.
abbrev small_value : ℕ → ℕ
small_value c =
    if leb 48 c && ltb c 58
    then 0 + (c - 48)
    else if leb 97 c && ltb c 103
    then 10 + (c - 97)
    else 0

abbrev capital_value : ℕ → ℕ
capital_value c = if leb 65 c && ltb c 71 then 10 + (c - 65) else 0

by_ranges : (c : ℕ) → hex_digit c ≡ small_value c + capital_value c
unfolding hex_digit
by_ranges c = ground arith

small_places : (c : ℕ) → place_in (codes "0123456789abcdef") 0 c ≡ small_value c
unfolding up_from
small_places c =
    place_in-run 10 48 0 c (up_from 97 6)
    ∙ ap (λ r. if leb 48 c && ltb c 58 then 0 + (c - 48) else r) (place_in-run 6 97 10 c [])

hex_digit-digit_value : (c : ℕ) → hex_digit c ≡ digit_value c
unfolding up_from
hex_digit-digit_value c =
    by_ranges c
    ∙ ap (λ v. v + capital_value c) (sym (small_places c))
    ∙ ap (λ v. place_in (codes "0123456789abcdef") 0 c + v) (sym (place_in-run 6 65 10 c []))

hex_digit_lt : (c : ℕ) → hex_digit c < 16
unfolding hex_digit
hex_digit_lt c = ground arith

nth-all_bits : (cs : List ℕ) (k : ℕ) → nth (all_bits cs) k ≡ test_bit (hex_value cs) k
unfolding all_bits hex_to_bitmap
nth-all_bits [] k = no_bit k
  where
    no_bit : (k : ℕ) → false ≡ test_bit 0 k
    no_bit zero = refl
    no_bit (suc k) = no_bit k
nth-all_bits (c ∷ cs) k =
    let d = hex_digit c in
    let four = four_back (hex_to_bitmap c) ++ all_bits cs in
    let P = λ (b : Bool).
      nth (if b then all_bits cs else four) k
      ≡ test_bit (if b then hex_value cs else digit_value c + 16 * hex_value cs) k in
    elim (Bool-cases (c == 44)) [
      | inl e ↦ subst P (sym e) (nth-all_bits cs k)
      | inr e ↦ subst P (sym e) (
          digit-test_bit d (hex_value cs) (all_bits cs) (hex_digit_lt c) (nth-all_bits cs) k
          ∙ ap (λ v. test_bit (v + 16 * hex_value cs) k) (hex_digit-digit_value c))
    ]

-- The list of the banned CPUs holds a CPU once if its bit is set in the number that the daemon
-- printed in hexadecimal, each digit standing for its place among 0123456789abcdef, whatever commas
-- stand in it, and otherwise not at all.
pub ban_digits-test_bit :
    (cs : List ℕ) (k : ℕ) → count k (ban_digits 0 cs []) ≡ bit (test_bit (hex_value cs) k)
ban_digits-test_bit cs k =
    let place : 0 + k ≡ k = omega arith in
    ap (λ l. count k l) (ban_digits-bits cs 0 [])
    ∙ subst (λ j. count j (ban_bits 0 (all_bits cs) []).0 ≡ bit (nth (all_bits cs) k)) place
        (ban_bits-count (all_bits cs) 0 k [] ∙ omega arith)
    ∙ ap bit (nth-all_bits cs k)
