-- ===== src/Ui/Setup.antt =====
-- ui/irqbalance-ui.c: parse_setup, and hex_to_bitmap of ui/helpers.c.
use irqbalance.Prelude.{
  ℕ, suc, ◌+◌, ◌-◌, ◌/◌, ◌%◌, ◌==◌, leb, Bool, true, ◌&&◌, List, [], ◌∷◌, ◌++◌, if◌then◌else◌,
  codes, is_digit, length, tokens, word64,
}
use irqbalance.Ui.Model.{Irq, Parsed, ok, fault, ◌>>=◌}
use irqbalance.Ui.Parse.{Tokens, read_number, expect, read_irqs}

pub record Setup : Type 0 where
  pub sleep : ℕ
  pub banned_irqs : List Irq
  pub banned_cpus : List ℕ

-- The value of a digit, 0 for what is none.
unfoldable pub hex_digit : ℕ → ℕ
hex_digit c =
    if is_digit c
    then c - 48
    else if leb 97 c && leb c 102
    then c - 97 + 10
    else if leb 65 c && leb c 70
    then c - 65 + 10
    else 0

-- The four characters, the last bit last.
unfoldable pub hex_to_bitmap : ℕ → List Bool
unfolding hex_digit
hex_to_bitmap c =
    let d = hex_digit c in
    (d / 8 % 2 == 1) ∷ (d / 4 % 2 == 1) ∷ (d / 2 % 2 == 1) ∷ (d % 2 == 1) ∷ []

-- `for(j = 3; j >= 0; j--)`: the bits are given from the last to the first.
unfoldable pub ban_bits : ℕ → List Bool → List ℕ → List ℕ × ℕ
ban_bits cpu [] banned = (banned, cpu)
ban_bits cpu (b ∷ bs) banned = ban_bits (cpu + 1) bs (if b then banned ++ cpu ∷ [] else banned)

abbrev pub reverse_onto : List ℕ → List ℕ → List ℕ
reverse_onto [] acc = acc
reverse_onto (c ∷ cs) acc = reverse_onto cs (c ∷ acc)

abbrev pub four_back : List Bool → List Bool
four_back (a ∷ b ∷ c ∷ d ∷ rest) = d ∷ c ∷ b ∷ a ∷ []
four_back bs = bs

-- `for(i = strlen(token) - 1; i >= 0; i--)`, on the token from its end.
unfoldable pub ban_digits : ℕ → List ℕ → List ℕ → List ℕ
unfolding ban_bits hex_to_bitmap
ban_digits cpu [] banned = banned
ban_digits cpu (c ∷ cs) banned =
    let skipped = ban_digits cpu cs banned in
    let r = ban_bits cpu (four_back (hex_to_bitmap c)) banned in
    let rest = ban_digits r.1 cs r.0 in if c == 44 then skipped else rest

unfoldable pub read_banned : Tokens → Parsed (List ℕ)
unfolding ban_digits
read_banned [] = fault
read_banned (t ∷ ts) = ok (ban_digits 0 (reverse_onto t []) [])

unfoldable pub read_setup : Tokens → Parsed Setup
unfolding read_number expect read_irqs read_banned
read_setup ts = do
  rest ← expect (codes "SLEEP") ts
  (sleep, rest) ← read_number rest
  (irqs, rest) ← read_irqs (suc (length ts)) true rest []
  rest ← expect (codes "BANNED") rest
  cpus ← read_banned rest
  ok (record { sleep = word64 sleep; banned_irqs = irqs; banned_cpus = cpus })

-- An empty text changes nothing.
unfoldable pub parse_setup : Setup → List ℕ → Parsed Setup
unfolding read_setup
parse_setup setup [] = ok setup
parse_setup setup (c ∷ cs) = read_setup (tokens (c ∷ cs))
