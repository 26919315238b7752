-- ===== src/Ui/Cpus/Words.antt =====
-- ui/ui.c: the words of the text that handle_cpu_banning saves.
use irqbalance.Prelude.{
  ℕ, pos, ◌+◌, ◌*◌, ◌<◌, ◌≤◌, ◌≡◌, refl, sym, ap, ◌∙◌, Bool, true, false, ◌||◌, List, [], ◌∷◌, ◌++◌,
  append_assoc, append-nil, arith, length, length-append, take_all, for_each, print_ℕ, print_ℤ,
  print_ℤ-pos, length-print_ℕ, all_above, all_above-append, all_above-print, if◌then◌else◌,
  Bool-cases, inl, inr, concat_map, all_digits, all_digits-print, is_word, is_word-print_ℕ,
}
use irqbalance.Numa.Build.{digit_first}
use irqbalance.Ui.Cpus.{CpuBan, get_new_cpu_ban_values}
use irqbalance.Ui.Cpus.Numbered.{IsNumbered}

-- The banned numbers, a comma after each.
abbrev pub ban_text : CpuBan → List ℕ
ban_text c = if c.is_banned then print_ℤ c.number ++ 44 ∷ [] else []

abbrev pub any_banned : List CpuBan → Bool
any_banned [] = false
any_banned (c ∷ cpus) = c.is_banned || any_banned cpus

-- The word of a ban has at most four characters, and no blank.
pub ban_text_size :
    (k : ℕ) (c : CpuBan)
    → c.number ≡ pos k
    → k < 1000
    → (length (ban_text c) ≤ 4) × (all_above 32 (ban_text c) ≡ true)
ban_text_size k c e h =
    let word : print_ℤ c.number ≡ print_ℕ k = ap print_ℤ e ∙ print_ℤ-pos k in
    rw word (
      ground (
        arith,
        length-print_ℕ 2 k (omega arith),
        length-append (print_ℕ k) (44 ∷ []),
        all_above-append 32 (print_ℕ k) (44 ∷ []),
        all_above-print 32 k (omega arith),
      ))

pub get_new-ban_text :
    (c : CpuBan) (text : List ℕ)
    → length (ban_text c) ≤ 4
    → length text ≤ 1019
    → get_new_cpu_ban_values c text ≡ text ++ ban_text c
unfolding get_new_cpu_ban_values
get_new-ban_text c text h l =
    let w = print_ℤ c.number ++ 44 ∷ [] in
    ground (arith, take_all 1023 (text ++ w), length-append text w, append-nil text)

-- Nothing is cut from so short a text.
pub settings_text :
    (k : ℕ) (cpus : List CpuBan) (text : List ℕ)
    → IsNumbered k cpus
    → k + length cpus ≤ 250
    → length text ≤ 14 + 4 * k
    → (for_each get_new_cpu_ban_values cpus text ≡ text ++ concat_map ban_text cpus)
      × (all_above 32 (concat_map ban_text cpus) ≡ true)
settings_text k [] text h l s = (sym (append-nil text), refl)
settings_text k (c ∷ cpus) text h l s =
    let (small, plain) = ban_text_size k c h.0 (omega arith) in
    let one = get_new-ban_text c text small (omega arith) in
    let size = length-append text (ban_text c) in
    let (rest, above) =
      settings_text (k + 1) cpus (text ++ ban_text c) h.1 (omega arith) (omega arith) in
    (
      ap (for_each get_new_cpu_ban_values cpus) one
          ∙ rest
          ∙ append_assoc text (ban_text c) (concat_map ban_text cpus),
      all_above-append 32 (ban_text c) (concat_map ban_text cpus) plain above,
    )

pub digit_first-append : (xs ys : List ℕ) → digit_first xs ≡ true → digit_first (xs ++ ys) ≡ true
digit_first-append [] ys h = absurd cc
digit_first-append (x ∷ xs) ys h = h

pub digit_first-word : (w : List ℕ) → all_digits w ≡ true → is_word w ≡ true → digit_first w ≡ true
digit_first-word [] h k = absurd cc
digit_first-word (c ∷ cs) h k = ground arith

pub digit_first-ban_text :
    (k : ℕ) (c : CpuBan) → c.number ≡ pos k → c.is_banned ≡ true → digit_first (ban_text c) ≡ true
digit_first-ban_text k c e b =
    let word : print_ℤ c.number ≡ print_ℕ k = ap print_ℤ e ∙ print_ℤ-pos k in
    let d = digit_first-word (print_ℕ k) (all_digits-print k) (is_word-print_ℕ k) in
    rw b (rw word (digit_first-append (print_ℕ k) (44 ∷ []) d))

-- A list with a ban begins with a digit, and one without is empty.
pub ban_text_cases :
    (k : ℕ) (cpus : List CpuBan)
    → IsNumbered k cpus
    → (any_banned cpus ≡ true → digit_first (concat_map ban_text cpus) ≡ true)
      × (any_banned cpus ≡ false → concat_map ban_text cpus ≡ [])
ban_text_cases k [] h = (λ e. absurd cc, λ e. refl)
ban_text_cases k (c ∷ cpus) h =
    let rest = ban_text_cases (k + 1) cpus h.1 in
    elim (Bool-cases c.is_banned) [
      | inl b ↦ (
        λ e.
            digit_first-append (ban_text c) (concat_map ban_text cpus)
              (digit_first-ban_text k c h.0 b),
        λ e. absurd (ground arith),
      )
      | inr b ↦ rw b rest
    ]
