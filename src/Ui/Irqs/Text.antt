-- ===== src/Ui/Irqs/Text.antt =====
-- ui/ui.c: the text that handle_irq_banning sends.
use irqbalance.Prelude.{
  ℕ, ℤ, pos, ◌+◌, ◌*◌, ◌<◌, ◌≤◌, ◌≡◌, ◌≢◌, refl, sym, ap, ◌∙◌, true, none, some, List, [], ◌∷◌,
  ◌++◌, append_assoc, append-nil, arith, length, length-append, take_all, map, concat_map, for_each,
  codes, print_ℕ, print_ℤ, print_ℤ-pos, length-print_ℕ, pos_part, ltb, lt→ltb, if◌then◌else◌,
  all_above, all_above-append, all_above-print,
}
use irqbalance.Ui.Model.{Irq}
use irqbalance.Ui.Irqs.{get_new_irq_ban_values, irq_settings}

-- The numbers of the interrupts are between 1 and 9999.
abbrev pub AllSmall : List Irq → Type 0
AllSmall [] = Unit
AllSmall (irq ∷ irqs) =
    (irq.vector ≡ pos (pos_part irq.vector))
    × (0 < pos_part irq.vector)
    × (pos_part irq.vector < 10000)
    × AllSmall irqs

abbrev pub vectors : List Irq → List ℤ
vectors irqs = map (λ (i : Irq). i.vector) irqs

pub AllSmall-vectors : (xs ys : List Irq) → vectors xs ≡ vectors ys → AllSmall ys → AllSmall xs
AllSmall-vectors [] ys e h = tt
AllSmall-vectors (x ∷ xs) [] e h = absurd cc
AllSmall-vectors (x ∷ xs) (y ∷ ys) e h =
    let same : x.vector ≡ y.vector = cc in rw same (h.0, h.1, h.2, AllSmall-vectors xs ys (cc) h.3)

-- A space and the number, for an interrupt that is banned.
abbrev pub ban_text : Irq → List ℕ
ban_text irq = if irq.is_banned then 32 ∷ print_ℤ irq.vector else []

ban_text_size :
    (irq : Irq)
    → AllSmall (irq ∷ [])
    → (length (ban_text irq) ≤ 5) × (all_above 0 (ban_text irq) ≡ true)
ban_text_size irq h =
    let n = pos_part irq.vector in
    let word : print_ℤ irq.vector ≡ print_ℕ n = ap print_ℤ h.0 ∙ print_ℤ-pos n in
    rw word
      (ground (arith, length-print_ℕ 3 n (omega (arith, h.2)), all_above-print 0 n (omega arith)))

get_new-ban_text :
    (irq : Irq) (text : List ℕ)
    → length (ban_text irq) ≤ 5
    → length text ≤ 1018
    → get_new_irq_ban_values irq text ≡ text ++ ban_text irq
unfolding get_new_irq_ban_values
get_new-ban_text irq text h l =
    let w = 32 ∷ print_ℤ irq.vector in
    ground (arith, take_all 1023 (text ++ w), length-append text w, append-nil text)

-- Nothing is cut from so short a text; `k` interrupts stand in it already.
settings_text :
    (k : ℕ) (irqs : List Irq) (text : List ℕ)
    → AllSmall irqs
    → k + length irqs ≤ 200
    → length text ≤ 18 + 5 * k
    → (for_each get_new_irq_ban_values irqs text ≡ text ++ concat_map ban_text irqs)
      × (length (text ++ concat_map ban_text irqs) ≤ 18 + 5 * (k + length irqs))
      × (all_above 0 (concat_map ban_text irqs) ≡ true)
settings_text k [] text h l s = (sym (append-nil text), rw (append-nil text) (omega arith), refl)
settings_text k (irq ∷ irqs) text h l s =
    let (small, plain) = ban_text_size irq (h.0, h.1, h.2, tt) in
    let one = get_new-ban_text irq text small (omega arith) in
    let size = length-append text (ban_text irq) in
    let (rest, short, above) =
      settings_text (k + 1) irqs (text ++ ban_text irq) h.3 (omega arith) (omega arith) in
    let assoc = append_assoc text (ban_text irq) (concat_map ban_text irqs) in
    (
      ap (for_each get_new_irq_ban_values irqs) one ∙ rest ∙ assoc,
      omega (arith, ap length assoc),
      all_above-append 0 (ban_text irq) (concat_map ban_text irqs) plain above,
    )

pub irq_settings-text :
    (irqs : List Irq)
    → AllSmall irqs
    → length irqs ≤ 200
    → (irq_settings irqs
        ≡ some ((codes "settings ban irqs " ++ concat_map ban_text irqs) ++ codes " NONE"))
      × (length ((codes "settings ban irqs " ++ concat_map ban_text irqs) ++ codes " NONE") < 1024)
      × (all_above 0 (concat_map ban_text irqs) ≡ true)
unfolding irq_settings
irq_settings-text irqs h b =
    let prefix = codes "settings ban irqs " in
    let (whole, short, above) = settings_text 0 irqs prefix h (omega arith) (omega arith) in
    let text = prefix ++ concat_map ban_text irqs in
    let size = length-append text (codes " NONE") in
    let fits : ltb (length text + 5) 1024 ≡ true = lt→ltb (length text + 5) 1024 (omega arith) in
    (rw whole (rw fits refl), omega arith, above)

pub settings_fit : (irqs : List Irq) → AllSmall irqs → length irqs ≤ 200 → irq_settings irqs ≢ none
settings_fit irqs h b = let told = (irq_settings-text irqs h b).0 in rw told (λ e. absurd cc)
