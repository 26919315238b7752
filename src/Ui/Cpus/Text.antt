-- ===== src/Ui/Cpus/Text.antt =====
-- ui/ui.c: the text that handle_cpu_banning saves fits its buffer.
use irqbalance.Prelude.{
  ℕ, pos, ◌+◌, ◌*◌, ◌<◌, ◌≤◌, ◌≡◌, ◌≢◌, sym, true, none, List, [], ◌∷◌, ◌++◌, arith, length,
  length-append, length-take, length-print_ℕ, print_ℤ-pos, lt→ltb, for_each, codes, print_ℤ, ltb,
  subst,
}
use irqbalance.Ui.Window.{print_onto}
use irqbalance.Ui.Cpus.{CpuBan, get_new_cpu_ban_values, cpu_settings}
use irqbalance.Ui.Cpus.Numbered.{IsNumbered}

-- The text of so few CPUs does not fill its buffer.
pub length-get_new :
    (k : ℕ) (c : CpuBan) (text : List ℕ)
    → c.number ≡ pos k
    → k < 1000
    → length (get_new_cpu_ban_values c text) ≤ length text + 4
unfolding get_new_cpu_ban_values
length-get_new k c text e h =
    let word = print_ℤ c.number ++ 44 ∷ [] in
    let size : length (print_ℤ c.number) ≤ 3 =
      subst (λ z. length (print_ℤ z) ≤ 3) (sym e)
        (subst (λ t. length t ≤ 3) (sym (print_ℤ-pos k)) (length-print_ℕ 2 k (omega arith))) in
    let room : length (print_onto text word) ≤ length text + 4 = omega (
      arith,
      length-take 1023 (text ++ word),
      length-append text word,
      length-append (print_ℤ c.number) (44 ∷ []),
      size,
    ) in
    ground arith

pub length-settings :
    (k : ℕ) (cpus : List CpuBan) (text : List ℕ)
    → IsNumbered k cpus
    → k + length cpus ≤ 1000
    → length (for_each get_new_cpu_ban_values cpus text) ≤ length text + 4 * length cpus
length-settings k [] text h l = omega arith
length-settings k (c ∷ cpus) text h l =
    let next = get_new_cpu_ban_values c text in
    omega (
      arith,
      length-settings (k + 1) cpus next h.1 (omega arith),
      length-get_new k c text h.0 (omega arith),
    )

pub settings_fit :
    (cpus : List CpuBan) → IsNumbered 0 cpus → length cpus ≤ 250 → cpu_settings cpus ≢ none
unfolding cpu_settings
settings_fit cpus h b =
    let text = for_each get_new_cpu_ban_values cpus (codes "settings cpus ") in
    let size : length text ≤ 14 + 4 * length cpus =
      length-settings 0 cpus (codes "settings cpus ") h (omega arith) in
    let fits : ltb (length text + 4) 1024 ≡ true = lt→ltb (length text + 4) 1024 (omega arith) in
    rw fits (λ e. absurd cc)
