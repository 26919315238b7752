-- ===== src/Procinterrupts/Lines.antt =====
-- procinterrupts.c: parse_proc_interrupts and collect_full_irq_list, for a machine that is not
-- AARCH64. A line is given by what the C library reads off it.
use irqbalance.Prelude.{
  ℕ, ℤ, pos, ltb, ◌==◌, Bool, true, false, not, ◌&&◌, ◌||◌, Option, none, some, List, [], ◌∷◌,
  length, for_each, has_substring, if◌then◌else◌,
}
use irqbalance.Types.{State, IrqInfo, set_irq}
use irqbalance.Types.Cpumask.{Cpumask}
use irqbalance.Types.Word.{add64}
use irqbalance.Numa.{get_numa_node}
use irqbalance.Classify.Lookup.{get_irq_info}
use irqbalance.Classify.Pci.{irq_other}
use irqbalance.Classify.Bans.{zero_irq}
use irqbalance.Classify.Database.{Sysfs, proc_irq_hotplug}
use irqbalance.Classify.Removal.{clear_no_existing_irqs}

-- Whether the first character that is no blank is a digit; the number before the colon, if there is
-- a colon; the counts after it, up to the first that is not followed by a blank; and the words.
pub record ProcLine : Type 0 where
  pub is_numbered : Bool
  pub number : Option ℤ
  pub counts : List ℕ
  pub first_word : List ℕ
  pub second_word : List ℕ
  pub words : List (List ℕ)

-- "xen-dyn" and "-event".
abbrev pub word_xen_dyn : List ℕ
word_xen_dyn = 120 ∷ 101 ∷ 110 ∷ 45 ∷ 100 ∷ 121 ∷ 110 ∷ []

abbrev pub word_event : List ℕ
word_event = 45 ∷ 101 ∷ 118 ∷ 101 ∷ 110 ∷ 116 ∷ []

-- The last word but one, the last word, and whether a word but the last was one of Xen's.
unfoldable pub scan_words : List ℕ → List ℕ → Bool → List (List ℕ) → List ℕ × List ℕ × Bool
scan_words irq_name last_token is_xen_dyn [] = (irq_name, last_token, is_xen_dyn)
scan_words irq_name last_token is_xen_dyn (p ∷ ps) =
    scan_words last_token p (is_xen_dyn || has_substring last_token word_xen_dyn) ps

module _ {M : Type 0} ⦃mask : Cpumask M⦄ where
  unfoldable pub init_irq_class_and_type : State M → ProcLine → ℤ → IrqInfo M
  unfolding scan_words
  init_irq_class_and_type s l irq =
      let (irq_name, last_token, is_xen_dyn) =
        scan_words l.first_word l.second_word (has_substring l.first_word word_xen_dyn) l.words in
      let is_event = has_substring irq_name word_event && is_xen_dyn in
      record (zero_irq irq) {
        type = if is_event then 3 else 0;
        class = if is_event then pos 7 else irq_other;
        numa_node = get_numa_node s (pos 0);
        name = some last_token;
      }

  -- The interrupts of the whole file, up to the first line without a number.
  unfoldable pub collect_full_irq_list : State M → List ProcLine → List (IrqInfo M)
  unfolding init_irq_class_and_type
  collect_full_irq_list s [] = []
  collect_full_irq_list s (l ∷ ls) =
      let rest = collect_full_irq_list s ls in
      let listed : List (IrqInfo M) = elim l.number [
        | none ↦ rest
        | (some n) ↦ init_irq_class_and_type s l n ∷ rest
      ] in
      if l.is_numbered then listed else []

abbrev pub sum64 : List ℕ → ℕ
sum64 counts = for_each (λ c acc. add64 acc c) counts 0

module _ {M : Type 0} where
  abbrev pub rescan : State M → State M
  rescan s = record s { need_rescan = true }

module _ {M : Type 0} ⦃mask : Cpumask M⦄ where
  -- The counters of an interrupt, from its line: whether the loop goes on, and the state.
  unfoldable pub update_counts : List ℕ → ℕ → State M → Bool × State M
  update_counts counts info s =
      let t = set_irq s info (record (s.irq info) { existing = true }) in
      let total = sum64 counts in
      if not (length counts == mask.cpus_weight s.cpu_online_map)
      then (false, rescan t)
      else if ltb total (s.irq info).irq_count
      then (false, rescan t)
      else (
        true,
        set_irq t info
            (record (t.irq info) { last_irq_count = (t.irq info).irq_count; irq_count = total }),
      )

  -- A line that has a number: an interrupt that is not known is added first. A hotplug that succeeds
  -- leaves it known; the code follows its pointer.
  unfoldable pub update_irq : Sysfs M → ProcLine → ℤ → State M → Bool × State M
  unfolding update_counts
  update_irq sys l number s = elim (get_irq_info s number) [
    | (some info) ↦ update_counts l.counts info s
    | none ↦
        let r = proc_irq_hotplug sys (init_irq_class_and_type s l number) number s in
        if r.0 then found (get_irq_info r.1 number) r.1 else (false, rescan r.1)
  ]
    where
      found : Option ℕ → State M → Bool × State M
      found none t = (false, record t { fault = true })
      found (some info) t = update_counts l.counts info t

  unfoldable pub parse_line : Sysfs M → ProcLine → State M → Bool × State M
  unfolding update_irq
  parse_line sys l s =
      if l.is_numbered
      then elim l.number [ none ↦ (true, s) | (some n) ↦ update_irq sys l n s ]
      else (false, s)

  unfoldable pub parse_lines : Sysfs M → List ProcLine → State M → State M
  unfolding parse_line
  parse_lines sys [] s = s
  parse_lines sys (l ∷ ls) s =
      let r = parse_line sys l s in let rest = parse_lines sys ls r.1 in if r.0 then rest else r.1

  -- `none` is a file that cannot be read; the list is what follows the header.
  unfoldable pub parse_proc_interrupts : Sysfs M → Option (List ProcLine) → State M → State M
  unfolding parse_lines
  parse_proc_interrupts sys none s = s
  parse_proc_interrupts sys (some ls) s =
      let t = parse_lines sys ls s in if t.need_rescan then t else clear_no_existing_irqs t
