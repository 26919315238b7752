-- ===== src/Classify/Bans.antt =====
-- classify.c: the interrupts that are not balanced.
use irqbalance.Prelude.{
  ℕ, ℤ, pos, ◌+◌, Bool, false, ◌||◌, Option, none, some, is_some, List, [], ◌∷◌, ◌++◌, find_custom,
  has_substring, if◌then◌else◌,
}
use irqbalance.Types.{State, IrqInfo, balance_none, set_irq}
use irqbalance.Types.Cpumask.{Cpumask}
use irqbalance.Classify.Lookup.{find_irq}

module _ {M : Type 0} ⦃mask : Cpumask M⦄ where
  -- `calloc(1, sizeof(struct irq_info))`, and the number.
  abbrev pub zero_irq : ℤ → IrqInfo M
  zero_irq number = record {
    irq = number;
    class = pos 0;
    type = 0;
    level = balance_none;
    flags = 0;
    numa_node = none;
    cpumask = mask.cpus_clear;
    irq_count = 0;
    last_irq_count = 0;
    load = 0;
    moved = false;
    existing = false;
    assigned_obj = none;
    name = none;
  }

  -- A new entry, at a handle that nothing else has.
  abbrev pub alloc_irq : State M → IrqInfo M → State M
  alloc_irq s info = record (set_irq s s.next_irq info) { next_irq = s.next_irq + 1 }

  abbrev pub banned_irq : ℤ → IrqInfo M
  banned_irq number = record (zero_irq number) { flags = 1 }

  -- The two lists that `add_banned_irq` is called for. One that is there is not added again.
  unfoldable pub add_banned_irq : ℤ → State M → State M
  add_banned_irq number s =
      let t = alloc_irq s (banned_irq number) in
      if is_some (find_irq s number s.banned_irqs)
      then s
      else record t { banned_irqs = s.banned_irqs ++ s.next_irq ∷ [] }

  unfoldable pub add_cl_banned_irq : ℤ → State M → State M
  add_cl_banned_irq number s =
      let t = alloc_irq s (banned_irq number) in
      if is_some (find_irq s number s.cl_banned_irqs)
      then s
      else record t { cl_banned_irqs = s.cl_banned_irqs ++ s.next_irq ∷ [] }

-- `substr_find(a, b)` is 0 when `b` contains `a`; the list's entry is `a`.
abbrev pub substr_find : List ℕ → List ℕ → Bool
substr_find name banned = has_substring name banned

module _ {M : Type 0} where
  unfoldable pub check_for_module_ban : State M → List ℕ → Bool
  check_for_module_ban s name = is_some (find_custom (substr_find name) s.cl_banned_modules)

  unfoldable pub add_cl_banned_module : List ℕ → State M → State M
  unfolding check_for_module_ban
  add_cl_banned_module modname s =
      if check_for_module_ban s modname
      then s
      else record s { cl_banned_modules = s.cl_banned_modules ++ modname ∷ [] }

  -- A text that is there, is not empty, and contains the name of a banned module.
  unfoldable pub is_banned_text : State M → Option (List ℕ) → Bool
  unfolding check_for_module_ban
  is_banned_text s none = false
  is_banned_text s (some []) = false
  is_banned_text s (some (c ∷ cs)) = check_for_module_ban s (c ∷ cs)

  unfoldable pub check_for_irq_ban : State M → IrqInfo M → Option (List ℕ) → Bool
  unfolding is_banned_text
  check_for_irq_ban s irq mod_name =
      is_some (find_irq s irq.irq s.cl_banned_irqs)
      || is_banned_text s mod_name
      || is_banned_text s irq.name
