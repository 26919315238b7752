-- ===== src/Classify/Removal.antt =====
-- classify.c: interrupts that /proc/interrupts does not show any more are taken out.
use irqbalance.Prelude.{
  ℕ, false, Option, none, some, List, [], delete_custom, is_some, for_each, if◌then◌else◌,
}
use irqbalance.Types.{State, set_irq, set_obj, int_max}
use irqbalance.Classify.Lookup.{same_irq, find_irq, for_each_irq}

module _ {M : Type 0} where
  -- The link that `compare_ints` finds for the interrupt, deleted.
  abbrev pub unlink : State M → ℕ → List ℕ → List ℕ
  unlink s info l = delete_custom (same_irq s (s.irq info).irq) l

  -- The slots of an object that lost its interrupt are probed again.
  unfoldable pub unlink_at : State M → Option ℕ → ℕ → State M
  unlink_at s none info = s
  unlink_at s (some p) info =
      if is_some (find_irq s (s.irq info).irq (s.obj p).interrupts)
      then set_obj s p (record (s.obj p) {
        interrupts = unlink s info (s.obj p).interrupts;
        slots_left = int_max;
      })
      else s

  unfoldable pub remove_irq : ℕ → State M → State M
  remove_irq info s =
      let t = record s {
        interrupts_db = unlink s info s.interrupts_db;
        banned_irqs = unlink s info s.banned_irqs;
        rebalance_irq_list = unlink s info s.rebalance_irq_list;
      } in
      unlink_at t (s.irq info).assigned_obj info

  unfoldable pub remove_no_existing_irq : ℕ → State M → State M
  unfolding remove_irq
  remove_no_existing_irq info s =
      if (s.irq info).existing
      then set_irq s info (record (s.irq info) { existing = false })
      else remove_irq info s

  -- An empty ban list is not walked: for_each_irq would take it for the database.
  unfoldable pub clear_no_existing_irqs : State M → State M
  clear_no_existing_irqs s =
      let t = for_each_irq [] remove_no_existing_irq s in
      for_each remove_no_existing_irq t.banned_irqs t
