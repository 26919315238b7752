-- ===== src/Activate/Mapping.antt =====
-- activate.c: activate_mapping and activate_mappings.
use irqbalance.Prelude.{ℕ, Option, none, some, [], if◌then◌else◌}
use irqbalance.Types.{State, balance_none, set_irq}
use irqbalance.Types.Cpumask.{Cpumask}
use irqbalance.Classify.Lookup.{for_each_irq}
use irqbalance.Irqbalance.Rebalance.{force_rebalance_irq}
use irqbalance.Activate.Kernel.{Errno, Kernel, mapping_error, reported, check_affinity}
use irqbalance.Activate.Fallback.{saturate_cpu, settle, try_fallback_cpu}

module _ {M : Type 0} where
  -- Every fallback failed: the interrupt waits for a new placement.
  unfoldable pub give_up : ℕ → State M → State M
  unfolding settle
  give_up info s = settle info (force_rebalance_irq info s)

  -- The interrupt is not balanced any more.
  unfoldable pub unmanage : ℕ → State M → State M
  unfolding settle
  unmanage info s = settle info (set_irq s info (record (s.irq info) { level = balance_none }))

module _ {M : Type 0} ⦃mask : Cpumask M⦄ where
  unfoldable pub place_elsewhere : Kernel M → ℕ → ℕ → State M → State M
  unfolding saturate_cpu give_up
  place_elsewhere k original info s =
      let (placed, s') = try_fallback_cpu k original info (saturate_cpu original s) in
      if placed then s' else give_up info s'

  -- `switch (errsave)`.
  unfoldable pub on_error : Errno → Kernel M → ℕ → ℕ → State M → State M
  unfolding place_elsewhere unmanage
  on_error Errno.eagain k original info s = s
  on_error Errno.ebusy k original info s = s
  on_error Errno.einval k original info s = s
  on_error Errno.erange k original info s = s
  on_error Errno.enomem k original info s = s
  on_error Errno.enospc k original info s = place_elsewhere k original info s
  on_error _ k original info s = unmanage info s

  unfoldable pub after_write : Option Errno → Kernel M → ℕ → ℕ → State M → State M
  unfolding on_error settle
  after_write none k original info s = settle info s
  after_write (some e) k original info s = on_error (reported e) k original info s

  unfoldable pub activate_at : Kernel M → Option ℕ → ℕ → State M → State M
  unfolding after_write settle
  activate_at k none info s = s
  activate_at k (some p) info s =
      let irq = (s.irq info).irq in
      let applied_mask = mask.cpus_and s.cpu_online_map (s.obj p).mask in
      if check_affinity (k.read_mask irq) applied_mask
      then settle info s
      else after_write (mapping_error (k.write_mask irq 0 applied_mask)) k p info s

  unfoldable pub activate_mapping : Kernel M → ℕ → State M → State M
  unfolding activate_at
  activate_mapping k info s =
      if (s.irq info).moved then activate_at k (s.irq info).assigned_obj info s else s

  unfoldable pub activate_mappings : Kernel M → State M → State M
  activate_mappings k s = for_each_irq [] (activate_mapping k) s
