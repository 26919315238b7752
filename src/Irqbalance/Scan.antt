-- ===== src/Irqbalance/Scan.antt =====
-- irqbalance.c: the part of `scan` that balances, for a machine whose topology did not change.
use irqbalance.Prelude.{ℕ, ◌==◌, Option, List, if_cases, if◌then◌else◌, arith, refl}
use irqbalance.Types.{State}
use irqbalance.Types.Word.{add64}
use irqbalance.Types.Cpumask.{Cpumask}
use irqbalance.Types.Glist.{Glist}
use irqbalance.Types.Floating.{Floating}
use irqbalance.Types.Invariant.{IsPlaced, SameListing}
use irqbalance.Irqlist.Kept.{Kept, Kept-refl, Kept-trans, SameListing-Kept}
use irqbalance.Irqlist.Balance.{update_migration_status}
use irqbalance.Irqlist.Balance.Keeps.{update_migration_status-Kept}
use irqbalance.Placement.Place.{calculate_placement}
use irqbalance.Placement.Keeps.{calculate_placement-Kept}
use irqbalance.Activate.Kernel.{Kernel}
use irqbalance.Activate.Mapping.{activate_mappings}
use irqbalance.Activate.Written.{activate_mappings-KeptAll}
use irqbalance.Procinterrupts.Load.{StatLine, parse_proc_stat}
use irqbalance.Procinterrupts.Keeps.{parse_proc_stat-SameListing}

module _ {M F : Type 0} ⦃mask : Cpumask M⦄ (g : Glist) (f : Floating F) where
  -- In the first cycle there is no load yet to balance by.
  unfoldable pub migrate_loads : State M → State M
  migrate_loads s = if s.cycle_count == 0 then s else update_migration_status g f s

  -- `cycle_count++`
  unfoldable pub next_cycle : State M → State M
  next_cycle s = record s { cycle_count = add64 s.cycle_count 1 }

  unfoldable pub balance : (ℕ → ℕ) → Option (List StatLine) → Kernel M → State M → State M
  unfolding migrate_loads next_cycle
  balance to_ns stat kernel s = next_cycle (
      activate_mappings kernel
        (calculate_placement g (migrate_loads (parse_proc_stat to_ns stat s))))

  next_cycle-SameListing : (s : State M) → SameListing s (next_cycle s)
  unfolding next_cycle
  next_cycle-SameListing s = record {
    lists = λ l i. ground arith;
    assigned = λ i. refl;
    numbers = λ i. refl;
    db = refl;
  }

  migrate_loads-Kept : (s : State M) → IsPlaced s → Kept s (migrate_loads s)
  unfolding migrate_loads
  migrate_loads-Kept s v =
      if_cases (Kept s) _ (Kept-refl s v) (update_migration_status-Kept g f s v)

  -- From a state in which every listed interrupt is where it says, a whole cycle, from the reading
  -- of the loads to the writing of the masks, whatever the kernel answers, keeps every interrupt
  -- listed exactly once, at the place that its `assigned_obj` names, and loses none that was
  -- listed.
  pub balance-Kept :
      (to_ns : ℕ → ℕ) (stat : Option (List StatLine)) (kernel : Kernel M) (s : State M)
      → IsPlaced s
      → Kept s (balance to_ns stat kernel s)
  unfolding balance
  balance-Kept to_ns stat kernel s v =
      let k₁ = SameListing-Kept (parse_proc_stat-SameListing to_ns stat s) v in
      let s₁ = parse_proc_stat to_ns stat s in
      let k₂ = migrate_loads-Kept s₁ k₁.placed in
      let s₂ = migrate_loads s₁ in
      let k₃ = calculate_placement-Kept g s₂ k₂.placed in
      let s₃ = calculate_placement g s₂ in
      let k₄ = (activate_mappings-KeptAll kernel s₃ k₃.placed).kept in
      let k₅ = SameListing-Kept (next_cycle-SameListing (activate_mappings kernel s₃)) k₄.placed in
      Kept-trans k₁ (Kept-trans k₂ (Kept-trans k₃ (Kept-trans k₄ k₅)))
