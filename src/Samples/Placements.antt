-- ===== src/Samples/Placements.antt =====
-- The placement on the machine of two CPUs: runs of it, and the theorems about it applied to it.
use irqbalance.Prelude.{ℕ, ◌+◌, ◌<◌, ◌≡◌, ◌≢◌, refl, true, false, none, some, [], ◌∷◌, arith, count}
use irqbalance.Types.{State, balance_none}
use irqbalance.Types.Places.{irqs_at}
use irqbalance.Types.Invariant.{IsPlaced-IsNumbered, IsPlaced, SameListing}
use irqbalance.Classify.Lookup.{get_irq_info, same_irq, find_irq, for_each_irq}
use irqbalance.Classify.Migrate.{migrate_irq}
use irqbalance.Classify.Sort.{sort_irqs, sort_irq_list, sort_irq_list-IsRanked, IsRanked}
use irqbalance.Irqlist.Migrate.{migrate_irq_obj, count-migrate_irq_obj}
use irqbalance.Irqbalance.Rebalance.{force_rebalance_irq, force_rebalance_irq_lem}
use irqbalance.Placement.Best.{
  slots_penalty, best_adjusted_cost, tie_break, skip_object, find_best_object, best_among,
}
use irqbalance.Placement.Choice.{best_among-some}
use irqbalance.Placement.Hosts.{CanHost, AsGood}
use irqbalance.Placement.Place.{
  stops_at, migrate_to_best, find_best_object_for_irq, place_irq_in_object, find_placement,
  place_irq_near, place_irq_by_node, place_irq_in_node, place_all, calculate_placement,
  validate_object_tree_placement,
}
use irqbalance.Placement.Outcome.{
  validate-calculate_placement, place_irq_in_node_cases, is_pinned, has_home, IsAt, IsAtBestNode,
}
use irqbalance.Samples.Masks.{Mask, two_cpus}
use irqbalance.Samples.Sorting.{sorting, insertion_sort}
use irqbalance.Samples.Machine.{machine, machine-IsPlaced}

program : Unit {0}
unfolding calculate_placement place_all place_irq_in_node place_irq_by_node place_irq_near
    find_placement place_irq_in_object find_best_object_for_irq migrate_to_best stops_at best_among
    find_best_object skip_object tie_break best_adjusted_cost slots_penalty migrate_irq_obj
    migrate_irq find_irq same_irq for_each_irq sort_irq_list sort_irqs insertion_sort get_irq_info
    force_rebalance_irq
program = tt

-- Interrupt 0 goes to the node, and from there to CPU 1, which has no interrupt yet.
calculate_placement-machine :
    (((calculate_placement sorting machine).irq 0).assigned_obj ≡ some 2)
    × ((calculate_placement sorting machine).rebalance_irq_list ≡ [])
unfolding program
calculate_placement-machine = (refl, refl)

best_among-machine : (best_among machine (1 ∷ 2 ∷ [])).best ≡ some 2
unfolding program
best_among-machine = refl

validate_example : validate_object_tree_placement (calculate_placement sorting machine) ≡ []
validate_example = validate-calculate_placement sorting machine machine-IsPlaced

best_among-some_example :
    (0 < count 2 (1 ∷ 2 ∷ []))
    × CanHost machine 2
    × ((d : ℕ) → 0 < count d (1 ∷ 2 ∷ []) → CanHost machine d → AsGood machine 2 d)
best_among-some_example = best_among-some machine (1 ∷ 2 ∷ []) 2 best_among-machine

-- With CPU 1 asleep there is no candidate in its list.
asleep : State Mask
asleep = record machine { obj = λ d. record (machine.obj d) { powersave_mode = true } }

best_among-asleep : (best_among asleep (2 ∷ [])).best ≡ none
unfolding program asleep
best_among-asleep = refl

place_irq_in_node_cases_example :
    let t = place_irq_in_node 0 machine in
    (is_pinned machine 0 ≡ true → t ≡ machine)
    × (is_pinned machine 0 ≡ false → has_home machine 0 ≡ true → IsAt t 0 0)
    × (is_pinned machine 0 ≡ false → has_home machine 0 ≡ false → IsAtBestNode machine t 0)
place_irq_in_node_cases_example =
    place_irq_in_node_cases 0 0 machine machine-IsPlaced (omega arith) refl

count-migrate_irq_obj_example :
    count 1 (irqs_at (migrate_irq_obj machine none (some 2) 1) (some 2)) + 0 ≡ 0 + 1
count-migrate_irq_obj_example =
    count-migrate_irq_obj machine none (some 2) 1 (some 2) 1 (IsPlaced-IsNumbered machine-IsPlaced)
      (omega arith)

force_rebalance_irq_example :
    IsPlaced (force_rebalance_irq 1 machine)
    × ((machine.irq 1).level ≡ balance_none → force_rebalance_irq 1 machine ≡ machine)
    × ((machine.irq 1).level ≢ balance_none
        → (count 1 (force_rebalance_irq 1 machine).rebalance_irq_list ≡ 1)
          × (((force_rebalance_irq 1 machine).irq 1).assigned_obj ≡ none))
force_rebalance_irq_example =
    force_rebalance_irq_lem 1 machine machine-IsPlaced (omega arith) (omega arith)

sort_irq_list_example :
    SameListing machine (sort_irq_list sorting machine none)
    × IsRanked machine (irqs_at (sort_irq_list sorting machine none) none)
sort_irq_list_example = sort_irq_list-IsRanked sorting machine none
