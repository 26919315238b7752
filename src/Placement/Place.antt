-- ===== src/Placement/Place.antt =====
-- placement.c: from the list of unplaced interrupts down the tree of objects.
use irqbalance.Prelude.{
  ℕ, ◌==ℤ◌, ◌==◌, Bool, true, not, ◌&&◌, ◌||◌, Option, none, some, List, [], ◌∷◌, ◌++◌, for_each,
  length, if◌then◌else◌,
}
use irqbalance.Types.{
  State, ObjType, obj_type_cpu, obj_type_cache, obj_type_package, obj_type_node, Level,
  balance_none, balance_package, balance_cache, balance_core, level_eq, numa_no_node,
}
use irqbalance.Types.Cpumask.{Cpumask}
use irqbalance.Types.Glist.{Glist}
use irqbalance.Types.Places.{place_eq}
use irqbalance.Classify.Lookup.{for_each_irq}
use irqbalance.Classify.Sort.{sort_irq_list}
use irqbalance.Irqlist.Migrate.{migrate_irq_obj}
use irqbalance.Placement.Best.{best_among}

-- The `switch`: an interrupt stops at the level that its policy names.
unfoldable pub stops_at : ObjType → Level → Bool
stops_at obj_type_node level = level_eq level balance_none
stops_at obj_type_package level = level_eq level balance_package
stops_at obj_type_cache level = level_eq level balance_cache
stops_at obj_type_cpu level = level_eq level balance_core

module _ {M : Type 0} ⦃mask : Cpumask M⦄ where
  -- `if (place.best) migrate_irq_obj(from, place.best, info);`
  unfoldable pub migrate_to_best : State M → Option ℕ → List ℕ → ℕ → State M
  migrate_to_best s from candidates info = elim ((best_among s candidates).best) [
    | none ↦ s
    | some b ↦ migrate_irq_obj s from (some b) info
  ]

  unfoldable pub find_best_object_for_irq : ℕ → ℕ → State M → State M
  find_best_object_for_irq d info s =
      if not (s.irq info).moved
      then s
      else if stops_at (s.obj d).obj_type (s.irq info).level
      then s
      else migrate_to_best s (some d) (s.obj d).children info

  unfoldable pub place_irq_in_object : ℕ → State M → State M
  place_irq_in_object d s = elim (s.obj d).interrupts [
    | [] ↦ s
    | i ∷ is ↦ for_each_irq (i ∷ is) (find_best_object_for_irq d) s
  ]

  -- The part behind the label find_placement.
  unfoldable pub find_placement : ℕ → State M → State M
  find_placement info s = migrate_to_best s none s.numa_nodes info

  -- With `node` the handle in info->numa_node.
  unfoldable pub place_irq_near : ℕ → ℕ → State M → State M
  place_irq_near node info s =
      if not ((s.obj node).number ==ℤ numa_no_node) || not s.numa_avail
      then if mask.cpus_intersects (s.obj node).mask s.unbanned_cpus
        then migrate_irq_obj s none (some node) info
        else find_placement info s
      else find_placement info s

  unfoldable pub place_irq_by_node : Option ℕ → ℕ → State M → State M
  place_irq_by_node none info s = record s { fault = true }
  place_irq_by_node (some node) info s = place_irq_near node info s

  unfoldable pub place_irq_in_node : ℕ → State M → State M
  place_irq_in_node info s =
      if level_eq (s.irq info).level balance_none && mask.cpus_empty s.banned_cpus
      then s
      else place_irq_by_node (s.irq info).numa_node info s

  -- `d->…` of the four lists, level by level.
  unfoldable pub place_all : List ℕ → State M → State M
  place_all unplaced s =
      let s₁ = for_each_irq unplaced place_irq_in_node s in
      let s₂ = for_each place_irq_in_object s₁.numa_nodes s₁ in
      let s₃ = for_each place_irq_in_object s₂.packages s₂ in
      for_each place_irq_in_object s₃.cache_domains s₃

  unfoldable pub calculate_placement : Glist → State M → State M
  calculate_placement g s =
      let s' = sort_irq_list g s none in
      if 0 == length s'.rebalance_irq_list then s' else place_all s'.rebalance_irq_list s'

module _ {M : Type 0} where
  -- The interrupts that validate_object_tree_placement reports: those of an object's list that point
  -- at another object.
  unfoldable pub validate_irqs : State M → ℕ → List ℕ → List ℕ
  validate_irqs s d [] = []
  validate_irqs s d (i ∷ is) =
      let rest = validate_irqs s d is in
      if place_eq (s.irq i).assigned_obj (some d) then rest else i ∷ rest

  unfoldable pub validate_objects : State M → List ℕ → List ℕ
  validate_objects s [] = []
  validate_objects s (d ∷ ds) = validate_irqs s d (s.obj d).interrupts ++ validate_objects s ds

  unfoldable pub validate_object_tree_placement : State M → List ℕ
  validate_object_tree_placement s =
      validate_objects s s.packages
      ++ (validate_objects s s.cache_domains ++ validate_objects s s.cpus)
