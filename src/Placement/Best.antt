-- ===== src/Placement/Best.antt =====
-- placement.c: find_best_object, the choice among the children of an object.
use irqbalance.Prelude.{
  ℕ, pos, pos_part, ◌==◌, ◌&&◌, ◌||◌, not, ◌-ℤ◌, ◌==ℤ◌, ltb_ℤ, ltb, Bool, true, Option, none, some,
  List, for_each, length, if◌then◌else◌,
}
use irqbalance.Types.{State, TopoObj, obj_type_eq, obj_type_node, numa_no_node}
use irqbalance.Types.Cpumask.{Cpumask}
use irqbalance.Types.Word.{add64, mul64, u64_max}

pub record ObjPlacement : Type 0 where
  pub best : Option ℕ
  pub best_cost : ℕ

abbrev pub no_placement : ObjPlacement
no_placement = record { best = none; best_cost = u64_max }

module _ {M : Type 0} where
  -- SLOTS_PENALTY_THRESHOLD is 10 and SLOTS_PENALTY_FACTOR is 1000.
  unfoldable pub slots_penalty : TopoObj M → ℕ
  slots_penalty o =
      if ltb_ℤ o.slots_left (pos 10) then mul64 (pos_part (pos 10 -ℤ o.slots_left)) 1000 else 0

  unfoldable pub best_adjusted_cost : State M → ObjPlacement → ℕ
  best_adjusted_cost s p = elim p.best [
    | none ↦ u64_max
    | some b ↦ add64 p.best_cost (slots_penalty (s.obj b))
  ]

  -- The tie-breaker between objects of the same adjusted cost.
  unfoldable pub tie_break : State M → ℕ → ObjPlacement → Bool
  tie_break s d p = elim p.best [
    | none ↦ true
    | some b ↦
        let o = s.obj d in
        let old = s.obj b in
        ltb_ℤ old.slots_left o.slots_left
        || (o.slots_left ==ℤ old.slots_left && ltb (length o.interrupts) (length old.interrupts))
  ]

module _ {M : Type 0} ⦃mask : Cpumask M⦄ where
  -- The four early returns.
  unfoldable pub skip_object : State M → TopoObj M → Bool
  skip_object s o =
      (s.numa_avail && (obj_type_eq o.obj_type obj_type_node && o.number ==ℤ numa_no_node))
      || (obj_type_eq o.obj_type obj_type_node && not (mask.cpus_intersects o.mask s.unbanned_cpus))
      || o.powersave_mode
      || not (ltb_ℤ (pos 0) o.slots_left)

  unfoldable pub find_best_object : State M → ℕ → ObjPlacement → ObjPlacement
  find_best_object s d p =
      let o = s.obj d in
      let adjusted_cost = add64 o.load (slots_penalty o) in
      let chosen : ObjPlacement = record { best = some d; best_cost = o.load } in
      if skip_object s o
      then p
      else if ltb adjusted_cost (best_adjusted_cost s p)
      then chosen
      else if adjusted_cost == best_adjusted_cost s p && tie_break s d p
      then chosen
      else p

  unfoldable pub best_among : State M → List ℕ → ObjPlacement
  best_among s ds = for_each (find_best_object s) ds no_placement
