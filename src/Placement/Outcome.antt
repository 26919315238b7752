-- ===== src/Placement/Outcome.antt =====
-- placement.c: where an interrupt goes from the list of the unplaced, and the check at the end.
use irqbalance.Prelude.{
  ℕ, ◌<◌, ◌≡◌, refl, ◌==ℤ◌, ==_refl, Bool, true, false, not, ◌&&◌, ◌||◌, none, some, List, [], ◌∷◌,
  arith, ◌⊎◌, inl, inr, count, Option-cases, if◌then◌else◌, subst,
}
use irqbalance.Types.{State, numa_no_node, balance_none, level_eq}
use irqbalance.Types.Cpumask.{Cpumask}
use irqbalance.Types.Glist.{Glist}
use irqbalance.Types.Places.{Place, irqs_at}
use irqbalance.Types.Invariant.{IsPlaced-IsNumbered, IsPlaced, IsListed}
use irqbalance.Irqlist.Migrate.{migrate_irq_obj, migrate_irq_obj_frame, migrate_irq_obj-IsListed}
use irqbalance.Placement.Best.{best_among}
use irqbalance.Placement.Choice.{best_among-some, best_among-none}
use irqbalance.Placement.Hosts.{CanHost, AsGood}
use irqbalance.Placement.Keeps.{calculate_placement-Kept}
use irqbalance.Placement.Place.{
  migrate_to_best, find_placement, place_irq_near, place_irq_by_node, place_irq_in_node,
  calculate_placement, validate_irqs, validate_objects, validate_object_tree_placement,
}

module _ {M : Type 0} where
  validate_irqs-nil :
      (s : State M) (d : ℕ) (is : List ℕ)
      → IsPlaced s
      → ((i : ℕ) → 0 < count i is → 0 < count i (irqs_at s (some d)))
      → validate_irqs s d is ≡ []
  unfolding validate_irqs
  validate_irqs-nil s d [] v h = refl
  validate_irqs-nil s d (i ∷ is) v h = ground (
    arith,
    validate_irqs-nil s d is v (λ j k. h j (omega arith)),
    v.one_place (some d) i,
    h i,
    ==_refl i,
  )

  validate_objects-nil : (s : State M) (ds : List ℕ) → IsPlaced s → validate_objects s ds ≡ []
  unfolding validate_objects
  validate_objects-nil s [] v = refl
  validate_objects-nil s (d ∷ ds) v =
      rw (validate_irqs-nil s d (s.obj d).interrupts v (λ i h. h)) (validate_objects-nil s ds v)

  pub validate-nil : (s : State M) → IsPlaced s → validate_object_tree_placement s ≡ []
  unfolding validate_object_tree_placement
  validate-nil s v =
      rw (validate_objects-nil s s.packages v)
        (rw (validate_objects-nil s s.cache_domains v) (validate_objects-nil s s.cpus v))

module _ {M : Type 0} ⦃mask : Cpumask M⦄ where
  -- After a placement from a consistent state the debugging check has nothing to report: every
  -- interrupt that an object lists points back at that object.
  pub validate-calculate_placement :
      (g : Glist) (s : State M)
      → IsPlaced s
      → validate_object_tree_placement (calculate_placement g s) ≡ []
  validate-calculate_placement g s v = validate-nil _ ((calculate_placement-Kept g s v).placed)

  -- The interrupt is at `node`: it says so, and the node lists it.
  abbrev pub IsAt : State M → ℕ → ℕ → Type 0
  IsAt s info d = ((s.irq info).assigned_obj ≡ some d) × (0 < count info (s.obj d).interrupts)

  -- It is at the best of the nodes, or it stays where it was and no node can host it.
  abbrev pub IsAtBestNode : State M → State M → ℕ → Type 0
  IsAtBestNode s t info =
      ((b : ℕ) × (0 < count b s.numa_nodes)
        × CanHost s b
        × ((d : ℕ) → 0 < count d s.numa_nodes → CanHost s d → AsGood s b d)
        × IsAt t info b)
      ⊎ ((t ≡ s) × ((d : ℕ) → 0 < count d s.numa_nodes → ¬ CanHost s d))

  migrate_irq_obj-IsAt :
      (s : State M) (info d : ℕ)
      → IsPlaced s
      → IsListed s info
      → IsAt (migrate_irq_obj s none (some d) info) info d
  migrate_irq_obj-IsAt s info d v h =
      let s' = migrate_irq_obj s none (some d) info in
      let e : (s'.irq info).assigned_obj ≡ some d = ground (
        arith,
        migrate_irq_obj_frame s none (some d) info info (IsPlaced-IsNumbered v) h,
        ==_refl info,
      ) in
      (
        e,
        subst (λ (l : Place). 0 < count info (irqs_at s' l)) e
            (migrate_irq_obj-IsListed s none (some d) info info v h h),
      )

  find_placement-IsAtBestNode :
      (info : ℕ) (s : State M)
      → IsPlaced s
      → IsListed s info
      → IsAtBestNode s (find_placement info s) info
  unfolding find_placement migrate_to_best
  find_placement-IsAtBestNode info s v h = elim (Option-cases ((best_among s s.numa_nodes).best)) [
    | inl e ↦
        inr (
          rw (e, find_placement, migrate_to_best) refl,
          λ d k. best_among-none s s.numa_nodes d e k,
        )
    | inr (b, e) ↦
        let (k, m, n) = best_among-some s s.numa_nodes b e in
        inl
          (b, k, m, n, rw (e, find_placement, migrate_to_best) (migrate_irq_obj-IsAt s info b v h))
  ]

  -- The two tests of place_irq_in_node.
  abbrev pub is_pinned : State M → ℕ → Bool
  is_pinned s info = level_eq (s.irq info).level balance_none && mask.cpus_empty s.banned_cpus

  abbrev pub has_home : State M → ℕ → Bool
  has_home s node =
      (not ((s.obj node).number ==ℤ numa_no_node) || not s.numa_avail)
      && mask.cpus_intersects (s.obj node).mask s.unbanned_cpus

  place_irq_in_node-eq :
      (info node : ℕ) (s : State M)
      → (s.irq info).numa_node ≡ some node
      → place_irq_in_node info s ≡ (
          if is_pinned s info
          then s
          else if has_home s node
          then migrate_irq_obj s none (some node) info
          else find_placement info s)
  unfolding place_irq_in_node place_irq_by_node place_irq_near
  place_irq_in_node-eq info node s e = ground arith

  -- A listed interrupt with a node, on every branch. If its level is `none` and no CPU is banned,
  -- nothing changes. Otherwise, if its node is a real one (or there are no nodes) with a CPU that
  -- is not banned, it goes to that node. Otherwise it goes to the best of all nodes that can host
  -- it, or stays if none can.
  pub place_irq_in_node_cases :
      (info node : ℕ) (s : State M)
      → IsPlaced s
      → IsListed s info
      → (s.irq info).numa_node ≡ some node
      → let t = place_irq_in_node info s in
        (is_pinned s info ≡ true → t ≡ s)
        × (is_pinned s info ≡ false → has_home s node ≡ true → IsAt t info node)
        × (is_pinned s info ≡ false → has_home s node ≡ false → IsAtBestNode s t info)
  place_irq_in_node_cases info node s v h e = rw (place_irq_in_node-eq info node s e) (
    λ p. rw p,
    λ p q. rw (p, q) (migrate_irq_obj-IsAt s info node v h),
    λ p q. rw (p, q) (find_placement-IsAtBestNode info s v h),
  )
