-- ===== src/Placement/Keeps.antt =====
-- placement.c: the placement loses no interrupt, doubles none, and leaves each where it says it is.
use irqbalance.Prelude.{
  ℕ, ◌<◌, ◌≡◌, refl, ◌==◌, true, Option, none, some, List, [], ◌∷◌, arith, inl, inr, for_each,
  count, Bool-cases, Option-cases, length, ==_refl, ap, if_cases, ◌≢◌,
}
use irqbalance.Types.{State}
use irqbalance.Types.Cpumask.{Cpumask}
use irqbalance.Types.Glist.{Glist}
use irqbalance.Types.Places.{place_eq-eq, irqs_at}
use irqbalance.Types.Invariant.{IsPlaced, IsListed}
use irqbalance.Classify.Lookup.{for_each_irq}
use irqbalance.Classify.Sort.{sort_irq_list, sort_irq_list-IsRanked}
use irqbalance.Irqlist.Migrate.{migrate_irq_obj, source}
use irqbalance.Irqlist.Kept.{
  Kept, Kept-refl, Kept-trans, SameListing-Kept, migrate_irq_obj-Kept, for_each-Kept,
  for_each_obj-Kept, Includes, Includes-migrate,
}
use irqbalance.Placement.Best.{best_among}
use irqbalance.Placement.Place.{
  migrate_to_best, find_best_object_for_irq, place_irq_in_object, find_placement, place_irq_near,
  place_irq_by_node, place_irq_in_node, place_all, calculate_placement,
}

module _ {M : Type 0} ⦃mask : Cpumask M⦄ where
  migrate_to_best_cases {κ} :
      (P : State M → Type κ) (s : State M) (from : Option ℕ) (ds : List ℕ) (info : ℕ)
      → P s
      → ((b : ℕ) → P (migrate_irq_obj s from (some b) info))
      → P (migrate_to_best s from ds info)
  unfolding migrate_to_best
  migrate_to_best_cases P s from ds info stay moved = elim (Option-cases ((best_among s ds).best)) [
    | inl e ↦ rw (e, migrate_to_best) stay
    | inr (b, e) ↦ rw (e, migrate_to_best) (moved b)
  ]

  migrate_to_best-Kept :
      (s : State M) (from : Option ℕ) (ds : List ℕ) (info : ℕ)
      → IsPlaced s
      → 0 < count info (irqs_at s (source s from info))
      → Kept s (migrate_to_best s from ds info)
  migrate_to_best-Kept s from ds info v h =
      migrate_to_best_cases (Kept s) s from ds info (Kept-refl s v)
        (λ b. migrate_irq_obj-Kept s from (some b) info v h)

  place_irq_near-Kept :
      (node info : ℕ) (s : State M)
      → IsPlaced s
      → IsListed s info
      → Kept s (place_irq_near node info s)
  unfolding place_irq_near find_placement
  place_irq_near-Kept node info s v h =
      let elsewhere = migrate_to_best-Kept s none s.numa_nodes info v h in
      if_cases (Kept s) _
        (if_cases (Kept s) _ (migrate_irq_obj-Kept s none (some node) info v h) elsewhere) elsewhere

  -- A state that differs in none of the fields that list interrupts.
  faulted : (s : State M) → IsPlaced s → Kept s (record s { fault = true })
  faulted s v =
      SameListing-Kept
        (record { lists = λ l i. refl; assigned = λ i. refl; numbers = λ i. refl; db = refl }) v

  place_irq_by_node-Kept :
      (node : Option ℕ) (info : ℕ) (s : State M)
      → IsPlaced s
      → IsListed s info
      → Kept s (place_irq_by_node node info s)
  unfolding place_irq_by_node
  place_irq_by_node-Kept none info s v h = faulted s v
  place_irq_by_node-Kept (some node) info s v h = place_irq_near-Kept node info s v h

  place_irq_in_node-Kept :
      (info : ℕ) (s : State M) → IsPlaced s → IsListed s info → Kept s (place_irq_in_node info s)
  unfolding place_irq_in_node
  place_irq_in_node-Kept info s v h =
      if_cases (Kept s) _ (Kept-refl s v) (place_irq_by_node-Kept (s.irq info).numa_node info s v h)

  -- The walk over the interrupts of an object, down to its children.
  descend-Kept :
      (d : ℕ) (is : List ℕ) (s : State M)
      → IsPlaced s
      → Includes s d is
      → Kept s (for_each (find_best_object_for_irq d) is s)
  unfolding find_best_object_for_irq
  descend-Kept d [] s v h = Kept-refl s v
  descend-Kept d (info ∷ is) s v h =
      let P = λ (t : State M). Kept s (for_each (find_best_object_for_irq d) is t) in
      let stay : P s = descend-Kept d is s v (λ i. omega (arith, h i)) in
      let here : 0 < count info (irqs_at s (some d)) = ground (arith, h info, ==_refl info) in
      let moved = λ (b : ℕ).
        let k = migrate_irq_obj-Kept s (some d) (some b) info v here in
        Kept-trans k (descend-Kept d is _ k.placed (Includes-migrate s d info (some b) is v h)) in
      if_cases P _ stay
        (if_cases P _ stay (migrate_to_best_cases P s (some d) (s.obj d).children info stay moved))

  place_irq_in_object-Kept : (d : ℕ) (s : State M) → IsPlaced s → Kept s (place_irq_in_object d s)
  unfolding place_irq_in_object for_each_irq
  place_irq_in_object-Kept d s v = go (s.obj d).interrupts refl
    where
      go : (is : List ℕ) → (s.obj d).interrupts ≡ is → Kept s (place_irq_in_object d s)
      go [] e = rw (e, place_irq_in_object) (Kept-refl s v)
      go (i ∷ is) e =
          rw (e, place_irq_in_object)
            (descend-Kept d (i ∷ is) s v (λ j. ground (arith, ap (count j) e)))

  place_all-Kept :
      (unplaced : List ℕ) (s : State M)
      → IsPlaced s
      → ((x : ℕ) → 0 < count x unplaced → IsListed s x)
      → unplaced ≢ []
      → Kept s (place_all unplaced s)
  unfolding place_all for_each_irq
  place_all-Kept [] s v h n = absurd (n refl)
  place_all-Kept (x ∷ xs) s v h n =
      let k₁ = for_each-Kept place_irq_in_node place_irq_in_node-Kept (x ∷ xs) s v h in
      let s₁ = for_each place_irq_in_node (x ∷ xs) s in
      let k₂ =
        for_each_obj-Kept place_irq_in_object place_irq_in_object-Kept s₁.numa_nodes s₁ k₁.placed in
      let s₂ = for_each place_irq_in_object s₁.numa_nodes s₁ in
      let k₃ =
        for_each_obj-Kept place_irq_in_object place_irq_in_object-Kept s₂.packages s₂ k₂.placed in
      let s₃ = for_each place_irq_in_object s₂.packages s₂ in
      let k₄ =
        for_each_obj-Kept place_irq_in_object place_irq_in_object-Kept s₃.cache_domains s₃
          k₃.placed in
      Kept-trans k₁ (Kept-trans k₂ (Kept-trans k₃ k₄))

  unplaced-IsListed :
      (s : State M) (x : ℕ) → IsPlaced s → 0 < count x (irqs_at s none) → IsListed s x
  unplaced-IsListed s x v h =
      ground (arith, v.one_place none x, place_eq-eq (s.irq x).assigned_obj none)

  -- From a state in which every listed interrupt is where it says, a run of the placement keeps
  -- every interrupt listed exactly once, at the place that its `assigned_obj` names, and loses
  -- none of those that were listed.
  pub calculate_placement-Kept :
      (g : Glist) (s : State M) → IsPlaced s → Kept s (calculate_placement g s)
  unfolding calculate_placement
  calculate_placement-Kept g s v =
      let s' = sort_irq_list g s none in
      let k = SameListing-Kept ((sort_irq_list-IsRanked g s none).0) v in
      elim (Bool-cases (0 == length s'.rebalance_irq_list)) [
        | inl e ↦ rw e k
        | inr e ↦ rw e (
            Kept-trans k (
              place_all-Kept s'.rebalance_irq_list s' k.placed
                (λ x. unplaced-IsListed s' x k.placed) (λ n. ground (arith, ap length n))))
      ]
