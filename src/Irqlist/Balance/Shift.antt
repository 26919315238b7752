-- ===== src/Irqlist/Balance/Shift.antt =====
-- irqlist.c: what the choice of interrupts does to the balance.
use irqbalance.Prelude.{
  ℕ, ◌+◌, ◌<◌, ◌≤◌, ◌≡◌, refl, true, Option, none, some, List, [], ◌∷◌, arith, ◌⊎◌, inl, inr,
  for_each, if_cases, if_cases_eq, ap, ◌∙◌,
}
use irqbalance.Types.{State, level_eq, balance_none}
use irqbalance.Types.Word.{u64_mod}
use irqbalance.Irqlist.Migrate.{migrate_irq_obj_loads}
use irqbalance.Irqbalance.Rebalance.{force_rebalance_irq, rebalance_from}
use irqbalance.Irqlist.Balance.{
  LoadBalanceInfo, move_candidate_from, move_candidate_irqs, shift_load, can_migrate, delta_load,
}

module _ {M : Type 0} where
  pub record SameLoads (s t : State M) : Type 0 where
    pub load : (j : ℕ) → (t.irq j).load ≡ (s.irq j).load
    pub ratio : t.migrate_ratio ≡ s.migrate_ratio

  SameLoads-refl : (s : State M) → SameLoads s s
  SameLoads-refl s = record { load = λ j. refl; ratio = refl }

  rebalance_from-SameLoads :
      (at : Option ℕ) (info : ℕ) (s : State M) → SameLoads s (rebalance_from at info s)
  unfolding rebalance_from
  rebalance_from-SameLoads none info s = record { load = λ j. refl; ratio = refl }
  rebalance_from-SameLoads (some p) info s = record {
    load = λ j. (migrate_irq_obj_loads s (some p) none info j).0;
    ratio = (migrate_irq_obj_loads s (some p) none info info).1;
  }

  force_rebalance_irq-SameLoads :
      (info : ℕ) (s : State M) → SameLoads s (force_rebalance_irq info s)
  unfolding force_rebalance_irq
  force_rebalance_irq-SameLoads info s =
      if_cases (SameLoads s) _ (SameLoads-refl s)
        (rebalance_from-SameLoads (s.irq info).assigned_obj info s)

  -- What the interrupts of a list weigh together.
  abbrev pub weight : State M → List ℕ → ℕ
  weight s [] = 0
  weight s (i ∷ is) = (s.irq i).load + weight s is

  weight-SameLoads : (s t : State M) (is : List ℕ) → SameLoads s t → weight t is ≡ weight s is
  weight-SameLoads s t [] h = refl
  weight-SameLoads s t (i ∷ is) h = omega (arith, h.load i, weight-SameLoads s t is h)

-- The loads that the choice weighs against one another: that of the object from which interrupts are
-- taken, and the least of all, which is still below it.
pub record IsUneven {F : Type 0} (lb : LoadBalanceInfo F) : Type 0 where
  pub below : lb.min_load < lb.adjustment_load
  pub fits : lb.min_load + lb.adjustment_load < u64_mod

module _ {M F : Type 0} where
  shift_load_lem :
      (s : State M) (info : ℕ) (lb : LoadBalanceInfo F)
      → s.migrate_ratio ≡ 0
      → IsUneven lb
      → (s.irq info).load ≤ lb.adjustment_load
      → can_migrate s info lb ≡ true
      → let t = shift_load (s.irq info).load lb in
        IsUneven t
        × (t.min_load ≡ lb.min_load + (s.irq info).load)
        × (t.adjustment_load + (s.irq info).load ≡ lb.adjustment_load)
  unfolding shift_load can_migrate delta_load
  shift_load_lem s info lb r u l h =
      (record { below = ground arith; fits = ground arith }, ground arith, ground arith)

  -- One interrupt is left alone, or its load goes from the one side to the other.
  abbrev IsShift : ℕ → LoadBalanceInfo F → State M → LoadBalanceInfo F × State M → Type 0
  IsShift info lb s r =
      (r.0 ≡ lb) × SameLoads s r.1
      ⊎ (can_migrate s info lb ≡ true) × (r.0 ≡ shift_load (s.irq info).load lb) × SameLoads s r.1

  candidate_from-IsShift :
      (at : Option ℕ) (info : ℕ) (lb : LoadBalanceInfo F) (s : State M)
      → IsShift info lb s (move_candidate_from at info (lb, s))
  unfolding move_candidate_from
  candidate_from-IsShift none info lb s = inl (refl, record { load = λ j. refl; ratio = refl })
  candidate_from-IsShift (some p) info lb s =
      let P = IsShift info lb s in
      let stay : P (lb, s) = inl (refl, SameLoads-refl s) in
      if_cases P _ stay (
        if_cases P _ stay (
          if_cases_eq P (can_migrate s info lb)
            (λ c. inr (c, refl, force_rebalance_irq-SameLoads info s)) (λ _. stay)))

  candidate-IsShift :
      (info : ℕ) (lb : LoadBalanceInfo F) (s : State M)
      → IsShift info lb s (move_candidate_irqs info (lb, s))
  unfolding move_candidate_irqs
  candidate-IsShift info lb s =
      if_cases (IsShift info lb s) (level_eq (s.irq info).level balance_none)
        (inl (refl, SameLoads-refl s)) (candidate_from-IsShift (s.irq info).assigned_obj info lb s)

  -- With no migration ratio set, and a list that weighs at most the load that is left, the
  -- interrupts that are chosen from the list shift load from the one side to the other without
  -- turning the balance round: the sum of the two sides is kept, and the least load stays below
  -- the load that is left.
  pub candidates-IsUneven :
      (is : List ℕ) (lb : LoadBalanceInfo F) (s : State M)
      → s.migrate_ratio ≡ 0
      → IsUneven lb
      → weight s is ≤ lb.adjustment_load
      → let t = (for_each move_candidate_irqs is (lb, s)).0 in
        IsUneven t × (t.min_load + t.adjustment_load ≡ lb.min_load + lb.adjustment_load)
  candidates-IsUneven [] lb s r u w = (u, refl)
  candidates-IsUneven (i ∷ is) lb s r u w =
      let (lb', s') = move_candidate_irqs i (lb, s) in
      elim (candidate-IsShift i lb s) [
        | inl (e, same) ↦
            let rest =
              candidates-IsUneven is lb' s' (same.ratio ∙ r) (rw e u)
                (rw e (omega (arith, weight-SameLoads s s' is same))) in
            (rest.0, rest.1 ∙ ap (λ (b : LoadBalanceInfo F). b.min_load + b.adjustment_load) e)
        | inr (c, e, same) ↦
            let (u', m, a) = shift_load_lem s i lb r u (omega arith) c in
            let rest =
              candidates-IsUneven is lb' s' (same.ratio ∙ r) (rw e u')
                (rw e (omega (arith, weight-SameLoads s s' is same))) in
            (
              rest.0,
              rest.1
                  ∙ ap (λ (b : LoadBalanceInfo F). b.min_load + b.adjustment_load) e
                  ∙ omega arith,
            )
      ]
