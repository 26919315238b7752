-- ===== src/Irqlist/Balance/Keeps.antt =====
-- irqlist.c: the balancing loses no interrupt and doubles none.
use irqbalance.Prelude.{
  ℕ, ◌<◌, ◌≡◌, refl, ◌==◌, ==_refl, ltb, leb, Bool, true, false, not, ◌&&◌, none, some, List, [],
  ◌∷◌, arith, ◌⊎◌, inl, inr, for_each, count, length, Bool-cases, Option-cases, if◌then◌else◌,
  if_cases, ap,
}
use native.Mathlib.Nat.{le_refl}
use irqbalance.Types.{State, set_obj}
use irqbalance.Types.Floating.{Floating}
use irqbalance.Types.Glist.{Glist}
use irqbalance.Types.Word.{u64_max}
use irqbalance.Types.Places.{Place, place_eq-eq, irqs_at}
use irqbalance.Types.Invariant.{IsPlaced, SameListing}
use irqbalance.Classify.Lookup.{irqs_or_all, for_each_irq}
use irqbalance.Classify.Sort.{sort_irq_list, sort_irq_list-IsRanked}
use irqbalance.Irqlist.Migrate.{migrate_irq_obj}
use irqbalance.Irqlist.Kept.{
  Kept, Kept-refl, Kept-trans, SameListing-Kept, migrate_irq_obj-Kept, for_each_obj-Kept, Includes,
  Includes-migrate,
}
use irqbalance.Irqbalance.Rebalance.{force_rebalance_irq, rebalance_from}
use irqbalance.Irqlist.Balance.{
  LoadBalanceInfo, move_candidate_from, move_candidate_irqs, migrate_overloaded_irqs, judge_load,
  find_overloaded_objs, load_statistics, clear_powersave_mode, enter_powersave, wake_all,
  change_powersave, update_migration_status,
}

some_entry : (l : List ℕ) → ltb 1 (length l) ≡ true → (x : ℕ) × (0 < count x l)
some_entry [] h = cc
some_entry (x ∷ l) h = (x, ground (arith, ==_refl x))

module _ {M : Type 0} where
  Includes-assigned :
      (s : State M) (d info : ℕ) (is : List ℕ)
      → IsPlaced s
      → Includes s d (info ∷ is)
      → (s.irq info).assigned_obj ≡ some d
  Includes-assigned s d info is v h =
      place_eq-eq (s.irq info).assigned_obj (some d)
        (ground (arith, h info, ==_refl info, v.one_place (some d) info))

  -- An interrupt at an object is left alone or given up.
  force_rebalance_cases :
      (s : State M) (d info : ℕ)
      → (s.irq info).assigned_obj ≡ some d
      → (force_rebalance_irq info s ≡ s)
        ⊎ (force_rebalance_irq info s ≡ migrate_irq_obj s (some d) none info)
  unfolding force_rebalance_irq rebalance_from
  force_rebalance_cases s d info e = ground arith

  module _ {S : Type 0} (state : S → State M) (cb : ℕ → S → S) where
    -- A walk over interrupts of an object whose callback gives them up or leaves them.
    walk-Kept :
        (d : ℕ)
        → ((info : ℕ) (p : S)
            → (((state p).irq info).assigned_obj ≡ some d)
            → (state (cb info p) ≡ state p)
              ⊎ (state (cb info p) ≡ migrate_irq_obj (state p) (some d) none info))
        → (is : List ℕ) (p : S) → IsPlaced (state p)
        → Includes (state p) d is
        → Kept (state p) (state (for_each cb is p))
    walk-Kept d cases [] p v h = Kept-refl (state p) v
    walk-Kept d cases (info ∷ is) p v h =
        elim (cases info p (Includes-assigned (state p) d info is v h)) [
          | inl e ↦
              Kept-trans (rw e (Kept-refl (state p) v))
                (walk-Kept d cases is (cb info p) (rw e v) (rw e (λ i. omega (arith, h i))))
          | inr e ↦
              let here : 0 < count info (irqs_at (state p) (some d)) =
                ground (arith, h info, ==_refl info) in
              let k = migrate_irq_obj-Kept (state p) (some d) none info v here in
              Kept-trans (rw e k) (
                walk-Kept d cases is (cb info p) (rw e k.placed)
                  (rw e (Includes-migrate (state p) d info none is v h)))
        ]

  irqs_or_all-eq : (s : State M) (l : List ℕ) (x : ℕ) → 0 < count x l → irqs_or_all s l ≡ l
  irqs_or_all-eq s [] x h = absurd (omega arith)
  irqs_or_all-eq s (y ∷ l) x h = refl

module _ {M F : Type 0} where
  candidate_cases :
      (d info : ℕ) (p : LoadBalanceInfo F × State M)
      → ((p.1.irq info).assigned_obj ≡ some d)
      → ((move_candidate_irqs info p).1 ≡ p.1)
        ⊎ ((move_candidate_irqs info p).1 ≡ migrate_irq_obj p.1 (some d) none info)
  unfolding move_candidate_irqs move_candidate_from
  candidate_cases d info (lb, s) e = ground (arith, force_rebalance_cases s d info e)

module _ {M F : Type 0} (g : Glist) where
  sorted_walk-Kept :
      (d : ℕ) (lb : LoadBalanceInfo F) (s : State M)
      → IsPlaced s
      → ltb 1 (length (s.obj d).interrupts) ≡ true
      → let s' = sort_irq_list g s (some d) in
        Kept s (for_each move_candidate_irqs (irqs_or_all s' (s'.obj d).interrupts) (lb, s')).1
  sorted_walk-Kept d lb s v long =
      let s' = sort_irq_list g s (some d) in
      let same = (sort_irq_list-IsRanked g s (some d)).0 in
      let sorted = SameListing-Kept same v in
      let (x, here) = some_entry (s.obj d).interrupts long in
      let there : 0 < count x (s'.obj d).interrupts = ground (arith, same.lists (some d) x) in
      rw (irqs_or_all-eq s' (s'.obj d).interrupts x there) (
        Kept-trans sorted (
          walk-Kept (λ (p : LoadBalanceInfo F × State M). p.1) move_candidate_irqs d
            (candidate_cases d) (s'.obj d).interrupts (lb, s') sorted.placed
            (λ i. le_refl (count i (s'.obj d).interrupts))))

module _ {M F : Type 0} (g : Glist) (f : Floating F) where
  migrate_overloaded_irqs-Kept :
      (d : ℕ) (lb : LoadBalanceInfo F) (s : State M)
      → IsPlaced s
      → Kept s (migrate_overloaded_irqs g f d (lb, s)).1
  unfolding migrate_overloaded_irqs
  migrate_overloaded_irqs-Kept d lb s v =
      let judged = judge_load g f s d lb in
      elim (Bool-cases
        (ltb judged.min_load (s.obj d).load && ltb 1 (length (s.obj d).interrupts))) [
          | inl t ↦ rw t (
              sorted_walk-Kept g d (record judged { adjustment_load = (s.obj d).load }) s v
                (ground arith))
          | inr t ↦ rw t (Kept-refl s v)
        ]

  overloaded_loop-Kept :
      (ds : List ℕ) (p : LoadBalanceInfo F × State M)
      → IsPlaced p.1
      → Kept p.1 (for_each (migrate_overloaded_irqs g f) ds p).1
  overloaded_loop-Kept [] p v = Kept-refl p.1 v
  overloaded_loop-Kept (d ∷ ds) p v =
      let k = migrate_overloaded_irqs-Kept d p.0 p.1 v in
      Kept-trans k (overloaded_loop-Kept ds (migrate_overloaded_irqs g f d p) k.placed)

  find_overloaded_objs-Kept :
      (ds : List ℕ) (s : State M) → IsPlaced s → Kept s (find_overloaded_objs g f ds s).1
  unfolding find_overloaded_objs
  find_overloaded_objs-Kept ds s v = overloaded_loop-Kept ds (load_statistics g f s ds, s) v

module _ {M : Type 0} where
  -- Setting the flag of an object moves nothing.
  set_mode-SameListing :
      (s : State M) (d : ℕ) (mode : Bool)
      → SameListing s (set_obj s d (record (s.obj d) { powersave_mode = mode }))
  set_mode-SameListing s d mode = record {
    lists = λ l i. ap (count i) (lists l);
    assigned = λ i. refl;
    numbers = λ i. refl;
    db = refl;
  }
    where
      lists :
          (l : Place)
          → irqs_at (set_obj s d (record (s.obj d) { powersave_mode = mode })) l ≡ irqs_at s l
      lists none = refl
      lists (some p) = ground arith

  given_up-Kept :
      (d : ℕ) (s : State M) (is : List ℕ)
      → IsPlaced s
      → (s.obj d).interrupts ≡ is
      → Kept s (for_each force_rebalance_irq is s)
  given_up-Kept d s is v e =
      walk-Kept (λ (t : State M). t) force_rebalance_irq d
        (λ info t. force_rebalance_cases t d info) is s v (λ i. ground (arith, ap (count i) e))

module _ {M F : Type 0} (g : Glist) (f : Floating F) where
  enter_powersave-Kept : (d : ℕ) (s : State M) → IsPlaced s → Kept s (enter_powersave g f d s)
  unfolding enter_powersave for_each_irq
  enter_powersave-Kept d s v = go (s'.obj d).interrupts refl
    where
      s' : State M
      s' = set_obj s d (record (s.obj d) { powersave_mode = true })

      asleep : Kept s s'
      asleep = SameListing-Kept (set_mode-SameListing s d true) v

      go : (is : List ℕ) → (s'.obj d).interrupts ≡ is → Kept s (enter_powersave g f d s)
      go [] e = rw (e, enter_powersave) asleep
      go (i ∷ is) e =
          rw (e, enter_powersave) (Kept-trans asleep (given_up-Kept d s' (i ∷ is) asleep.placed e))

  wake_all-Kept : (lb : LoadBalanceInfo F) (s : State M) → IsPlaced s → Kept s (wake_all g f lb s)
  unfolding wake_all
  wake_all-Kept lb s v =
      if_cases (Kept s) _
        (for_each_obj-Kept (clear_powersave_mode g f)
          (λ d t w. SameListing-Kept (set_mode-SameListing t d false) w) s.cpus s v)
        (Kept-refl s v)

  change_powersave-Kept :
      (lb : LoadBalanceInfo F) (s : State M) → IsPlaced s → Kept s (change_powersave g f lb s)
  unfolding change_powersave
  change_powersave-Kept lb s v = elim (Option-cases lb.powersave) [
    | inl e ↦ rw (e, change_powersave) (wake_all-Kept lb s v)
    | inr (d, e) ↦
        rw (e, change_powersave)
          (if_cases (Kept s) (lb.num_over == 0 && leb s.power_thresh lb.num_under)
            (enter_powersave-Kept d s v) (wake_all-Kept lb s v))
  ]

  -- From a state in which every listed interrupt is where it says, a balancing pass over the whole
  -- tree, the power saving included, keeps every interrupt listed exactly once, at the place that
  -- its `assigned_obj` names, and loses none that was listed.
  pub update_migration_status-Kept :
      (s : State M) → IsPlaced s → Kept s (update_migration_status g f s)
  unfolding update_migration_status
  update_migration_status-Kept s v =
      let (lb, s₁) = find_overloaded_objs g f s.cpus s in
      let k₁ = find_overloaded_objs-Kept g f s.cpus s v in
      let test = not (s₁.power_thresh == u64_max) && ltb 5 s₁.cycle_count in
      let s₂ = if test then change_powersave g f lb s₁ else s₁ in
      let k₂ : Kept s₁ s₂ =
        if_cases (Kept s₁) test (change_powersave-Kept lb s₁ k₁.placed) (Kept-refl s₁ k₁.placed) in
      let s₃ = (find_overloaded_objs g f s₂.cache_domains s₂).1 in
      let k₃ = find_overloaded_objs-Kept g f s₂.cache_domains s₂ k₂.placed in
      let s₄ = (find_overloaded_objs g f s₃.packages s₃).1 in
      let k₄ = find_overloaded_objs-Kept g f s₃.packages s₃ k₃.placed in
      let k₅ = find_overloaded_objs-Kept g f s₄.numa_nodes s₄ k₄.placed in
      Kept-trans k₁ (Kept-trans k₂ (Kept-trans k₃ (Kept-trans k₄ k₅)))
