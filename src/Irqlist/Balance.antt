-- ===== src/Irqlist/Balance.antt =====
-- irqlist.c: the statistics of a level of the tree, and the choice of interrupts to move.
pub mod Keeps
pub mod Shift
pub mod Statistics
use irqbalance.Prelude.{
  ℕ, zero, suc, ◌+◌, ◌-◌, ◌*◌, ◌/◌, ◌%◌, ◌==◌, ltb, leb, Bool, true, false, not, ◌&&◌, ◌||◌, Option,
  none, some, List, [], ◌∷◌, for_each, length, is_some, if◌then◌else◌,
}
use irqbalance.Types.{State, TopoObj, IrqInfo, balance_none, level_eq, set_obj}
use irqbalance.Types.Floating.{Floating}
use irqbalance.Types.Glist.{Glist}
use irqbalance.Types.Word.{add64, sub64, mul64, u64_max}
use irqbalance.Classify.Lookup.{irqs_or_all, for_each_irq}
use irqbalance.Classify.Sort.{sort_irq_list}
use irqbalance.Irqbalance.Rebalance.{force_rebalance_irq}

pub record LoadBalanceInfo (F : Type 0) : Type 0 where
  pub total_load : ℕ
  pub avg_load : ℕ
  pub min_load : ℕ
  pub adjustment_load : ℕ
  pub load_sources : ℕ
  pub deviations : ℕ
  pub std_deviation : F
  pub num_over : ℕ
  pub num_under : ℕ
  pub num_powersave : ℕ
  pub powersave : Option ℕ

-- The counters are `unsigned int`.
abbrev pub count_up : ℕ → ℕ
count_up n = (n + 1) % 4294967296

module _ {F : Type 0} where
  unfoldable pub shift_load : ℕ → LoadBalanceInfo F → LoadBalanceInfo F
  shift_load load lb =
      let adjusted = sub64 lb.adjustment_load load in
      let least = add64 lb.min_load load in
      record lb {
        adjustment_load = adjusted;
        min_load = (if ltb adjusted least then adjusted else least);
      }

module _ {M F : Type 0} where
  unfoldable pub gather_load_stats : State M → ℕ → LoadBalanceInfo F → LoadBalanceInfo F
  gather_load_stats s d lb =
      let load = (s.obj d).load in
      record lb {
        min_load = (if lb.load_sources == 0 || ltb load lb.min_load then load else lb.min_load);
        total_load = add64 lb.total_load load;
        load_sources = lb.load_sources + 1;
      }

  unfoldable pub compute_deviations : State M → ℕ → LoadBalanceInfo F → LoadBalanceInfo F
  compute_deviations s d lb =
      let load = (s.obj d).load in
      let deviation = if ltb lb.avg_load load then load - lb.avg_load else lb.avg_load - load in
      record lb { deviations = add64 lb.deviations (mul64 deviation deviation) }

  -- What the load of an interrupt may exceed the balance by.
  unfoldable pub delta_load : State M → LoadBalanceInfo F → ℕ
  delta_load s lb =
      if s.migrate_ratio == 0 then 0 else sub64 lb.adjustment_load lb.min_load / s.migrate_ratio

  unfoldable pub can_migrate : State M → ℕ → LoadBalanceInfo F → Bool
  can_migrate s info lb =
      let load = (s.irq info).load in
      ltb (add64 lb.min_load load) (add64 (delta_load s lb) (sub64 lb.adjustment_load load))

  -- With `at` the object that the interrupt is assigned to.
  unfoldable pub move_candidate_from :
      Option ℕ → ℕ → LoadBalanceInfo F × State M → LoadBalanceInfo F × State M
  move_candidate_from none info (lb, s) = (lb, record s { fault = true })
  move_candidate_from (some p) info (lb, s) =
      if leb (length (s.obj p).interrupts) 1
      then (lb, s)
      else if leb (s.irq info).load 1
      then (lb, s)
      else if can_migrate s info lb
      then (shift_load (s.irq info).load lb, force_rebalance_irq info s)
      else (lb, s)

  unfoldable pub move_candidate_irqs : ℕ → LoadBalanceInfo F × State M → LoadBalanceInfo F × State M
  move_candidate_irqs info (lb, s) =
      if level_eq (s.irq info).level balance_none
      then (lb, s)
      else move_candidate_from (s.irq info).assigned_obj info (lb, s)

module _ {F : Type 0} (f : Floating F) where
  abbrev pub cleared : LoadBalanceInfo F
  cleared = record {
    total_load = 0;
    avg_load = 0;
    min_load = 0;
    adjustment_load = 0;
    load_sources = 0;
    deviations = 0;
    std_deviation = f.from_ℕ 0;
    num_over = 0;
    num_under = 0;
    num_powersave = 0;
    powersave = none;
  }

module _ {M F : Type 0} (g : Glist) (f : Floating F) where
  -- Whether the object is far under or far over the average, and the first that could sleep.
  unfoldable pub classify_load : State M → ℕ → LoadBalanceInfo F → LoadBalanceInfo F
  classify_load s d lb =
      let o = s.obj d in
      let load = f.from_ℕ o.load in
      let avg = f.from_ℕ lb.avg_load in
      if f.leq (f.add load lb.std_deviation) avg
      then record lb {
        num_under = count_up lb.num_under;
        powersave =
            (if not (s.power_thresh == u64_max)
                && not (is_some lb.powersave)
                && not o.powersave_mode
              then some d
              else lb.powersave);
      }
      else if f.leq avg (f.sub load lb.std_deviation)
      then record lb { num_over = count_up lb.num_over }
      else lb

  -- The counting part of migrate_overloaded_irqs.
  unfoldable pub judge_load : State M → ℕ → LoadBalanceInfo F → LoadBalanceInfo F
  judge_load s d lb = classify_load s d (
      if (s.obj d).powersave_mode
      then record lb { num_powersave = count_up lb.num_powersave }
      else lb)

  unfoldable pub migrate_overloaded_irqs :
      ℕ → LoadBalanceInfo F × State M → LoadBalanceInfo F × State M
  migrate_overloaded_irqs d (lb, s) =
      let o = s.obj d in
      let judged = judge_load s d lb in
      if ltb judged.min_load o.load && ltb 1 (length o.interrupts)
      then (let s' = sort_irq_list g s (some d) in
          for_each move_candidate_irqs (irqs_or_all s' (s'.obj d).interrupts)
            (record judged { adjustment_load = o.load }, s'))
      else (judged, s)

  -- The statistics before any interrupt is moved.
  unfoldable pub load_statistics : State M → List ℕ → LoadBalanceInfo F
  load_statistics s name =
      let gathered = for_each (gather_load_stats s) name (cleared f) in
      let sources = if gathered.load_sources == 0 then 1 else gathered.load_sources in
      let averaged = record gathered {
        load_sources = sources;
        avg_load = gathered.total_load / sources;
      } in
      let deviated = for_each (compute_deviations s) name averaged in
      record deviated {
        std_deviation =
            (if sources == 1
              then f.from_ℕ 0
              else f.sqrt (f.from_ℕ (deviated.deviations / (sources - 1))));
      }

  unfoldable pub find_overloaded_objs : List ℕ → State M → LoadBalanceInfo F × State M
  find_overloaded_objs name s = for_each migrate_overloaded_irqs name (load_statistics s name, s)

module _ {M F : Type 0} (g : Glist) (f : Floating F) where
  clear_powersave_mode : ℕ → State M → State M
  clear_powersave_mode d s = set_obj s d (record (s.obj d) { powersave_mode = false })

  unfoldable pub enter_powersave : ℕ → State M → State M
  enter_powersave d s =
      let s' = set_obj s d (record (s.obj d) { powersave_mode = true }) in
      elim ((s'.obj d).interrupts) [
        | [] ↦ s'
        | i ∷ is ↦ for_each_irq (i ∷ is) force_rebalance_irq s'
      ]

  wake_all : LoadBalanceInfo F → State M → State M
  unfolding clear_powersave_mode
  wake_all lb s =
      if not (lb.num_over == 0) && not (lb.num_powersave == 0)
      then for_each clear_powersave_mode s.cpus s
      else s

  unfoldable pub change_powersave : LoadBalanceInfo F → State M → State M
  unfolding wake_all
  change_powersave lb s = elim lb.powersave [
    | none ↦ wake_all lb s
    | some d ↦
        if lb.num_over == 0 && leb s.power_thresh lb.num_under
        then enter_powersave d s
        else wake_all lb s
  ]

  unfoldable pub update_migration_status : State M → State M
  update_migration_status s =
      let (lb, s₁) = find_overloaded_objs g f s.cpus s in
      let s₂ =
        if not (s₁.power_thresh == u64_max) && ltb 5 s₁.cycle_count
        then change_powersave lb s₁
        else s₁ in
      let s₃ = (find_overloaded_objs g f s₂.cache_domains s₂).1 in
      let s₄ = (find_overloaded_objs g f s₃.packages s₃).1 in
      (find_overloaded_objs g f s₄.numa_nodes s₄).1
