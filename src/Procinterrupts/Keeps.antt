-- ===== src/Procinterrupts/Keeps.antt =====
-- procinterrupts.c: the accounting of loads moves no interrupt.
use irqbalance.Prelude.{
  ℕ, zero, suc, ◌≡◌, refl, Option, none, some, List, [], ◌∷◌, arith, inl, inr, for_each, if_cases,
  Option-cases,
}
use irqbalance.Types.{State, TopoObj, set_obj}
use irqbalance.Types.Cpumask.{Cpumask}
use irqbalance.Types.Places.{Place, irqs_at}
use irqbalance.Types.Invariant.{SameListing, SameListing-refl, SameListing-trans}
use irqbalance.Classify.Lookup.{for_each_irq}
use irqbalance.Procinterrupts.Load.{
  assign_load_slice, compute_irq_branch_load_share, count_interrupts, accumulate_interrupts,
  sum_load, set_load, StatLine, update_cpu_load, count_cpu, read_stat_line, read_stat,
  find_cpu_core, propagate_loads, parse_proc_stat,
}

module _ {M : Type 0} where
  set_obj-lists :
      (s : State M) (d : ℕ) (o : TopoObj M) (l : Place)
      → o.interrupts ≡ (s.obj d).interrupts
      → irqs_at (set_obj s d o) l ≡ irqs_at s l
  set_obj-lists s d o none e = refl
  set_obj-lists s d o (some p) e = ground (arith, e)

  pub set_obj-SameListing :
      (s : State M) (d : ℕ) (o : TopoObj M)
      → o.interrupts ≡ (s.obj d).interrupts
      → SameListing s (set_obj s d o)
  set_obj-SameListing s d o e = record {
    lists = λ l i. ground (arith, set_obj-lists s d o l e);
    assigned = λ i. refl;
    numbers = λ i. refl;
    db = refl;
  }

  pub for_each-SameListing :
      (cb : ℕ → State M → State M)
      → ((x : ℕ) (s : State M) → SameListing s (cb x s))
      → (xs : List ℕ) (s : State M) → SameListing s (for_each cb xs s)
  for_each-SameListing cb h [] s = SameListing-refl s
  for_each-SameListing cb h (x ∷ xs) s =
      SameListing-trans (h x s) (for_each-SameListing cb h xs (cb x s))

  assign_load_slice-SameListing : (c x : ℕ) (s : State M) → SameListing s (assign_load_slice c x s)
  unfolding assign_load_slice
  assign_load_slice-SameListing c x s = record {
    lists = λ l i. ground arith;
    assigned = λ i. ground arith;
    numbers = λ i. ground arith;
    db = refl;
  }

  for_each_irq-SameListing :
      (cb : ℕ → State M → State M)
      → ((x : ℕ) (s : State M) → SameListing s (cb x s))
      → (xs : List ℕ) (s : State M) → SameListing s (for_each_irq xs cb s)
  unfolding for_each_irq
  for_each_irq-SameListing cb h [] s = for_each-SameListing cb h s.interrupts_db s
  for_each_irq-SameListing cb h (x ∷ xs) s = for_each-SameListing cb h (x ∷ xs) s

  share-SameListing : (d : ℕ) (s : State M) → SameListing s (compute_irq_branch_load_share d s)
  unfolding compute_irq_branch_load_share
  share-SameListing d s =
      if_cases (SameListing s) _ (SameListing-refl s)
        (for_each_irq-SameListing _ (assign_load_slice-SameListing _) (s.obj d).interrupts s)

  count_interrupts-SameListing : (d : ℕ) (s : State M) → SameListing s (count_interrupts d s)
  unfolding count_interrupts
  count_interrupts-SameListing d s = set_obj-SameListing s d _ refl

  accumulate_interrupts-SameListing :
      (n d : ℕ) (s : State M) → SameListing s (accumulate_interrupts n d s)
  unfolding accumulate_interrupts
  accumulate_interrupts-SameListing zero d s = count_interrupts-SameListing d s
  accumulate_interrupts-SameListing (suc n) d s =
      SameListing-trans
        (for_each-SameListing (accumulate_interrupts n) (accumulate_interrupts-SameListing n)
          (s.obj d).children s)
        (count_interrupts-SameListing d _)

  set_load-SameListing : (n d : ℕ) (s : State M) → SameListing s (set_load n d s)
  unfolding set_load sum_load
  set_load-SameListing zero d s = SameListing-refl s
  set_load-SameListing (suc n) d s = if_cases (SameListing s) _ (SameListing-refl s) (
      SameListing-trans
        (for_each-SameListing (set_load n) (set_load-SameListing n) (s.obj d).children s)
        (set_obj-SameListing (for_each (set_load n) (s.obj d).children s) d _ refl))

  -- A reading of a line, when there is one, moves no interrupt.
  abbrev pub Steady : State M → Option (ℕ × State M) → Type 0
  Steady s none = Unit {0}
  Steady s (some r) = SameListing s r.1

  count_cpu-Steady :
      (ns : ℕ → ℕ) (a : Option (ℕ × ℕ)) (c : Option ℕ) (s : State M) → Steady s (count_cpu ns a c s)
  unfolding count_cpu update_cpu_load
  count_cpu-Steady ns none c s = tt
  count_cpu-Steady ns (some r) none s = tt
  count_cpu-Steady ns (some r) (some c) s = set_obj-SameListing s c _ refl

  propagate_loads-SameListing : (s : State M) → SameListing s (propagate_loads s)
  unfolding propagate_loads
  propagate_loads-SameListing s =
      let a = for_each (set_load 4) s.numa_nodes s in
      let b = for_each (accumulate_interrupts 4) a.numa_nodes a in
      let c = for_each compute_irq_branch_load_share b.cpus b in
      let d = for_each compute_irq_branch_load_share c.cache_domains c in
      let e = for_each compute_irq_branch_load_share d.packages d in
      let share = for_each-SameListing compute_irq_branch_load_share share-SameListing in
      SameListing-trans (for_each-SameListing (set_load 4) (set_load-SameListing 4) s.numa_nodes s)
        (SameListing-trans
          (for_each-SameListing (accumulate_interrupts 4) (accumulate_interrupts-SameListing 4)
            a.numa_nodes a)
          (SameListing-trans (share b.cpus b) (
            SameListing-trans (share c.cache_domains c)
              (SameListing-trans (share d.packages d) (share e.numa_nodes e)))))

module _ {M : Type 0} ⦃mask : Cpumask M⦄ where
  read_stat_line-Steady :
      (ns : ℕ → ℕ) (l : StatLine) (s : State M) → Steady s (read_stat_line ns l s)
  unfolding read_stat_line
  read_stat_line-Steady ns l s =
      if_cases (Steady s) l.is_cpu
        (if_cases (Steady s) (mask.cpu_isset l.cpunr s.banned_cpus) {x = some (0, s)}
          (SameListing-refl s) (count_cpu-Steady ns l.loads (find_cpu_core s l.cpunr) s))
        tt

  read_stat-SameListing :
      (ns : ℕ → ℕ) (ls : List StatLine) (s : State M) → SameListing s (read_stat ns ls s).1
  unfolding read_stat
  read_stat-SameListing ns [] s = SameListing-refl s
  read_stat-SameListing ns (l ∷ ls) s =
      let one = read_stat_line-Steady ns l s in
      elim (Option-cases (read_stat_line ns l s)) [
        | inl e ↦ rw (e, read_stat) (SameListing-refl s)
        | inr (r, e) ↦
            let here : SameListing s r.1 = rw e at one in
            rw (e, read_stat) (SameListing-trans here (read_stat-SameListing ns ls r.1))
      ]

  -- Reading the loads of the CPUs and sharing them out moves no interrupt.
  pub parse_proc_stat-SameListing :
      (ns : ℕ → ℕ) (ls : Option (List StatLine)) (s : State M)
      → SameListing s (parse_proc_stat ns ls s)
  unfolding parse_proc_stat
  parse_proc_stat-SameListing ns none s = SameListing-refl s
  parse_proc_stat-SameListing ns (some ls) s =
      let r = read_stat-SameListing ns ls s in
      if_cases (SameListing s) _ (SameListing-trans r (propagate_loads-SameListing _)) r
