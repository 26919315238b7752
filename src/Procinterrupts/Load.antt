-- ===== src/Procinterrupts/Load.antt =====
-- procinterrupts.c: parse_proc_stat and what it calls. The tree has four levels at most, so each
-- walk down or up it has four steps.
use irqbalance.Prelude.{
  ℕ, zero, suc, pos, ◌+◌, ◌/◌, ◌==◌, ◌==ℤ◌, Bool, Option, none, some, List, [], ◌∷◌, for_each,
  find_custom, length, if◌then◌else◌,
}
use irqbalance.Types.{State, IrqInfo, set_obj, set_irq}
use irqbalance.Types.Cpumask.{Cpumask}
use irqbalance.Types.Word.{add64, sub64, mul64}
use irqbalance.Classify.Lookup.{for_each_irq}

module _ {M : Type 0} where
  -- The interrupts of the last cycle.
  abbrev pub recent : IrqInfo M → ℕ
  recent info = sub64 info.irq_count info.last_irq_count

  unfoldable pub slice_of : ℕ → IrqInfo M → ℕ
  slice_of load_slice info =
      let load = mul64 (recent info) load_slice in if load == 0 then 1 else load

  unfoldable pub assign_load_slice : ℕ → ℕ → State M → State M
  assign_load_slice load_slice info s =
      set_irq s info (record (s.irq info) { load = slice_of load_slice (s.irq info) })

  unfoldable pub get_parent_branch_irq_count_share : ℕ → State M → ℕ → ℕ
  get_parent_branch_irq_count_share zero s d = (s.obj d).irq_count
  get_parent_branch_irq_count_share (suc n) s d = elim (s.obj d).parent [
    | none ↦ (s.obj d).irq_count
    | (some p) ↦
        add64 (get_parent_branch_irq_count_share n s p / length (s.obj p).children)
          (s.obj d).irq_count
  ]

  unfoldable pub get_children_branch_irq_count : ℕ → State M → ℕ → ℕ → ℕ
  get_children_branch_irq_count zero s d total = add64 total (s.obj d).irq_count
  get_children_branch_irq_count (suc n) s d total =
      add64 (for_each (get_children_branch_irq_count n s) (s.obj d).children total)
        (s.obj d).irq_count

  unfoldable pub local_irq_counts : State M → ℕ → ℕ
  local_irq_counts s d =
      for_each (get_children_branch_irq_count 4 s) (s.obj d).children
        (get_parent_branch_irq_count_share 4 s d)

  unfoldable pub compute_irq_branch_load_share : ℕ → State M → State M
  unfolding local_irq_counts
  compute_irq_branch_load_share d s =
      let counts = local_irq_counts s d in
      let load_slice = if counts == 0 then 1 else (s.obj d).load / counts in
      if length (s.obj d).interrupts == 0
      then s
      else for_each_irq (s.obj d).interrupts (assign_load_slice load_slice) s

  unfoldable pub accumulate_irq_count : State M → ℕ → ℕ → ℕ
  accumulate_irq_count s info acc = add64 acc (recent (s.irq info))

  unfoldable pub count_interrupts : ℕ → State M → State M
  unfolding accumulate_irq_count
  count_interrupts d s =
      set_obj s d
        (record (s.obj d) { irq_count = for_each (accumulate_irq_count s) (s.obj d).interrupts 0 })

  unfoldable pub accumulate_interrupts : ℕ → ℕ → State M → State M
  unfolding count_interrupts
  accumulate_interrupts zero d s = count_interrupts d s
  accumulate_interrupts (suc n) d s =
      count_interrupts d (for_each (accumulate_interrupts n) (s.obj d).children s)

  unfoldable pub accumulate_load : State M → ℕ → ℕ → ℕ
  accumulate_load s d load = add64 load (s.obj d).load

  unfoldable pub sum_load : ℕ → State M → State M
  unfolding accumulate_load
  sum_load d s =
      set_obj s d (record (s.obj d) { load = for_each (accumulate_load s) (s.obj d).children 0 })

  -- A leaf keeps the load that it has.
  unfoldable pub set_load : ℕ → ℕ → State M → State M
  unfolding sum_load
  set_load zero d s = s
  set_load (suc n) d s =
      if length (s.obj d).children == 0
      then s
      else sum_load d (for_each (set_load n) (s.obj d).children s)

-- A line of /proc/stat: whether it names a CPU, the number after "cpu", and the two loads, in
-- jiffies, that sscanf finds.
pub record StatLine : Type 0 where
  pub is_cpu : Bool
  pub cpunr : ℕ
  pub loads : Option (ℕ × ℕ)

module _ {M : Type 0} where
  unfoldable pub find_cpu_core : State M → ℕ → Option ℕ
  find_cpu_core s cpunr = find_custom (λ c. (s.obj c).number ==ℤ pos cpunr) s.cpus

  -- `to_ns` is `load * (NSEC_PER_SEC / HZ)`, of the floating point type.
  unfoldable pub update_cpu_load : (ℕ → ℕ) → ℕ × ℕ → ℕ → State M → State M
  update_cpu_load to_ns (irq_load, softirq_load) cpu s =
      let o = s.obj cpu in
      let now = add64 irq_load softirq_load in
      let load = if s.cycle_count == 0 then o.load else to_ns (sub64 now o.last_load) in
      set_obj s cpu (record o { load = load; last_load = now })

  -- A line that sscanf cannot read, or a CPU that is not in the tree, ends the loop.
  unfoldable pub count_cpu : (ℕ → ℕ) → Option (ℕ × ℕ) → Option ℕ → State M → Option (ℕ × State M)
  unfolding update_cpu_load
  count_cpu to_ns none cpu s = none
  count_cpu to_ns (some r) none s = none
  count_cpu to_ns (some r) (some c) s = some (1, update_cpu_load to_ns r c s)

  unfoldable pub propagate_loads : State M → State M
  propagate_loads s =
      let a = for_each (set_load 4) s.numa_nodes s in
      let b = for_each (accumulate_interrupts 4) a.numa_nodes a in
      let c = for_each compute_irq_branch_load_share b.cpus b in
      let d = for_each compute_irq_branch_load_share c.cache_domains c in
      let e = for_each compute_irq_branch_load_share d.packages d in
      for_each compute_irq_branch_load_share e.numa_nodes e

module _ {M : Type 0} ⦃mask : Cpumask M⦄ where
  -- One line: `none` when the loop ends there, else whether a CPU was counted.
  unfoldable pub read_stat_line : (ℕ → ℕ) → StatLine → State M → Option (ℕ × State M)
  unfolding count_cpu
  read_stat_line to_ns l s =
      let cpu = find_cpu_core s l.cpunr in
      if l.is_cpu
      then (if mask.cpu_isset l.cpunr s.banned_cpus
          then some (0, s)
          else count_cpu to_ns l.loads cpu s)
      else none

  -- The number of CPUs counted, and the state.
  unfoldable pub read_stat : (ℕ → ℕ) → List StatLine → State M → ℕ × State M
  read_stat to_ns [] s = (0, s)
  read_stat to_ns (l ∷ ls) s = elim (read_stat_line to_ns l s) [
    | none ↦ (0, s)
    | (some r) ↦ let (n, t) = read_stat to_ns ls r.1 in (r.0 + n, t)
  ]

  -- `none` is a file that cannot be read; the list is what follows the first line.
  unfoldable pub parse_proc_stat : (ℕ → ℕ) → Option (List StatLine) → State M → State M
  unfolding propagate_loads
  parse_proc_stat to_ns none s = s
  parse_proc_stat to_ns (some ls) s =
      let r = read_stat to_ns ls s in if r.0 == length s.cpus then propagate_loads r.1 else r.1
