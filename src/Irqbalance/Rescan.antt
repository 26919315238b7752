-- ===== src/Irqbalance/Rescan.antt =====
-- irqbalance.c: free_object_tree, build_object_tree, force_rescan, and the loop of `scan` that builds
-- the tree again.
use irqbalance.Prelude.{
  ℕ, zero, suc, ◌<◌, ◌≡◌, refl, Bool, true, false, not, ◌==◌, Option, List, [], arith,
  if◌then◌else◌, if_cases_eq,
}
use irqbalance.Types.{State}
use irqbalance.Types.Cpumask.{Cpumask}
use irqbalance.Classify.Database.{Sysfs, free_irq_db, rebuild_irq_db}
use irqbalance.Classify.Known.{IsSound}
use irqbalance.Classify.Rebuilt.{rebuild_irq_db-IsSound}
use irqbalance.Procinterrupts.Lines.{ProcLine, collect_full_irq_list}
use irqbalance.Numa.Build.{NodeEntry, build_numa_node_list}
use irqbalance.Cputree.Parse.{BanSources, CpuEntry, parse_cpu_tree}
use irqbalance.Cputree.Clear.{free_numa_node_list, clear_cpu_tree}
use irqbalance.Cputree.Freed.{InTree, freed-Unlisted, freed_nodes}
use irqbalance.Cputree.Unlisted.{Unlisted}
use irqbalance.Cputree.Built.{build_numa-Unlisted, parse_cpu_tree-Unlisted}

-- What the kernel and the environment say of the machine while a tree is built. `irqs` are the lines
-- of /proc/interrupts.
pub record Topology (M : Type 0) : Type 0 where
  pub nodes : Option (List (NodeEntry M))
  pub deepest_cache : ℕ
  pub bans : BanSources M
  pub online_cpus : M
  pub cpus : Option (List (CpuEntry M))
  pub sys : Sysfs M
  pub irqs : List ProcLine

module _ {M : Type 0} ⦃mask : Cpumask M⦄ where
  unfoldable pub build_object_tree : Topology M → State M → State M
  build_object_tree w s =
      let t =
        parse_cpu_tree w.deepest_cache w.bans w.online_cpus w.cpus
          (build_numa_node_list w.nodes s) in
      rebuild_irq_db w.sys (collect_full_irq_list t w.irqs) t

  unfoldable pub free_object_tree : State M → State M
  free_object_tree s = free_irq_db (clear_cpu_tree (free_numa_node_list s))

  -- `free_object_tree(); …; need_rebuild = 0;`
  unfoldable pub start_over : State M → State M
  unfolding free_object_tree
  start_over s = record (free_object_tree s) { need_rebuild = false }

  -- The do loop. `build` is build_object_tree as it runs with so many tries left: a calloc that fails
  -- in it sets need_rebuild. The result says whether the loop ended with a tree.
  unfoldable pub rebuild : (ℕ → State M → State M) → ℕ → State M → Bool × State M
  unfolding start_over
  rebuild build zero s = (false, free_object_tree s)
  rebuild build (suc tries) s =
      let t = build tries (start_over s) in
      let rest = rebuild build tries t in if t.need_rebuild then rest else (true, t)

module _ {M : Type 0} where
  unfoldable pub force_rescan : State M → State M
  force_rescan s = if not (s.cycle_count == 0) then record s { need_rescan = true } else s

module _ {M : Type 0} ⦃mask : Cpumask M⦄ where
  -- The tree is gone: no object, no interrupt, nothing that waits.
  pub record IsFreed (s : State M) : Type 0 where
    pub numa_nodes : s.numa_nodes ≡ []
    pub packages : s.packages ≡ []
    pub cache_domains : s.cache_domains ≡ []
    pub cpus : s.cpus ≡ []
    pub interrupts_db : s.interrupts_db ≡ []
    pub rebalance_irq_list : s.rebalance_irq_list ≡ []
    pub banned_irqs : s.banned_irqs ≡ []

  free_object_tree-IsFreed : (s : State M) → IsFreed (free_object_tree s)
  unfolding free_object_tree free_irq_db clear_cpu_tree
  free_object_tree-IsFreed s = record {
    numa_nodes = freed_nodes s;
    packages = refl;
    cache_domains = refl;
    cpus = refl;
    interrupts_db = refl;
    rebalance_irq_list = refl;
    banned_irqs = refl;
  }

  -- A machine from which everything was freed, and no memory is missing.
  abbrev fresh : State M → State M
  fresh s = record (free_object_tree s) { need_rebuild = false }

  -- The state after `n` builds, one behind the other, each from a fresh machine.
  abbrev pub after_builds : (ℕ → State M → State M) → ℕ → ℕ → State M → State M
  after_builds build tries zero s = s
  after_builds build zero (suc n) s = s
  after_builds build (suc tries) (suc n) s = after_builds build tries n (build tries (fresh s))

  -- The first `n` builds were short of memory.
  abbrev pub AllFail : (ℕ → State M → State M) → ℕ → ℕ → State M → Type 0
  AllFail build tries n s =
      (j : ℕ) → j < n → (after_builds build tries (suc j) s).need_rebuild ≡ true

  pub record IsBuilt (build : ℕ → State M → State M) (tries : ℕ) (s t : State M) : Type 0 where
    pub failed : ℕ
    pub in_time : failed < tries
    pub all_failed : AllFail build tries failed s
    pub complete : t.need_rebuild ≡ false
    pub same : t ≡ after_builds build tries (suc failed) s

  pub record IsGivenUp (build : ℕ → State M → State M) (tries : ℕ) (s t : State M) : Type 0 where
    pub all_failed : AllFail build tries tries s
    pub same : t ≡ free_object_tree (after_builds build tries tries s)
    pub freed : IsFreed t

  AllFail-suc :
      (build : ℕ → State M → State M) (tries n : ℕ) (s : State M)
      → (build tries (fresh s)).need_rebuild ≡ true
      → AllFail build tries n (build tries (fresh s))
      → AllFail build (suc tries) (suc n) s
  AllFail-suc build tries n s e h zero l = e
  AllFail-suc build tries n s e h (suc j) l = h j (omega (arith, l))

  -- Whatever the builder does, the loop ends. It succeeds with the state of the first build that is
  -- not short of memory, if that is one of as many as there are tries, each of which starts from a
  -- machine from which all was freed and with the mark of missing memory taken back. It gives up
  -- only after all of the tries were short of memory, and then what the last one left is freed: the
  -- tree, the database and the lists that hang on it are empty.
  pub rebuild_lem :
      (build : ℕ → State M → State M) (tries : ℕ) (s : State M)
      → let r = rebuild build tries s in
        (r.0 ≡ true → IsBuilt build tries s r.1) × (r.0 ≡ false → IsGivenUp build tries s r.1)
  unfolding rebuild start_over
  rebuild_lem build zero s = (
    λ e. absurd cc,
    λ e. record {
      all_failed = λ j h. absurd (omega (arith, h));
      same = refl;
      freed = free_object_tree-IsFreed s;
    },
  )
  rebuild_lem build (suc tries) s =
      let t = build tries (fresh s) in
      let ih = rebuild_lem build tries t in
      let P = λ (r : Bool × State M).
        (r.0 ≡ true → IsBuilt build (suc tries) s r.1)
        × (r.0 ≡ false → IsGivenUp build (suc tries) s r.1) in
      if_cases_eq P t.need_rebuild
        (λ m. (
          λ e.
              let b = ih.0 e in
              record {
                failed = suc b.failed;
                in_time = omega (arith, b.in_time);
                all_failed = AllFail-suc build tries b.failed s m b.all_failed;
                complete = b.complete;
                same = b.same;
              },
          λ e.
              let b = ih.1 e in
              record {
                all_failed = AllFail-suc build tries tries s m b.all_failed;
                same = b.same;
                freed = b.freed;
              },
        ))
        (λ n. (
          λ _. record {
            failed = 0;
            in_time = omega arith;
            all_failed = λ j h. absurd (omega (arith, h));
            complete = n;
            same = refl;
          },
          λ e. absurd cc,
        ))

  freed-clean : (s : State M) → InTree s → Unlisted (start_over s)
  unfolding start_over free_irq_db
  freed-clean s v = record { empty = (freed-Unlisted s v).empty }

  -- When every object that lists an interrupt is in the tree, freeing the tree and building it
  -- again, whatever the kernel now says of the machine, gives a database in order: every number
  -- names one interrupt, and what is listed is listed once and where it says. No interrupt of the
  -- old tree is left on an object of the new one.
  pub build_object_tree-IsSound :
      (w : Topology M) (s : State M) → InTree s → IsSound (build_object_tree w (start_over s))
  unfolding build_object_tree
  build_object_tree-IsSound w s v =
      let u = start_over s in
      let t = build_numa_node_list w.nodes u in
      let built = parse_cpu_tree w.deepest_cache w.bans w.online_cpus w.cpus t in
      rebuild_irq_db-IsSound w.sys (collect_full_irq_list built w.irqs) built
        (parse_cpu_tree-Unlisted w.deepest_cache w.bans w.online_cpus w.cpus t
          (build_numa-Unlisted w.nodes u (freed-clean s v))).empty
