-- ===== src/Cputree/Clear.antt =====
-- cputree.c: clear_work_stats, clear_slots and clear_cpu_tree, and free_numa_node_list of numa.c. The tree has four levels at most.
use irqbalance.Prelude.{ℕ, zero, suc, [], for_each}
use irqbalance.Types.{State, set_obj, set_irq, int_max}
use irqbalance.Types.Cpumask.{Cpumask}
use irqbalance.Classify.Lookup.{for_each_irq}

module _ {M : Type 0} where
  abbrev pub clear_irq_stats : ℕ → State M → State M
  clear_irq_stats info s = set_irq s info (record (s.irq info) { load = 0 })

  -- An object without interrupts hands an empty list to for_each_irq, which clears the loads of the
  -- whole database.
  unfoldable pub clear_obj_stats : ℕ → ℕ → State M → State M
  clear_obj_stats zero d s = for_each_irq (s.obj d).interrupts clear_irq_stats s
  clear_obj_stats (suc n) d s =
      let t = for_each (clear_obj_stats n) (s.obj d).children s in
      for_each_irq (t.obj d).interrupts clear_irq_stats t

  unfoldable pub clear_work_stats : State M → State M
  clear_work_stats s = for_each (clear_obj_stats 4) s.numa_nodes s

  unfoldable pub clear_obj_slots : ℕ → ℕ → State M → State M
  clear_obj_slots zero d s = set_obj s d (record (s.obj d) { slots_left = int_max })
  clear_obj_slots (suc n) d s =
      let t = set_obj s d (record (s.obj d) { slots_left = int_max }) in
      for_each (clear_obj_slots n) (t.obj d).children t

  unfoldable pub clear_slots : State M → State M
  clear_slots s = for_each (clear_obj_slots 4) s.numa_nodes s

  -- The lists of the object go, and the object with them.
  unfoldable pub free_cpu_topo : ℕ → State M → State M
  free_cpu_topo d s =
      set_obj s d (record (s.obj d) { children = []; interrupts = []; numa_nodes = [] })

  unfoldable pub free_numa_node_list : State M → State M
  unfolding free_cpu_topo
  free_numa_node_list s =
      let t = for_each free_cpu_topo s.numa_nodes s in record t { numa_nodes = [] }

module _ {M : Type 0} ⦃mask : Cpumask M⦄ where
  unfoldable pub clear_cpu_tree : State M → State M
  unfolding free_cpu_topo
  clear_cpu_tree s =
      let t =
        for_each free_cpu_topo s.cpus
          (for_each free_cpu_topo s.cache_domains (for_each free_cpu_topo s.packages s)) in
      record t {
        packages = [];
        cache_domains = [];
        cache_domain_count = 0;
        cpus = [];
        cpu_online_map = mask.cpus_clear;
      }
