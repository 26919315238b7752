-- ===== src/Cputree/Built.antt =====
-- The nodes and the CPUs of a machine are built without an interrupt on them, and what is freed has
-- none left.
use irqbalance.Prelude.{
  ℕ, ℤ, pos, Option, none, some, List, arith, for_each, if_cases, Option-cases, inl, inr,
}
use irqbalance.Types.{
  State, ObjType, obj_type_cpu, obj_type_cache, obj_type_package, obj_type_node, numa_no_node,
}
use irqbalance.Types.Cpumask.{Cpumask}
use irqbalance.Numa.Build.{
  NodeEntry, add_one_node, add_entry, build_numa_node_list, connect_cpu_mem_topo,
}
use irqbalance.Cputree.Add.{
  CpuFiles, new_obj, alloc_obj, or_else, find_package, find_cache, with_mask, cache_mask_of,
  package_mask_of, node_of_cpu, add_cpu_to_cache_domain, add_cache_domain_to_package, add_cpu,
  do_one_cpu,
}
use irqbalance.Cputree.Parse.{
  BanSources, CpuEntry, setup_banned_cpus, ban_cpus, parse_cpu_entry, parse_cpu_tree,
}
use irqbalance.Cputree.Unlisted.{
  Unlisted, for_each-Unlisted, add_child-Unlisted, add_node_if_known-Unlisted, connect-Unlisted,
}

module _ {M : Type 0} ⦃mask : Cpumask M⦄ where
  alloc-Unlisted :
      (s : State M) (kind : ObjType) (n : ℤ) (m : M)
      → Unlisted s
      → Unlisted (alloc_obj s (new_obj kind n m))
  alloc-Unlisted s kind n m u = record { empty = λ q. ground (arith, u.empty q) }

  find_package-Unlisted :
      (n : ℤ) (m : M) (s : State M) → Unlisted s → Unlisted (find_package n m s).1
  unfolding find_package
  find_package-Unlisted n m s u = elim (Option-cases (with_mask s m s.packages)) [
    | inl e ↦
        rw (e, find_package) (record { empty = (alloc-Unlisted s obj_type_package n m u).empty })
    | inr (p, e) ↦ rw (e, find_package) u
  ]

  find_cache-Unlisted : (m : M) (s : State M) → Unlisted s → Unlisted (find_cache m s).1
  unfolding find_cache
  find_cache-Unlisted m s u = elim (Option-cases (with_mask s m s.cache_domains)) [
    | inl e ↦
        rw (e, find_cache)
          (record {
            empty = (alloc-Unlisted s obj_type_cache (pos s.cache_domain_count) m u).empty;
          })
    | inr (p, e) ↦ rw (e, find_cache) u
  ]

  add_package-Unlisted :
      (c : ℕ) (n : ℤ) (m : M) (nodeid : ℤ) (s : State M)
      → Unlisted s
      → Unlisted (add_cache_domain_to_package c n m nodeid s)
  unfolding add_cache_domain_to_package
  add_package-Unlisted c n m nodeid s u =
      let r = find_package n m s in
      add_node_if_known-Unlisted r.0 nodeid _
        (add_child-Unlisted r.0 c r.1 (find_package-Unlisted n m s u))

  add_cache-Unlisted :
      (c : ℕ) (m : M) (nodeid : ℤ) (s : State M)
      → Unlisted s
      → Unlisted (add_cpu_to_cache_domain c m nodeid s).1
  unfolding add_cpu_to_cache_domain
  add_cache-Unlisted c m nodeid s u =
      let r = find_cache m s in
      add_node_if_known-Unlisted r.0 nodeid _
        (add_child-Unlisted r.0 c r.1 (find_cache-Unlisted m s u))

  add_cpu-Unlisted :
      (deepest : ℕ) (f : CpuFiles M) (s : State M) → Unlisted s → Unlisted (add_cpu deepest f s)
  unfolding add_cpu
  add_cpu-Unlisted deepest f s u =
      let alone = mask.cpu_set f.cpunr mask.cpus_clear in
      let nodeid = node_of_cpu s f in
      let cache_mask = mask.cpus_and (cache_mask_of deepest alone f.caches) s.unbanned_cpus in
      let package_mask = mask.cpus_and (package_mask_of s f nodeid alone) s.unbanned_cpus in
      let t = alloc_obj s (new_obj obj_type_cpu (pos f.cpunr) alone) in
      let v = alloc-Unlisted s obj_type_cpu (pos f.cpunr) alone u in
      let r = add_cpu_to_cache_domain s.next_obj cache_mask nodeid t in
      let w = add_cache-Unlisted s.next_obj cache_mask nodeid t v in
      record {
        empty =
            (add_package-Unlisted r.0 (or_else (pos 0) f.physical_package_id) package_mask nodeid
              r.1 w).empty;
      }

  do_one_cpu-Unlisted :
      (deepest : ℕ) (online : M) (f : CpuFiles M) (s : State M)
      → Unlisted s
      → Unlisted (do_one_cpu deepest online f s)
  unfolding do_one_cpu
  do_one_cpu-Unlisted deepest online f s u =
      let t = record s { cpu_online_map = mask.cpu_set f.cpunr s.cpu_online_map } in
      let v : Unlisted t = record { empty = u.empty } in
      if_cases Unlisted _ u (if_cases Unlisted _ v (add_cpu-Unlisted deepest f t v))

  add_one_node-Unlisted : (n : ℤ) (m : M) (s : State M) → Unlisted s → Unlisted (add_one_node n m s)
  unfolding add_one_node
  add_one_node-Unlisted n m s u = record { empty = (alloc-Unlisted s obj_type_node n _ u).empty }

  pub build_numa-Unlisted :
      (entries : Option (List (NodeEntry M))) (s : State M)
      → Unlisted s
      → Unlisted (build_numa_node_list entries s)
  unfolding build_numa_node_list add_entry
  build_numa-Unlisted none s u = add_one_node-Unlisted numa_no_node mask.cpus_clear s u
  build_numa-Unlisted (some es) s u =
      let v = add_one_node-Unlisted numa_no_node mask.cpus_clear s u in
      if_cases Unlisted _ v (
        for_each-Unlisted add_entry es _
          (λ e t w. if_cases Unlisted _ (add_one_node-Unlisted _ e.cpumap t w) w) v)

  ban_cpus-Unlisted : (b : BanSources M) (s : State M) → Unlisted s → Unlisted (ban_cpus b s)
  unfolding ban_cpus setup_banned_cpus
  ban_cpus-Unlisted b s u = record { empty = u.empty }

  parse_cpu_entry-Unlisted :
      (deepest : ℕ) (online : M) (e : CpuEntry M) (s : State M)
      → Unlisted s
      → Unlisted (parse_cpu_entry deepest online e s)
  unfolding parse_cpu_entry
  parse_cpu_entry-Unlisted deepest online e s u =
      if_cases Unlisted _ (do_one_cpu-Unlisted deepest online e.files s u) u

  pub parse_cpu_tree-Unlisted :
      (deepest : ℕ) (b : BanSources M) (online : M) (entries : Option (List (CpuEntry M)))
      (s : State M)
      → Unlisted s
      → Unlisted (parse_cpu_tree deepest b online entries s)
  unfolding parse_cpu_tree
  parse_cpu_tree-Unlisted deepest b online none s u = ban_cpus-Unlisted b s u
  parse_cpu_tree-Unlisted deepest b online (some es) s u =
      let t = for_each (parse_cpu_entry deepest online) es (ban_cpus b s) in
      for_each-Unlisted (connect_cpu_mem_topo 4) t.packages t (connect-Unlisted 4) (
        for_each-Unlisted (parse_cpu_entry deepest online) es (ban_cpus b s)
          (parse_cpu_entry-Unlisted deepest online) (ban_cpus-Unlisted b s u))
