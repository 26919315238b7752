-- ===== src/Cputree/Grown.antt =====
-- cputree.c: do_one_cpu keeps the tree graded, whatever sysfs says.
use irqbalance.Prelude.{
  ℕ, true, false, count, ◌<◌, ◌∙◌, ◌≡◌, ==_refl, not, [], ◌∷◌, ◌++◌, arith, count-append,
  if_cases_eq, pos,
}
use irqbalance.Types.{State, obj_type_cpu, obj_type_cache, obj_type_package}
use irqbalance.Types.Cpumask.{Cpumask}
use irqbalance.Cputree.Add.{
  CpuFiles, or_else, new_obj, alloc_obj, cache_mask_of, node_of_cpu, package_mask_of,
  add_cache_domain_to_package, add_cpu_to_cache_domain, add_cpu, do_one_cpu,
}
use irqbalance.Cputree.Tree.{IsTree, IsKind, alloc_obj-Grows}
use irqbalance.Cputree.Linked.{add_package-Grows, add_cache-Finds}

module _ {M : Type 0} ⦃mask : Cpumask M⦄ where
  online-IsTree :
      (s : State M) (f : M → M)
      → IsTree s
      → IsTree (record s { cpu_online_map = f s.cpu_online_map })
  online-IsTree s f v = record {
    graded = v.graded;
    direct = v.direct;
    threads = v.threads;
    nodes = v.nodes;
    packs = v.packs;
    caches = v.caches;
    fresh = v.fresh;
    fresh_node = v.fresh_node;
    fresh_pack = v.fresh_pack;
    fresh_cache = v.fresh_cache;
    fresh_thread = v.fresh_thread;
  }

  listed-IsTree :
      (s : State M) (cpu : ℕ)
      → IsTree s
      → IsKind s cpu obj_type_cpu
      → IsTree (record s { cpus = s.cpus ++ cpu ∷ [] })
  listed-IsTree s cpu v c = record {
    graded = v.graded;
    direct = v.direct;
    threads = λ d k. ground (arith, v.threads d, count-append d s.cpus (cpu ∷ []), c.kind_of, k);
    nodes = v.nodes;
    packs = v.packs;
    caches = v.caches;
    fresh = v.fresh;
    fresh_node = v.fresh_node;
    fresh_pack = v.fresh_pack;
    fresh_cache = v.fresh_cache;
    fresh_thread =
        λ x k. ground (arith, v.fresh_thread x, count-append x s.cpus (cpu ∷ []), c.there, k);
  }

  -- A CPU of that number is on the list, in a cache domain, which stands in a package.
  pub record HasCpu (cpunr : ℕ) (t : State M) : Type 0 where
    pub cpu : ℕ
    pub cache : ℕ
    pub pkg : ℕ
    pub listed : 0 < count cpu t.cpus
    pub number : (t.obj cpu).number ≡ pos cpunr
    pub is_cache : (t.obj cache).obj_type ≡ obj_type_cache
    pub in_cache : 0 < count cpu (t.obj cache).children
    pub is_package : (t.obj pkg).obj_type ≡ obj_type_package
    pub in_package : 0 < count cache (t.obj pkg).children

  add_cpu-IsTree :
      (deepest : ℕ) (f : CpuFiles M) (s : State M)
      → IsTree s
      → IsTree (add_cpu deepest f s) × HasCpu f.cpunr (add_cpu deepest f s)
  unfolding add_cpu
  add_cpu-IsTree deepest f s v =
      let alone = mask.cpu_set f.cpunr mask.cpus_clear in
      let nodeid = node_of_cpu s f in
      let cache_mask = mask.cpus_and (cache_mask_of deepest alone f.caches) s.unbanned_cpus in
      let package_mask = mask.cpus_and (package_mask_of s f nodeid alone) s.unbanned_cpus in
      let cpu = s.next_obj in
      let t = alloc_obj s (new_obj obj_type_cpu (pos f.cpunr) alone) in
      let g = alloc_obj-Grows s obj_type_cpu (pos f.cpunr) alone v in
      let r = add_cpu_to_cache_domain cpu cache_mask nodeid t in
      let c : IsKind t cpu obj_type_cpu = record {
        there = omega arith;
        kind_of = ground (arith, ==_refl cpu);
      } in
      let numbered : (t.obj cpu).number ≡ pos f.cpunr = ground (arith, ==_refl cpu) in
      let (h, i, in_cache) = add_cache-Finds cpu cache_mask nodeid t g.tree c in
      let c' = h.kinds cpu obj_type_cpu c in
      let (k, p, j, in_package) =
        add_package-Grows r.0 (or_else (pos 0) f.physical_package_id) package_mask nodeid r.1 h.tree
          i in
      let u =
        add_cache_domain_to_package r.0 (or_else (pos 0) f.physical_package_id) package_mask nodeid
          r.1 in
      (
        listed-IsTree u cpu k.tree (k.kinds cpu obj_type_cpu c'),
        record {
          cpu = cpu;
          cache = r.0;
          pkg = p;
          listed = grind (arith, count-append cpu u.cpus (cpu ∷ []), ==_refl cpu);
          number = k.numbers cpu c'.there ∙ h.numbers cpu c.there ∙ numbered;
          is_cache = (k.kinds r.0 obj_type_cache i).kind_of;
          in_cache = k.kept r.0 cpu i.there in_cache;
          is_package = j.kind_of;
          in_package = in_package;
        },
      )

  -- Adding a CPU to a tree, whatever its files say, keeps each object directly under one of the
  -- next higher kind: every child of a cache domain is a CPU, of a package a cache domain, of a node
  -- a package, and a CPU has none; and each of the lists of nodes, packages, cache domains and CPUs
  -- holds only objects of its kind. A CPU that is online and not banned is then on the list of the
  -- CPUs with its number, and stands in a cache domain that stands in a package.
  pub do_one_cpu-IsTree :
      (deepest : ℕ) (online : M) (f : CpuFiles M) (s : State M)
      → IsTree s
      → let t = do_one_cpu deepest online f s in
        let alone = mask.cpu_set f.cpunr mask.cpus_clear in
        IsTree t
        × (mask.cpu_isset f.cpunr online ≡ true
            → mask.cpus_intersects alone s.banned_cpus ≡ false
            → HasCpu f.cpunr t)
  unfolding do_one_cpu
  do_one_cpu-IsTree deepest online f s v =
      let w = online-IsTree s (mask.cpu_set f.cpunr) v in
      let (tree, has) = add_cpu-IsTree deepest f _ w in
      let P = λ (t : State M).
        IsTree t
        × (mask.cpu_isset f.cpunr online ≡ true
            → mask.cpus_intersects (mask.cpu_set f.cpunr mask.cpus_clear) s.banned_cpus ≡ false
            → HasCpu f.cpunr t) in
      if_cases_eq P (not (mask.cpu_isset f.cpunr online))
        (λ e. (v, λ o b. absurd (ground (arith, e, o))))
        (λ e.
          if_cases_eq P (mask.cpus_intersects (mask.cpu_set f.cpunr mask.cpus_clear) s.banned_cpus)
            (λ q. (w, λ o b. absurd (ground (arith, q, b)))) (λ q. (tree, λ o b. has)))
