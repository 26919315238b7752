-- ===== src/Cputree/Linked.antt =====
-- cputree.c: what links a CPU, its cache domain, its package and its node, and the tree that grows.
use irqbalance.Prelude.{
  ℕ, ℤ, count, ◌<◌, ◌≡◌, ◌==ℤ◌, ==_refl, not, ◌&&◌, some, [], ◌∷◌, ◌++◌, arith, inl, inr,
  count-append, find_custom-some, Option-cases, if_cases, if_cases_eq, pos, if◌then◌else◌,
}
use irqbalance.Types.{
  State, ObjType, obj_type_cpu, obj_type_cache, obj_type_package, obj_type_node, obj_type_eq,
  numa_no_node, set_obj,
}
use irqbalance.Types.Cpumask.{Cpumask}
use irqbalance.Numa.{get_numa_node}
use irqbalance.Cputree.Add.{
  mem, add_child, link_node, add_numa_node_to_topo_obj, add_node_if_known, with_mask, find_package,
  find_cache, add_cache_domain_to_package, add_cpu_to_cache_domain,
}
use irqbalance.Cputree.Tree.{
  IsTree, IsKind, Grows, Grows-refl, Grows-trans, add_child-Grows, add_child-listed,
  alloc_obj-Grows,
}

module _ {M : Type 0} where
  abbrev linked : ℕ → ℕ → State M → State M
  linked obj node s =
      set_obj s obj (record (s.obj obj) { numa_nodes = (s.obj obj).numa_nodes ++ node ∷ [] })

  linked-Grows : (obj node : ℕ) (s : State M) → IsTree s → Grows s (linked obj node s)
  linked-Grows obj node s v = record {
    tree = record {
      graded = λ d x k. ground (arith, v.graded d x, k);
      direct = λ d x k. ground (arith, v.direct d x, k);
      threads = λ d k. ground (arith, v.threads d, k);
      nodes = λ d k. ground (arith, v.nodes d, k);
      packs = λ d k. ground (arith, v.packs d, k);
      caches = λ d k. ground (arith, v.caches d, k);
      fresh = λ d x k. ground (arith, v.fresh d x, k);
      fresh_node = v.fresh_node;
      fresh_pack = v.fresh_pack;
      fresh_cache = v.fresh_cache;
      fresh_thread = v.fresh_thread;
    };
    kinds = λ d k m. record { there = m.there; kind_of = ground (arith, m.kind_of) };
    numbers = λ d m. ground arith;
    kept = λ d x m n. ground (arith, n);
  }

  link_node-Grows :
      (obj node : ℕ) (kind : ObjType) (s : State M)
      → IsTree s
      → IsKind s obj kind
      → IsKind s node obj_type_node
      → Grows s (link_node obj node s)
  unfolding link_node
  link_node-Grows obj node kind s v o n =
      let t = if mem node (s.obj obj).numa_nodes then s else linked obj node s in
      let g : Grows s t =
        if_cases (Grows s) (mem node (s.obj obj).numa_nodes) (Grows-refl s v)
          (linked-Grows obj node s v) in
      let o' = g.kinds obj kind o in
      let n' = g.kinds node obj_type_node n in
      if_cases_eq (Grows s) (not s.numa_avail && obj_type_eq (s.obj obj).obj_type obj_type_package)
        (λ e. Grows-trans g (
          add_child-Grows node obj t g.tree o'.there
            (ground (arith, e, o.kind_of, o'.kind_of, n'.kind_of))))
        (λ e. g)

  numa_node-Kind :
      (s : State M) (nodeid : ℤ) (node : ℕ)
      → IsTree s
      → get_numa_node s nodeid ≡ some node
      → IsKind s node obj_type_node
  unfolding get_numa_node
  numa_node-Kind s nodeid node v e =
      let f = find_custom-some _ s.numa_nodes e in
      record { there = grind (arith, v.fresh_node node, f.1); kind_of = v.nodes node f.1 }

  add_node_if_known-Grows :
      (obj : ℕ) (nodeid : ℤ) (kind : ObjType) (s : State M)
      → IsTree s
      → IsKind s obj kind
      → Grows s (add_node_if_known obj nodeid s)
  unfolding add_node_if_known add_numa_node_to_topo_obj
  add_node_if_known-Grows obj nodeid kind s v o =
      let inner : Grows s (add_numa_node_to_topo_obj obj nodeid s) =
        elim (Option-cases (get_numa_node s nodeid)) [
          | inl e ↦ rw (e, add_numa_node_to_topo_obj) (Grows-refl s v)
          | inr (node, e) ↦
              rw (e, add_numa_node_to_topo_obj)
                (if_cases (Grows s) (s.numa_avail && (s.obj node).number ==ℤ numa_no_node)
                  (Grows-refl s v)
                  (link_node-Grows obj node kind s v o (numa_node-Kind s nodeid node v e)))
        ] in
      if_cases (Grows s) _ inner (Grows-refl s v)

module _ {M : Type 0} ⦃mask : Cpumask M⦄ where
  -- The object that is found or made, of the kind.
  abbrev pub Finds : State M → ObjType → ℕ × State M → Type 0
  Finds s kind r = Grows s r.1 × IsKind r.1 r.0 kind

  find_package-Finds :
      (n : ℤ) (m : M) (s : State M) → IsTree s → Finds s obj_type_package (find_package n m s)
  unfolding find_package
  find_package-Finds n m s v = elim (Option-cases (with_mask s m s.packages)) [
    | inl e ↦
        let g = alloc_obj-Grows s obj_type_package n m v in
        let w = g.tree in
        rw (e, find_package)
          (
            record {
              tree = record {
                graded = w.graded;
                direct = w.direct;
                threads = w.threads;
                nodes = w.nodes;
                packs = λ d k.
                    ground (arith, w.packs d, count-append d s.packages (s.next_obj ∷ []), k);
                caches = w.caches;
                fresh = w.fresh;
                fresh_node = w.fresh_node;
                fresh_pack = λ x k.
                    ground (arith, w.fresh_pack x, count-append x s.packages (s.next_obj ∷ []), k);
                fresh_cache = w.fresh_cache;
                fresh_thread = w.fresh_thread;
              };
              kinds =
                  λ d k h. let i = g.kinds d k h in record { there = i.there; kind_of = i.kind_of };
              numbers = g.numbers;
              kept = g.kept;
            },
            record { there = omega arith; kind_of = ground (arith, ==_refl s.next_obj) },
          )
    | inr (p, e) ↦
        let f = find_custom-some _ s.packages e in
        rw (e, find_package)
          (
            Grows-refl s v,
            record { there = grind (arith, v.fresh_pack p, f.1); kind_of = v.packs p f.1 },
          )
  ]

  find_cache-Finds : (m : M) (s : State M) → IsTree s → Finds s obj_type_cache (find_cache m s)
  unfolding find_cache
  find_cache-Finds m s v = elim (Option-cases (with_mask s m s.cache_domains)) [
    | inl e ↦
        let g = alloc_obj-Grows s obj_type_cache (pos s.cache_domain_count) m v in
        let w = g.tree in
        rw (e, find_cache)
          (
            record {
              tree = record {
                graded = w.graded;
                direct = w.direct;
                threads = w.threads;
                nodes = w.nodes;
                packs = w.packs;
                caches = λ d k.
                    ground (arith, w.caches d, count-append d s.cache_domains (s.next_obj ∷ []), k);
                fresh = w.fresh;
                fresh_node = w.fresh_node;
                fresh_pack = w.fresh_pack;
                fresh_cache = λ x k.
                    ground
                      (arith, w.fresh_cache x, count-append x s.cache_domains (s.next_obj ∷ []), k);
                fresh_thread = w.fresh_thread;
              };
              kinds =
                  λ d k h. let i = g.kinds d k h in record { there = i.there; kind_of = i.kind_of };
              numbers = g.numbers;
              kept = g.kept;
            },
            record { there = omega arith; kind_of = ground (arith, ==_refl s.next_obj) },
          )
    | inr (p, e) ↦
        let f = find_custom-some _ s.cache_domains e in
        rw (e, find_cache)
          (
            Grows-refl s v,
            record { there = grind (arith, v.fresh_cache p, f.1); kind_of = v.caches p f.1 },
          )
  ]

  -- The tree grows, and the cache domain stands in a package.
  pub add_package-Grows :
      (cache : ℕ) (n : ℤ) (m : M) (nodeid : ℤ) (s : State M)
      → IsTree s
      → IsKind s cache obj_type_cache
      → let t = add_cache_domain_to_package cache n m nodeid s in
        Grows s t × (p : ℕ) × IsKind t p obj_type_package × (0 < count cache (t.obj p).children)
  unfolding add_cache_domain_to_package
  add_package-Grows cache n m nodeid s v c =
      let r = find_package n m s in
      let (g, i) = find_package-Finds n m s v in
      let c' = g.kinds cache obj_type_cache c in
      let a =
        add_child-Grows r.0 cache r.1 g.tree c'.there (ground (arith, c'.kind_of, i.kind_of)) in
      let i' = a.kinds r.0 obj_type_package i in
      let b =
        add_node_if_known-Grows r.0 nodeid obj_type_package (add_child r.0 cache r.1) a.tree i' in
      (
        Grows-trans g (Grows-trans a b),
        r.0,
        b.kinds r.0 obj_type_package i',
        b.kept r.0 cache i'.there (add_child-listed r.0 cache r.1),
      )

  -- The CPU stands in the cache domain.
  pub add_cache-Finds :
      (cpu : ℕ) (m : M) (nodeid : ℤ) (s : State M)
      → IsTree s
      → IsKind s cpu obj_type_cpu
      → let r = add_cpu_to_cache_domain cpu m nodeid s in
        Grows s r.1 × IsKind r.1 r.0 obj_type_cache × (0 < count cpu (r.1.obj r.0).children)
  unfolding add_cpu_to_cache_domain
  add_cache-Finds cpu m nodeid s v c =
      let r = find_cache m s in
      let (g, i) = find_cache-Finds m s v in
      let c' = g.kinds cpu obj_type_cpu c in
      let a = add_child-Grows r.0 cpu r.1 g.tree c'.there (ground (arith, c'.kind_of, i.kind_of)) in
      let i' = a.kinds r.0 obj_type_cache i in
      let b = add_node_if_known-Grows r.0 nodeid obj_type_cache (add_child r.0 cpu r.1) a.tree i' in
      (
        Grows-trans g (Grows-trans a b),
        b.kinds r.0 obj_type_cache i',
        b.kept r.0 cpu i'.there (add_child-listed r.0 cpu r.1),
      )
