-- ===== src/Cputree/Add.antt =====
-- cputree.c: do_one_cpu and the objects above the CPU that it finds or makes.
use irqbalance.Prelude.{
  ℕ, ℤ, pos, ◌+◌, ◌-◌, ltb, ltb_ℤ, ◌==◌, ◌==ℤ◌, Bool, false, not, ◌&&◌, ◌||◌, Option, none, some,
  List, [], ◌∷◌, ◌++◌, find_custom, is_some, if◌then◌else◌,
}
use irqbalance.Types.{
  State, TopoObj, ObjType, obj_type_cpu, obj_type_cache, obj_type_package, obj_type_eq,
  numa_no_node, set_obj,
}
use irqbalance.Types.Cpumask.{Cpumask}
use irqbalance.Numa.{get_numa_node}

-- The files of one CPU: `none` for what cannot be read. `caches` are the masks of cache/index1,
-- cache/index2, … as far as they exist; `node` is the number in the name of the link to the node.
pub record CpuFiles (M : Type 0) : Type 0 where
  pub cpunr : ℕ
  pub core_siblings : Option M
  pub physical_package_id : Option ℤ
  pub caches : List (Option M)
  pub node : Option ℤ

abbrev pub mem : ℕ → List ℕ → Bool
mem x l = is_some (find_custom (λ y. x == y) l)

abbrev pub or_else {ℓ} : {A : Type ℓ} → A → Option A → A
or_else a none = a
or_else a (some b) = b

module _ {M : Type 0} ⦃mask : Cpumask M⦄ where
  -- `calloc(1, sizeof(struct topo_obj))`, with what the callers set.
  abbrev pub new_obj : ObjType → ℤ → M → TopoObj M
  new_obj kind number m = record {
    load = 0;
    last_load = 0;
    irq_count = 0;
    obj_type = kind;
    number = number;
    powersave_mode = false;
    mask = m;
    interrupts = [];
    parent = none;
    children = [];
    numa_nodes = [];
    slots_left = pos 0;
  }

  abbrev pub alloc_obj : State M → TopoObj M → State M
  alloc_obj s o = record (set_obj s s.next_obj o) { next_obj = s.next_obj + 1 }

  -- The mask of the deepest cache that exists, up to `deepest_cache`; the CPU alone if that cannot be
  -- read or there is none.
  unfoldable pub cache_mask_of : ℕ → M → List (Option M) → M
  cache_mask_of deepest_cache alone [] = alone
  cache_mask_of deepest_cache alone (c ∷ cs) = pick deepest_cache c cs
    where
      pick : ℕ → Option M → List (Option M) → M
      pick left c [] = or_else alone c
      pick left c (d ∷ ds) =
          let deeper = pick (left - 1) d ds in if left == 1 then or_else alone c else deeper

module _ {M : Type 0} where
  -- Appended once, and only then is the parent set.
  unfoldable pub add_child : ℕ → ℕ → State M → State M
  add_child parent child s =
      let t =
        set_obj s parent
          (record (s.obj parent) { children = (s.obj parent).children ++ child ∷ [] }) in
      if mem child (s.obj parent).children
      then s
      else set_obj t child (record (t.obj child) { parent = some parent })

  unfoldable pub link_node : ℕ → ℕ → State M → State M
  unfolding add_child
  link_node obj node s =
      let linked =
        set_obj s obj (record (s.obj obj) { numa_nodes = (s.obj obj).numa_nodes ++ node ∷ [] }) in
      let t = if mem node (s.obj obj).numa_nodes then s else linked in
      if not s.numa_avail && obj_type_eq (s.obj obj).obj_type obj_type_package
      then add_child node obj t
      else t

  unfoldable pub add_numa_node_to_topo_obj : ℕ → ℤ → State M → State M
  unfolding link_node
  add_numa_node_to_topo_obj obj nodeid s = elim (get_numa_node s nodeid) [
    | none ↦ s
    | (some node) ↦
        if s.numa_avail && (s.obj node).number ==ℤ numa_no_node then s else link_node obj node s
  ]

  -- `if (!numa_avail || (nodeid > NUMA_NO_NODE))`
  unfoldable pub add_node_if_known : ℕ → ℤ → State M → State M
  unfolding add_numa_node_to_topo_obj
  add_node_if_known obj nodeid s =
      if not s.numa_avail || ltb_ℤ numa_no_node nodeid
      then add_numa_node_to_topo_obj obj nodeid s
      else s

module _ {M : Type 0} ⦃mask : Cpumask M⦄ where
  abbrev pub with_mask : State M → M → List ℕ → Option ℕ
  with_mask s m l = find_custom (λ d. mask.cpus_equal m (s.obj d).mask) l

  -- The package of that mask, made if there is none.
  unfoldable pub find_package : ℤ → M → State M → ℕ × State M
  find_package packageid package_mask s = elim (with_mask s package_mask s.packages) [
    | (some p) ↦ (p, s)
    | none ↦
        let t = alloc_obj s (new_obj obj_type_package packageid package_mask) in
        (s.next_obj, record t { packages = s.packages ++ s.next_obj ∷ [] })
  ]

  unfoldable pub add_cache_domain_to_package : ℕ → ℤ → M → ℤ → State M → State M
  unfolding find_package add_child add_node_if_known
  add_cache_domain_to_package cache packageid package_mask nodeid s =
      let (pkg, t) = find_package packageid package_mask s in
      add_node_if_known pkg nodeid (add_child pkg cache t)

  unfoldable pub find_cache : M → State M → ℕ × State M
  find_cache cache_mask s = elim (with_mask s cache_mask s.cache_domains) [
    | (some c) ↦ (c, s)
    | none ↦
        let t = alloc_obj s (new_obj obj_type_cache (pos s.cache_domain_count) cache_mask) in
        (
          s.next_obj,
          record t {
            cache_domains = s.cache_domains ++ s.next_obj ∷ [];
            cache_domain_count = s.cache_domain_count + 1;
          },
        )
  ]

  unfoldable pub add_cpu_to_cache_domain : ℕ → M → ℤ → State M → ℕ × State M
  unfolding find_cache add_child add_node_if_known
  add_cpu_to_cache_domain cpu cache_mask nodeid s =
      let (cache, t) = find_cache cache_mask s in
      (cache, add_node_if_known cache nodeid (add_child cache cpu t))

  -- The package's mask is that of the node where the node is smaller.
  unfoldable pub within_node : State M → Option ℕ → M → M
  within_node s none package_mask = package_mask
  within_node s (some node) package_mask =
      let m = (s.obj node).mask in
      if ltb (mask.cpus_weight m) (mask.cpus_weight package_mask)
      then mask.cpus_and package_mask m
      else package_mask

  unfoldable pub package_mask_of : State M → CpuFiles M → ℤ → M → M
  unfolding within_node
  package_mask_of s f nodeid alone =
      let m = or_else alone f.core_siblings in
      if s.numa_avail then within_node s (get_numa_node s nodeid) m else m

  unfoldable pub node_of_cpu : State M → CpuFiles M → ℤ
  node_of_cpu s f = if s.numa_avail then or_else numa_no_node f.node else numa_no_node

  -- The CPU, the cache domain above it, and the package above that.
  unfoldable pub add_cpu : ℕ → CpuFiles M → State M → State M
  unfolding add_cpu_to_cache_domain add_cache_domain_to_package package_mask_of node_of_cpu
      cache_mask_of
  add_cpu deepest_cache f s =
      let alone = mask.cpu_set f.cpunr mask.cpus_clear in
      let cpu = s.next_obj in
      let nodeid = node_of_cpu s f in
      let cache_mask = mask.cpus_and (cache_mask_of deepest_cache alone f.caches) s.unbanned_cpus in
      let package_mask = mask.cpus_and (package_mask_of s f nodeid alone) s.unbanned_cpus in
      let t = alloc_obj s (new_obj obj_type_cpu (pos f.cpunr) alone) in
      let (cache, t₁) = add_cpu_to_cache_domain cpu cache_mask nodeid t in
      let t₂ =
        add_cache_domain_to_package cache (or_else (pos 0) f.physical_package_id) package_mask
          nodeid t₁ in
      record t₂ { cpus = t₂.cpus ++ cpu ∷ [] }

  -- An offline CPU is skipped, a banned one is only noted as online.
  unfoldable pub do_one_cpu : ℕ → M → CpuFiles M → State M → State M
  unfolding add_cpu
  do_one_cpu deepest_cache online_cpus f s =
      let t = record s { cpu_online_map = mask.cpu_set f.cpunr s.cpu_online_map } in
      let added = add_cpu deepest_cache f t in
      if not (mask.cpu_isset f.cpunr online_cpus)
      then s
      else if mask.cpus_intersects (mask.cpu_set f.cpunr mask.cpus_clear) s.banned_cpus
      then t
      else added
