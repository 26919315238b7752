-- ===== src/Numa/Build.antt =====
-- numa.c: the list of the nodes, and the packages and cache domains that become their children.
use irqbalance.Prelude.{
  ℕ, ℤ, zero, suc, ◌==ℤ◌, Bool, false, not, ◌&&◌, Option, none, some, is_some, List, [], ◌∷◌, ◌++◌,
  drop, for_each, codes, is_prefix, is_digit, strtoul, to_int, if◌then◌else◌,
}
use irqbalance.Types.{State, obj_type_node, obj_type_package, obj_type_eq, numa_no_node, set_obj}
use irqbalance.Types.Cpumask.{Cpumask}
use irqbalance.Cputree.Add.{new_obj, alloc_obj, mem}

-- An entry of /sys/devices/system/node, with what its file `cpumap` makes of an empty mask.
pub record NodeEntry (M : Type 0) : Type 0 where
  pub is_directory : Bool
  pub name : List ℕ
  pub cpumap : M

abbrev pub digit_first : List ℕ → Bool
digit_first [] = false
digit_first (c ∷ cs) = is_digit c

module _ {M : Type 0} ⦃mask : Cpumask M⦄ where
  unfoldable pub add_one_node : ℤ → M → State M → State M
  add_one_node nodeid cpumap s =
      let m = if nodeid ==ℤ numa_no_node then mask.cpus_setall else cpumap in
      let t = alloc_obj s (new_obj obj_type_node nodeid m) in
      record t { numa_nodes = s.numa_nodes ++ s.next_obj ∷ [] }

  unfoldable pub add_entry : NodeEntry M → State M → State M
  unfolding add_one_node
  add_entry e s =
      if e.is_directory && (is_prefix (codes "node") e.name && digit_first (drop 4 e.name))
      then add_one_node (to_int (strtoul (drop 4 e.name))) e.cpumap s
      else s

  -- `entries` is the directory, if it can be opened.
  unfoldable pub build_numa_node_list : Option (List (NodeEntry M)) → State M → State M
  unfolding add_entry
  build_numa_node_list none s = add_one_node numa_no_node mask.cpus_clear s
  build_numa_node_list (some entries) s =
      let t = add_one_node numa_no_node mask.cpus_clear s in
      if not s.numa_avail then t else for_each add_entry entries t

module _ {M : Type 0} where
  abbrev set_parent : ℕ → Option ℕ → State M → State M
  set_parent p parent s = set_obj s p (record (s.obj p) { parent = parent })

  -- The one node of `p` becomes the parent of a package that has none, and takes `p` in.
  unfoldable pub connect_to : ℕ → ℕ → State M → State M
  connect_to node p s =
      let orphan =
        obj_type_eq (s.obj p).obj_type obj_type_package && not (is_some (s.obj p).parent) in
      let t = if orphan then set_parent p (some node) s else s in
      let n = t.obj node in
      if mem p n.children then t else set_obj t node (record n { children = n.children ++ p ∷ [] })

  -- The first number is the depth that is walked: an object of many nodes leaves it to its children.
  unfoldable pub connect_cpu_mem_topo : ℕ → ℕ → State M → State M
  unfolding connect_to
  connect_cpu_mem_topo zero p s = s
  connect_cpu_mem_topo (suc depth) p s =
      let below = for_each (connect_cpu_mem_topo depth) (s.obj p).children s in
      elim (s.obj p).numa_nodes [
        | [] ↦ s
        | (node ∷ []) ↦ connect_to node p s
        | (node ∷ other ∷ rest) ↦ below
      ]
