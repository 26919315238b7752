-- ===== src/Cputree/Unlisted.antt =====
-- The objects of a tree that is being built list no interrupt yet.
use irqbalance.Prelude.{
  ℕ, ℤ, zero, suc, ◌≡◌, ltb_ℤ, not, ◌&&◌, ◌||◌, ◌==ℤ◌, is_some, some, List, [], ◌∷◌, ◌++◌, arith,
  for_each, if_cases, if◌then◌else◌, Option-cases, inl, inr,
}
use irqbalance.Types.{State, TopoObj, set_obj, numa_no_node, obj_type_package, obj_type_eq}
use irqbalance.Numa.{get_numa_node}
use irqbalance.Numa.Build.{connect_to, connect_cpu_mem_topo}
use irqbalance.Cputree.Add.{mem, add_child, link_node, add_numa_node_to_topo_obj, add_node_if_known}

module _ {M : Type 0} where
  pub record Unlisted (s : State M) : Type 0 where
    pub empty : (p : ℕ) → (s.obj p).interrupts ≡ []

  -- A walk keeps what each of its steps keeps.
  pub for_each-Unlisted :
      {A : Type 0} (cb : A → State M → State M) (xs : List A) (s : State M)
      → ((x : A) (s : State M) → Unlisted s → Unlisted (cb x s))
      → Unlisted s
      → Unlisted (for_each cb xs s)
  for_each-Unlisted cb [] s h u = u
  for_each-Unlisted cb (x ∷ xs) s h u = for_each-Unlisted cb xs (cb x s) h (h x s u)

  pub set_obj-Unlisted :
      (s : State M) (p : ℕ) (o : TopoObj M)
      → Unlisted s
      → o.interrupts ≡ []
      → Unlisted (set_obj s p o)
  set_obj-Unlisted s p o u e = record { empty = λ q. ground (arith, u.empty q, e) }

  pub add_child-Unlisted : (p c : ℕ) (s : State M) → Unlisted s → Unlisted (add_child p c s)
  unfolding add_child
  add_child-Unlisted p c s u = record {
    empty = λ q. ground (arith, u.empty q, u.empty p, u.empty c);
  }

  link_node-Unlisted : (obj node : ℕ) (s : State M) → Unlisted s → Unlisted (link_node obj node s)
  unfolding link_node
  link_node-Unlisted obj node s u =
      let o = record (s.obj obj) { numa_nodes = (s.obj obj).numa_nodes ++ node ∷ [] } in
      let t =
        if_cases Unlisted (mem node (s.obj obj).numa_nodes) u
          (set_obj-Unlisted s obj o u (u.empty obj)) in
      if_cases Unlisted (not s.numa_avail && obj_type_eq (s.obj obj).obj_type obj_type_package)
        (add_child-Unlisted node obj _ t) t

  pub add_node_if_known-Unlisted :
      (obj : ℕ) (n : ℤ) (s : State M) → Unlisted s → Unlisted (add_node_if_known obj n s)
  unfolding add_node_if_known add_numa_node_to_topo_obj
  add_node_if_known-Unlisted obj n s u =
      if_cases Unlisted (not s.numa_avail || ltb_ℤ numa_no_node n)
        (elim (Option-cases (get_numa_node s n)) [
          | inl e ↦ rw (e, add_numa_node_to_topo_obj) u
          | inr (node, e) ↦
              rw (e, add_numa_node_to_topo_obj)
                (if_cases Unlisted (s.numa_avail && (s.obj node).number ==ℤ numa_no_node) u
                  (link_node-Unlisted obj node s u))
        ])
        u

  connect_to-Unlisted : (node p : ℕ) (s : State M) → Unlisted s → Unlisted (connect_to node p s)
  unfolding connect_to
  connect_to-Unlisted node p s u =
      let orphan =
        obj_type_eq (s.obj p).obj_type obj_type_package && not (is_some (s.obj p).parent) in
      let o = record (s.obj p) { parent = some node } in
      let t = if orphan then set_obj s p o else s in
      let v = if_cases Unlisted orphan (set_obj-Unlisted s p o u (u.empty p)) u in
      if_cases Unlisted (mem p (t.obj node).children) v (
        set_obj-Unlisted t node (record (t.obj node) { children = (t.obj node).children ++ p ∷ [] })
          v (v.empty node))

  pub connect-Unlisted :
      (depth p : ℕ) (s : State M) → Unlisted s → Unlisted (connect_cpu_mem_topo depth p s)
  unfolding connect_cpu_mem_topo
  connect-Unlisted zero p s u = u
  connect-Unlisted (suc depth) p s u =
      let below =
        for_each-Unlisted (connect_cpu_mem_topo depth) (s.obj p).children s (connect-Unlisted depth)
          u in
      elim (s.obj p).numa_nodes
        as (λ l. Unlisted (elim l [
          | [] ↦ s
          | (node ∷ []) ↦ connect_to node p s
          | (node ∷ m ∷ l) ↦ for_each (connect_cpu_mem_topo depth) (s.obj p).children s
        ])) [ [] ↦ u | (node ∷ []) ↦ connect_to-Unlisted node p s u | (node ∷ m ∷ l) ↦ below ]
