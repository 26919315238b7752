-- ===== src/Cputree/Freed.antt =====
-- What free_object_tree frees has no interrupt left on it.
use irqbalance.Prelude.{
  ℕ, ◌<◌, ◌≡◌, refl, ◌∙◌, ◌⊎◌, inl, inr, ◌==◌, List, [], ◌∷◌, arith, for_each, count, Bool-cases,
}
use irqbalance.Types.{State}
use irqbalance.Types.Cpumask.{Cpumask}
use irqbalance.Cputree.Clear.{free_cpu_topo, free_numa_node_list, clear_cpu_tree}
use irqbalance.Cputree.Unlisted.{Unlisted}

module _ {M : Type 0} where
  -- Every object that lists an interrupt is in one of the four lists of the tree.
  pub record InTree (s : State M) : Type 0 where
    pub reach :
        (p : ℕ)
        → ((s.obj p).interrupts ≡ [])
          ⊎ (0 < count p s.numa_nodes)
          ⊎ (0 < count p s.packages)
          ⊎ (0 < count p s.cache_domains)
          ⊎ (0 < count p s.cpus)

  for_each-kept :
      (xs : List ℕ) (s : State M) (p : ℕ)
      → (s.obj p).interrupts ≡ []
      → ((for_each free_cpu_topo xs s).obj p).interrupts ≡ []
  unfolding free_cpu_topo
  for_each-kept [] s p e = e
  for_each-kept (x ∷ xs) s p e = for_each-kept xs (free_cpu_topo x s) p (ground (arith, e))

  for_each-freed :
      (xs : List ℕ) (s : State M) (p : ℕ)
      → 0 < count p xs
      → ((for_each free_cpu_topo xs s).obj p).interrupts ≡ []
  unfolding free_cpu_topo
  for_each-freed [] s p h = absurd (omega arith)
  for_each-freed (x ∷ xs) s p h = elim (Bool-cases (x == p)) [
    | inl e ↦ for_each-kept xs (free_cpu_topo x s) p (ground (arith, e))
    | inr e ↦ for_each-freed xs (free_cpu_topo x s) p (ground (arith, e))
  ]

  for_each-lists :
      (xs : List ℕ) (s : State M)
      → let t = for_each free_cpu_topo xs s in
        (t.packages ≡ s.packages) × (t.cache_domains ≡ s.cache_domains) × (t.cpus ≡ s.cpus)
  unfolding free_cpu_topo
  for_each-lists [] s = (refl, refl, refl)
  for_each-lists (x ∷ xs) s = for_each-lists xs (free_cpu_topo x s)

  for_each-nodes :
      (xs : List ℕ) (s : State M) → (for_each free_cpu_topo xs s).numa_nodes ≡ s.numa_nodes
  unfolding free_cpu_topo
  for_each-nodes [] s = refl
  for_each-nodes (x ∷ xs) s = for_each-nodes xs (free_cpu_topo x s)

  free_numa-freed :
      (s : State M) (p : ℕ)
      → ((s.obj p).interrupts ≡ []) ⊎ (0 < count p s.numa_nodes)
      → ((free_numa_node_list s).obj p).interrupts ≡ []
  unfolding free_numa_node_list
  free_numa-freed s p (inl e) = for_each-kept s.numa_nodes s p e
  free_numa-freed s p (inr h) = for_each-freed s.numa_nodes s p h

  free_numa-lists :
      (s : State M)
      → let t = free_numa_node_list s in
        (t.packages ≡ s.packages) × (t.cache_domains ≡ s.cache_domains) × (t.cpus ≡ s.cpus)
  unfolding free_numa_node_list
  free_numa-lists s = for_each-lists s.numa_nodes s

module _ {M : Type 0} ⦃mask : Cpumask M⦄ where
  clear-freed :
      (s : State M) (p : ℕ)
      → ((s.obj p).interrupts ≡ [])
        ⊎ (0 < count p s.packages)
        ⊎ (0 < count p s.cache_domains)
        ⊎ (0 < count p s.cpus)
      → ((clear_cpu_tree s).obj p).interrupts ≡ []
  unfolding clear_cpu_tree
  clear-freed s p h =
      let s₁ = for_each free_cpu_topo s.packages s in
      let s₂ = for_each free_cpu_topo s.cache_domains s₁ in
      elim h [
        | inl e ↦
            for_each-kept s.cpus s₂ p
              (for_each-kept s.cache_domains s₁ p (for_each-kept s.packages s p e))
        | inr (inl e) ↦
            for_each-kept s.cpus s₂ p
              (for_each-kept s.cache_domains s₁ p (for_each-freed s.packages s p e))
        | inr (inr (inl e)) ↦ for_each-kept s.cpus s₂ p (for_each-freed s.cache_domains s₁ p e)
        | inr (inr (inr e)) ↦ for_each-freed s.cpus s₂ p e
      ]

  pub freed_nodes : (s : State M) → (clear_cpu_tree (free_numa_node_list s)).numa_nodes ≡ []
  unfolding clear_cpu_tree free_numa_node_list
  freed_nodes s =
      let t = free_numa_node_list s in
      let t₁ = for_each free_cpu_topo t.packages t in
      for_each-nodes t.cpus (for_each free_cpu_topo t.cache_domains t₁)
      ∙ for_each-nodes t.cache_domains t₁
      ∙ for_each-nodes t.packages t

  pub freed-Unlisted : (s : State M) → InTree s → Unlisted (clear_cpu_tree (free_numa_node_list s))
  freed-Unlisted s v = record {
    empty = λ p.
        let t = free_numa_node_list s in
        let l = free_numa-lists s in
        clear-freed t p (elim (v.reach p) [
          | inl e ↦ inl (free_numa-freed s p (inl e))
          | inr (inl h) ↦ inl (free_numa-freed s p (inr h))
          | inr (inr (inl h)) ↦ inr (inl (rw l.0 h))
          | inr (inr (inr (inl h))) ↦ inr (inr (inl (rw l.1 h)))
          | inr (inr (inr (inr h))) ↦ inr (inr (inr (rw l.2 h)))
        ]);
  }
