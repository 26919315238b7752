-- ===== src/Cputree/Tree.antt =====
-- cputree.c: adding a CPU keeps the tree graded.
use irqbalance.Prelude.{
  ℕ, suc, ℤ, ◌<◌, ◌≤◌, ◌≡◌, [], ◌∷◌, arith, count, count-append, if_cases, if_cases_eq, refl, ◌∙◌,
  subst, ◌==◌, ==_refl, find_custom, find_custom-some, Option-cases, inl, inr,
}
use irqbalance.Types.{State, ObjType, obj_type_cpu, obj_type_cache, obj_type_package, obj_type_node}
use irqbalance.Types.Cpumask.{Cpumask}
use irqbalance.Activate.Search.{rank, IsGraded}
use irqbalance.Cputree.Add.{mem, new_obj, alloc_obj, add_child}

module _ {M : Type 0} where
  -- Children stand on the level next below their parent's, each list has its own kind of object, and what is still to
  -- be allocated is nowhere in the tree.
  pub record IsTree (s : State M) : Type 0 where
    pub graded : IsGraded s
    pub direct :
        (d x : ℕ)
        → 0 < count x (s.obj d).children
        → rank (s.obj d).obj_type ≡ suc (rank (s.obj x).obj_type)
    pub nodes : (d : ℕ) → 0 < count d s.numa_nodes → (s.obj d).obj_type ≡ obj_type_node
    pub packs : (d : ℕ) → 0 < count d s.packages → (s.obj d).obj_type ≡ obj_type_package
    pub caches : (d : ℕ) → 0 < count d s.cache_domains → (s.obj d).obj_type ≡ obj_type_cache
    pub threads : (d : ℕ) → 0 < count d s.cpus → (s.obj d).obj_type ≡ obj_type_cpu
    pub fresh : (d x : ℕ) → s.next_obj ≤ x → count x (s.obj d).children ≡ 0
    pub fresh_node : (x : ℕ) → s.next_obj ≤ x → count x s.numa_nodes ≡ 0
    pub fresh_pack : (x : ℕ) → s.next_obj ≤ x → count x s.packages ≡ 0
    pub fresh_cache : (x : ℕ) → s.next_obj ≤ x → count x s.cache_domains ≡ 0
    pub fresh_thread : (x : ℕ) → s.next_obj ≤ x → count x s.cpus ≡ 0

  -- The object `d` is there, and is of that kind.
  pub record IsKind (s : State M) (d : ℕ) (kind : ObjType) : Type 0 where
    pub there : d < s.next_obj
    pub kind_of : (s.obj d).obj_type ≡ kind

  -- What is there keeps its kind, its number and its children.
  pub record Grows (s t : State M) : Type 0 where
    pub tree : IsTree t
    pub kinds : (d : ℕ) (k : ObjType) → IsKind s d k → IsKind t d k
    pub numbers : (d : ℕ) → d < s.next_obj → (t.obj d).number ≡ (s.obj d).number
    pub kept :
        (d x : ℕ) → d < s.next_obj → 0 < count x (s.obj d).children → 0 < count x (t.obj d).children

  still_there : {s t : State M} (d : ℕ) → Grows s t → d < s.next_obj → d < t.next_obj
  still_there {s} d g h =
      (g.kinds d (s.obj d).obj_type (record { there = h; kind_of = refl })).there

  pub Grows-refl : (s : State M) → IsTree s → Grows s s
  Grows-refl s v = record {
    tree = v;
    kinds = λ d k h. h;
    numbers = λ d h. refl;
    kept = λ d x h k. k;
  }

  pub Grows-trans : {s t u : State M} → Grows s t → Grows t u → Grows s u
  Grows-trans h k = record {
    tree = k.tree;
    kinds = λ d i m. k.kinds d i (h.kinds d i m);
    numbers = λ d m. k.numbers d (still_there d h m) ∙ h.numbers d m;
    kept = λ d x m n. k.kept d x (still_there d h m) (h.kept d x m n);
  }

  pub add_child-Grows :
      (p c : ℕ) (s : State M)
      → IsTree s
      → c < s.next_obj
      → rank (s.obj p).obj_type ≡ suc (rank (s.obj c).obj_type)
      → Grows s (add_child p c s)
  unfolding add_child
  add_child-Grows p c s v h r =
      if_cases (Grows s) (mem c (s.obj p).children) (Grows-refl s v) (record {
        tree = record {
          graded = λ d x k.
              ground (arith, v.graded d x, count-append x (s.obj p).children (c ∷ []), r, k);
          direct = λ d x k.
              ground (arith, v.direct d x, count-append x (s.obj p).children (c ∷ []), r, k);
          threads = λ d k. ground (arith, v.threads d, k);
          nodes = λ d k. ground (arith, v.nodes d, k);
          packs = λ d k. ground (arith, v.packs d, k);
          caches = λ d k. ground (arith, v.caches d, k);
          fresh = λ d x k.
              ground (arith, v.fresh d x, count-append x (s.obj p).children (c ∷ []), h, k);
          fresh_node = v.fresh_node;
          fresh_pack = v.fresh_pack;
          fresh_cache = v.fresh_cache;
          fresh_thread = v.fresh_thread;
        };
        kinds = λ d k m. record { there = m.there; kind_of = ground (arith, m.kind_of) };
        numbers = λ d m. ground arith;
        kept = λ d x m n. ground (arith, count-append x (s.obj p).children (c ∷ []), n);
      })

  -- The child stands among the children.
  pub add_child-listed : (p c : ℕ) (s : State M) → 0 < count c ((add_child p c s).obj p).children
  unfolding add_child
  add_child-listed p c s =
      if_cases_eq (λ (t : State M). 0 < count c (t.obj p).children) (mem c (s.obj p).children)
        (λ e. elim (Option-cases (find_custom (λ y. c == y) (s.obj p).children)) [
          | inl q ↦ absurd (ground (arith, e, q))
          | inr (y, q) ↦
              let f = find_custom-some (λ y. c == y) (s.obj p).children q in
              let same : y ≡ c = ground (arith, f.0) in
              subst (λ z. 0 < count z (s.obj p).children) same f.1
        ])
        (λ e. ground (arith, count-append c (s.obj p).children (c ∷ []), ==_refl c, ==_refl p))

module _ {M : Type 0} ⦃mask : Cpumask M⦄ where
  pub alloc_obj-Grows :
      (s : State M) (kind : ObjType) (n : ℤ) (m : M)
      → IsTree s
      → Grows s (alloc_obj s (new_obj kind n m))
  alloc_obj-Grows s kind n m v = record {
    tree = record {
      graded = λ d x k. ground (arith, v.graded d x, v.fresh d x, k);
      direct = λ d x k. ground (arith, v.direct d x, v.fresh d x, k);
      threads = λ d k. ground (arith, v.threads d, v.fresh_thread d, k);
      nodes = λ d k. ground (arith, v.nodes d, v.fresh_node d, k);
      packs = λ d k. ground (arith, v.packs d, v.fresh_pack d, k);
      caches = λ d k. ground (arith, v.caches d, v.fresh_cache d, k);
      fresh = λ d x k. ground (arith, v.fresh d x, k);
      fresh_node = λ x k. ground (arith, v.fresh_node x, k);
      fresh_pack = λ x k. ground (arith, v.fresh_pack x, k);
      fresh_cache = λ x k. ground (arith, v.fresh_cache x, k);
      fresh_thread = λ x k. ground (arith, v.fresh_thread x, k);
    };
    kinds = λ d k h. record {
      there = ground (arith, h.there);
      kind_of = ground (arith, h.there, h.kind_of);
    };
    numbers = λ d h. ground (arith, h);
    kept = λ d x h k. ground (arith, h, k);
  }
