-- ===== src/Procinterrupts/Branch.antt =====
-- procinterrupts.c: the interrupts that compute_irq_branch_load_share takes an object to have handled,
-- as a sum over the tree.
use irqbalance.Prelude.{
  ℕ, zero, suc, ◌+◌, ◌/◌, ◌%◌, ◌<◌, ◌≡◌, refl, ap, none, some, List, [], ◌∷◌, ◌++◌, arith, inl, inr,
  Option-cases, for_each, concat_map, length,
}
use irqbalance.Types.{State}
use irqbalance.Types.Word.{u64_mod}
use irqbalance.Procinterrupts.Load.{
  get_parent_branch_irq_count_share, get_children_branch_irq_count, local_irq_counts,
}

module _ {M : Type 0} where
  -- The objects above `d`, the parent first, at most `n` of them.
  ancestors : ℕ → State M → ℕ → List ℕ
  ancestors zero s d = []
  ancestors (suc n) s d = elim (s.obj d).parent [ none ↦ [] | (some p) ↦ p ∷ ancestors n s p ]

  -- `d` and the objects under it, to a depth of `n`.
  abbrev pub branch : ℕ → State M → ℕ → List ℕ
  branch zero s d = d ∷ []
  branch (suc n) s d = d ∷ concat_map (branch n s) (s.obj d).children

  abbrev pub total_count : State M → List ℕ → ℕ
  total_count s [] = 0
  total_count s (d ∷ ds) = (s.obj d).irq_count + total_count s ds

  -- Its own interrupts, and an equal part of what came down to the object above it.
  share_from : State M → ℕ → List ℕ → ℕ
  share_from s d [] = (s.obj d).irq_count
  share_from s d (p ∷ ps) =
      (share_from s p ps / length (s.obj p).children + (s.obj d).irq_count) % u64_mod

  -- What came down to the object, and what all objects under it counted.
  pub handled : State M → ℕ → ℕ
  handled s d =
      (share_from s d (ancestors 4 s d)
        + total_count s (concat_map (branch 4 s) (s.obj d).children))
      % u64_mod

  -- The counters are of 64 bits.
  abbrev pub AreWords : State M → Type 0
  AreWords s = (d : ℕ) → (s.obj d).irq_count < u64_mod

  total_count-append :
      (s : State M) (xs ys : List ℕ)
      → total_count s (xs ++ ys) ≡ total_count s xs + total_count s ys
  total_count-append s [] ys = omega arith
  total_count-append s (x ∷ xs) ys = omega (arith, total_count-append s xs ys)

  share_lem :
      (n : ℕ) (s : State M) (d : ℕ)
      → get_parent_branch_irq_count_share n s d ≡ share_from s d (ancestors n s d)
  unfolding get_parent_branch_irq_count_share ancestors share_from
  share_lem zero s d = refl
  share_lem (suc n) s d = elim (Option-cases (s.obj d).parent) [
    | inl e ↦ rw (e, get_parent_branch_irq_count_share, ancestors) refl
    | inr (p, e) ↦
        rw (e, get_parent_branch_irq_count_share, ancestors)
          (ap (λ v. (v / length (s.obj p).children + (s.obj d).irq_count) % u64_mod)
            (share_lem n s p))
  ]

  share_from-word : (s : State M) (d : ℕ) (ps : List ℕ) → AreWords s → share_from s d ps < u64_mod
  unfolding share_from
  share_from-word s d [] w = w d
  share_from-word s d (p ∷ ps) w = omega arith

  -- Walks over several branches add what each of them adds.
  walk_adds :
      (n : ℕ) (s : State M)
      → ((d total : ℕ)
          → get_children_branch_irq_count n s d total
            ≡ (total + total_count s (branch n s d)) % u64_mod)
      → (ds : List ℕ) (total : ℕ)
      → for_each (get_children_branch_irq_count n s) ds total % u64_mod
        ≡ (total + total_count s (concat_map (branch n s) ds)) % u64_mod
  walk_adds n s h [] total = omega arith
  walk_adds n s h (d ∷ ds) total =
      let ih = walk_adds n s h ds (get_children_branch_irq_count n s d total) in
      let first = h d total in
      let parts = total_count-append s (branch n s d) (concat_map (branch n s) ds) in
      omega (arith, ih, first, parts)

  branch_adds :
      (n : ℕ) (s : State M) (d total : ℕ)
      → get_children_branch_irq_count n s d total ≡ (total + total_count s (branch n s d)) % u64_mod
  unfolding get_children_branch_irq_count
  branch_adds zero s d total = omega arith
  branch_adds (suc n) s d total =
      let below = walk_adds n s (branch_adds n s) (s.obj d).children total in omega (arith, below)

  walk-word :
      (s : State M) (ds : List ℕ) (total : ℕ)
      → total < u64_mod
      → for_each (get_children_branch_irq_count 4 s) ds total < u64_mod
  walk-word s [] total h = h
  walk-word s (d ∷ ds) total h =
      let first = branch_adds 4 s d total in
      walk-word s ds (get_children_branch_irq_count 4 s d total) (omega (arith, first))

  pub local_irq_counts-handled :
      (s : State M) (d : ℕ) → AreWords s → local_irq_counts s d ≡ handled s d
  unfolding local_irq_counts handled
  local_irq_counts-handled s d w =
      let share = get_parent_branch_irq_count_share 4 s d in
      let start = share_lem 4 s d in
      let small = share_from-word s d (ancestors 4 s d) w in
      let adds = walk_adds 4 s (branch_adds 4 s) (s.obj d).children share in
      let word = walk-word s (s.obj d).children share (omega (arith, start, small)) in
      omega (arith, start, small, adds, word)
