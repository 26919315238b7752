-- ===== src/Procinterrupts/Slice.antt =====
-- procinterrupts.c: what compute_irq_branch_load_share gives to the interrupts of an object.
use irqbalance.Prelude.{
  ℕ, ◌<◌, ◌≤◌, ◌≡◌, refl, ◌==◌, false, List, [], ◌∷◌, length, arith, inl, inr, count, for_each,
  Bool-cases, if◌then◌else◌, ◌/◌, ◌∙◌, ap, ◌+◌, ◌-◌, ◌*◌, ◌%◌,
}
use irqbalance.Types.{State, IrqInfo}
use irqbalance.Types.Word.{u64_mod}
use irqbalance.Classify.Lookup.{for_each_irq}
use irqbalance.Procinterrupts.Load.{
  slice_of, assign_load_slice, local_irq_counts, compute_irq_branch_load_share,
}
use irqbalance.Procinterrupts.Branch.{handled, AreWords, local_irq_counts-handled}

module _ {M : Type 0} where
  -- A share is the interrupts of the last cycle times the slice, and at least 1.
  slice_of_pos : (c : ℕ) (v : IrqInfo M) → 1 ≤ slice_of c v
  unfolding slice_of
  slice_of_pos c v = ground arith

  assigned_load :
      (c : ℕ) (xs : List ℕ) (s : State M) (i : ℕ)
      → ((for_each (assign_load_slice c) xs s).irq i).load
        ≡ (if count i xs == 0 then (s.irq i).load else slice_of c (s.irq i))
  unfolding assign_load_slice slice_of
  assigned_load c [] s i = refl
  assigned_load c (x ∷ xs) s i =
      assigned_load c xs (assign_load_slice c x s) i
      ∙ elim (Bool-cases (x == i)) [ inl e ↦ ground arith | inr e ↦ ground arith ]

  -- One slice of the load of the object: what is due to one of the interrupts it handled.
  abbrev pub slice : State M → ℕ → ℕ
  slice s d = if handled s d == 0 then 1 else (s.obj d).load / handled s d

  -- The load of an interrupt that came so often in the last cycle, in 64 bits, and never 0.
  abbrev pub load_of : ℕ → IrqInfo M → ℕ
  load_of part info =
      let load = (info.irq_count + u64_mod - info.last_irq_count) % u64_mod * part % u64_mod in
      if load == 0 then 1 else load

  slice_of-load_of : (c : ℕ) (v : IrqInfo M) → slice_of c v ≡ load_of c v
  unfolding slice_of
  slice_of-load_of c v = refl

  -- With counters of 64 bits. An object has handled its own interrupts, those of all objects under
  -- it, and an equal part of what came down to its parent, mod 2^64; a slice is its load over that
  -- number, or 1 if that is 0. Each interrupt of the object gets as its load the number of its
  -- interrupts in the last cycle, the difference of its counters, times one slice, mod 2^64, or 1 if
  -- that is 0. The loads of all other interrupts stay.
  pub compute_irq_branch_load_share_lem :
      (d : ℕ) (s : State M) (i : ℕ)
      → AreWords s
      → let t = compute_irq_branch_load_share d s in
        (0 < count i (s.obj d).interrupts → (t.irq i).load ≡ load_of (slice s d) (s.irq i))
        × (count i (s.obj d).interrupts ≡ 0 → (t.irq i).load ≡ (s.irq i).load)
        × (1 ≤ (s.irq i).load → 1 ≤ (t.irq i).load)
        × (0 < count i (s.obj d).interrupts → 1 ≤ (t.irq i).load)
  unfolding compute_irq_branch_load_share for_each_irq
  compute_irq_branch_load_share_lem d s i w = go (s.obj d).interrupts refl
    where
      go :
          (xs : List ℕ)
          → (s.obj d).interrupts ≡ xs
          → let t = compute_irq_branch_load_share d s in
            (0 < count i xs → (t.irq i).load ≡ load_of (slice s d) (s.irq i))
            × (count i xs ≡ 0 → (t.irq i).load ≡ (s.irq i).load)
            × (1 ≤ (s.irq i).load → 1 ≤ (t.irq i).load)
            × (0 < count i xs → 1 ≤ (t.irq i).load)
      go [] e =
          rw (e, compute_irq_branch_load_share)
            (λ h. absurd (omega arith), λ h. refl, λ h. h, λ h. absurd (omega arith))
      go (x ∷ xs) e =
          let counts = local_irq_counts s d in
          let c = if counts == 0 then 1 else (s.obj d).load / counts in
          let same : c ≡ slice s d =
            ap (λ n. if n == 0 then 1 else (s.obj d).load / n) (local_irq_counts-handled s d w) in
          let a = assigned_load c (x ∷ xs) s i in
          let value = slice_of-load_of c (s.irq i) ∙ ap (λ p. load_of p (s.irq i)) same in
          let least = slice_of_pos c (s.irq i) in
          let gets : 0 < count i (x ∷ xs)
              → ((for_each (assign_load_slice c) (x ∷ xs) s).irq i).load ≡ slice_of c (s.irq i) =
            λ h. ground (arith, a) in
          let stays : count i (x ∷ xs) ≡ 0
              → ((for_each (assign_load_slice c) (x ∷ xs) s).irq i).load ≡ (s.irq i).load =
            λ h. ground (arith, a) in
          let some_there : (length (x ∷ xs) == 0) ≡ false = ground arith in
          rw (e, compute_irq_branch_load_share)
            (rw some_there (
              λ h. gets h ∙ value,
              stays,
              λ h. ground (arith, a, least),
              λ h. ground (arith, a, least),
            ))
