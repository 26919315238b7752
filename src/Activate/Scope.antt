-- ===== src/Activate/Scope.antt =====
-- activate.c: where try_fallback_cpu may place an interrupt.
use irqbalance.Prelude.{
  ℕ, zero, suc, ◌-◌, ◌<◌, ◌≡◌, ◌≢◌, refl, Bool, true, false, Option, none, some, arith, ◌⊎◌, inl,
  inr, Option-cases, count, if_cases_eq, ◌∙◌,
}
use irqbalance.Types.{State, Level, balance_none, balance_package, balance_cache, balance_core}
use irqbalance.Types.Cpumask.{Cpumask}
use irqbalance.Types.Invariant.{IsPlaced}
use irqbalance.Irqlist.Migrate.{migrate_irq_obj}
use irqbalance.Irqlist.Retarget.{retarget, migrate-retarget_assigned}
use irqbalance.Activate.Kernel.{Errno, Kernel, print_error}
use irqbalance.Activate.Search.{
  IsGraded, Under, is_valid_fallback, find_best_cpu_under_obj, find_best_cpu_under_obj_lem,
}
use irqbalance.Activate.Fallback.{
  max_fallback_attempts, search_scope, saturate, saturate_cpu, note_failure, move_to_fallback,
  attempt, try_cpus, try_in_scope, try_by_level, try_fallback_cpu,
}
use irqbalance.Activate.Domain.{IsScope, search_scope-IsScope}
use irqbalance.Activate.Keeps.{attempt-Outcome, saturate_cpu-SameListing, settle-SameListing}

module _ {M : Type 0} where
  -- Two states with the same tree of objects.
  record SameTree (s t : State M) : Type 0 where
    types : (d : ℕ) → (t.obj d).obj_type ≡ (s.obj d).obj_type
    branches : (d : ℕ) → (t.obj d).children ≡ (s.obj d).children

  SameTree-refl : (s : State M) → SameTree s s
  SameTree-refl s = record { types = λ d. refl; branches = λ d. refl }

  SameTree-trans : {s t u : State M} → SameTree s t → SameTree t u → SameTree s u
  SameTree-trans h k = record {
    types = λ d. k.types d ∙ h.types d;
    branches = λ d. k.branches d ∙ h.branches d;
  }

  SameTree-Under : {s t : State M} (d c : ℕ) → SameTree s t → Under t d c → Under s d c
  SameTree-Under d _ e (Under.here _ h) = Under.here d (ground (arith, h, e.types d))
  SameTree-Under {s} {t} d _ e (Under.below _ x c m u) =
      Under.below d x c (ground (arith, m, e.branches d)) (SameTree-Under x c e u)

  SameTree-IsGraded : {s t : State M} → SameTree s t → IsGraded s → IsGraded t
  SameTree-IsGraded {s} {t} e g d x m = ground (arith, g d x, e.types d, e.types x, e.branches d, m)

  note_failure_cases :
      (f : ℕ) (e : Errno) (s : State M)
      → (note_failure f e s ≡ s) ⊎ (note_failure f e s ≡ saturate f s)
  unfolding note_failure
  note_failure_cases f Errno.enospc s = inr refl
  note_failure_cases f Errno.eagain s = inl refl
  note_failure_cases f Errno.ebusy s = inl refl
  note_failure_cases f Errno.einval s = inl refl
  note_failure_cases f Errno.erange s = inl refl
  note_failure_cases f Errno.enomem s = inl refl
  note_failure_cases f Errno.eio s = inl refl
  note_failure_cases f Errno.eperm s = inl refl
  note_failure_cases f (Errno.other_errno _) s = inl refl

  saturate-SameTree : (f : ℕ) (s : State M) → SameTree s (saturate f s)
  unfolding saturate
  saturate-SameTree f s = record { types = λ d. ground arith; branches = λ d. ground arith }

  note_failure-SameTree : (f : ℕ) (e : Errno) (s : State M) → SameTree s (note_failure f e s)
  note_failure-SameTree f e s = elim (note_failure_cases f e s) [
    | inl h ↦ rw h (SameTree-refl s)
    | inr h ↦ rw h (saturate-SameTree f s)
  ]

  retarget-SameTree : (s : State M) (i : ℕ) (a : Option ℕ) → SameTree s (retarget s i a)
  retarget-SameTree s i a = record { types = λ d. refl; branches = λ d. refl }

  moved_to :
      (original f info : ℕ) (s : State M)
      → IsPlaced s
      → 0 < count info s.interrupts_db
      → (s.irq info).assigned_obj ≡ some original
      → ((move_to_fallback original f info (retarget s info (some f))).irq info).assigned_obj
        ≡ some f
  unfolding move_to_fallback
  moved_to original f info s v d e =
      let t = migrate_irq_obj (retarget s info (some f)) (some original) (some f) info in
      (settle-SameListing info (saturate_cpu original t)).assigned info
      ∙ (saturate_cpu-SameListing original t).assigned info
      ∙ migrate-retarget_assigned s original f info v d e

  -- A failed attempt keeps the tree, one that succeeds assigns the CPU.
  attempt_lem :
      (a b : Option Errno) (original f info : ℕ) (s : State M)
      → IsPlaced s
      → 0 < count info s.interrupts_db
      → (s.irq info).assigned_obj ≡ some original
      → let r = attempt a b original f info (retarget s info (some f)) in
        (r.0 ≡ true → (r.1.irq info).assigned_obj ≡ some f) × (r.0 ≡ false → SameTree s r.1)
  unfolding attempt
  attempt_lem none none original f info s v d e = (λ h. moved_to original f info s v d e, λ h. cc)
  attempt_lem none (some x) original f info s v d e =
      let t = retarget s info (some f) in
      (
        λ h. cc,
        λ h. SameTree-trans (retarget-SameTree s info (some f)) (
            SameTree-trans (note_failure-SameTree f x t)
              (retarget-SameTree (note_failure f x t) info (some original))),
      )
  attempt_lem (some x) b original f info s v d e = (
    λ h. cc,
    λ h.
        SameTree-trans (retarget-SameTree s info (some f))
          (retarget-SameTree (retarget s info (some f)) info (some original)),
  )

module _ {M : Type 0} ⦃mask : Cpumask M⦄ where
  -- On success the interrupt is assigned to a CPU under `scope` other than `original`.
  abbrev pub LandsUnder : State M → ℕ → ℕ → ℕ → Bool × State M → Type 0
  LandsUnder s scope original info r =
      r.0 ≡ true
      → (f : ℕ) × Under s scope f × (f ≢ original) × ((r.1.irq info).assigned_obj ≡ some f)

  valid-other :
      (s : State M) (c original : ℕ) (tried : M)
      → is_valid_fallback s c original tried ≡ true
      → c ≢ original
  valid-other s c original tried h e = ground (arith, e)

  try_cpus-LandsUnder :
      (n : ℕ) (k : Kernel M) (scope original info : ℕ) (tried : M) (s : State M)
      → IsPlaced s
      → IsGraded s
      → 0 < count info s.interrupts_db
      → (s.irq info).assigned_obj ≡ some original
      → LandsUnder s scope original info (try_cpus n k scope original info tried s)
  unfolding try_cpus
  try_cpus-LandsUnder zero k scope original info tried s v g d e = λ h. cc
  try_cpus-LandsUnder (suc n) k scope original info tried s v g d e =
      elim (Option-cases (find_best_cpu_under_obj 4 s original tried scope)) [
        | inl none_left ↦ rw (none_left, try_cpus) (λ h. cc)
        | inr (f, found) ↦
            let w =
              k.write_mask (s.irq info).irq (max_fallback_attempts - n)
                (mask.cpus_and s.cpu_online_map (s.obj f).mask) in
            let r = attempt w.fopen (print_error w) original f info (retarget s info (some f)) in
            let o = attempt-Outcome w.fopen (print_error w) original f info s v d e in
            let a = attempt_lem w.fopen (print_error w) original f info s v d e in
            let found_lem = find_best_cpu_under_obj_lem s original tried scope g in
            let c = found_lem.holds f found in
            rw (found, try_cpus)
              (if_cases_eq (LandsUnder s scope original info) r.0
                (λ h t. (f, c.0, valid-other s f original tried c.1, a.0 h))
                (λ h t.
                  let same = a.1 h in
                  let (x, u, m, z) =
                    try_cpus-LandsUnder n k scope original info (mask.cpus_or tried (s.obj f).mask)
                      r.1 o.0.kept.placed (SameTree-IsGraded same g) (rw (o.0.same_db) d) (o.1 h)
                      t in
                  (x, SameTree-Under scope x same u, m, z)))
      ]

  try_in_scope-LandsUnder :
      (k : Kernel M) (at : Option ℕ) (original info : ℕ) (s : State M)
      → IsPlaced s
      → IsGraded s
      → 0 < count info s.interrupts_db
      → (s.irq info).assigned_obj ≡ some original
      → (try_in_scope k at original info s).0 ≡ true
      → (scope : ℕ) × (at ≡ some scope)
        × LandsUnder s scope original info (try_in_scope k at original info s)
  unfolding try_in_scope
  try_in_scope-LandsUnder k none original info s v g d e h = cc
  try_in_scope-LandsUnder k (some scope) original info s v g d e h = (
    scope,
    refl,
    try_cpus-LandsUnder max_fallback_attempts k scope original info mask.cpus_clear s v g d e,
  )

  -- In a graded tree, and with every listed interrupt where it says: an interrupt of the database,
  -- assigned to `original`, that a fallback places has the level `cache` or `package`, and it is
  -- then assigned to a CPU other than `original`, that stands under its scope, whatever the kernel
  -- answers. When `original` is a CPU, the scope is the nearest cache domain above it for the level
  -- `cache`, and the nearest package for `package`; otherwise it is `original`.
  pub try_fallback_cpu-Under :
      (k : Kernel M) (original info : ℕ) (s : State M)
      → IsPlaced s
      → IsGraded s
      → 0 < count info s.interrupts_db
      → (s.irq info).assigned_obj ≡ some original
      → (try_fallback_cpu k original info s).0 ≡ true
      → ((s.irq info).level ≢ balance_none)
        × ((s.irq info).level ≢ balance_core)
        × (scope : ℕ) × IsScope s (s.irq info).level original scope
        × (f : ℕ) × Under s scope f
        × (f ≢ original)
        × ((((try_fallback_cpu k original info s).1).irq info).assigned_obj ≡ some f)
  unfolding try_fallback_cpu try_by_level
  try_fallback_cpu-Under k original info s v g d e h = go (s.irq info).level h
    where
      go :
          (level : Level)
          → (try_by_level k level original info s).0 ≡ true
          → (level ≢ balance_none)
            × (level ≢ balance_core)
            × (scope : ℕ) × IsScope s level original scope
            × (f : ℕ) × Under s scope f
            × (f ≢ original)
            × (((try_by_level k level original info s).1.irq info).assigned_obj ≡ some f)
      go balance_none t = cc
      go balance_core t = cc
      go balance_cache t =
          let (scope, at, lands) =
            try_in_scope-LandsUnder k (search_scope s balance_cache original) original info s v g d
              e t in
          let (f, u, m, z) = lands t in
          let is_scope = search_scope-IsScope s balance_cache original scope at in
          (λ x. cc, λ x. cc, scope, is_scope, f, u, m, z)
      go balance_package t =
          let (scope, at, lands) =
            try_in_scope-LandsUnder k (search_scope s balance_package original) original info s v g
              d e t in
          let (f, u, m, z) = lands t in
          let is_scope = search_scope-IsScope s balance_package original scope at in
          (λ x. cc, λ x. cc, scope, is_scope, f, u, m, z)
