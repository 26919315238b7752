-- ===== src/Activate/Keeps.antt =====
-- activate.c: what the writing of the masks keeps of the lists of interrupts.
use irqbalance.Prelude.{
  ℕ, zero, suc, ◌-◌, ◌<◌, ◌≡◌, refl, ==_refl, Bool, false, Option, none, some, arith, inl, inr,
  Option-cases, count, if_cases, if_cases_eq, ◌∙◌,
}
use irqbalance.Types.{State, Level, balance_none, balance_package, balance_cache, balance_core}
use irqbalance.Types.Cpumask.{Cpumask}
use irqbalance.Types.Places.{Place, irqs_at}
use irqbalance.Types.Invariant.{IsPlaced, SameListing, SameListing-refl, SameListing-trans}
use irqbalance.Irqlist.Migrate.{migrate_irq_obj}
use irqbalance.Irqlist.Retarget.{retarget, migrate-retarget-Kept, migrate-retarget_db}
use irqbalance.Irqlist.Kept.{Kept, Kept-trans, SameListing-Kept}
use irqbalance.Activate.Kernel.{Errno, Kernel, print_error}
use irqbalance.Activate.Search.{find_best_cpu_under_obj}
use irqbalance.Activate.Fallback.{
  max_fallback_attempts, search_scope, saturate, saturate_cpu, settle, note_failure,
  move_to_fallback, attempt, try_cpus, try_in_scope, try_by_level,
}
use irqbalance.Activate.Mapping.{unmanage}

module _ {M : Type 0} where
  saturate-lists : (d : ℕ) (s : State M) (l : Place) → irqs_at (saturate d s) l ≡ irqs_at s l
  unfolding saturate
  saturate-lists d s none = refl
  saturate-lists d s (some p) = ground arith

  saturate-SameListing : (d : ℕ) (s : State M) → SameListing s (saturate d s)
  unfolding saturate
  saturate-SameListing d s = record {
    lists = λ l i. ground (arith, saturate-lists d s l);
    assigned = λ i. refl;
    numbers = λ i. refl;
    db = refl;
  }

  pub saturate_cpu-SameListing : (d : ℕ) (s : State M) → SameListing s (saturate_cpu d s)
  unfolding saturate_cpu
  saturate_cpu-SameListing d s =
      if_cases (SameListing s) _ (saturate-SameListing d s) (SameListing-refl s)

  pub settle-SameListing : (info : ℕ) (s : State M) → SameListing s (settle info s)
  unfolding settle
  settle-SameListing info s = record {
    lists = λ l i. ground arith;
    assigned = λ i. ground arith;
    numbers = λ i. ground arith;
    db = refl;
  }

  pub unmanage-SameListing : (info : ℕ) (s : State M) → SameListing s (unmanage info s)
  unfolding unmanage settle
  unmanage-SameListing info s = record {
    lists = λ l i. ground arith;
    assigned = λ i. ground arith;
    numbers = λ i. ground arith;
    db = refl;
  }

  restored-SameListing :
      (info : ℕ) (f : Option ℕ) (original : ℕ) (s : State M)
      → (s.irq info).assigned_obj ≡ some original
      → SameListing s (retarget (retarget s info f) info (some original))
  restored-SameListing info f original s e = record {
    lists = λ l i. ground arith;
    assigned = λ i. ground (arith, e);
    numbers = λ i. ground arith;
    db = refl;
  }

  -- The kept lists, the same database.
  pub record KeptAll (s t : State M) : Type 0 where
    pub kept : Kept s t
    pub same_db : t.interrupts_db ≡ s.interrupts_db

  pub KeptAll-trans : {s t u : State M} → KeptAll s t → KeptAll t u → KeptAll s u
  KeptAll-trans h k = record { kept = Kept-trans h.kept k.kept; same_db = k.same_db ∙ h.same_db }

  pub SameListing-KeptAll : {s t : State M} → IsPlaced s → SameListing s t → KeptAll s t
  SameListing-KeptAll v e = record { kept = SameListing-Kept e v; same_db = e.db }

  -- What an attempt leaves: when it fails, the interrupt stays where it is assigned.
  abbrev pub Outcome : State M → ℕ → ℕ → Bool × State M → Type 0
  Outcome s original info r =
      KeptAll s r.1 × (r.0 ≡ false → (r.1.irq info).assigned_obj ≡ some original)

  note_failure-SameListing :
      (f : ℕ) (e : Errno) (original info : ℕ) (s : State M)
      → (s.irq info).assigned_obj ≡ some original
      → SameListing s (retarget (note_failure f e (retarget s info (some f))) info (some original))
  unfolding note_failure saturate
  note_failure-SameListing f Errno.enospc original info s e = record {
    lists = λ l i. ground (arith, saturate-lists f (retarget s info (some f)) l);
    assigned = λ i. ground (arith, e);
    numbers = λ i. ground arith;
    db = refl;
  }
  note_failure-SameListing f Errno.eagain original info s e =
      restored-SameListing info (some f) original s e
  note_failure-SameListing f Errno.ebusy original info s e =
      restored-SameListing info (some f) original s e
  note_failure-SameListing f Errno.einval original info s e =
      restored-SameListing info (some f) original s e
  note_failure-SameListing f Errno.erange original info s e =
      restored-SameListing info (some f) original s e
  note_failure-SameListing f Errno.enomem original info s e =
      restored-SameListing info (some f) original s e
  note_failure-SameListing f Errno.eio original info s e =
      restored-SameListing info (some f) original s e
  note_failure-SameListing f Errno.eperm original info s e =
      restored-SameListing info (some f) original s e
  note_failure-SameListing f (Errno.other_errno _) original info s e =
      restored-SameListing info (some f) original s e

  move_to_fallback-KeptAll :
      (original f info : ℕ) (s : State M)
      → IsPlaced s
      → 0 < count info s.interrupts_db
      → (s.irq info).assigned_obj ≡ some original
      → KeptAll s (move_to_fallback original f info (retarget s info (some f)))
  unfolding move_to_fallback
  move_to_fallback-KeptAll original f info s v d e =
      let k = migrate-retarget-Kept s original f info v d e in
      let t = migrate_irq_obj (retarget s info (some f)) (some original) (some f) info in
      let c = saturate_cpu-SameListing original t in
      let q = SameListing-trans c (settle-SameListing info (saturate_cpu original t)) in
      record {
        kept = Kept-trans k (SameListing-Kept q k.placed);
        same_db = q.db ∙ migrate-retarget_db s original f info v d e;
      }

  pub attempt-Outcome :
      (a b : Option Errno) (original f info : ℕ) (s : State M)
      → IsPlaced s
      → 0 < count info s.interrupts_db
      → (s.irq info).assigned_obj ≡ some original
      → Outcome s original info (attempt a b original f info (retarget s info (some f)))
  unfolding attempt
  attempt-Outcome none none original f info s v d e =
      (move_to_fallback-KeptAll original f info s v d e, λ h. cc)
  attempt-Outcome none (some x) original f info s v d e = (
    SameListing-KeptAll v (note_failure-SameListing f x original info s e),
    λ h. ground (arith, ==_refl info),
  )
  attempt-Outcome (some x) b original f info s v d e = (
    SameListing-KeptAll v (restored-SameListing info (some f) original s e),
    λ h. ground (arith, ==_refl info),
  )

module _ {M : Type 0} ⦃mask : Cpumask M⦄ where
  try_cpus-Outcome :
      (n : ℕ) (k : Kernel M) (scope original info : ℕ) (tried : M) (s : State M)
      → IsPlaced s
      → 0 < count info s.interrupts_db
      → (s.irq info).assigned_obj ≡ some original
      → Outcome s original info (try_cpus n k scope original info tried s)
  unfolding try_cpus
  try_cpus-Outcome zero k scope original info tried s v d e =
      (SameListing-KeptAll v (SameListing-refl s), λ h. e)
  try_cpus-Outcome (suc n) k scope original info tried s v d e =
      elim (Option-cases (find_best_cpu_under_obj 4 s original tried scope)) [
        | inl none_left ↦
            rw (none_left, try_cpus) (SameListing-KeptAll v (SameListing-refl s), λ h. e)
        | inr (f, found) ↦
            let w =
              k.write_mask (s.irq info).irq (max_fallback_attempts - n)
                (mask.cpus_and s.cpu_online_map (s.obj f).mask) in
            let r = attempt w.fopen (print_error w) original f info (retarget s info (some f)) in
            let o = attempt-Outcome w.fopen (print_error w) original f info s v d e in
            rw (found, try_cpus)
              (if_cases_eq (Outcome s original info) r.0 (λ h. (o.0, λ c. cc))
                (λ h.
                  let later =
                    try_cpus-Outcome n k scope original info (mask.cpus_or tried (s.obj f).mask) r.1
                      o.0.kept.placed (rw (o.0.same_db) d) (o.1 h) in
                  (KeptAll-trans o.0 later.0, later.1)))
      ]

  try_in_scope-Outcome :
      (k : Kernel M) (scope : Option ℕ) (original info : ℕ) (s : State M)
      → IsPlaced s
      → 0 < count info s.interrupts_db
      → (s.irq info).assigned_obj ≡ some original
      → Outcome s original info (try_in_scope k scope original info s)
  unfolding try_in_scope
  try_in_scope-Outcome k none original info s v d e =
      (SameListing-KeptAll v (SameListing-refl s), λ h. e)
  try_in_scope-Outcome k (some scope) original info s v d e =
      try_cpus-Outcome max_fallback_attempts k scope original info mask.cpus_clear s v d e

  pub try_by_level-Outcome :
      (k : Kernel M) (level : Level) (original info : ℕ) (s : State M)
      → IsPlaced s
      → 0 < count info s.interrupts_db
      → (s.irq info).assigned_obj ≡ some original
      → Outcome s original info (try_by_level k level original info s)
  unfolding try_by_level
  try_by_level-Outcome k balance_core original info s v d e =
      (SameListing-KeptAll v (SameListing-refl s), λ h. e)
  try_by_level-Outcome k balance_none original info s v d e =
      (SameListing-KeptAll v (SameListing-refl s), λ h. e)
  try_by_level-Outcome k balance_cache original info s v d e =
      try_in_scope-Outcome k (search_scope s balance_cache original) original info s v d e
  try_by_level-Outcome k balance_package original info s v d e =
      try_in_scope-Outcome k (search_scope s balance_package original) original info s v d e
