-- ===== src/Activate/Written.antt =====
-- activate.c: activate_mappings keeps every interrupt, whatever the kernel answers.
use irqbalance.Prelude.{
  ℕ, ◌<◌, ◌≡◌, refl, ==_refl, Option, none, some, List, [], ◌∷◌, arith, for_each, count, if_cases,
  if_cases_eq, ◌∙◌,
}
use irqbalance.Types.{State}
use irqbalance.Types.Cpumask.{Cpumask}
use irqbalance.Types.Invariant.{IsPlaced, IsPlaced-IsNumbered, SameListing-refl}
use irqbalance.Classify.Lookup.{for_each_irq}
use irqbalance.Irqlist.Migrate.{migrate_irq_obj_frame}
use irqbalance.Irqlist.Kept.{migrate_irq_obj-Kept}
use irqbalance.Irqbalance.Rebalance.{rebalance_from, force_rebalance_irq}
use irqbalance.Activate.Kernel.{Errno, Kernel, reported}
use irqbalance.Activate.Fallback.{saturate_cpu, try_by_level, try_fallback_cpu}
use irqbalance.Activate.Mapping.{
  give_up, place_elsewhere, on_error, after_write, activate_at, activate_mapping, activate_mappings,
}
use irqbalance.Activate.Keeps.{
  KeptAll, KeptAll-trans, SameListing-KeptAll, saturate_cpu-SameListing, settle-SameListing,
  unmanage-SameListing, try_by_level-Outcome,
}

module _ {M : Type 0} where
  same : (s : State M) → IsPlaced s → KeptAll s s
  same s v = SameListing-KeptAll v (SameListing-refl s)

  rebalance_from-KeptAll :
      (p info : ℕ) (s : State M)
      → IsPlaced s
      → 0 < count info s.interrupts_db
      → (s.irq info).assigned_obj ≡ some p
      → KeptAll s (rebalance_from (some p) info s)
  unfolding rebalance_from
  rebalance_from-KeptAll p info s v d e =
      let here = v.listed info p d e in
      record {
        kept = migrate_irq_obj-Kept s (some p) none info v here;
        same_db = (migrate_irq_obj_frame s (some p) none info info (IsPlaced-IsNumbered v) here).0;
      }

  give_up-KeptAll :
      (p info : ℕ) (s : State M)
      → IsPlaced s
      → 0 < count info s.interrupts_db
      → (s.irq info).assigned_obj ≡ some p
      → KeptAll s (give_up info s)
  unfolding give_up force_rebalance_irq
  give_up-KeptAll p info s v d e =
      let away : KeptAll s (rebalance_from (s.irq info).assigned_obj info s) =
        rw e (rebalance_from-KeptAll p info s v d e) in
      let k : KeptAll s (force_rebalance_irq info s) = if_cases (KeptAll s) _ (same s v) away in
      KeptAll-trans k
        (SameListing-KeptAll k.kept.placed (settle-SameListing info (force_rebalance_irq info s)))

module _ {M : Type 0} ⦃mask : Cpumask M⦄ where
  place_elsewhere-KeptAll :
      (k : Kernel M) (p info : ℕ) (s : State M)
      → IsPlaced s
      → 0 < count info s.interrupts_db
      → (s.irq info).assigned_obj ≡ some p
      → KeptAll s (place_elsewhere k p info s)
  unfolding place_elsewhere try_fallback_cpu
  place_elsewhere-KeptAll k p info s v d e =
      let c = saturate_cpu-SameListing p s in
      let t = saturate_cpu p s in
      let first = SameListing-KeptAll v c in
      let r = try_by_level k (t.irq info).level p info t in
      let o =
        try_by_level-Outcome k (t.irq info).level p info t first.kept.placed (rw (c.db) d)
          (c.assigned info ∙ e) in
      let there = KeptAll-trans first o.0 in
      if_cases_eq (KeptAll s) r.0 (λ h. there)
        (λ h.
          KeptAll-trans there
            (give_up-KeptAll p info r.1 o.0.kept.placed (rw (there.same_db) d) (o.1 h)))

  on_error-KeptAll :
      (x : Errno) (k : Kernel M) (p info : ℕ) (s : State M)
      → IsPlaced s
      → 0 < count info s.interrupts_db
      → (s.irq info).assigned_obj ≡ some p
      → KeptAll s (on_error x k p info s)
  unfolding on_error
  on_error-KeptAll Errno.eagain k p info s v d e = same s v
  on_error-KeptAll Errno.ebusy k p info s v d e = same s v
  on_error-KeptAll Errno.einval k p info s v d e = same s v
  on_error-KeptAll Errno.erange k p info s v d e = same s v
  on_error-KeptAll Errno.enomem k p info s v d e = same s v
  on_error-KeptAll Errno.enospc k p info s v d e = place_elsewhere-KeptAll k p info s v d e
  on_error-KeptAll Errno.eio k p info s v d e = SameListing-KeptAll v (unmanage-SameListing info s)
  on_error-KeptAll Errno.eperm k p info s v d e =
      SameListing-KeptAll v (unmanage-SameListing info s)
  on_error-KeptAll (Errno.other_errno _) k p info s v d e =
      SameListing-KeptAll v (unmanage-SameListing info s)

  after_write-KeptAll :
      (a : Option Errno) (k : Kernel M) (p info : ℕ) (s : State M)
      → IsPlaced s
      → 0 < count info s.interrupts_db
      → (s.irq info).assigned_obj ≡ some p
      → KeptAll s (after_write a k p info s)
  unfolding after_write
  after_write-KeptAll none k p info s v d e = SameListing-KeptAll v (settle-SameListing info s)
  after_write-KeptAll (some x) k p info s v d e = on_error-KeptAll (reported x) k p info s v d e

  activate_at-KeptAll :
      (k : Kernel M) (a : Option ℕ) (info : ℕ) (s : State M)
      → IsPlaced s
      → 0 < count info s.interrupts_db
      → (s.irq info).assigned_obj ≡ a
      → KeptAll s (activate_at k a info s)
  unfolding activate_at
  activate_at-KeptAll k none info s v d e = same s v
  activate_at-KeptAll k (some p) info s v d e =
      if_cases (KeptAll s) _ (SameListing-KeptAll v (settle-SameListing info s))
        (after_write-KeptAll _ k p info s v d e)

  activate_mapping-KeptAll :
      (k : Kernel M) (info : ℕ) (s : State M)
      → IsPlaced s
      → 0 < count info s.interrupts_db
      → KeptAll s (activate_mapping k info s)
  unfolding activate_mapping
  activate_mapping-KeptAll k info s v d =
      if_cases (KeptAll s) _ (activate_at-KeptAll k (s.irq info).assigned_obj info s v d refl)
        (same s v)

  each-KeptAll :
      (k : Kernel M) (xs : List ℕ) (s : State M)
      → IsPlaced s
      → ((x : ℕ) → 0 < count x xs → 0 < count x s.interrupts_db)
      → KeptAll s (for_each (activate_mapping k) xs s)
  each-KeptAll k [] s v h = same s v
  each-KeptAll k (x ∷ xs) s v h =
      let one = activate_mapping-KeptAll k x s v (h x (ground (arith, ==_refl x))) in
      KeptAll-trans one (
        each-KeptAll k xs (activate_mapping k x s) one.kept.placed
          (λ y m. rw (one.same_db) (h y (omega arith))))

  -- Whatever the kernel answers, writing the masks of all interrupts, when each listed one is
  -- where it says, leaves each one listed exactly once and where it says it is, loses none, and
  -- keeps the database as it was.
  pub activate_mappings-KeptAll :
      (k : Kernel M) (s : State M) → IsPlaced s → KeptAll s (activate_mappings k s)
  unfolding activate_mappings for_each_irq
  activate_mappings-KeptAll k s v = each-KeptAll k s.interrupts_db s v (λ x h. h)
