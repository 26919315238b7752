-- ===== src/Classify/Rebuilt.antt =====
-- classify.c: the database that a scan of the devices builds.
use irqbalance.Prelude.{
  ℕ, ℤ, ◌≤◌, ◌≡◌, refl, Option, none, some, List, [], ◌∷◌, arith, inl, inr, count, for_each,
  if_cases, Option-cases,
}
use irqbalance.Types.{State, IrqInfo}
use irqbalance.Types.Cpumask.{Cpumask}
use irqbalance.Types.Places.{irqs_at}
use irqbalance.Classify.Known.{IsSound, add_new_irq-IsSound}
use irqbalance.Classify.Database.{
  Device, Sysfs, add_new_irq, device_hint, irq_type_msix, irq_type_legacy, add_msi_irqs,
  add_legacy_irq, build_one_dev_entry, build_devices, build_dev_irqs, free_irq_db, rebuild_irq_db,
}

module _ {M : Type 0} ⦃mask : Cpumask M⦄ where
  add_msi_irqs-IsSound :
      (sys : Sysfs M) (d : Device M) (b : Option ℤ) (ns : List ℤ) (s : State M)
      → IsSound s
      → IsSound (add_msi_irqs sys d b ns s)
  unfolding add_msi_irqs
  add_msi_irqs-IsSound sys d b [] s w = w
  add_msi_irqs-IsSound sys d b (n ∷ ns) s w =
      let one = (add_new_irq-IsSound sys (some d) (device_hint n irq_type_msix) s w).0 in
      if_cases IsSound _ (if_cases IsSound _ one (add_msi_irqs-IsSound sys d b ns _ one))
        (add_msi_irqs-IsSound sys d b ns s w)

  add_legacy_irq-IsSound :
      (sys : Sysfs M) (d : Device M) (b n : Option ℤ) (s : State M)
      → IsSound s
      → IsSound (add_legacy_irq sys d b n s)
  unfolding add_legacy_irq
  add_legacy_irq-IsSound sys d b none s w = w
  add_legacy_irq-IsSound sys d b (some n) s w =
      if_cases IsSound _ ((add_new_irq-IsSound sys (some d) (device_hint n irq_type_legacy) s w).0)
        w

  build_one_dev_entry-IsSound :
      (sys : Sysfs M) (b : Option ℤ) (d : Device M) (s : State M)
      → IsSound s
      → IsSound (build_one_dev_entry sys b d s)
  unfolding build_one_dev_entry
  build_one_dev_entry-IsSound sys b d s w = elim (Option-cases d.msi_irqs) [
    | inl e ↦ rw (e, build_one_dev_entry) (add_legacy_irq-IsSound sys d b d.irq_file s w)
    | inr (ns, e) ↦ rw (e, build_one_dev_entry) (add_msi_irqs-IsSound sys d b ns s w)
  ]

  build_devices-IsSound :
      (sys : Sysfs M) (b : Option ℤ) (ds : List (Device M)) (s : State M)
      → IsSound s
      → IsSound (build_devices sys b ds s)
  unfolding build_devices
  build_devices-IsSound sys b [] s w = w
  build_devices-IsSound sys b (d ∷ ds) s w =
      let one = build_one_dev_entry-IsSound sys b d s w in
      if_cases IsSound _ one (build_devices-IsSound sys b ds _ one)

  each-IsSound :
      (sys : Sysfs M) (hints : List (IrqInfo M)) (s : State M)
      → IsSound s
      → IsSound (for_each (add_new_irq sys none) hints s)
  each-IsSound sys [] s w = w
  each-IsSound sys (h ∷ hs) s w = each-IsSound sys hs _ ((add_new_irq-IsSound sys none h s w).0)

  freed-IsSound : (s : State M) → ((p : ℕ) → (s.obj p).interrupts ≡ []) → IsSound (free_irq_db s)
  unfolding free_irq_db
  freed-IsSound s e = record {
    placed = record {
      one_place = λ l i. none_listed l i _;
      known = λ l i h. absurd (ground (arith, nothing l i, h));
      unique = λ i j h k n. absurd (omega arith);
      listed = λ i p h k. absurd (omega arith);
    };
    fresh_db = λ i h. refl;
    fresh_banned = λ i h. refl;
  }
    where
      nothing : (l : Option ℕ) (i : ℕ) → count i (irqs_at (free_irq_db s) l) ≡ 0
      nothing none i = refl
      nothing (some p) i = rw (e p) refl

      none_listed : (l : Option ℕ) (i n : ℕ) → count i (irqs_at (free_irq_db s) l) ≤ n
      none_listed l i n = omega (arith, nothing l i)

  -- A rebuilt database is in order when no object of the new tree lists an interrupt yet: every
  -- number names one interrupt, and what is listed is listed once and where it says.
  pub rebuild_irq_db-IsSound :
      (sys : Sysfs M) (tmp_irqs : List (IrqInfo M)) (s : State M)
      → ((p : ℕ) → (s.obj p).interrupts ≡ [])
      → IsSound (rebuild_irq_db sys tmp_irqs s)
  unfolding rebuild_irq_db build_dev_irqs
  rebuild_irq_db-IsSound sys tmp_irqs s e =
      each-IsSound sys tmp_irqs _ (build_devices-IsSound sys none sys.devices _ (freed-IsSound s e))
