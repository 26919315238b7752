-- ===== src/Thermal/Sweep.antt =====
-- thermal.c: the masks of update_banned_cpus against the list of the reports of the sweep.
use irqbalance.Prelude.{
  ℕ, ◌<◌, ◌≡◌, refl, ◌==◌, ltb, Bool, true, false, not, ◌&&◌, ◌||◌, List, [], ◌∷◌, arith, ◌⊎◌, inl,
  inr, Bool-cases, if_cases, if_cases_eq, if◌then◌else◌, ◌∙◌,
}
use irqbalance.Types.Cpumask.{Cpumask}
use irqbalance.Thermal.Bans.{Thermal, finish_sweep, update_banned_cpus}

-- What a notification says of a CPU, the latest report first.
pub record Report : Type 0 where
  pub cpu : ℕ
  pub ban : Bool

abbrev pub reports_on : ℕ → List Report → Bool
reports_on k [] = false
reports_on k (r ∷ rs) = r.cpu == k || reports_on k rs

abbrev pub banned_by : ℕ → List Report → Bool
banned_by k [] = false
banned_by k (r ∷ rs) = r.ban && r.cpu == k || banned_by k rs

module _ {M : Type 0} ⦃mask : Cpumask M⦄ where
  -- The masks hold what the reports of this sweep say.
  pub record Holds (t : Thermal M) (rs : List Report) : Type 0 where
    pub bans : (k : ℕ) → mask.cpu_isset k t.banmask ≡ banned_by k rs
    pub reach : (k : ℕ) → mask.cpu_isset k t.itrmask ≡ reports_on k rs

  isset-set :
      (j k : ℕ) (m : M)
      → j < mask.nr_cpus
      → mask.cpu_isset k (mask.cpu_set j m) ≡ (j == k || mask.cpu_isset k m)
  isset-set j k m h = elim (Bool-cases (j == k)) [
    | inl e ↦ let same : j ≡ k = ground arith in rw e (rw (← same) (mask.cpu_isset-set_self j m h))
    | inr e ↦ rw e (mask.cpu_isset-set_ne j k m (λ same. ground (arith, e, same)))
  ]

  finish_sweep-Holds : (t : Thermal M) → Holds (finish_sweep t) []
  unfolding finish_sweep
  finish_sweep-Holds t =
      let clear = mask.cpu_isset-clear in
      if_cases (λ u. Holds u []) (mask.cpus_equal t.thermal_banned_cpus t.banmask)
        (record { bans = clear; reach = clear }) (record { bans = clear; reach = clear })

  -- The state after the report, before the sweep is looked at.
  abbrev noted : Report → Thermal M → Thermal M
  noted r t = record (if r.ban then record t { banmask = mask.cpu_set r.cpu t.banmask } else t) {
    itrmask = mask.cpu_set r.cpu t.itrmask;
    fault = t.fault || not (ltb r.cpu mask.nr_cpus);
  }

  noted-Holds :
      (r : Report) (t : Thermal M) (rs : List Report)
      → Holds t rs
      → r.cpu < mask.nr_cpus
      → Holds (noted r t) (r ∷ rs)
  noted-Holds r t rs v h = record {
    bans = λ k. ground (arith, v.bans k, isset-set r.cpu k t.banmask h);
    reach = λ k. ground (arith, v.reach k, isset-set r.cpu k t.itrmask h);
  }

  finish_sweep-published :
      (t : Thermal M) (k : ℕ)
      → mask.cpu_isset k (finish_sweep t).thermal_banned_cpus ≡ mask.cpu_isset k t.banmask
  unfolding finish_sweep
  finish_sweep-published t k =
      if_cases_eq
        (λ (u : Thermal M). mask.cpu_isset k u.thermal_banned_cpus ≡ mask.cpu_isset k t.banmask)
        (mask.cpus_equal t.thermal_banned_cpus t.banmask)
        (λ e. mask.cpus_equal-true t.thermal_banned_cpus t.banmask e k) (λ e. refl)

  finish_sweep-rescan :
      (t : Thermal M)
      → (finish_sweep t).need_rescan ≡ false
      → (t.need_rescan ≡ false) × ((finish_sweep t).thermal_banned_cpus ≡ t.thermal_banned_cpus)
  unfolding finish_sweep
  finish_sweep-rescan t e = ground arith

  pub finish_sweep-fault : (t : Thermal M) → (finish_sweep t).fault ≡ t.fault
  unfolding finish_sweep
  finish_sweep-fault t = ground arith

  -- The two masks refine the list of the reports of the sweep. A report on a CPU that the masks have
  -- room for is added to the list. While the masks hold reports on fewer CPUs than are online, the
  -- published ban and the request for a rescan stay. Only when the report brings as many as are
  -- online, exactly the CPUs that a report of this sweep bans are published, the next sweep starts
  -- with no report, and when no rescan is asked for the ban has not changed.
  pub update_banned_cpus-refines :
      (max_cpunum : ℕ) (r : Report) (t : Thermal M) (rs : List Report)
      → Holds t rs
      → r.cpu < mask.nr_cpus
      → let u = update_banned_cpus max_cpunum r.cpu r.ban t in
        (u.fault ≡ t.fault)
        × (Holds u (r ∷ rs)
              × (u.thermal_banned_cpus ≡ t.thermal_banned_cpus)
              × (u.need_rescan ≡ t.need_rescan)
              × (ltb (mask.cpus_weight u.itrmask) max_cpunum ≡ true)
            ⊎ (ltb (mask.cpus_weight (mask.cpu_set r.cpu t.itrmask)) max_cpunum ≡ false)
              × Holds u []
              × ((k : ℕ) → mask.cpu_isset k u.thermal_banned_cpus ≡ banned_by k (r ∷ rs))
              × (u.need_rescan ≡ false
                  → (t.need_rescan ≡ false) × (u.thermal_banned_cpus ≡ t.thermal_banned_cpus)))
  unfolding update_banned_cpus
  update_banned_cpus-refines max_cpunum r t rs v h =
      let n = noted r t in
      let w = noted-Holds r t rs v h in
      let P = λ (u : Thermal M).
        (u.fault ≡ t.fault)
        × (Holds u (r ∷ rs)
              × (u.thermal_banned_cpus ≡ t.thermal_banned_cpus)
              × (u.need_rescan ≡ t.need_rescan)
              × (ltb (mask.cpus_weight u.itrmask) max_cpunum ≡ true)
            ⊎ (ltb (mask.cpus_weight (mask.cpu_set r.cpu t.itrmask)) max_cpunum ≡ false)
              × Holds u []
              × ((k : ℕ) → mask.cpu_isset k u.thermal_banned_cpus ≡ banned_by k (r ∷ rs))
              × (u.need_rescan ≡ false
                  → (t.need_rescan ≡ false) × (u.thermal_banned_cpus ≡ t.thermal_banned_cpus))) in
      if_cases_eq P (ltb (mask.cpus_weight n.itrmask) max_cpunum)
        (λ e. (ground arith, inl (w, ground arith, ground arith, e)))
        (λ e. (
          finish_sweep-fault n ∙ ground arith,
          inr (
            e,
            finish_sweep-Holds n,
            λ k. finish_sweep-published n k ∙ w.bans k,
            λ q. let f = finish_sweep-rescan n q in (ground (arith, f), ground (arith, f)),
          ),
        ))
