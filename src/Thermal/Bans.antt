-- ===== src/Thermal/Bans.antt =====
-- thermal.c: update_banned_cpus, and the state that stands behind it.
use irqbalance.Prelude.{ℕ, ltb, Bool, true, not, ◌||◌, if◌then◌else◌}
use irqbalance.Types.Cpumask.{Cpumask}

-- The masks of the current sweep, the published ban, and the flag for the main loop. `fault` is set
-- where a mask would be written out of its bounds.
pub record Thermal (M : Type 0) : Type 0 where
  pub banmask : M
  pub itrmask : M
  pub thermal_banned_cpus : M
  pub need_rescan : Bool
  pub fault : Bool

module _ {M : Type 0} ⦃mask : Cpumask M⦄ where
  -- The sweep has reached every CPU: a ban that changed is published, and a new sweep begins.
  unfoldable pub finish_sweep : Thermal M → Thermal M
  finish_sweep t =
      let cleared = record t { banmask = mask.cpus_clear; itrmask = mask.cpus_clear } in
      if mask.cpus_equal t.thermal_banned_cpus t.banmask
      then cleared
      else record cleared { thermal_banned_cpus = t.banmask; need_rescan = true }

  -- `max_cpunum` is the number of CPUs that sysconf says are online.
  unfoldable pub update_banned_cpus : ℕ → ℕ → Bool → Thermal M → Thermal M
  unfolding finish_sweep
  update_banned_cpus max_cpunum cur_cpuidx need_to_ban t =
      let t₁ =
        if need_to_ban then record t { banmask = mask.cpu_set cur_cpuidx t.banmask } else t in
      let t₂ = record t₁ {
        itrmask = mask.cpu_set cur_cpuidx t.itrmask;
        fault = t.fault || not (ltb cur_cpuidx mask.nr_cpus);
      } in
      if ltb (mask.cpus_weight t₂.itrmask) max_cpunum then t₂ else finish_sweep t₂
