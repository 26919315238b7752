-- ===== src/Thermal/Events.antt =====
-- thermal.c: handle_thermal_event, which reads the reports of one notification.
use irqbalance.Prelude.{
  ℕ, ℤ, pos, negsuc, ◌<◌, ◌≡◌, refl, ◌==ℤ◌, ltb_ℤ, Bool, true, false, not, ◌&&◌, ◌||◌, Option, none,
  some, List, [], ◌∷◌, arith, to_int, ltb, if◌then◌else◌, ◌∙◌,
}
use irqbalance.Types.Cpumask.{Cpumask}
use irqbalance.Thermal.Bans.{Thermal, update_banned_cpus}
use irqbalance.Thermal.Sweep.{finish_sweep-fault}

-- The attributes of a notification: whether it is of a capability change, whether it parses, and the
-- numbers of its payload, if it has one.
pub record Notification : Type 0 where
  pub is_capability_change : Bool
  pub parses : Bool
  pub capability : Option (List ℕ)

pub data CallbackResult : Type 0 where
  nl_ok nl_skip : CallbackResult

-- An index that no mask has a bit for and that the code still writes: a negative one, or the one
-- behind the last bit.
abbrev pub is_outside : ℕ → ℕ → Bool
is_outside nr_cpus cpu = ltb_ℤ (to_int cpu) (pos 0) || to_int cpu ==ℤ pos nr_cpus

abbrev pub any_outside : ℕ → List ℕ → Bool
any_outside nr_cpus (cpu ∷ perf ∷ effi ∷ rest) = is_outside nr_cpus cpu || any_outside nr_cpus rest
any_outside nr_cpus (cpu ∷ perf ∷ []) = false
any_outside nr_cpus (cpu ∷ []) = false
any_outside nr_cpus [] = false

module _ {M : Type 0} ⦃mask : Cpumask M⦄ where
  -- A mask has no bit below 0: such an index writes out of bounds.
  unfoldable pub update_at : ℕ → ℤ → Bool → Thermal M → Thermal M
  unfolding update_banned_cpus
  update_at max_cpunum (negsuc n) need_to_ban t = record t { fault = true }
  update_at max_cpunum (pos cpu) need_to_ban t = update_banned_cpus max_cpunum cpu need_to_ban t

  -- One group of a CPU, its performance and its efficiency. The test lets NR_CPUS itself pass.
  unfoldable pub handle_report : ℕ → ℕ → ℕ → ℕ → Thermal M → Thermal M
  unfolding update_at
  handle_report max_cpunum cpu perf effi t =
      let cur_cpuidx = to_int cpu in
      let need_to_ban = to_int perf ==ℤ pos 0 && to_int effi ==ℤ pos 0 in
      if ltb_ℤ (pos mask.nr_cpus) cur_cpuidx
      then t
      else update_at max_cpunum cur_cpuidx need_to_ban t

  -- The walk over the payload, three numbers at a time; what is left over is not looked at.
  unfoldable pub read_reports : ℕ → List ℕ → Thermal M → Thermal M
  unfolding handle_report
  read_reports max_cpunum (cpu ∷ perf ∷ effi ∷ rest) t =
      read_reports max_cpunum rest (handle_report max_cpunum cpu perf effi t)
  read_reports max_cpunum (cpu ∷ perf ∷ []) t = t
  read_reports max_cpunum (cpu ∷ []) t = t
  read_reports max_cpunum [] t = t

  unfoldable pub read_capability : ℕ → Option (List ℕ) → Thermal M → CallbackResult × Thermal M
  unfolding read_reports
  read_capability max_cpunum none t = (nl_skip, t)
  read_capability max_cpunum (some payload) t = (nl_ok, read_reports max_cpunum payload t)

  unfoldable pub handle_thermal_event : ℕ → Notification → Thermal M → CallbackResult × Thermal M
  unfolding read_capability
  handle_thermal_event max_cpunum n t =
      if not n.is_capability_change
      then (nl_skip, t)
      else if not n.parses
      then (nl_skip, t)
      else read_capability max_cpunum n.capability t

  update-fault :
      (max_cpunum cpu : ℕ) (b : Bool) (t : Thermal M)
      → (update_banned_cpus max_cpunum cpu b t).fault ≡ (t.fault || not (ltb cpu mask.nr_cpus))
  unfolding update_banned_cpus
  update-fault max_cpunum cpu true t = grind (arith, finish_sweep-fault)
  update-fault max_cpunum cpu false t = grind (arith, finish_sweep-fault)

  -- What a report does to the bounds of the masks, on every index that 32 bits can hold: an index
  -- the masks have a bit for is written in bounds, one above NR_CPUS is dropped and changes nothing,
  -- and NR_CPUS itself and the negative ones are written out of bounds.
  pub handle_report-bounds :
      (max_cpunum cpu perf effi : ℕ) (t : Thermal M)
      → let cur_cpuidx = to_int cpu in
        let u = handle_report max_cpunum cpu perf effi t in
        ((k : ℕ) → cur_cpuidx ≡ pos k → k < mask.nr_cpus → u.fault ≡ t.fault)
        × ((k : ℕ) → cur_cpuidx ≡ pos k → mask.nr_cpus < k → u ≡ t)
        × (cur_cpuidx ≡ pos mask.nr_cpus → u.fault ≡ true)
        × ((k : ℕ) → cur_cpuidx ≡ negsuc k → u.fault ≡ true)
  unfolding handle_report update_at
  handle_report-bounds max_cpunum cpu perf effi t =
      let ban = to_int perf ==ℤ pos 0 && to_int effi ==ℤ pos 0 in
      (
        λ k e h. rw e (ground (arith, update-fault max_cpunum k ban t)),
        λ k e h. rw e (ground arith),
        λ e. rw e (ground (arith, update-fault max_cpunum mask.nr_cpus ban t)),
        λ k e. rw e (ground arith),
      )

  handle_report-fault :
      (max_cpunum cpu perf effi : ℕ) (t : Thermal M)
      → (handle_report max_cpunum cpu perf effi t).fault ≡ (t.fault || is_outside mask.nr_cpus cpu)
  unfolding handle_report update_at
  handle_report-fault max_cpunum cpu perf effi t = go (to_int cpu) refl
    where
      ban : Bool
      ban = to_int perf ==ℤ pos 0 && to_int effi ==ℤ pos 0

      go :
          (i : ℤ)
          → to_int cpu ≡ i
          → (handle_report max_cpunum cpu perf effi t).fault
            ≡ (t.fault || is_outside mask.nr_cpus cpu)
      go (pos k) e = rw e (ground (arith, update-fault max_cpunum k ban t))
      go (negsuc k) e = rw e (ground arith)

  -- A payload of any length, whatever its numbers: a mask is written out of its bounds exactly if
  -- one of the whole groups names a CPU that is negative, as an `int`, or NR_CPUS. A larger index
  -- and what is left of a group do no harm.
  pub read_reports-fault :
      (max_cpunum : ℕ) (payload : List ℕ) (t : Thermal M)
      → (read_reports max_cpunum payload t).fault ≡ (t.fault || any_outside mask.nr_cpus payload)
  unfolding read_reports
  read_reports-fault max_cpunum (cpu ∷ perf ∷ effi ∷ rest) t =
      let u = handle_report max_cpunum cpu perf effi t in
      read_reports-fault max_cpunum rest u
      ∙ ground (arith, handle_report-fault max_cpunum cpu perf effi t)
  read_reports-fault max_cpunum (cpu ∷ perf ∷ []) t = ground arith
  read_reports-fault max_cpunum (cpu ∷ []) t = ground arith
  read_reports-fault max_cpunum [] t = ground arith
