-- ===== src/Irqbalance/Daemon.antt =====
-- irqbalance.c: scan and handler, with the globals of the main loop.
use irqbalance.Prelude.{
  ℕ, ℤ, ◌≡◌, ◌≢◌, refl, ◌==ℤ◌, ==ℤ-eq, ==ℤ_refl, Bool, true, false, not, ◌&&◌, ◌||◌, ◌⊎◌, inl, inr,
  Option, List, [], ◌∷◌, arith, if◌then◌else◌, if_cases_eq,
}
use irqbalance.Types.{State}
use irqbalance.Types.Cpumask.{Cpumask}
use irqbalance.Types.Glist.{Glist}
use irqbalance.Types.Floating.{Floating}
use irqbalance.Classify.Database.{Sysfs}
use irqbalance.Classify.Lookup.{for_each_irq}
use irqbalance.Activate.Kernel.{Kernel}
use irqbalance.Cputree.Clear.{clear_work_stats, clear_slots}
use irqbalance.Procinterrupts.Lines.{ProcLine, parse_proc_interrupts}
use irqbalance.Procinterrupts.Load.{StatLine, parse_proc_stat}
use irqbalance.Irqbalance.Rebalance.{force_rebalance_irq}
use irqbalance.Irqbalance.Scan.{next_cycle, balance}
use irqbalance.Irqbalance.Rescan.{rebuild}

-- `timers` are the intervals for which g_timeout_add_seconds was called, the latest first;
-- `quit` is set where g_main_loop_quit is called.
pub record Daemon (M : Type 0) : Type 0 where
  pub state : State M
  pub keep_going : Bool
  pub one_shot_mode : Bool
  pub sleep_interval : ℤ
  pub last_interval : ℤ
  pub timers : List ℤ
  pub quit : Bool

-- What one scan reads: /proc/interrupts before and after a rebuild, /proc/stat, sysfs, the answers
-- to what it writes, and the builder of the tree.
pub record World (M : Type 0) : Type 0 where
  pub sys : Sysfs M
  pub interrupts : Option (List ProcLine)
  pub interrupts_again : Option (List ProcLine)
  pub to_ns : ℕ → ℕ
  pub stat : Option (List StatLine)
  pub kernel : Kernel M
  pub build : ℕ → State M → State M

module _ {M : Type 0} where
  -- SIGINT and SIGTERM.
  unfoldable pub handler : Daemon M → Bool × Daemon M
  handler d = (true, record d { keep_going = false; quit = true })

  -- From `out:` on, but for the counter.
  unfoldable pub finish_scan : Daemon M → Bool × Daemon M
  finish_scan d =
      let d₁ = if d.one_shot_mode then record d { keep_going = false } else d in
      if not (d.last_interval ==ℤ d.sleep_interval)
      then (
        false,
        record d₁ { last_interval = d.sleep_interval; timers = d.sleep_interval ∷ d.timers },
      )
      else if d₁.keep_going
      then (true, d₁)
      else (false, record d₁ { quit = true })

module _ {M F : Type 0} ⦃mask : Cpumask M⦄ (g : Glist) (f : Floating F) where
  -- What is left to do with a tree that was built again.
  unfoldable pub take_up : World M → State M → State M
  take_up w s =
      let t = clear_slots (for_each_irq [] force_rebalance_irq s) in
      parse_proc_stat w.to_ns w.stat (parse_proc_interrupts w.sys w.interrupts_again t)

  unfoldable pub scan : World M → Daemon M → Bool × Daemon M
  unfolding finish_scan take_up
  scan w d =
      let s = parse_proc_interrupts w.sys w.interrupts (clear_work_stats d.state) in
      let r =
        rebuild w.build 3 (clear_work_stats (record s { need_rescan = false; cycle_count = 0 })) in
      let balanced = balance g f w.to_ns w.stat w.kernel s in
      if d.keep_going && (s.need_rescan || s.need_rebuild)
      then (if r.0
          then (true, record d { state = take_up w r.1 })
          else finish_scan (record d { state = next_cycle g f r.1 }))
      else finish_scan (record d { state = balanced })

-- What becomes of the source of `scan`, for a scan that took up a tree built again, or did not. It
-- stays; or it goes, and one new timer takes its place; or it goes, and the loop is told to end.
pub record GoesOn {M : Type 0} (again : Bool) (d : Daemon M) (r : Bool × Daemon M) : Type 0 where
  pub served :
      ((r.0 ≡ true)
        × (r.1.timers ≡ d.timers)
        × (r.1.quit ≡ d.quit)
        × (r.1.last_interval ≡ d.last_interval)
        × ((again ≡ true) ⊎ (d.last_interval ≡ d.sleep_interval) × (r.1.keep_going ≡ true)))
      ⊎ ((r.0 ≡ false)
          × (again ≡ false)
          × (d.last_interval ≢ d.sleep_interval)
          × (r.1.timers ≡ d.sleep_interval ∷ d.timers)
          × (r.1.quit ≡ d.quit)
          × (r.1.last_interval ≡ d.sleep_interval))
      ⊎ (r.0 ≡ false)
        × (again ≡ false)
        × (d.last_interval ≡ d.sleep_interval)
        × (r.1.timers ≡ d.timers)
        × (r.1.quit ≡ true)
        × (r.1.keep_going ≡ false)
  pub going : r.1.keep_going ≡ (d.keep_going && (again || not d.one_shot_mode))

finish_scan-GoesOn : {M : Type 0} (d : Daemon M) → GoesOn false d (finish_scan d)
unfolding finish_scan
finish_scan-GoesOn d =
    let d₁ = if d.one_shot_mode then record d { keep_going = false } else d in
    let still : d₁.keep_going ≡ (d.keep_going && not d.one_shot_mode) = ground arith in
    let timers : d₁.timers ≡ d.timers = ground arith in
    let quit : d₁.quit ≡ d.quit = ground arith in
    let last : d₁.last_interval ≡ d.last_interval = ground arith in
    if_cases_eq (GoesOn false d) (not (d.last_interval ==ℤ d.sleep_interval))
      (λ e.
        let other : d.last_interval ≢ d.sleep_interval =
          λ q. absurd (ground (arith, e, q, ==ℤ_refl d.sleep_interval)) in
        record { served = inr (inl (refl, refl, other, refl, quit, refl)); going = still })
      (λ e.
        let same = ==ℤ-eq d.last_interval d.sleep_interval (ground arith) in
        if_cases_eq (GoesOn false d) d₁.keep_going
          (λ k. record { served = inl (refl, timers, quit, last, inr (same, k)); going = still })
          (λ k. record { served = inr (inr (refl, refl, same, timers, refl, k)); going = still }))

module _ {M : Type 0} ⦃mask : Cpumask M⦄ where
  -- The tree has to be built again, and one of three builds succeeds.
  abbrev pub builds_again : World M → Daemon M → Bool
  builds_again w d =
      let s = parse_proc_interrupts w.sys w.interrupts (clear_work_stats d.state) in
      let t = clear_work_stats (record s { need_rescan = false; cycle_count = 0 }) in
      d.keep_going && (s.need_rescan || s.need_rebuild) && (rebuild w.build 3 t).0

module _ {M F : Type 0} ⦃mask : Cpumask M⦄ (g : Glist) (f : Floating F) where
  -- Whatever a scan reads. If it took up a tree that was built again, its source stays, and it has
  -- added no timer and not told the loop to end. Otherwise the source stays only if the interval is
  -- the one that is asked for and the daemon is to keep going, which it is not after a scan in
  -- one-shot mode; with another interval exactly one timer is added, with that interval, and the
  -- source goes; else the source goes, no timer is added, and the loop is told to end.
  pub scan-GoesOn : (w : World M) (d : Daemon M) → GoesOn (builds_again w d) d (scan g f w d)
  unfolding scan
  scan-GoesOn w d =
      let s = parse_proc_interrupts w.sys w.interrupts (clear_work_stats d.state) in
      let r =
        rebuild w.build 3 (clear_work_stats (record s { need_rescan = false; cycle_count = 0 })) in
      let balanced = balance g f w.to_ns w.stat w.kernel s in
      let asked = s.need_rescan || s.need_rebuild in
      if_cases_eq (GoesOn (builds_again w d) d) (d.keep_going && asked)
        (λ e.
          if_cases_eq (GoesOn (builds_again w d) d) r.0
            (λ b.
              let again : builds_again w d ≡ true = ground (arith, e, b) in
              record {
                served = inl (refl, refl, refl, refl, inl again);
                going = ground (arith, e, again);
              })
            (λ b. with_state (next_cycle g f r.1) (ground (arith, e, b))))
        (λ e. with_state balanced (ground (arith, e)))
    where
      with_state :
          (t : State M)
          → builds_again w d ≡ false
          → GoesOn (builds_again w d) d (finish_scan (record d { state = t }))
      with_state t e =
          let o = finish_scan-GoesOn (record d { state = t }) in
          rw e (record { served = o.served; going = o.going })
