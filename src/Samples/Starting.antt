-- ===== src/Samples/Starting.antt =====
-- The theorem on the start of the user interface applied to a /proc of a few processes.
use irqbalance.Prelude.{
  ℕ, pos, ◌≡◌, refl, Option, some, none, List, [], ◌∷◌, ◌++◌, same_text, if◌then◌else◌, arith,
  codes, print_ℕ, emit,
}
use irqbalance.Ui.Setup.{Setup}
use irqbalance.Ui.Start.{display_banned_cpus, no_daemon, running, start}
use irqbalance.Ui.Start.Found.{start-found}
use irqbalance.Samples.Client.{unknown}

-- init, a process that has gone, and the daemon.
abbrev proc : List ℕ → Option (List ℕ)
proc path =
    if same_text path (codes "/proc/1/cmdline")
    then some (codes "/sbin/init")
    else if same_text path (codes "/proc/712/cmdline")
    then some (codes "/usr/sbin/irqbalance" ++ 0 ∷ codes "--foreground")
    else none

start-found_example :
    (start 0 proc (some (codes "1" ∷ codes "30" ∷ print_ℕ 712 ∷ codes "900" ∷ [])) [] []
      ≡ running (pos 712))
    × (start 0 proc (some (codes "1" ∷ codes "30" ∷ [])) [] [] ≡ no_daemon)
unfolding print_ℕ emit
start-found_example =
    start-found proc (codes "1" ∷ codes "30" ∷ []) (codes "900" ∷ []) 712 [] refl refl refl
      (omega arith)

abbrev two_banned : Setup
two_banned = record unknown { banned_cpus = 1 ∷ 12 ∷ [] }

shown_banned : display_banned_cpus two_banned ≡ codes "Banned CPU numbers: 1, 12" ++ 10 ∷ []
unfolding display_banned_cpus print_ℕ emit
shown_banned = refl
