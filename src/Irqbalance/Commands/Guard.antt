-- ===== src/Irqbalance/Commands/Guard.antt =====
-- irqbalance.c: what a client of the socket cannot do.
use irqbalance.Prelude.{
  ℕ, pos, ◌≡◌, ◌≢◌, refl, true, false, not, ltb_ℤ, ◌==◌, Option, none, some, List, [], ◌∷◌, arith,
  length, if_cases, if_cases_eq, codes, is_prefix, strtoul, to_int, before_char, ◌++◌,
}
use irqbalance.Types.Cpumask.{Cpumask}
use irqbalance.Irqbalance.Commands.{
  Client, Settings, Argument, no_room, overrun, text, argument, set_sleep, set_cpus, keep_cpus,
  skip_blanks, change_settings, answer_stats, stats_of, run_command, handle_received, is_root,
  sock_handle, with_argument, map_state, ban_irqs,
}

is_root-uid : (uid : Option ℕ) → uid ≢ some 0 → is_root uid ≡ false
is_root-uid none h = refl
is_root-uid (some uid) h = ground (arith, h)

module _ {M : Type 0} ⦃mask : Cpumask M⦄ where
  -- The interval between two scans is a second at least.
  pub record IsAwake (c : Settings M) : Type 0 where
    pub positive : ltb_ℤ (pos 0) c.daemon.sleep_interval ≡ true

  set_sleep-IsAwake : (t : List ℕ) (c : Settings M) → IsAwake c → IsAwake (set_sleep t c)
  unfolding set_sleep
  set_sleep-IsAwake t c v =
      if_cases_eq IsAwake (ltb_ℤ (pos 0) (to_int (strtoul t))) (λ e. record { positive = e })
        (λ e. v)

  keep_cpus-IsAwake : (t w : List ℕ) (c : Settings M) → IsAwake c → IsAwake (keep_cpus t w c)
  keep_cpus-IsAwake t [] c v = record { positive = v.positive }
  keep_cpus-IsAwake t (w ∷ ws) c v =
      if_cases IsAwake (is_prefix (codes "NULL") (w ∷ ws)) (record { positive = v.positive })
        (record { positive = v.positive })

  set_cpus-IsAwake : (t : List ℕ) (c : Settings M) → IsAwake c → IsAwake (set_cpus t c)
  unfolding set_cpus
  set_cpus-IsAwake t c v = record {
    positive = (keep_cpus-IsAwake t (before_char 32 (skip_blanks t)) c v).positive;
  }

  with_argument-IsAwake :
      (a : Argument) (run : List ℕ → Settings M → Settings M) (c : Settings M)
      → ((t : List ℕ) → IsAwake (run t c))
      → IsAwake c
      → IsAwake (with_argument a run c)
  with_argument-IsAwake no_room run c h v = v
  with_argument-IsAwake overrun run c h v = record { positive = v.positive }
  with_argument-IsAwake (text t) run c h v = h t

  change_settings-IsAwake :
      (n : ℕ) (buff : List ℕ) (c : Settings M) → IsAwake c → IsAwake (change_settings n buff c)
  unfolding change_settings
  change_settings-IsAwake n buff c v =
      let bare = record c { cpu_ban_string = none; banned_cpumask_from_ui = none } in
      let b : IsAwake bare = record { positive = v.positive } in
      if_cases IsAwake (is_prefix (codes "settings sleep ") buff)
        (with_argument-IsAwake (argument 15 n buff) set_sleep c (λ t. set_sleep-IsAwake t c v) v)
        (if_cases IsAwake (is_prefix (codes "settings ban irqs ") buff)
          (with_argument-IsAwake (argument 18 n buff) (λ t. map_state (ban_irqs t)) c
            (λ t. record { positive = v.positive }) v)
          (if_cases IsAwake (is_prefix (codes "settings cpus ") buff)
            (with_argument-IsAwake (argument 14 n buff) set_cpus bare
              (λ t. set_cpus-IsAwake t bare b) b)
            v))

  stats_of-IsAwake : (nodes : List ℕ) (c : Settings M) → IsAwake c → IsAwake (stats_of nodes c).1
  stats_of-IsAwake [] c v = record { positive = v.positive }
  stats_of-IsAwake (n ∷ ns) c v = v

  answer_stats-IsAwake : (c : Settings M) → IsAwake c → IsAwake (answer_stats c).1
  unfolding answer_stats
  answer_stats-IsAwake c v = stats_of-IsAwake c.daemon.state.numa_nodes c v

  run_command-IsAwake :
      (p : M → List ℕ) (n : ℕ) (buff : List ℕ) (c : Settings M)
      → IsAwake c
      → IsAwake (run_command p n buff c).1
  unfolding run_command
  run_command-IsAwake p n buff c v =
      let P = λ (r : Option (List ℕ) × Settings M). IsAwake r.1 in
      if_cases P (is_prefix (codes "stats") buff) (answer_stats-IsAwake c v) (
        if_cases P (is_prefix (codes "settings ") buff) (change_settings-IsAwake n buff c v)
          (if_cases P (is_prefix (codes "setup") buff) v v))

  handle_received-denied :
      (p : M → List ℕ) (client : Client) (m : Option (List ℕ)) (c : Settings M)
      → client.uid ≢ some 0
      → handle_received p client m c ≡ (none, c)
  handle_received-denied p client none c h = refl
  handle_received-denied p client (some m) c h =
      let e = is_root-uid client.uid h in
      let P = λ (r : Option (List ℕ) × Settings M). r ≡ (none, c) in
      if_cases P (length m == 16384) refl (if_cases P (not client.has_control) refl (rw e refl))

  handle_received-IsAwake :
      (p : M → List ℕ) (client : Client) (m : Option (List ℕ)) (c : Settings M)
      → IsAwake c
      → IsAwake (handle_received p client m c).1
  handle_received-IsAwake p client none c v = v
  handle_received-IsAwake p client (some m) c v =
      let P = λ (r : Option (List ℕ) × Settings M). IsAwake r.1 in
      if_cases P (length m == 16384) v (
        if_cases P (not client.has_control) v (
          if_cases P (not (is_root client.uid)) v
            (run_command-IsAwake p (length m) (m ++ client.stale) c v)))

  -- One connection, whatever the message and whatever stands behind it in the buffer. A client that
  -- the kernel does not name as root gets no answer and changes nothing. No client can set the
  -- interval between two scans below one second.
  pub sock_handle-IsAwake :
      (scnprintf : M → List ℕ) (client : Client) (c : Settings M)
      → let r = sock_handle scnprintf client c in
        (client.uid ≢ some 0 → r ≡ (none, c)) × (IsAwake c → IsAwake r.1)
  unfolding sock_handle
  sock_handle-IsAwake scnprintf client c =
      let P = λ (r : Option (List ℕ) × Settings M). r ≡ (none, c) in
      let Q = λ (r : Option (List ℕ) × Settings M). IsAwake r.1 in
      (
        λ h. if_cases P (not client.is_input) refl (
            if_cases P (not client.accepted) refl
              (handle_received-denied scnprintf client client.received c h)),
        λ v. if_cases Q (not client.is_input) v (
            if_cases Q (not client.accepted) v
              (handle_received-IsAwake scnprintf client client.received c v)),
      )
