-- ===== src/Irqbalance/Commands.antt =====
-- irqbalance.c: sock_handle, one connection of a client.
pub mod Guard
pub mod BanList
pub mod Received
use irqbalance.Prelude.{
  ℕ, ℤ, zero, suc, pos, ◌+◌, ◌-◌, ◌==◌, ◌==ℤ◌, ltb, ltb_ℤ, Bool, true, false, not, ◌||◌, Option,
  none, some, is_some, List, [], ◌∷◌, ◌++◌, length, take, drop, for_each, if◌then◌else◌, codes,
  is_prefix, before_char, is_digit, skip_spaces, strtoul, to_int, print_ℤ, after_number,
}
use irqbalance.Types.{State}
use irqbalance.Types.Cpumask.{Cpumask}
use irqbalance.Classify.Bans.{add_cl_banned_irq}
use irqbalance.Irqbalance.Stats.{send_stats, get_irq_data}
use irqbalance.Irqbalance.Daemon.{Daemon}

-- What accept and recvmsg give: `received` is the message, `stale` what the buffer holds behind it,
-- `uid` the user that the kernel vouches for, if it does.
pub record Client : Type 0 where
  pub is_input : Bool
  pub accepted : Bool
  pub received : Option (List ℕ)
  pub stale : List ℕ
  pub has_control : Bool
  pub uid : Option ℕ

-- The globals that the commands change. The two texts are those of setup_banned_cpus.
pub record Settings (M : Type 0) : Type 0 where
  pub daemon : Daemon M
  pub cpu_ban_string : Option (List ℕ)
  pub banned_cpumask_from_ui : Option (List ℕ)

-- The copy of what follows a prefix. `recv_size` less the prefix is unsigned: a prefix that stands
-- partly in stale bytes makes malloc fail, or strncpy run over a block of no bytes.
pub data Argument : Type 0 where
  no_room overrun : Argument
  text : List ℕ → Argument

unfoldable pub argument : ℕ → ℕ → List ℕ → Argument
argument prefix recv_size buff =
    if ltb (recv_size + 1) prefix
    then no_room
    else if recv_size + 1 == prefix
    then overrun
    else text (before_char 0 (take (recv_size - prefix) (drop prefix buff)))

-- `strtok(cpu_ban_string, " ")` is what stands before a space then.
abbrev pub skip_blanks : List ℕ → List ℕ
skip_blanks [] = []
skip_blanks (c ∷ cs) = let rest = skip_blanks cs in if c == 32 then rest else c ∷ cs

abbrev pub is_root : Option ℕ → Bool
is_root none = false
is_root (some uid) = uid == 0

module _ {M : Type 0} ⦃mask : Cpumask M⦄ where
  abbrev pub map_state : (State M → State M) → Settings M → Settings M
  map_state f c = record c { daemon = record c.daemon { state = f c.daemon.state } }

  abbrev pub fault_here : Settings M → Settings M
  fault_here c = map_state (λ s. record s { fault = true }) c

  -- `do add_cl_banned_irq(irq); while((irq = strtoul(end, &end, 10)));` A round takes a character at
  -- least, so the length of the text is fuel enough.
  unfoldable pub ban_each : ℕ → ℤ → List ℕ → State M → State M
  ban_each zero irq end s = add_cl_banned_irq irq s
  ban_each (suc fuel) irq end s =
      let t = add_cl_banned_irq irq s in
      let next = to_int (strtoul end) in
      let rest = ban_each fuel next (after_number end) t in if next ==ℤ pos 0 then t else rest

  unfoldable pub ban_irqs : List ℕ → State M → State M
  unfolding ban_each
  ban_irqs irq_string s =
      let t = record s { cl_banned_irqs = []; need_rescan = true } in
      if is_prefix (codes "NONE") irq_string
      then t
      else ban_each (length irq_string) (to_int (strtoul irq_string)) (after_number irq_string) t

  unfoldable pub set_sleep : List ℕ → Settings M → Settings M
  set_sleep sleep_string c =
      let new_interval = to_int (strtoul sleep_string) in
      if ltb_ℤ (pos 0) new_interval
      then record c { daemon = record c.daemon { sleep_interval = new_interval } }
      else c

  -- The first word of the text, and NULL, which lifts the ban.
  abbrev pub keep_cpus : List ℕ → List ℕ → Settings M → Settings M
  keep_cpus string [] c = record c { cpu_ban_string = some string; banned_cpumask_from_ui = none }
  keep_cpus string (w ∷ ws) c =
      if is_prefix (codes "NULL") (w ∷ ws)
      then record c { cpu_ban_string = none; banned_cpumask_from_ui = none }
      else record c { cpu_ban_string = some string; banned_cpumask_from_ui = some (w ∷ ws) }

  unfoldable pub set_cpus : List ℕ → Settings M → Settings M
  set_cpus string c =
      map_state (λ s. record s { need_rescan = true })
        (keep_cpus string (before_char 32 (skip_blanks string)) c)

  abbrev pub with_argument : Argument → (List ℕ → Settings M → Settings M) → Settings M → Settings M
  with_argument no_room run c = c
  with_argument overrun run c = fault_here c
  with_argument (text t) run c = run t c

  -- `recv_size` bytes of `buff` are the message.
  unfoldable pub change_settings : ℕ → List ℕ → Settings M → Settings M
  unfolding set_sleep ban_irqs set_cpus argument
  change_settings recv_size buff c =
      let bare = record c { cpu_ban_string = none; banned_cpumask_from_ui = none } in
      if is_prefix (codes "settings sleep ") buff
      then with_argument (argument 15 recv_size buff) set_sleep c
      else if is_prefix (codes "settings ban irqs ") buff
      then with_argument (argument 18 recv_size buff) (λ t. map_state (ban_irqs t)) c
      else if is_prefix (codes "settings cpus ") buff
      then with_argument (argument 14 recv_size buff) set_cpus bare
      else c

  abbrev pub stats_of : List ℕ → Settings M → Option (List ℕ) × Settings M
  stats_of [] c = (none, fault_here c)
  stats_of (n ∷ ns) c = (some (send_stats c.daemon.state), c)

  -- What is sent back, if anything is. With no node `strlen` is given a NULL pointer.
  unfoldable pub answer_stats : Settings M → Option (List ℕ) × Settings M
  answer_stats c = stats_of c.daemon.state.numa_nodes c

  -- `scnprintf` is the list of the banned CPUs as the bitmap library prints it.
  unfoldable pub answer_setup : (M → List ℕ) → Settings M → List ℕ
  answer_setup scnprintf c =
      let s = c.daemon.state in
      (for_each (get_irq_data s) s.cl_banned_irqs
          (codes "SLEEP " ++ (print_ℤ c.daemon.sleep_interval ++ 32 ∷ []))
        ++ codes "BANNED ")
      ++ scnprintf s.banned_cpus

  unfoldable pub run_command : (M → List ℕ) → ℕ → List ℕ → Settings M → Option (List ℕ) × Settings M
  unfolding change_settings answer_stats answer_setup
  run_command scnprintf recv_size buff c =
      if is_prefix (codes "stats") buff
      then answer_stats c
      else if is_prefix (codes "settings ") buff
      then (none, change_settings recv_size buff c)
      else if is_prefix (codes "setup") buff
      then (some (answer_setup scnprintf c), c)
      else (none, c)

  abbrev pub handle_received :
      (M → List ℕ) → Client → Option (List ℕ) → Settings M → Option (List ℕ) × Settings M
  handle_received scnprintf client none c = (none, c)
  handle_received scnprintf client (some message) c =
      let size = length message in
      let run = run_command scnprintf size (message ++ client.stale) c in
      if size == 16384
      then (none, c)
      else if not client.has_control
      then (none, c)
      else if not (is_root client.uid)
      then (none, c)
      else run

  unfoldable pub sock_handle : (M → List ℕ) → Client → Settings M → Option (List ℕ) × Settings M
  unfolding run_command
  sock_handle scnprintf client c =
      let run = handle_received scnprintf client client.received c in
      if not client.is_input then (none, c) else if not client.accepted then (none, c) else run
