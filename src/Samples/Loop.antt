-- ===== src/Samples/Loop.antt =====
-- The theorems on the main loop and on the commands of the socket applied to the machine.
use irqbalance.Prelude.{
  ℕ, zero, suc, ◌*◌, ◌<◌, ◌≡◌, ◌≢◌, ◌⊎◌, refl, pos, true, false, none, some, List, [], ◌∷◌, inl,
  inr, arith, codes, count,
}
use irqbalance.Types.{State}
use irqbalance.Classify.Known.{IsSound}
use irqbalance.Cputree.Parse.{BanSources}
use irqbalance.Cputree.Freed.{InTree}
use irqbalance.Irqbalance.Rescan.{
  Topology, build_object_tree, start_over, rebuild, IsBuilt, IsGivenUp, rebuild_lem,
  build_object_tree-IsSound,
}
use irqbalance.Irqbalance.Daemon.{Daemon, World, GoesOn, builds_again, scan, scan-GoesOn}
use irqbalance.Irqbalance.Commands.{Client, Settings, sock_handle}
use irqbalance.Irqbalance.Commands.Guard.{IsAwake, sock_handle-IsAwake}
use irqbalance.Samples.Masks.{Mask, mk, two_cpus}
use irqbalance.Samples.Sorting.{sorting}
use irqbalance.Irqbalance.Options.{
  Opt, interval, deepestcache, Options, Proper, IsValid, parse_command_line,
  parse_command_line-Proper,
}
use irqbalance.Samples.Machine.{machine}
use irqbalance.Samples.Cycle.{whole, kernel, stat, sysfs, files}

-- No CPU is banned, by whatever text.
abbrev no_bans : BanSources Mask
no_bans = record {
  cpumask_parse_user = λ text m. m;
  cpulist_parse = λ text m. m;
  cpu_ban_string = false;
  banned_cpumask_from_ui = none;
  irqbalance_banned_cpus = none;
  irqbalance_banned_cpulist = none;
  isolated = some (10 ∷ []);
  nohz_full = none;
  thermal_banned_cpus = mk false false;
}

abbrev topology : Topology Mask
topology = record {
  nodes = some (record { is_directory = true; name = codes "node0"; cpumap = mk true true } ∷ []);
  deepest_cache = 2;
  bans = no_bans;
  online_cpus = mk true true;
  cpus = some (record { name = codes "cpu0"; files = files } ∷ []);
  sys = sysfs;
  irqs = [];
}

machine-reach :
    (p : ℕ)
    → ((machine.obj p).interrupts ≡ [])
      ⊎ (0 < count p machine.numa_nodes)
      ⊎ (0 < count p machine.packages)
      ⊎ (0 < count p machine.cache_domains)
      ⊎ (0 < count p machine.cpus)
machine-reach zero = inl refl
machine-reach (suc zero) = inr (inr (inr (inr (omega arith))))
machine-reach (suc (suc p)) = inl refl

machine-InTree : InTree machine
machine-InTree = record { reach = machine-reach }

build_object_tree-IsSound_example : IsSound (build_object_tree topology (start_over machine))
build_object_tree-IsSound_example = build_object_tree-IsSound topology machine machine-InTree

-- The first build runs out of memory.
abbrev build : ℕ → State Mask → State Mask
build (suc (suc tries)) s = record s { need_rebuild = true }
build tries s = build_object_tree topology s

rebuild_example :
    let r = rebuild build 3 machine in
    (r.0 ≡ true → IsBuilt build 3 machine r.1) × (r.0 ≡ false → IsGivenUp build 3 machine r.1)
rebuild_example = rebuild_lem build 3 machine

abbrev daemon : Daemon Mask
daemon = record {
  state = machine;
  keep_going = true;
  one_shot_mode = false;
  sleep_interval = pos 10;
  last_interval = pos 10;
  timers = [];
  quit = false;
}

abbrev world : World Mask
world = record {
  sys = sysfs;
  interrupts = none;
  interrupts_again = none;
  to_ns = λ load. load * 10000000;
  stat = stat;
  kernel = kernel;
  build = build;
}

scan-GoesOn_example : GoesOn (builds_again world daemon) daemon (scan sorting whole world daemon)
scan-GoesOn_example = scan-GoesOn sorting whole world daemon

abbrev settings : Settings Mask
settings = record { daemon = daemon; cpu_ban_string = none; banned_cpumask_from_ui = none }

-- A user who is not root asks for no pause.
abbrev client : Client
client = record {
  is_input = true;
  accepted = true;
  received = some (codes "settings sleep 0");
  stale = [];
  has_control = true;
  uid = some 1000;
}

sock_handle-IsAwake_example :
    let r = sock_handle (λ m. []) client settings in
    (client.uid ≢ some 0 → r ≡ (none, settings)) × (IsAwake settings → IsAwake r.1)
sock_handle-IsAwake_example = sock_handle-IsAwake (λ m. []) client settings

abbrev defaults : Options Mask
defaults = record {
  state = machine;
  deepest_cache = 2;
  sleep_interval = pos 10;
  debug_mode = false;
  foreground_mode = false;
  one_shot_mode = false;
  journal_logging = false;
  polscript = none;
  pidfile = none;
}

defaults-IsValid : IsValid defaults
defaults-IsValid = record { cache = omega arith; pause = refl }

abbrev command_line : List Opt
command_line = interval (codes "3") ∷ deepestcache (codes "0") ∷ []

parse_command_line-Proper_example : Proper command_line (parse_command_line command_line defaults)
parse_command_line-Proper_example = parse_command_line-Proper command_line defaults defaults-IsValid
