-- ===== src/Ui/Start.antt =====
-- ui/irqbalance-ui.c: the start of `main`, which looks for the daemon's process, and rescan_tree,
-- which it leaves to the main loop. ui/ui.c: the line of the banned CPUs, and init.
pub mod Found
use irqbalance.Prelude.{
  ℕ, ℤ, pos, negsuc, ◌+◌, ◌==◌, ◌==ℤ◌, Bool, true, false, Option, none, some, List, [], ◌∷◌, ◌++◌,
  if◌then◌else◌, not, ◌&&◌, take, length, codes, ◌-◌, print_ℕ, emit, before_char, has_substring,
  strtol, word64, to_int,
}
use irqbalance.Ui.Model.{Parsed, ok, ◌>>=◌}
use irqbalance.Ui.Window.{print_onto}
use irqbalance.Ui.Setup.{Setup, parse_setup}
use irqbalance.Ui.Lists.{parse_into_tree}
use irqbalance.Ui.Keys.{Screen, tree, settings, setup_irqs, Input, Ui, at_offset, display_tree}

-- The line with the newline that ends it.
abbrev pub first_line : List ℕ → List ℕ
first_line [] = []
first_line (c ∷ cs) = if c == 10 then c ∷ [] else c ∷ first_line cs

-- `fgets(cmdstring, 255, f)`, as a C string: of an empty file the buffer stays as it is.
abbrev pub read_cmdline : List ℕ → List ℕ → List ℕ
read_cmdline [] cmdstring = cmdstring
read_cmdline (c ∷ cs) cmdstring = before_char 0 (take 254 (first_line (c ∷ cs)))

unfoldable pub names_daemon : List ℕ → Bool
names_daemon cmdstring =
    has_substring cmdstring (codes "irqbalance")
    && not (has_substring cmdstring (codes "irqbalance-ui"))

abbrev pub cmdfile : List ℕ → List ℕ
cmdfile name = codes "/proc/" ++ name ++ codes "/cmdline"

abbrev pub no_pid : ℤ
no_pid = negsuc 0

-- One entry of the directory: its file that may not open, its name, and the search in the rest.
abbrev pub try_entry : Option (List ℕ) → List ℕ → List ℕ → (List ℕ → ℤ) → ℤ
try_entry none name cmdstring rest = rest cmdstring
try_entry (some file) name cmdstring rest =
    let line = read_cmdline file cmdstring in
    let irqbalance_pid = if names_daemon line then to_int (word64 (strtol name)) else no_pid in
    if irqbalance_pid ==ℤ no_pid then rest line else irqbalance_pid

-- The entries of /proc in turn. `fopen` gives what a file holds, if it opens.
unfoldable pub find_pid : (List ℕ → Option (List ℕ)) → List (List ℕ) → List ℕ → ℤ
find_pid fopen [] cmdstring = no_pid
find_pid fopen (name ∷ names) cmdstring =
    try_entry (fopen (cmdfile name)) name cmdstring (find_pid fopen names)

pub data Start : Type 0 where
  not_root pid_not_a_number no_daemon : Start
  running : ℤ → Start

abbrev pub with_pid : ℤ → Start
with_pid irqbalance_pid =
    if irqbalance_pid ==ℤ pos 0 then pid_not_a_number else running irqbalance_pid

abbrev pub with_found : ℤ → Start
with_found irqbalance_pid = if irqbalance_pid ==ℤ no_pid then no_daemon else running irqbalance_pid

-- The arguments are those behind the program's name; /proc is none if it does not open.
abbrev pub choose_pid :
    (List ℕ → Option (List ℕ)) → Option (List (List ℕ)) → List ℕ → List (List ℕ) → Start
choose_pid fopen dir cmdstring (argument ∷ rest) = with_pid (to_int (word64 (strtol argument)))
choose_pid fopen none cmdstring [] = with_found no_pid
choose_pid fopen (some names) cmdstring [] = with_found (find_pid fopen names cmdstring)

unfoldable pub start :
    ℕ → (List ℕ → Option (List ℕ)) → Option (List (List ℕ)) → List ℕ → List (List ℕ) → Start
start uid fopen dir cmdstring arguments =
    if uid == 0 then choose_pid fopen dir cmdstring arguments else not_root

abbrev pub if_tree : Screen → Input → Ui → Parsed Ui
if_tree tree input ui = display_tree input ui
if_tree settings input ui = ok ui
if_tree setup_irqs input ui = ok ui

-- The daemon is asked twice when the tree is shown: `shown` is what it answers the second time.
unfoldable pub rescan_tree : Input → Input → Ui → Parsed Ui
rescan_tree input shown ui = do
  setup ← parse_setup ui.setup input.setup_text
  nodes ← parse_into_tree input.sort_ints ui.nodes input.stats_text
  if_tree ui.state shown (record ui { setup = setup; nodes = nodes })

abbrev pub add_banned_cpu : ℕ → List ℕ → List ℕ
add_banned_cpu banned_cpu buf = print_onto buf (print_ℕ banned_cpu ++ codes ", ")

abbrev pub add_banned_cpus : List ℕ → List ℕ → List ℕ
add_banned_cpus [] buf = buf
add_banned_cpus (n ∷ ns) buf = add_banned_cpus ns (add_banned_cpu n buf)

-- The line of the banned CPUs. The newline takes the place of the last comma and space, if there is
-- room for it behind them.
abbrev pub banned_line : List ℕ → List ℕ
banned_line [] = print_onto (codes "Banned CPU numbers: ") (codes "None" ++ 10 ∷ [])
banned_line (n ∷ ns) =
    let buf = add_banned_cpus (n ∷ ns) (codes "Banned CPU numbers: ") in
    take (length buf - 2) buf ++ take (1023 - length buf) (10 ∷ [])

unfoldable pub display_banned_cpus : Setup → List ℕ
unfolding print_ℕ emit
display_banned_cpus setup = banned_line setup.banned_cpus

-- `init` but for the terminal: the tree from its first line on.
unfoldable pub init : Input → Ui → Parsed Ui
init input ui = display_tree input (at_offset 0 ui)
