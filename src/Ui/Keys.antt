-- ===== src/Ui/Keys.antt =====
-- ui/irqbalance-ui.c: key_loop, one key at a time, and the screens of ui/ui.c that it shows. The
-- tree and the setup are read again whenever a screen is drawn. `unfinished` stands for a key that
-- an editing session still waits for.
pub mod Shown
pub mod Settings
use irqbalance.Prelude.{
  ℕ, ℤ, ◌+◌, ◌-◌, ◌==◌, ltb, Bool, true, false, Option, none, some, List, [], ◌∷◌, ◌++◌, length,
  if◌then◌else◌,
}
use irqbalance.Ui.Model.{Irq, Node, Tree, Parsed, ok, out, fault, unfinished, ◌>>=◌}
use irqbalance.Ui.Window.{
  Window, Key, up, down, npage, ppage, f3, f4, f5, enter, escape, backspace, nothing, char, rest_of,
}
use irqbalance.Ui.Setup.{Setup, parse_setup}
use irqbalance.Ui.Cpus.{
  CpuBan, draw_cpus, CpuEdit, Session, waiting, ended, closed, broken, handle_cpu_banning,
}
use irqbalance.Ui.Irqs.{print_all_irqs, IrqEdit, handle_irq_banning}
use irqbalance.Ui.Sleep.{Asked, settled, asking, get_valid_sleep_input, after_input}
use irqbalance.Ui.Lists.{walk_tree, get_all_cpus, get_all_irqs, parse_into_tree}

pub data Screen : Type 0 where
  tree settings setup_irqs : Screen

-- The globals of the two files, and the messages that send_settings has sent.
pub record Ui : Type 0 where
  pub state : Screen
  pub window : Window
  pub setup : Setup
  pub nodes : Tree
  pub all_cpus : List CpuBan
  pub all_irqs : List Irq
  pub sent : List (List ℕ)

-- What is read while a key is handled: the daemon's two answers, empty if there is none, the names
-- of the interrupts, and the keys of an editing session. g_list_sort is an argument too.
pub record Input : Type 0 where
  pub setup_text : List ℕ
  pub stats_text : List ℕ
  pub names : ℕ → List ℕ
  pub keys : List Key
  pub sort_ints : List ℤ → List ℤ
  pub sort_all_cpus : List CpuBan → List CpuBan
  pub sort_all_irqs : List Irq → List Irq

-- One line for the node, and one for each of its interrupts.
unfoldable pub display_tree_node : Tree → ℕ → ℕ → Parsed ℕ
display_tree_node nodes n max_offset = ok (max_offset + 1 + length (nodes.node n).irqs)

unfoldable pub display_tree : Input → Ui → Parsed Ui
unfolding display_tree_node
display_tree input ui = do
  setup ← parse_setup ui.setup input.setup_text
  nodes ← parse_into_tree input.sort_ints ui.nodes input.stats_text
  lines ← walk_tree nodes (display_tree_node nodes) 0
  ok (record ui {
    setup = setup;
    nodes = nodes;
    window = record ui.window { max_offset = rest_of lines ui.window.lines 5 };
  })

unfoldable pub show_settings : Input → Ui → Parsed Ui
show_settings input ui = do
  setup ← parse_setup ui.setup input.setup_text
  cpus ← get_all_cpus input.sort_all_cpus ui.nodes setup ui.all_cpus
  ok (record ui { setup = setup; all_cpus = cpus; window = draw_cpus cpus ui.window })

unfoldable pub show_irqs : Input → Ui → Parsed Ui
show_irqs input ui = do
  read ← get_all_irqs ui.nodes ui.setup
  let irqs = input.sort_all_irqs read
  ok (record ui { all_irqs = irqs; window = print_all_irqs input.names irqs ui.window })

abbrev pub show : Screen → Input → Ui → Parsed Ui
show tree input ui = display_tree input ui
show settings input ui = show_settings input ui
show setup_irqs input ui = show_irqs input ui

unfoldable pub scroll_window : Input → Ui → Parsed Ui
unfolding display_tree show_settings show_irqs
scroll_window input ui = show ui.state input ui

abbrev pub at_offset : ℕ → Ui → Ui
at_offset offset ui = record ui { window = record ui.window { offset = offset } }

-- The lines of the window that do not scroll.
abbrev pub fixed_lines : Screen → ℕ
fixed_lines tree = 5
fixed_lines settings = 8
fixed_lines setup_irqs = 6

unfoldable pub next_page : Ui → ℕ
next_page ui =
    let offset = ui.window.offset + ui.window.lines - fixed_lines ui.state in
    if ltb ui.window.max_offset offset then ui.window.max_offset else offset

-- `offset -= LINES - …; if (offset < 0) offset = 0;`
unfoldable pub previous_page : Ui → ℕ
previous_page ui = ui.window.offset + fixed_lines ui.state - ui.window.lines

abbrev pub switch : Screen → Input → Ui → Parsed Ui
switch screen input ui = show screen input (record (at_offset 0 ui) { state = screen })

abbrev pub on_f3 : Screen → Input → Ui → Parsed Ui
on_f3 tree input ui = ok ui
on_f3 settings input ui = switch tree input ui
on_f3 setup_irqs input ui = switch tree input ui

-- The screen of the settings is drawn once more, also where it is shown already.
abbrev pub on_f4 : Screen → Input → Ui → Parsed Ui
on_f4 tree input ui = switch settings input ui >>= show_settings input
on_f4 settings input ui = show_settings input ui
on_f4 setup_irqs input ui = switch settings input ui >>= show_settings input

abbrev pub on_f5 : Screen → Input → Ui → Parsed Ui
on_f5 tree input ui = switch setup_irqs input ui
on_f5 settings input ui = switch setup_irqs input ui
on_f5 setup_irqs input ui = ok ui

abbrev and_send : Option (List ℕ) → List (List ℕ) → List (List ℕ)
and_send none sent = sent
and_send (some text) sent = sent ++ text ∷ []

abbrev pub after_cpus : Ui → Session CpuEdit CpuBan → Parsed Ui
after_cpus ui (waiting e) = unfinished
after_cpus ui (ended w cpus text) =
    ok (record ui { window = w; all_cpus = cpus; sent = and_send text ui.sent })
after_cpus ui closed = out
after_cpus ui broken = fault

abbrev after_irqs : Ui → Session IrqEdit Irq → Parsed Ui
after_irqs ui (waiting e) = unfinished
after_irqs ui (ended w irqs text) =
    ok (record ui { window = w; all_irqs = irqs; sent = and_send text ui.sent })
after_irqs ui closed = out
after_irqs ui broken = fault

abbrev pub with_sleep : Ui → Option (Setup × Option (List ℕ)) → Ui
with_sleep ui none = ui
with_sleep ui (some (setup, text)) = record ui { setup = setup; sent = and_send text ui.sent }

abbrev pub after_sleep : Ui → Asked → Parsed Ui
after_sleep ui (settled n) = ok (with_sleep ui (after_input ui.setup (settled n)))
after_sleep ui asking = unfinished
after_sleep ui Asked.closed = out
after_sleep ui Asked.broken = fault

abbrev pub on_c : Screen → Input → Ui → Parsed Ui
on_c tree input ui = ok ui
on_c settings input ui = after_cpus ui (handle_cpu_banning ui.all_cpus input.keys ui.window)
on_c setup_irqs input ui = ok ui

abbrev pub on_i : Screen → Input → Ui → Parsed Ui
on_i tree input ui = ok ui
on_i settings input ui = ok ui
on_i setup_irqs input ui =
    after_irqs ui (handle_irq_banning input.names ui.all_irqs input.keys ui.window)

abbrev pub on_s : Screen → Input → Ui → Parsed Ui
on_s tree input ui = ok ui
on_s settings input ui = after_sleep ui (get_valid_sleep_input ui.setup.sleep input.keys [])
on_s setup_irqs input ui = ok ui

abbrev pub on_char : ℕ → Input → Ui → Parsed Ui
on_char c input ui =
    if c == 113
    then out
    else if c == 99
    then on_c ui.state input ui
    else if c == 105
    then on_i ui.state input ui
    else if c == 115
    then on_s ui.state input ui
    else ok ui

unfoldable pub key_loop : Key → Input → Ui → Parsed Ui
unfolding scroll_window next_page previous_page
key_loop up input ui =
    if ltb 0 ui.window.offset
    then scroll_window input (at_offset (ui.window.offset - 1) ui)
    else ok ui
key_loop down input ui =
    if ltb ui.window.offset ui.window.max_offset
    then scroll_window input (at_offset (ui.window.offset + 1) ui)
    else ok ui
key_loop npage input ui = scroll_window input (at_offset (next_page ui) ui)
key_loop ppage input ui = scroll_window input (at_offset (previous_page ui) ui)
key_loop f3 input ui = on_f3 ui.state input ui
key_loop f4 input ui = on_f4 ui.state input ui
key_loop f5 input ui = on_f5 ui.state input ui
key_loop (char c) input ui = on_char c input ui
key_loop enter input ui = ok ui
key_loop escape input ui = ok ui
key_loop backspace input ui = ok ui
key_loop nothing input ui = ok ui
