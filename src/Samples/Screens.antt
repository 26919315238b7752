-- ===== src/Samples/Screens.antt =====
-- The theorems on the screens of the user interface applied to two CPUs and two interrupts.
use irqbalance.Prelude.{
  ℕ, pos, ◌+◌, ◌<◌, ◌≤◌, ◌≡◌, ◌≢◌, refl, Bool, true, false, none, some, List, [], ◌∷◌, ◌++◌, arith,
  length, map, concat_map, codes, leb, print_ℕ, print_ℤ, emit,
}
use irqbalance.Irqbalance.Commands.{sock_handle}
use irqbalance.Irqbalance.Commands.Received.{from_root}
use irqbalance.Ui.Model.{Irq, Tree, ok, unfinished}
use irqbalance.Ui.Window.{Window, Key, down, enter, escape, char, ScrollsOver}
use irqbalance.Ui.Setup.{Setup}
use irqbalance.Ui.Cpus.{CpuBan, draw_cpus, cpu_settings, ended, handle_cpu_banning}
use irqbalance.Ui.Cpus.Safe.{EndsWell, handle_cpu_banning-EndsWell}
use irqbalance.Ui.Cpus.Sent.{with_bans, handle_cpu_banning-sock_handle}
use irqbalance.Ui.Irqs.{print_all_irqs, irq_settings, handle_irq_banning}
use irqbalance.Ui.Irqs.Text.{vectors}
use irqbalance.Ui.Irqs.Sent
use irqbalance.Ui.Irqs.Sent.{banned_numbers, handle_irq_banning-sock_handle}
use irqbalance.Ui.Ranges.{print_assigned_objects_string}
use irqbalance.Ui.Ranges.Runs.{joined, runs, numbers_of, print_assigned-runs}
use irqbalance.Ui.Sleep.{handle_sleep_setting}
use irqbalance.Ui.Sleep.Sent.{handle_sleep_setting-sock_handle}
use irqbalance.Ui.Lists.{parse_into_tree, get_all_cpus, get_all_irqs}
use irqbalance.Ui.Lists.Ends.{parse_into_tree-Ends}
use irqbalance.Ui.Keys.{settings, Ui, Input, key_loop}
use irqbalance.Ui.Keys.Shown.{InView}
use irqbalance.Ui.Keys.Settings.{key_loop-InView}
use irqbalance.Ui.Connection.{Attempt, Answer, init_connection, get_data}
use irqbalance.Ui.Connection.Whole.{Answers, get_data-whole}
use irqbalance.Samples.Masks.{two_cpus}
use irqbalance.Samples.Client.{memory, told, unknown, digits_of}

abbrev view : Window
view = record {
  lines = 12;
  offset = 0;
  max_offset = 0;
  rows = [];
  rbot = pos 0;
  is_outside = false;
}

abbrev cpu : ℕ → Bool → Bool → CpuBan
cpu n banned changed = record { number = pos n; is_banned = banned; is_changed = changed }

abbrev cpus : List CpuBan
cpus = cpu 0 false false ∷ cpu 1 false false ∷ []

abbrev saved_cpus : List CpuBan
saved_cpus = cpu 0 false false ∷ cpu 1 true true ∷ []

-- Down, toggle, save.
abbrev ban_second : List Key
ban_second = down ∷ enter ∷ char 115 ∷ []

cpu_view : ScrollsOver 2 8 view
cpu_view = record {
  tall = omega arith;
  short = omega arith;
  counted = refl;
  scrolled = omega arith;
}

handle_cpu_banning-EndsWell_example : EndsWell 2 (handle_cpu_banning cpus ban_second view)
handle_cpu_banning-EndsWell_example =
    handle_cpu_banning-EndsWell cpus ban_second view (refl, (refl, record {})) (omega arith)
      (omega arith) cpu_view

ban_second_runs :
    handle_cpu_banning cpus ban_second view
    ≡ ended (draw_cpus saved_cpus view) saved_cpus (some (codes "settings cpus 1,NULL"))
unfolding handle_cpu_banning draw_cpus cpu_settings print_ℤ print_ℕ emit
ban_second_runs = refl

handle_cpu_banning-sock_handle_example :
    sock_handle digits_of (from_root (codes "settings cpus 1,NULL") []) told
    ≡ (none, with_bans saved_cpus told)
handle_cpu_banning-sock_handle_example =
    handle_cpu_banning-sock_handle digits_of cpus saved_cpus ban_second view
      (draw_cpus saved_cpus view) (codes "settings cpus 1,NULL") [] told (refl, (refl, record {}))
      (omega arith) (omega arith) cpu_view ban_second_runs

-- Interrupt 40 is banned already; the first of the list, 31, is banned and saved.
abbrev irq : ℕ → Bool → Irq
irq n banned = record {
  vector = pos n;
  load = 0;
  diff = 0;
  is_banned = banned;
  assigned_to = pos 0 ∷ pos 1 ∷ pos 2 ∷ pos 5 ∷ [];
  class = pos 5;
}

abbrev names : ℕ → List ℕ
names line = codes "eth0"

abbrev irqs : List Irq
irqs = irq 31 false ∷ irq 40 true ∷ []

abbrev saved_irqs : List Irq
saved_irqs = irq 31 true ∷ irq 40 true ∷ []

abbrev ban_first : List Key
ban_first = enter ∷ char 115 ∷ []

irq_view : ScrollsOver 2 6 view
irq_view = record {
  tall = omega arith;
  short = omega arith;
  counted = refl;
  scrolled = omega arith;
}

ban_first_runs :
    handle_irq_banning names irqs ban_first view
    ≡ ended
        (print_all_irqs names saved_irqs view)
        saved_irqs
        (some (codes "settings ban irqs  31 40 NONE"))
unfolding handle_irq_banning print_all_irqs irq_settings print_ℤ print_ℕ emit
ban_first_runs = refl

handle_irq_banning-sock_handle_example :
    (vectors saved_irqs ≡ vectors irqs)
    × (0 < length (banned_numbers saved_irqs)
        → sock_handle digits_of (from_root (codes "settings ban irqs  31 40 NONE") []) told
          ≡ (none, Sent.with_bans (banned_numbers saved_irqs) told))
    × (banned_numbers saved_irqs ≡ []
        → sock_handle digits_of (from_root (codes "settings ban irqs  31 40 NONE") []) told
          ≡ (none, Sent.with_bans (0 ∷ []) told))
handle_irq_banning-sock_handle_example =
    handle_irq_banning-sock_handle digits_of names irqs saved_irqs ban_first view
      (print_all_irqs names saved_irqs view) (codes "settings ban irqs  31 40 NONE") [] told
      (refl, omega arith, omega arith, (refl, omega arith, omega arith, record {})) (omega arith)
      (omega arith) irq_view ban_first_runs

room : length (joined [] (runs (0 ∷ 1 ∷ 2 ∷ 5 ∷ []))) ≤ 127
unfolding print_ℤ print_ℕ emit
room = omega arith

print_assigned-runs_example :
    ((print_assigned_objects_string (irq 31 false) (pos 7)).0
      ≡ some (joined [] (runs (0 ∷ 1 ∷ 2 ∷ 5 ∷ []))))
    × (concat_map numbers_of (runs (0 ∷ 1 ∷ 2 ∷ 5 ∷ [])) ≡ 0 ∷ 1 ∷ 2 ∷ 5 ∷ [])
print_assigned-runs_example =
    print_assigned-runs (irq 31 false) (pos 7) 0 (1 ∷ 2 ∷ 5 ∷ []) refl refl
      (omega arith, (omega arith, (omega arith, record {}))) room

handle_sleep_setting_example :
    let message = codes "settings sleep " ++ 32 ∷ print_ℕ 25 in
    (handle_sleep_setting unknown (map char (codes "25") ++ enter ∷ [])
      ≡ some (record unknown { sleep = 25 }, some message))
    × (sock_handle digits_of (from_root message []) told
        ≡ (none, record told { daemon = record told.daemon { sleep_interval = pos 25 } }))
    × (handle_sleep_setting unknown (map char (codes "25") ++ escape ∷ []) ≡ some (unknown, none))
handle_sleep_setting_example =
    handle_sleep_setting-sock_handle digits_of unknown (codes "25") [] 25 told refl (omega arith)
      (omega arith) refl (omega arith) (omega arith) (λ e. absurd (omega arith)) (omega arith)

-- A node that lies outside all others, and garbage.
abbrev garbage : List ℕ
garbage = codes "TYPE 3 NUMBER 0 LOAD 0 SAVE_MODE 0 TYPE x"

parse_into_tree-Ends_example :
    (parse_into_tree (λ l. l) memory garbage ≢ unfinished)
    × ((t : Tree) (setup : Setup) (all : List CpuBan)
        → parse_into_tree (λ l. l) memory garbage ≡ ok t
        → ((read : List Irq) × (get_all_irqs t setup ≡ ok read))
          × ((c : List CpuBan) × (get_all_cpus (λ l. l) t setup all ≡ ok c)))
parse_into_tree-Ends_example = parse_into_tree-Ends (λ l. l) (λ l. l) memory garbage

abbrev input : Input
input = record {
  setup_text = [];
  stats_text = [];
  names = names;
  keys = ban_second;
  sort_ints = λ l. l;
  sort_all_cpus = λ l. l;
  sort_all_irqs = λ l. l;
}

abbrev before : Ui
before = record {
  state = settings;
  window = view;
  setup = unknown;
  nodes = memory;
  all_cpus = cpus;
  all_irqs = irqs;
  sent = [];
}

abbrev after : Ui
after = record before {
  window = draw_cpus saved_cpus view;
  all_cpus = saved_cpus;
  sent = codes "settings cpus 1,NULL" ∷ [];
}

edit_key : key_loop (char 99) input before ≡ ok after
unfolding key_loop handle_cpu_banning draw_cpus cpu_settings print_ℤ print_ℕ emit
edit_key = refl

key_loop-InView_example : InView after × (after.window.offset ≤ after.window.max_offset + 1)
key_loop-InView_example =
    key_loop-InView (char 99) input before after refl
      (record {
        known = record {
          numbered = (refl, (refl, record {}));
          any = omega arith;
          few = omega arith;
        };
        over = cpu_view;
      })
      edit_key refl

abbrev served : ℕ → Attempt
served i = record {
  socket_fd = pos 3;
  is_connected = true;
  is_abstract_connected = false;
  received = some (codes "SLEEP 10 BANNED 0");
}

served-Answers : Answers served (codes "SLEEP 10 BANNED 0")
unfolding init_connection
served-Answers = record { connected = λ i. refl; received = λ i. refl }

-- A buffer of ten bytes is too small at first.
get_data-whole_example :
    let message = codes "SLEEP 10 BANNED 0" in
    (a : Answer) × (get_data 2 served 0 10 false ≡ some a)
    × (a.text ≡ some message)
    × (length message < a.default_bufsz)
    × (a.is_outside ≡ leb 10 (length message))
get_data-whole_example =
    get_data-whole 1 served 10 (codes "SLEEP 10 BANNED 0") served-Answers (omega arith)
