-- ===== src/Samples/Client.antt =====
-- The theorems on the user interface applied to the machine of two CPUs.
use irqbalance.Prelude.{
  codes, bit, true, false, ℕ, ◌<◌, ◌≡◌, refl, Option, none, List, [], ◌∷◌, length, concat_map,
  get_elem?, count, pos, arith, zero, suc,
}
use irqbalance.Types.{obj_type_node}
use irqbalance.Irqbalance.Stats.{send_stats}
use irqbalance.Irqbalance.Stats.Listing.{listing}
use irqbalance.Ui.Model.{Tree, Node, ok}
use irqbalance.Ui.Parse.{parse_nodes}
use irqbalance.Ui.Reads.{shown, shown_irqs, IrqFits}
use irqbalance.Ui.Grow.{SameNode}
use irqbalance.Ui.RoundTrip.{AllFit, parse_nodes-send_stats}
use irqbalance.Irqbalance.Daemon.{Daemon}
use irqbalance.Irqbalance.Commands.{Settings, answer_setup}
use irqbalance.Ui.Setup.{Setup, parse_setup, ban_digits, reverse_onto}
use irqbalance.Ui.SetupTrip.{parse_setup-answer_setup}
use irqbalance.Ui.BannedCpus.{hex_value, test_bit, ban_digits-test_bit}
use irqbalance.Samples.Machine.{machine}
use irqbalance.Samples.Masks.{Mask, two_cpus}

abbrev pub blank : Node
blank = record {
  type = 0;
  number = pos 0;
  load = 0;
  is_powersave = pos 0;
  parent = none;
  children = [];
  irqs = [];
  cpu_list = [];
  cpu_mask = none;
}

abbrev pub memory : Tree
memory = record { node = λ k. blank; next = 0; roots = [] }

abbrev listed : List ℕ
listed = concat_map (listing 4 machine) machine.numa_nodes

irq-Fits : IrqFits machine 1
irq-Fits = record { irq = refl; load = omega arith; diff = omega arith; class = refl }

machine-Fits : AllFit machine listed
unfolding listing
machine-Fits = (
  record { number = refl; load = omega arith; irqs = record {} },
  (
    record { number = refl; load = omega arith; irqs = (irq-Fits, record {}) },
    (record { number = refl; load = omega arith; irqs = record {} }, record {}),
  ),
)

machine-nodes : (d : ℕ) → 0 < count d machine.numa_nodes → (machine.obj d).obj_type ≡ obj_type_node
machine-nodes zero h = refl
machine-nodes (suc d) h = ground arith

parse_nodes-send_stats_example :
    (t : Tree) × (parse_nodes memory (send_stats machine) ≡ ok t)
    × (t.next ≡ length listed)
    × ((k o : ℕ)
        → get_elem? listed k ≡ Option.some o
        → (q : Option ℕ) × SameNode (t.node k) (shown machine o q))
parse_nodes-send_stats_example = parse_nodes-send_stats machine memory machine-Fits machine-nodes

-- The mask of both CPUs is printed as "3".
abbrev pub digits_of : Mask → List ℕ
digits_of m = codes "3"

abbrev pub quiet : Daemon Mask
quiet = record {
  state = record machine { cl_banned_irqs = 1 ∷ [] };
  keep_going = true;
  one_shot_mode = false;
  sleep_interval = pos 10;
  last_interval = pos 10;
  timers = [];
  quit = false;
}

abbrev pub told : Settings Mask
told = record { daemon = quiet; cpu_ban_string = none; banned_cpumask_from_ui = none }

abbrev pub unknown : Setup
unknown = record { sleep = 0; banned_irqs = []; banned_cpus = [] }

quiet-Fits : IrqFits quiet.state 1
quiet-Fits = record { irq = refl; load = omega arith; diff = omega arith; class = refl }

parse_setup-answer_setup_example :
    parse_setup unknown (answer_setup digits_of told)
    ≡ ok (record {
      sleep = 10;
      banned_irqs = shown_irqs true quiet.state (1 ∷ []);
      banned_cpus = ban_digits 0 (reverse_onto (codes "3") []) [];
    })
parse_setup-answer_setup_example =
    parse_setup-answer_setup digits_of told unknown 10 refl refl (omega arith)
      (quiet-Fits, record {})

ban_digits-test_bit_example :
    count 33 (ban_digits 0 (codes "20000000,2") [])
    ≡ bit (test_bit (hex_value (codes "20000000,2")) 33)
ban_digits-test_bit_example = ban_digits-test_bit (codes "20000000,2") 33
