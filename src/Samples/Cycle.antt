-- ===== src/Samples/Cycle.antt =====
-- The other theorems applied: a balancing cycle, a fallback, the database and the loads.
use irqbalance.Prelude.{
  ℕ, zero, suc, ◌+◌, ◌-◌, ◌*◌, ◌/◌, ◌%◌, ◌<◌, ◌≤◌, ◌≡◌, ◌≢◌, refl, pos, leb, true, false, Option,
  none, some, is_some, List, [], ◌∷◌, arith, count, for_each, if◌then◌else◌,
}
use irqbalance.Types.{
  obj_type_cpu, State, Level, balance_none, balance_package, balance_core, obj_type_node,
}
use irqbalance.Types.Word.{u64_mod}
use irqbalance.Types.Floating.{Floating}
use irqbalance.Types.Invariant.{IsPlaced, SameListing-IsPlaced}
use irqbalance.Classify.Lookup.{get_irq_info, same_irq, find_irq}
use irqbalance.Classify.Migrate.{migrate_irq}
use irqbalance.Classify.Policy.{PolicyScript}
use irqbalance.Classify.Database.{Device, Sysfs, device_hint, add_new_irq, rebuild_irq_db}
use irqbalance.Classify.Known.{IsSound, add_new_irq-IsSound}
use irqbalance.Types.Places.{irqs_at}
use irqbalance.Classify.Removal.{remove_no_existing_irq}
use irqbalance.Classify.Removed.{remove_no_existing_irq_lem}
use irqbalance.Classify.Rebuilt.{rebuild_irq_db-IsSound}
use irqbalance.Irqlist.Migrate.{migrate_irq_obj, migrate_irq_obj-IsPlaced}
use irqbalance.Irqlist.Kept.{Kept}
use irqbalance.Irqlist.Balance.{LoadBalanceInfo, cleared, load_statistics, move_candidate_irqs}
use irqbalance.Irqlist.Balance.Statistics.{load_statistics_lem, loads}
use irqbalance.Irqlist.Balance.Shift.{IsUneven, candidates-IsUneven}
use irqbalance.Activate.Kernel.{Errno, Kernel, Writing}
use irqbalance.Activate.Search.{
  IsGraded, Under, IsRoomiest, Candidate, find_best_cpu_under_obj, find_best_cpu_under_obj_lem,
}
use irqbalance.Activate.Fallback.{
  climb, scope_above, search_scope, saturate, saturate_cpu, settle, note_failure, move_to_fallback,
  attempt, try_cpus, try_in_scope, try_by_level, try_fallback_cpu,
}
use irqbalance.Activate.Mapping.{activate_mappings}
use irqbalance.Activate.Keeps.{KeptAll}
use irqbalance.Activate.Written.{activate_mappings-KeptAll}
use irqbalance.Activate.Domain.{IsScope}
use irqbalance.Activate.Scope.{try_fallback_cpu-Under}
use irqbalance.Procinterrupts.Load.{StatLine, compute_irq_branch_load_share}
use irqbalance.Procinterrupts.Branch.{AreWords}
use irqbalance.Procinterrupts.Slice.{load_of, slice, compute_irq_branch_load_share_lem}
use irqbalance.Cputree.Add.{CpuFiles, do_one_cpu}
use irqbalance.Cputree.Tree.{IsTree}
use irqbalance.Cputree.Grown.{HasCpu, do_one_cpu-IsTree}
use irqbalance.Irqbalance.Scan.{balance, balance-Kept}
use irqbalance.Samples.Masks.{Mask, mk, two_cpus}
use irqbalance.Samples.Sorting.{sorting}
use irqbalance.Samples.Machine.{machine, machine-IsPlaced}

program : Unit {0}
unfolding migrate_irq_obj migrate_irq find_irq same_irq find_best_cpu_under_obj climb scope_above
    search_scope saturate saturate_cpu settle note_failure move_to_fallback attempt try_cpus
    try_in_scope try_by_level try_fallback_cpu get_irq_info
program = tt

-- Whole numbers for the deviations, with the root rounded down.
pub root : ℕ → ℕ
root zero = 0
root (suc n) = let r = root n in if leb ((r + 1) * (r + 1)) (suc n) then r + 1 else r

abbrev pub whole : Floating ℕ
whole = record { from_ℕ = λ n. n; sqrt = root; add = λ a b. a + b; sub = λ a b. a - b; leq = leb }

-- The first writing finds the CPU full, later ones succeed.
abbrev answers : ℕ → Writing
answers zero = record { fopen = none; fprintf = none; fflush = some Errno.enospc; fclose = none }
answers (suc n) = record { fopen = none; fprintf = none; fflush = none; fclose = none }

abbrev pub kernel : Kernel Mask
kernel = record { read_mask = λ i. some (mk false false); write_mask = λ i t m. answers t }

abbrev pub stat : Option (List StatLine)
stat = some (
    record { is_cpu = true; cpunr = 0; loads = some (900, 100) }
    ∷ record { is_cpu = true; cpunr = 1; loads = some (10, 5) }
    ∷ [])

balance-Kept_example :
    Kept machine (balance sorting whole (λ load. load * 10000000) stat kernel machine)
balance-Kept_example =
    balance-Kept sorting whole (λ load. load * 10000000) stat kernel machine machine-IsPlaced

activate_mappings-KeptAll_example : KeptAll machine (activate_mappings kernel machine)
activate_mappings-KeptAll_example = activate_mappings-KeptAll kernel machine machine-IsPlaced

load_statistics_example :
    let t = load_statistics sorting whole machine (1 ∷ 2 ∷ []) in
    (t.total_load ≡ loads machine (1 ∷ 2 ∷ []) % u64_mod)
    × (t.load_sources ≡ 2)
    × (t.avg_load ≡ t.total_load / 2)
    × ((d : ℕ) → 0 < count d (1 ∷ 2 ∷ []) → t.min_load ≤ (machine.obj d).load)
    × ((d : ℕ) × (0 < count d (1 ∷ 2 ∷ [])) × (t.min_load ≡ (machine.obj d).load))
load_statistics_example =
    load_statistics_lem sorting whole machine (1 ∷ 2 ∷ []) (λ e. ground (arith, e))

-- One CPU carries 5000, the least loaded 1000.
abbrev uneven : LoadBalanceInfo ℕ
uneven = record (cleared whole) { min_load = 1000; adjustment_load = 5000 }

uneven-IsUneven : IsUneven uneven
uneven-IsUneven = record { below = omega arith; fits = omega arith }

candidates-IsUneven_example :
    let t = (for_each move_candidate_irqs (1 ∷ []) (uneven, machine)).0 in
    IsUneven t × (t.min_load + t.adjustment_load ≡ 6000)
candidates-IsUneven_example =
    candidates-IsUneven (1 ∷ []) uneven machine refl uneven-IsUneven (omega arith)

machine-IsGraded : IsGraded machine
machine-IsGraded zero zero h = ground arith
machine-IsGraded zero (suc zero) h = ground arith
machine-IsGraded zero (suc (suc x)) h = ground arith
machine-IsGraded (suc zero) x h = absurd (omega arith)
machine-IsGraded (suc (suc d)) x h = absurd (omega arith)

find_best_cpu_under_obj_example :
    IsRoomiest machine
      (Candidate machine 1 (mk false false) 0)
      (find_best_cpu_under_obj 4 machine 1 (mk false false) 0)
find_best_cpu_under_obj_example =
    find_best_cpu_under_obj_lem machine 1 (mk false false) 0 machine-IsGraded

-- Interrupt 1 may run anywhere on its package, and is assigned to the node.
levels : ℕ → Level
levels zero = balance_core
levels (suc n) = balance_package

abbrev lowered : State Mask
lowered = record machine { irq = λ i. record (machine.irq i) { level = levels i } }

lowered-IsPlaced : IsPlaced lowered
lowered-IsPlaced =
    SameListing-IsPlaced {s = machine}
      (record { lists = λ l i. refl; assigned = λ i. refl; numbers = λ i. refl; db = refl })
      machine-IsPlaced

abbrev at_node : State Mask
at_node = migrate_irq_obj lowered none (some 0) 1

at_node-IsPlaced : IsPlaced at_node
at_node-IsPlaced = migrate_irq_obj-IsPlaced lowered none (some 0) 1 lowered-IsPlaced (omega arith)

at_node-IsGraded : IsGraded at_node
unfolding program
at_node-IsGraded zero zero h = ground arith
at_node-IsGraded zero (suc zero) h = ground arith
at_node-IsGraded zero (suc (suc x)) h = ground arith
at_node-IsGraded (suc zero) x h = absurd (ground arith)
at_node-IsGraded (suc (suc d)) x h = absurd (ground arith)

at_node-known : 0 < count 1 at_node.interrupts_db
unfolding program
at_node-known = omega arith

at_node-assigned : (at_node.irq 1).assigned_obj ≡ some 0
unfolding program
at_node-assigned = refl

falls_back : (try_fallback_cpu kernel 0 1 at_node).0 ≡ true
unfolding program levels
falls_back = refl

try_fallback_cpu-Under_example :
    ((at_node.irq 1).level ≢ balance_none)
    × ((at_node.irq 1).level ≢ balance_core)
    × (scope : ℕ) × IsScope at_node (at_node.irq 1).level 0 scope
    × (f : ℕ) × Under at_node scope f
    × (f ≢ 0)
    × ((((try_fallback_cpu kernel 0 1 at_node).1).irq 1).assigned_obj ≡ some f)
try_fallback_cpu-Under_example =
    try_fallback_cpu-Under kernel 0 1 at_node at_node-IsPlaced at_node-IsGraded at_node-known
      at_node-assigned falls_back

-- A network card with one MSI interrupt.
abbrev card : Device Mask
card = record {
  pci = record {
    vendor = some 32902;
    device = some 5409;
    subsystem_vendor = some 32902;
    subsystem_device = some 1;
    class = some 131072;
  };
  node_file = some (pos 0);
  local_cpus = some (mk true false);
  driver = none;
  msi_irqs = some (pos 40 ∷ []);
  irq_file = none;
}

abbrev pub sysfs : Sysfs Mask
sysfs = record { devices = card ∷ []; irq_node = λ i. none; scripts = λ d i. PolicyScript.missing }

machine-IsSound : IsSound machine
machine-IsSound = record {
  placed = machine-IsPlaced;
  fresh_db = λ i h. ground arith;
  fresh_banned = λ i h. refl;
}

add_new_irq-IsSound_example :
    let t = add_new_irq sysfs (some card) (device_hint (pos 40) 2) machine in
    IsSound t
    × (is_some (get_irq_info t (pos 40)) ≡ true)
    × (is_some (get_irq_info machine (pos 40)) ≡ true → t ≡ machine)
add_new_irq-IsSound_example =
    add_new_irq-IsSound sysfs (some card) (device_hint (pos 40) 2) machine machine-IsSound

abbrev new_tree : State Mask
new_tree = record machine { obj = λ d. record (machine.obj d) { interrupts = [] } }

rebuild_irq_db-IsSound_example :
    IsSound (rebuild_irq_db sysfs (device_hint (pos 9) 0 ∷ []) new_tree)
rebuild_irq_db-IsSound_example =
    rebuild_irq_db-IsSound sysfs (device_hint (pos 9) 0 ∷ []) new_tree (λ p. refl)

machine-AreWords : AreWords machine
machine-AreWords zero = omega arith
machine-AreWords (suc zero) = omega arith
machine-AreWords (suc (suc d)) = omega arith

compute_irq_branch_load_share_example :
    let t = compute_irq_branch_load_share 1 machine in
    (0 < 1 → (t.irq 1).load ≡ load_of (slice machine 1) (machine.irq 1))
    × (count 1 (1 ∷ []) ≡ 0 → (t.irq 1).load ≡ (machine.irq 1).load)
    × (1 ≤ (machine.irq 1).load → 1 ≤ (t.irq 1).load)
    × (0 < 1 → 1 ≤ (t.irq 1).load)
compute_irq_branch_load_share_example =
    compute_irq_branch_load_share_lem 1 machine 1 machine-AreWords

-- Interrupt 1, on CPU 0, is not shown any more.
abbrev unplugged : State Mask
unplugged = record machine { irq = λ i. record (machine.irq i) { existing = false } }

unplugged-IsPlaced : IsPlaced unplugged
unplugged-IsPlaced =
    SameListing-IsPlaced {s = machine}
      (record { lists = λ l i. refl; assigned = λ i. refl; numbers = λ i. refl; db = refl })
      machine-IsPlaced

remove_no_existing_irq_example :
    let t = remove_no_existing_irq 1 unplugged in
    IsPlaced t
    × ((unplugged.irq 1).existing ≡ false
        → (count 1 t.interrupts_db ≡ 0) × ((l : Option ℕ) → count 1 (irqs_at t l) ≡ 0))
    × ((unplugged.irq 1).existing ≡ true
        → (count 1 t.interrupts_db ≡ 1) × ((t.irq 1).existing ≡ false))
    × ((j : ℕ)
        → 1 ≢ j
        → (count j t.interrupts_db ≡ count j unplugged.interrupts_db)
          × ((l : Option ℕ) → count j (irqs_at t l) ≡ count j (irqs_at unplugged l)))
remove_no_existing_irq_example =
    remove_no_existing_irq_lem 1 unplugged unplugged-IsPlaced (omega arith)

-- The node and the two CPUs before they are linked.
abbrev loose : State Mask
loose = record machine { obj = λ d. record (machine.obj d) { children = [] } }

loose-IsTree : IsTree loose
loose-IsTree = record {
  graded = λ d x h. absurd (omega arith);
  direct = λ d x h. absurd (omega arith);
  threads = loose_threads;
  nodes = loose_nodes;
  packs = λ d h. absurd (omega arith);
  caches = λ d h. absurd (omega arith);
  fresh = λ d x h. refl;
  fresh_node = λ x h. ground arith;
  fresh_pack = λ x h. refl;
  fresh_cache = λ x h. refl;
  fresh_thread = λ x h. ground arith;
}
  where
    loose_nodes : (d : ℕ) → 0 < count d (0 ∷ []) → (loose.obj d).obj_type ≡ obj_type_node
    loose_nodes zero h = refl
    loose_nodes (suc d) h = ground arith

    loose_threads : (d : ℕ) → 0 < count d (1 ∷ 2 ∷ []) → (loose.obj d).obj_type ≡ obj_type_cpu
    loose_threads zero h = ground arith
    loose_threads (suc zero) h = refl
    loose_threads (suc (suc d)) h = refl

-- CPU 1 with a cache of its own and a package of both CPUs.
abbrev pub files : CpuFiles Mask
files = record {
  cpunr = 1;
  core_siblings = some (mk true true);
  physical_package_id = some (pos 0);
  caches = some (mk false true) ∷ [];
  node = some (pos 0);
}

do_one_cpu-IsTree_example :
    let t = do_one_cpu 2 (mk true true) files loose in
    IsTree t × (true ≡ true → false ≡ false → HasCpu 1 t)
do_one_cpu-IsTree_example = do_one_cpu-IsTree 2 (mk true true) files loose loose-IsTree
