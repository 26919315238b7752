-- ===== src/Samples/Machine.antt =====
-- A machine of one node with two CPUs, and two interrupts: one waits for a place, one is on CPU 0.
use irqbalance.Prelude.{
  ℕ, zero, suc, ◌+◌, ◌<◌, ◌≡◌, refl, pos, true, false, Option, none, some, List, [], ◌∷◌, arith,
  count, ◌≤◌, bit,
}
use irqbalance.Types.{
  State, TopoObj, IrqInfo, ObjType, obj_type_cpu, obj_type_node, balance_core, int_max,
}
use irqbalance.Types.Places.{Place, place_eq, irqs_at}
use irqbalance.Types.Invariant.{IsPlaced}
use irqbalance.Samples.Masks.{Mask, mk}

abbrev pub object : ObjType → ℕ → Mask → List ℕ → List ℕ → TopoObj Mask
object kind number mask irqs children = record {
  load = 5000;
  last_load = 0;
  irq_count = 0;
  obj_type = kind;
  number = pos number;
  powersave_mode = false;
  mask = mask;
  interrupts = irqs;
  parent = none;
  children = children;
  numa_nodes = [];
  slots_left = int_max;
}

abbrev pub interrupt : ℕ → Option ℕ → IrqInfo Mask
interrupt number assigned = record {
  irq = pos number;
  class = pos 5;
  type = 2;
  level = balance_core;
  flags = 0;
  numa_node = some 0;
  cpumask = mk true true;
  irq_count = 10;
  last_irq_count = 0;
  load = 700;
  moved = false;
  existing = true;
  assigned_obj = assigned;
  name = none;
}

-- Object 0 is the node, 1 and 2 are the CPUs; every other handle is an idle CPU.
abbrev pub objects : ℕ → TopoObj Mask
objects zero = object obj_type_node 0 (mk true true) [] (1 ∷ 2 ∷ [])
objects (suc zero) = object obj_type_cpu 0 (mk true false) (1 ∷ []) []
objects (suc (suc n)) = object obj_type_cpu 1 (mk false true) [] []

-- Interrupt 1 is on CPU 0; the others are not placed.
abbrev pub interrupts : ℕ → IrqInfo Mask
interrupts zero = interrupt 30 none
interrupts (suc zero) = interrupt 31 (some 1)
interrupts (suc (suc n)) = interrupt (32 + n) none

abbrev pub machine : State Mask
machine = record {
  obj = objects;
  irq = interrupts;
  next_obj = 3;
  next_irq = 2;
  interrupts_db = 0 ∷ 1 ∷ [];
  banned_irqs = [];
  cl_banned_irqs = [];
  cl_banned_modules = [];
  rebalance_irq_list = 0 ∷ [];
  numa_nodes = 0 ∷ [];
  packages = [];
  cache_domains = [];
  cpus = 1 ∷ 2 ∷ [];
  cache_domain_count = 0;
  banned_cpus = mk false false;
  unbanned_cpus = mk true true;
  cpu_online_map = mk true true;
  numa_avail = true;
  cycle_count = 1;
  power_thresh = 18446744073709551615;
  migrate_ratio = 0;
  need_rescan = false;
  need_rebuild = false;
  fault = false;
}

machine-one_place :
    (l : Place) (i : ℕ)
    → count i (irqs_at machine l) ≤ bit (place_eq (machine.irq i).assigned_obj l)
machine-one_place none zero = omega arith
machine-one_place none (suc zero) = omega arith
machine-one_place none (suc (suc i)) = ground arith
machine-one_place (some zero) i = omega arith
machine-one_place (some (suc zero)) zero = omega arith
machine-one_place (some (suc zero)) (suc zero) = omega arith
machine-one_place (some (suc zero)) (suc (suc i)) = ground arith
machine-one_place (some (suc (suc p))) i = omega arith

machine-known :
    (l : Place) (i : ℕ) → 0 < count i (irqs_at machine l) → 0 < count i machine.interrupts_db
machine-known none i h = ground arith
machine-known (some zero) i h = ground arith
machine-known (some (suc zero)) i h = ground arith
machine-known (some (suc (suc p))) i h = ground arith

machine_unique :
    (i j : ℕ)
    → 0 < count i machine.interrupts_db
    → 0 < count j machine.interrupts_db
    → (machine.irq i).irq ≡ (machine.irq j).irq
    → i ≡ j
machine_unique zero zero h k e = refl
machine_unique zero (suc zero) h k e = ground arith
machine_unique (suc zero) zero h k e = ground arith
machine_unique (suc zero) (suc zero) h k e = refl
machine_unique (suc (suc i)) j h k e = ground arith
machine_unique i (suc (suc j)) h k e = ground arith

machine-listed :
    (i p : ℕ)
    → 0 < count i machine.interrupts_db
    → (machine.irq i).assigned_obj ≡ some p
    → 0 < count i (irqs_at machine (some p))
machine-listed zero p h e = cc
machine-listed (suc zero) p h e = let f : 1 ≡ p = ground arith in rw (← f) (omega arith)
machine-listed (suc (suc i)) p h e = cc

pub machine-IsPlaced : IsPlaced machine
machine-IsPlaced = record {
  one_place = machine-one_place;
  known = machine-known;
  unique = machine_unique;
  listed = machine-listed;
}
