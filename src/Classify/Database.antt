-- ===== src/Classify/Database.antt =====
-- classify.c: how an interrupt comes into the database, and how the database is built.
use irqbalance.Prelude.{
  ℕ, ℤ, pos, negsuc, ltb_ℤ, ◌==ℤ◌, Bool, true, false, not, ◌&&◌, ◌||◌, Option, none, some, is_some,
  List, [], ◌∷◌, ◌++◌, get_elem?, for_each, if◌then◌else◌,
}
use irqbalance.Types.{
  State, IrqInfo, Level, balance_none, balance_package, balance_cache, balance_core, numa_no_node,
}
use irqbalance.Types.Cpumask.{Cpumask}
use irqbalance.Numa.{get_numa_node}
use irqbalance.Classify.Lookup.{get_irq_info}
use irqbalance.Classify.Pci.{PciFiles, get_irq_class, irq_other}
use irqbalance.Classify.Policy.{UserIrqPolicy, PolicyScript, get_irq_user_policy}
use irqbalance.Classify.Bans.{zero_irq, alloc_irq, add_banned_irq, check_for_irq_ban}
use irqbalance.Irqbalance.Rebalance.{force_rebalance_irq}

-- The directory of a PCI device: what its files hold, `none` for one that cannot be read. `driver`
-- is the last part of the link; `msi_irqs` are the numbers of the directory of that name.
pub record Device (M : Type 0) : Type 0 where
  pub pci : PciFiles
  pub node_file : Option ℤ
  pub local_cpus : Option M
  pub driver : Option (List ℕ)
  pub msi_irqs : Option (List ℤ)
  pub irq_file : Option ℤ

-- What the kernel says: the devices, and /proc/irq/N/node; and the user's scripts, which are given
-- the device and the number.
pub record Sysfs (M : Type 0) : Type 0 where
  pub devices : List (Device M)
  pub irq_node : ℤ → Option ℤ
  pub scripts : Option (Device M) → ℤ → PolicyScript

abbrev pub class_levels : List Level
class_levels =
    balance_package ∷ balance_cache ∷ balance_core ∷ balance_core ∷ balance_core ∷ balance_core
    ∷ balance_core ∷ balance_core ∷ []

-- `map_class_to_level[class]`; there is nothing below the array or beyond it.
unfoldable pub map_class_to_level : ℤ → Option Level
map_class_to_level (pos n) = get_elem? class_levels n
map_class_to_level (negsuc n) = none

abbrev pub or_default {ℓ} : {A : Type ℓ} → A → Option A → A
or_default a none = a
or_default a (some b) = b

unfoldable pub level_of : Option Level → ℤ → Option Level
level_of (some l) class = some l
level_of none class = map_class_to_level class

abbrev pub says_ban : Option Bool → Bool
says_ban (some b) = b
says_ban none = false

abbrev pub irq_type_legacy : ℕ
irq_type_legacy = 0

abbrev pub irq_type_msix : ℕ
irq_type_msix = 2

-- Whether the number is asked for: any, or the one.
abbrev pub wanted : Option ℤ → ℤ → Bool
wanted none irqnum = not (irqnum ==ℤ pos 0)
wanted (some build_irq) irqnum = not (irqnum ==ℤ pos 0) && irqnum ==ℤ build_irq

module _ {M : Type 0} where
  unfoldable pub set_level_of : Option Level → IrqInfo M → IrqInfo M
  unfolding level_of
  set_level_of policy new = record new {
    level = or_default balance_none (level_of policy new.class);
  }

  -- Without a device the class of the hint stands. A device without a class leaves the level at 0.
  unfoldable pub classify_device : Option (Device M) → Option Level → IrqInfo M → IrqInfo M
  unfolding set_level_of
  classify_device none policy new = set_level_of policy new
  classify_device (some d) policy new =
      let irq_class = get_irq_class d.pci in
      if ltb_ℤ irq_class (pos 0)
      then new
      else set_level_of policy (record new { class = irq_class })

  -- The number that the node's file holds, when the machine has NUMA.
  unfoldable pub node_number : State M → Sysfs M → Option (Device M) → ℤ → ℤ
  node_number s sys none irq =
      if s.numa_avail then or_default numa_no_node (sys.irq_node irq) else numa_no_node
  node_number s sys (some d) irq =
      if s.numa_avail then or_default numa_no_node d.node_file else numa_no_node

  -- The node of the policy, or of the file; the unspecified one if there is no such node.
  unfoldable pub node_of : State M → Option ℤ → ℤ → Option ℕ
  node_of s policy number =
      let asked = get_numa_node s (or_default number policy) in
      if is_some asked then asked else get_numa_node s numa_no_node

module _ {M : Type 0} ⦃mask : Cpumask M⦄ where
  unfoldable pub local_mask : Option (Device M) → M
  local_mask none = mask.cpus_setall
  local_mask (some d) = or_default mask.cpus_setall d.local_cpus

  unfoldable pub new_irq :
      State M → Sysfs M → Option (Device M) → IrqInfo M → UserIrqPolicy → IrqInfo M
  unfolding local_mask classify_device node_of node_number
  new_irq s sys devpath hint pol =
      let blank = record (zero_irq hint.irq) { type = hint.type; class = hint.class } in
      let new = classify_device devpath pol.level blank in
      record new {
        numa_node = node_of s pol.numa_node (node_number s sys devpath hint.irq);
        cpumask = local_mask devpath;
      }

  unfoldable pub add_one_irq_to_db :
      State M → Sysfs M → Option (Device M) → IrqInfo M → UserIrqPolicy → State M
  unfolding new_irq
  add_one_irq_to_db s sys devpath hint pol =
      let t = alloc_irq s (new_irq s sys devpath hint pol) in
      record t { interrupts_db = s.interrupts_db ++ s.next_irq ∷ [] }

  abbrev pub driver_of : Option (Device M) → Option (List ℕ)
  driver_of none = none
  driver_of (some d) = d.driver

  unfoldable pub is_banned : State M → Sysfs M → Option (Device M) → IrqInfo M → Bool
  is_banned s sys path hint =
      let pol = get_irq_user_policy s (sys.scripts path hint.irq) in
      says_ban pol.ban || check_for_irq_ban s hint (driver_of path)

  -- A number that is known already is left alone.
  unfoldable pub add_new_irq : Sysfs M → Option (Device M) → IrqInfo M → State M → State M
  unfolding is_banned
  add_new_irq sys path hint s =
      let pol = get_irq_user_policy s (sys.scripts path hint.irq) in
      if is_some (get_irq_info s hint.irq)
      then s
      else if is_banned s sys path hint
      then add_banned_irq hint.irq s
      else add_one_irq_to_db s sys path hint pol

  abbrev pub device_hint : ℤ → ℕ → IrqInfo M
  device_hint number type = record (zero_irq number) { class = irq_other; type = type }

  -- The walk over msi_irqs; a single interrupt that was asked for ends it.
  unfoldable pub add_msi_irqs : Sysfs M → Device M → Option ℤ → List ℤ → State M → State M
  add_msi_irqs sys d build_irq [] s = s
  add_msi_irqs sys d build_irq (n ∷ ns) s =
      let s' = add_new_irq sys (some d) (device_hint n irq_type_msix) s in
      let rest = add_msi_irqs sys d build_irq ns s' in
      let skipped = add_msi_irqs sys d build_irq ns s in
      if wanted build_irq n then (if is_some build_irq then s' else rest) else skipped

  -- The one interrupt of a device without MSI. Number 255 is none on x86.
  unfoldable pub add_legacy_irq : Sysfs M → Device M → Option ℤ → Option ℤ → State M → State M
  add_legacy_irq sys d build_irq none s = s
  add_legacy_irq sys d build_irq (some n) s =
      if wanted build_irq n && not (n ==ℤ pos 255)
      then add_new_irq sys (some d) (device_hint n irq_type_legacy) s
      else s

  unfoldable pub build_one_dev_entry : Sysfs M → Option ℤ → Device M → State M → State M
  unfolding add_msi_irqs add_legacy_irq
  build_one_dev_entry sys build_irq d s = elim d.msi_irqs [
    | some ns ↦ add_msi_irqs sys d build_irq ns s
    | none ↦ add_legacy_irq sys d build_irq d.irq_file s
  ]

  abbrev pub known : State M → Option ℤ → Bool
  known s none = false
  known s (some build_irq) = is_some (get_irq_info s build_irq)

  -- The devices in turn, up to the one that has the interrupt that is asked for.
  unfoldable pub build_devices : Sysfs M → Option ℤ → List (Device M) → State M → State M
  build_devices sys build_irq [] s = s
  build_devices sys build_irq (d ∷ ds) s =
      let s' = build_one_dev_entry sys build_irq d s in
      let rest = build_devices sys build_irq ds s' in if known s' build_irq then s' else rest

  unfoldable pub build_dev_irqs : Sysfs M → Option ℤ → State M → State M
  unfolding build_devices
  build_dev_irqs sys build_irq s = build_devices sys build_irq sys.devices s

  unfoldable pub rebalance_found : Option ℕ → State M → Bool × State M
  rebalance_found none s = (false, s)
  rebalance_found (some info) s = (true, force_rebalance_irq info s)

  -- A new interrupt appears in /proc/interrupts. `tmp_info` is what its line says of it.
  unfoldable pub proc_irq_hotplug : Sysfs M → IrqInfo M → ℤ → State M → Bool × State M
  unfolding build_dev_irqs rebalance_found
  proc_irq_hotplug sys tmp_info irq s =
      let s' = build_dev_irqs sys (some irq) s in
      let late = add_new_irq sys none tmp_info s' in
      if known s' (some irq)
      then rebalance_found (get_irq_info s' irq) s'
      else rebalance_found (get_irq_info late irq) late

  unfoldable pub free_irq_db : State M → State M
  free_irq_db s = record s { interrupts_db = []; banned_irqs = []; rebalance_irq_list = [] }

  -- `tmp_irqs` are the interrupts that the whole of /proc/interrupts names. An empty list stands for
  -- the database in for_each_irq, whose interrupts are all known.
  unfoldable pub rebuild_irq_db : Sysfs M → List (IrqInfo M) → State M → State M
  unfolding free_irq_db build_dev_irqs
  rebuild_irq_db sys tmp_irqs s =
      for_each (add_new_irq sys none) tmp_irqs (build_dev_irqs sys none (free_irq_db s))
