-- ===== src/Types.antt =====
-- types.h, and the globals of irqbalance.c, classify.c, cputree.c and numa.c as one state.
-- A pointer is a handle, a number; NULL is `none`. An `int` flag is a Bool.
pub mod Cpumask
pub mod Glist
pub mod Floating
pub mod Word
pub mod Places
pub mod Invariant
use irqbalance.Prelude.{ℕ, ℤ, negsuc, pos, Bool, Option, none, some, List, ◌+◌, ◌==◌, if◌then◌else◌}

pub data ObjType : Type 0 where
  obj_type_cpu obj_type_cache obj_type_package obj_type_node : ObjType

abbrev pub obj_type_eq : ObjType → ObjType → Bool
obj_type_eq obj_type_cpu obj_type_cpu = Bool.true
obj_type_eq obj_type_cache obj_type_cache = Bool.true
obj_type_eq obj_type_package obj_type_package = Bool.true
obj_type_eq obj_type_node obj_type_node = Bool.true
obj_type_eq _ _ = Bool.false

-- BALANCE_NONE to BALANCE_CORE.
pub data Level : Type 0 where
  balance_none balance_package balance_cache balance_core : Level

abbrev pub level_eq : Level → Level → Bool
level_eq balance_none balance_none = Bool.true
level_eq balance_package balance_package = Bool.true
level_eq balance_cache balance_cache = Bool.true
level_eq balance_core balance_core = Bool.true
level_eq _ _ = Bool.false

abbrev pub numa_no_node : ℤ
numa_no_node = negsuc 0

abbrev pub int_max : ℤ
int_max = pos 2147483647

pub record TopoObj (M : Type 0) : Type 0 where
  pub load : ℕ
  pub last_load : ℕ
  pub irq_count : ℕ
  pub obj_type : ObjType
  pub number : ℤ
  pub powersave_mode : Bool
  pub mask : M
  pub interrupts : List ℕ
  pub parent : Option ℕ
  pub children : List ℕ
  pub numa_nodes : List ℕ
  pub slots_left : ℤ

pub record IrqInfo (M : Type 0) : Type 0 where
  pub irq : ℤ
  pub class : ℤ
  pub type : ℕ
  pub level : Level
  pub flags : ℕ
  pub numa_node : Option ℕ
  pub cpumask : M
  pub irq_count : ℕ
  pub last_irq_count : ℕ
  pub load : ℕ
  pub moved : Bool
  pub existing : Bool
  pub assigned_obj : Option ℕ
  pub name : Option (List ℕ)

-- `obj` and `irq` are the memory; `next_obj` and `next_irq` are the handles that calloc gives next.
-- `fault` is set where the code would follow a NULL pointer: what comes after has no meaning.
pub record State (M : Type 0) : Type 0 where
  pub obj : ℕ → TopoObj M
  pub irq : ℕ → IrqInfo M
  pub next_obj : ℕ
  pub next_irq : ℕ
  pub interrupts_db : List ℕ
  pub banned_irqs : List ℕ
  pub cl_banned_irqs : List ℕ
  pub cl_banned_modules : List (List ℕ)
  pub rebalance_irq_list : List ℕ
  pub numa_nodes : List ℕ
  pub packages : List ℕ
  pub cache_domains : List ℕ
  pub cpus : List ℕ
  pub cache_domain_count : ℕ
  pub banned_cpus : M
  pub unbanned_cpus : M
  pub cpu_online_map : M
  pub numa_avail : Bool
  pub cycle_count : ℕ
  pub power_thresh : ℕ
  pub migrate_ratio : ℕ
  pub need_rescan : Bool
  pub need_rebuild : Bool
  pub fault : Bool

-- `p->field = …` of the one object that `p` points at.
abbrev pub update {ℓ} : {A : Type ℓ} → (ℕ → A) → ℕ → A → ℕ → A
update f p v q = if p == q then v else f q

module _ {M : Type 0} where
  abbrev pub set_obj : State M → ℕ → TopoObj M → State M
  set_obj s p o = record s { obj = update s.obj p o }

  abbrev pub set_irq : State M → ℕ → IrqInfo M → State M
  set_irq s i v = record s { irq = update s.irq i v }
