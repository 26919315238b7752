-- ===== src/Activate/Fallback.antt =====
-- activate.c: try_fallback_cpu, which looks for another CPU when the kernel answers ENOSPC.
use irqbalance.Prelude.{
  ℕ, zero, suc, pos, ◌-◌, Bool, true, false, Option, none, some, if◌then◌else◌,
}
use irqbalance.Types.{
  State, ObjType, Level, balance_none, balance_package, balance_cache, balance_core, obj_type_cpu,
  obj_type_cache, obj_type_package, obj_type_eq, set_obj, set_irq,
}
use irqbalance.Types.Cpumask.{Cpumask}
use irqbalance.Irqlist.Migrate.{migrate_irq_obj}
use irqbalance.Irqlist.Retarget.{retarget}
use irqbalance.Activate.Kernel.{Errno, Kernel, print_error}
use irqbalance.Activate.Search.{find_best_cpu_under_obj}

abbrev pub max_fallback_attempts : ℕ
max_fallback_attempts = 8

module _ {M : Type 0} where
  -- `while (search_scope && search_scope->obj_type != t) search_scope = search_scope->parent;`, of
  -- at most so many steps.
  unfoldable pub climb : ℕ → State M → ObjType → Option ℕ → Option ℕ
  climb n s t none = none
  climb zero s t (some p) = none
  climb (suc n) s t (some p) =
      if obj_type_eq (s.obj p).obj_type t then some p else climb n s t (s.obj p).parent

  -- From a CPU, the scope is the domain of the interrupt's level above it.
  unfoldable pub scope_above : State M → Level → ℕ → Option ℕ
  scope_above s balance_cache original = climb 4 s obj_type_cache (s.obj original).parent
  scope_above s balance_package original = climb 4 s obj_type_package (s.obj original).parent
  scope_above s balance_none original = none
  scope_above s balance_core original = none

  unfoldable pub search_scope : State M → Level → ℕ → Option ℕ
  search_scope s level original =
      if obj_type_eq (s.obj original).obj_type obj_type_cpu
      then scope_above s level original
      else some original

  -- `obj->slots_left = SLOTS_SATURATED;`
  unfoldable pub saturate : ℕ → State M → State M
  saturate d s = set_obj s d (record (s.obj d) { slots_left = pos 0 })

  unfoldable pub saturate_cpu : ℕ → State M → State M
  saturate_cpu d s = if obj_type_eq (s.obj d).obj_type obj_type_cpu then saturate d s else s

  -- `info->moved = 0;`
  unfoldable pub settle : ℕ → State M → State M
  settle info s = set_irq s info (record (s.irq info) { moved = false })

  -- What a failed writing leaves: only ENOSPC says that the CPU is full.
  unfoldable pub note_failure : ℕ → Errno → State M → State M
  note_failure fallback Errno.enospc s = saturate fallback s
  note_failure fallback _ s = s

  -- The interrupt stands at `fallback`; the CPU it left is still full.
  unfoldable pub move_to_fallback : ℕ → ℕ → ℕ → State M → State M
  unfolding saturate_cpu settle
  move_to_fallback original fallback info s =
      settle info (saturate_cpu original (migrate_irq_obj s (some original) (some fallback) info))

  -- The outcome of one writing: the error of the opening, and that of the print.
  unfoldable pub attempt : Option Errno → Option Errno → ℕ → ℕ → ℕ → State M → Bool × State M
  unfolding note_failure move_to_fallback
  attempt none none original fallback info s = (true, move_to_fallback original fallback info s)
  attempt none (some e) original fallback info s =
      (false, retarget (note_failure fallback e s) info (some original))
  attempt (some _) _ original fallback info s = (false, retarget s info (some original))

module _ {M : Type 0} ⦃mask : Cpumask M⦄ where
  -- The loop, of `n` more attempts. The writings to the file of the interrupt are counted: the first
  -- one, number 0, was that of `activate_mapping`.
  unfoldable pub try_cpus : ℕ → Kernel M → ℕ → ℕ → ℕ → M → State M → Bool × State M
  try_cpus zero k scope original info tried_cpus s = (false, s)
  try_cpus (suc n) k scope original info tried_cpus s =
      elim (find_best_cpu_under_obj 4 s original tried_cpus scope) [
        | none ↦ (false, s)
        | (some fallback) ↦
            let cpus = (s.obj fallback).mask in
            let w =
              k.write_mask (s.irq info).irq (max_fallback_attempts - n)
                (mask.cpus_and s.cpu_online_map cpus) in
            let (placed, s') =
              attempt w.fopen (print_error w) original fallback info
                (retarget s info (some fallback)) in
            let rest = try_cpus n k scope original info (mask.cpus_or tried_cpus cpus) s' in
            if placed then (true, s') else rest
      ]

  unfoldable pub try_in_scope : Kernel M → Option ℕ → ℕ → ℕ → State M → Bool × State M
  unfolding try_cpus
  try_in_scope k none original info s = (false, s)
  try_in_scope k (some scope) original info s =
      try_cpus max_fallback_attempts k scope original info mask.cpus_clear s

  unfoldable pub try_by_level : Kernel M → Level → ℕ → ℕ → State M → Bool × State M
  unfolding try_in_scope search_scope
  try_by_level k balance_core original info s = (false, s)
  try_by_level k balance_none original info s = (false, s)
  try_by_level k level original info s =
      try_in_scope k (search_scope s level original) original info s

  -- Whether the interrupt is placed on another CPU. `original` is its `assigned_obj`.
  unfoldable pub try_fallback_cpu : Kernel M → ℕ → ℕ → State M → Bool × State M
  unfolding try_by_level
  try_fallback_cpu k original info s = try_by_level k (s.irq info).level original info s
