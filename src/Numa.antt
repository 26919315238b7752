-- ===== src/Numa.antt =====
-- numa.c: the nodes of the machine.
pub mod Build
use irqbalance.Prelude.{ℕ, ℤ, Bool, ◌==ℤ◌, Option, find_custom, if◌then◌else◌}
use irqbalance.Types.{State, numa_no_node}

module _ {M : Type 0} where
  abbrev pub compare_node : State M → ℤ → ℕ → Bool
  compare_node s number d = (s.obj d).number ==ℤ number

  -- On a machine without NUMA every node is the unspecified one.
  unfoldable pub get_numa_node : State M → ℤ → Option ℕ
  get_numa_node s nodeid =
      find_custom (compare_node s (if s.numa_avail then nodeid else numa_no_node)) s.numa_nodes
