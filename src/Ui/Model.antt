-- ===== src/Ui/Model.antt =====
-- ui/irqbalance-ui.h: cpu_node_t and irq_t, and the outcomes of reading a text. A pointer is an
-- index into the nodes; `is_changed` of an interrupt is written but never read, and is left out.
use irqbalance.Prelude.{ℕ, ℤ, Bool, Option, List}

pub record Irq : Type 0 where
  pub vector : ℤ
  pub load : ℕ
  pub diff : ℕ
  pub is_banned : Bool
  pub assigned_to : List ℤ
  pub class : ℤ

-- `type` is an unsigned number: what the daemon sends need not be one of the four kinds.
pub record Node : Type 0 where
  pub type : ℕ
  pub number : ℤ
  pub load : ℕ
  pub is_powersave : ℤ
  pub parent : Option ℕ
  pub children : List ℕ
  pub irqs : List Irq
  pub cpu_list : List ℤ
  pub cpu_mask : Option (List ℕ)

-- `next` is the node that g_malloc0 gives next.
pub record Tree : Type 0 where
  pub node : ℕ → Node
  pub next : ℕ
  pub roots : List ℕ

-- OBJ_TYPE_CPU and OBJ_TYPE_NODE.
abbrev pub type_cpu : ℕ
type_cpu = 0

abbrev pub type_node : ℕ
type_node = 3

-- `out` is exit(1) for an unexpected token; `fault` follows a NULL pointer; `unfinished` is short
-- of fuel.
pub data Parsed {ℓ} (A : Type ℓ) : Type ℓ where
  ok : A → Parsed A
  out fault unfinished : Parsed A

infixl 55 ◌>>=◌
abbrev pub ◌>>=◌ {ℓ κ} : {A : Type ℓ} {B : Type κ} → Parsed A → (A → Parsed B) → Parsed B
ok a >>= f = f a
out >>= f = out
fault >>= f = fault
unfinished >>= f = unfinished
