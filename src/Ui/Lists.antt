-- ===== src/Ui/Lists.antt =====
-- ui/irqbalance-ui.c and ui/ui.c: the walks over the tree of the user interface. for_each_node
-- calls itself through the functions it is given; `fuel` is how deep that may go. No visit changes
-- the children of a node, so these are read from the tree as it was.
pub mod Ensures
pub mod Reading
pub mod Descending
pub mod Walks
pub mod Ends
use irqbalance.Prelude.{
  ℕ, ℤ, zero, suc, pos, negsuc, ◌+◌, ◌/◌, ◌%◌, ◌^◌, ◌==◌, ltb, Bool, true, false, Option, some,
  List, [], ◌∷◌, ◌++◌, take, map, codes, if◌then◌else◌,
}
use irqbalance.Types.{update}
use irqbalance.Ui.Model.{Irq, Node, Tree, type_cpu, Parsed, ok, out, fault, unfinished, ◌>>=◌}
use irqbalance.Ui.Parse.{parse_nodes}
use irqbalance.Ui.Setup.{Setup}
use irqbalance.Ui.Cpus.{CpuBan}
use irqbalance.Ui.Irqs.{copy_irq}

-- for_each_node on a list of nodes.
abbrev pub for_each_node {ℓ} : {S : Type ℓ} → (ℕ → S → Parsed S) → List ℕ → S → Parsed S
for_each_node fp [] s = ok s
for_each_node fp (n ∷ ns) s = fp n s >>= λ t. for_each_node fp ns t

-- A function that handles a node, and then its children by itself.
unfoldable pub walk {ℓ} : {S : Type ℓ} → Tree → (ℕ → S → Parsed S) → ℕ → ℕ → S → Parsed S
walk tree visit zero n s = unfinished
walk tree visit (suc fuel) n s =
    visit n s >>= λ t. for_each_node (walk tree visit fuel) (tree.node n).children t

abbrev pub walk_tree {ℓ} : {S : Type ℓ} → Tree → (ℕ → S → Parsed S) → S → Parsed S
walk_tree tree visit s = for_each_node (walk tree visit tree.next) tree.roots s

-- The new entry's `is_changed` is not set, and is set before it is read.
unfoldable pub get_cpu : Tree → ℕ → List CpuBan → Parsed (List CpuBan)
get_cpu tree n all_cpus =
    let node = tree.node n in
    ok (
      if node.type == type_cpu
      then all_cpus ++ record { number = node.number; is_banned = false; is_changed = false } ∷ []
      else all_cpus)

abbrev pub get_banned_cpu : ℕ → CpuBan
get_banned_cpu cpu = record { number = pos cpu; is_banned = true; is_changed = false }

-- `if(all_cpus == NULL)`: a list that is there is not read again. `sort` is g_list_sort by number.
unfoldable pub get_all_cpus :
    (List CpuBan → List CpuBan) → Tree → Setup → List CpuBan → Parsed (List CpuBan)
unfolding get_cpu
get_all_cpus sort tree setup [] = do
  cpus ← walk_tree tree (get_cpu tree) []
  ok (sort (cpus ++ map get_banned_cpu setup.banned_cpus))
get_all_cpus sort tree setup (c ∷ cpus) = ok (c ∷ cpus)

unfoldable pub copy_irqs_from_nodes : Tree → ℕ → List Irq → Parsed (List Irq)
unfolding copy_irq
copy_irqs_from_nodes tree n all_irqs = ok (all_irqs ++ map copy_irq (tree.node n).irqs)

unfoldable pub get_all_irqs : Tree → Setup → Parsed (List Irq)
unfolding copy_irqs_from_nodes
get_all_irqs tree setup =
    walk_tree tree (copy_irqs_from_nodes tree) (map copy_irq setup.banned_irqs)

unfoldable pub concat_child_lists : Tree → List ℕ → List ℤ
concat_child_lists tree [] = []
concat_child_lists tree (n ∷ ns) = (tree.node n).cpu_list ++ concat_child_lists tree ns

-- `sort` is g_list_sort by sort_ints.
abbrev copy_cpu_list_to_irq : (List ℤ → List ℤ) → List ℤ → Irq → Irq
copy_cpu_list_to_irq sort cpu_list irq = record irq { assigned_to = sort cpu_list }

abbrev pub with_cpus : (List ℤ → List ℤ) → List ℤ → Node → Node
with_cpus sort cpu_list node = record node {
  cpu_list = cpu_list;
  irqs = map (copy_cpu_list_to_irq sort cpu_list) node.irqs;
}

-- The list of a node without children is its number, and that of another one is its children's.
abbrev pub new_cpu_list : Tree → ℕ → List ℕ → List ℤ
new_cpu_list tree n [] = (tree.node n).cpu_list ++ (tree.node n).number ∷ []
new_cpu_list tree n (c ∷ cs) = concat_child_lists tree (c ∷ cs)

-- The children come first.
unfoldable pub assign_cpu_lists : (List ℤ → List ℤ) → Tree → ℕ → ℕ → Tree → Parsed Tree
unfolding concat_child_lists
assign_cpu_lists sort tree zero n t = unfinished
assign_cpu_lists sort tree (suc fuel) n t = do
  u ← for_each_node (assign_cpu_lists sort tree fuel) (tree.node n).children t
  let cpu_list = new_cpu_list u n (tree.node n).children
  ok (record u { node = update u.node n (with_cpus sort cpu_list (u.node n)) })

-- `sum += 1 << (*cpu)`: a shift by 32 or more, or by less than 0, has no meaning in C.
unfoldable pub sum_mask : List ℤ → ℕ → Parsed ℕ
sum_mask [] sum = ok sum
sum_mask (negsuc n ∷ cpus) sum = fault
sum_mask (pos n ∷ cpus) sum =
    let rest = sum_mask cpus ((sum + 2 ^ n) % 4294967296) in if ltb n 32 then rest else fault

abbrev hex_character : ℕ → ℕ
hex_character d = if ltb d 10 then 48 + d else 87 + d

-- `%x`: 32 bits have eight digits at most.
emit_hex : ℕ → ℕ → List ℕ → List ℕ
emit_hex zero n text = text
emit_hex (suc f) n text =
    let rest = emit_hex f (n / 16) (hex_character (n % 16) ∷ text) in if n == 0 then text else rest

unfoldable pub mask_text : ℕ → List ℕ
unfolding emit_hex
mask_text sum = take 14 (codes "0x" ++ (if sum == 0 then 48 ∷ [] else emit_hex 8 sum []))

unfoldable pub assign_cpu_mask : ℕ → Tree → Parsed Tree
unfolding sum_mask mask_text
assign_cpu_mask n t = do
  sum ← sum_mask (t.node n).cpu_list 0
  ok (record t { node = update t.node n (record (t.node n) { cpu_mask = some (mask_text sum) }) })

unfoldable pub assign_lists : (List ℤ → List ℤ) → Tree → Parsed Tree
unfolding assign_cpu_lists assign_cpu_mask
assign_lists sort tree = do
  t ← for_each_node (assign_cpu_lists sort tree tree.next) tree.roots tree
  walk_tree tree assign_cpu_mask t

-- No text leaves no tree.
unfoldable pub parse_into_tree : (List ℤ → List ℤ) → Tree → List ℕ → Parsed Tree
unfolding parse_nodes assign_lists
parse_into_tree sort tree [] = ok (record tree { next = 0; roots = [] })
parse_into_tree sort tree (c ∷ cs) = parse_nodes tree (c ∷ cs) >>= assign_lists sort
