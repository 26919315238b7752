-- ===== src/Ui/Parse.antt =====
-- ui/irqbalance-ui.c: parse_into_tree, which reads the tokens of the daemon's answer. What
-- strtok_r still has is a list of tokens; it returns NULL when the list is empty.
use irqbalance.Prelude.{
  ℕ, zero, suc, ℤ, ◌+◌, ◌%◌, ◌==◌, leb, not, Bool, false, Option, none, some, List, [], ◌∷◌, ◌++◌,
  if◌then◌else◌, codes, is_prefix, strtol, tokens, narrow, word64, length,
}
use irqbalance.Types.{update}
use irqbalance.Ui.Model.{
  Irq, Node, Tree, type_cpu, type_node, Parsed, ok, out, fault, unfinished, ◌>>=◌,
}

abbrev pub Tokens : Type 0
Tokens = List (List ℕ)

-- `strtol(strtok_r(NULL, " ", &ptr), NULL, 10)`
unfoldable pub read_number : Tokens → Parsed (ℤ × Tokens)
read_number [] = fault
read_number (t ∷ ts) = ok (strtol t, ts)

-- `token = strtok_r(…); if(!g_str_has_prefix(token, …)) goto out;`
unfoldable pub expect : List ℕ → Tokens → Parsed Tokens
expect word [] = out
expect word (t ∷ ts) = if is_prefix word t then ok ts else out

-- What follows the word IRQ.
unfoldable pub read_irq : Bool → Tokens → Parsed (Irq × Tokens)
unfolding read_number expect
read_irq is_banned ts = do
  (vector, ts) ← read_number ts
  ts ← expect (codes "LOAD") ts
  (load, ts) ← read_number ts
  ts ← expect (codes "DIFF") ts
  (diff, ts) ← read_number ts
  ts ← expect (codes "CLASS") ts
  (class, ts) ← read_number ts
  ok (
    record {
      vector = narrow vector;
      load = word64 load;
      diff = word64 diff;
      is_banned = is_banned;
      assigned_to = [];
      class = narrow class;
    },
    ts,
  )

-- `while(token && g_str_has_prefix(token, "IRQ"))`
unfoldable pub read_irqs : ℕ → Bool → Tokens → List Irq → Parsed (List Irq × Tokens)
unfolding read_irq
read_irqs zero is_banned ts irqs = unfinished
read_irqs (suc fuel) is_banned [] irqs = ok (irqs, [])
read_irqs (suc fuel) is_banned (t ∷ ts) irqs =
    if is_prefix (codes "IRQ") t
    then (read_irq is_banned ts >>= λ r. read_irqs fuel is_banned r.1 (irqs ++ r.0 ∷ []))
    else ok (irqs, t ∷ ts)

-- The parent of a node of this type, from the parent of the one before: one level up at most.
unfoldable pub find_parent : Tree → ℕ → Option ℕ → Parsed (Option ℕ)
find_parent tree type none = if type == type_node then ok none else fault
find_parent tree type (some p) =
    if type == type_node
    then ok none
    else if leb (tree.node p).type type
    then ok (tree.node p).parent
    else ok (some p)

-- Everything about a node but its place, after the word TYPE.
unfoldable pub read_node : ℕ → Tree → Option ℕ → Tokens → Parsed (Node × Tokens)
unfolding read_irqs find_parent
read_node fuel tree parent ts = do
  (type, ts) ← read_number ts
  parent ← find_parent tree (word64 type % 4294967296) parent
  ts ← expect (codes "NUMBER") ts
  (number, ts) ← read_number ts
  ts ← expect (codes "LOAD") ts
  (load, ts) ← read_number ts
  ts ← expect (codes "SAVE_MODE") ts
  (is_powersave, ts) ← read_number ts
  (irqs, ts) ← read_irqs fuel false ts []
  ok (
    record {
      type = word64 type % 4294967296;
      number = narrow number;
      load = word64 load;
      is_powersave = narrow is_powersave;
      parent = parent;
      children = [];
      irqs = irqs;
      cpu_list = [];
      cpu_mask = none;
    },
    ts,
  )

abbrev append_child : ℕ → Node → Node
append_child child n = record n { children = n.children ++ child ∷ [] }

-- The new node under its parent, or among the roots.
unfoldable pub link : ℕ → Option ℕ → Tree → Tree
link new none tree = record tree { roots = tree.roots ++ new ∷ [] }
link new (some p) tree = record tree { node = update tree.node p (append_child new (tree.node p)) }

unfoldable pub attach : Tree → Node → Tree
unfolding link
attach tree new =
    link tree.next new.parent
      (record tree { node = update tree.node tree.next new; next = tree.next + 1 })

-- `if(new->type != OBJ_TYPE_CPU) parent = new;`
unfoldable pub next_parent : Tree → Node → Option ℕ
next_parent tree new = if not (new.type == type_cpu) then some tree.next else new.parent

unfoldable pub read_nodes : ℕ → Tree → Option ℕ → Tokens → Parsed Tree
unfolding read_node attach next_parent
read_nodes zero tree parent ts = unfinished
read_nodes (suc fuel) tree parent [] = ok tree
read_nodes (suc fuel) tree parent (t ∷ ts) =
    if not (is_prefix (codes "TYPE") t)
    then out
    else read_node fuel tree parent ts >>= λ r.
        read_nodes fuel (attach tree r.0) (next_parent tree r.0) r.1

-- The nodes of a text, in an empty tree.
unfoldable pub parse_nodes : Tree → List ℕ → Parsed Tree
unfolding read_nodes
parse_nodes tree text =
    let ts = tokens text in
    read_nodes (suc (length ts)) (record tree { next = 0; roots = [] }) none ts
