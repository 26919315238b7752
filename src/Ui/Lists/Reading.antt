-- ===== src/Ui/Lists/Reading.antt =====
-- ui/irqbalance-ui.c: what reading one node of the text leaves, on any text.
use irqbalance.Prelude.{
  ℕ, zero, suc, ◌<◌, ◌≤◌, ◌≡◌, refl, ◌==◌, leb, Bool, false, Option, none, some, List, [], ◌∷◌,
  ◌++◌, arith, length, if_cases, is_prefix, codes, word64, ◌%◌,
}
use irqbalance.Ui.Model.{Irq, Node, Tree, type_node}
use irqbalance.Ui.Parse.{Tokens, read_number, expect, read_irq, read_irqs, find_parent, read_node}
use irqbalance.Ui.Grow.{Inside, Inside-none}
use irqbalance.Ui.Lists.Ensures.{Ensures, good, left, failed, Ensures-bind, Ensures-weaken}

-- Less text is left.
abbrev Shorter {ℓ} : {A : Type ℓ} → Tokens → A × Tokens → Type 0
Shorter ts r = length r.1 < length ts

read_number-Ensures : (ts : Tokens) → Ensures (Shorter ts) (read_number ts)
unfolding read_number
read_number-Ensures [] = failed
read_number-Ensures (t ∷ ts) = good (omega arith)

expect-Ensures :
    (word : List ℕ) (ts : Tokens) → Ensures (λ (r : Tokens). length r < length ts) (expect word ts)
unfolding expect
expect-Ensures word [] = left
expect-Ensures word (t ∷ ts) =
    if_cases (Ensures (λ (r : Tokens). length r < suc (length ts))) (is_prefix word t)
      (good (omega arith)) left

read_irq-Ensures : (b : Bool) (ts : Tokens) → Ensures (Shorter ts) (read_irq b ts)
unfolding read_irq
read_irq-Ensures b ts = Ensures-bind (read_number-Ensures ts) λ v l₁.
    Ensures-bind (expect-Ensures (codes "LOAD") v.1) λ t₂ l₂.
      Ensures-bind (read_number-Ensures t₂) λ w l₃.
        Ensures-bind (expect-Ensures (codes "DIFF") w.1) λ t₄ l₄.
          Ensures-bind (read_number-Ensures t₄) λ x l₅.
            Ensures-bind (expect-Ensures (codes "CLASS") x.1)
              λ t₆ l₆. Ensures-bind (read_number-Ensures t₆) λ y l₇. good (omega arith)

read_irqs-Ensures :
    (fuel : ℕ) (b : Bool) (ts : Tokens) (irqs : List Irq)
    → length ts < fuel
    → Ensures (λ (r : List Irq × Tokens). length r.1 ≤ length ts) (read_irqs fuel b ts irqs)
unfolding read_irqs
read_irqs-Ensures zero b ts irqs h = absurd (omega arith)
read_irqs-Ensures (suc fuel) b [] irqs h = good (omega arith)
read_irqs-Ensures (suc fuel) b (t ∷ ts) irqs h =
    if_cases (Ensures (λ (r : List Irq × Tokens). length r.1 ≤ suc (length ts)))
      (is_prefix (codes "IRQ") t)
      (Ensures-bind (read_irq-Ensures b ts) λ r l.
        Ensures-weaken (read_irqs-Ensures fuel b r.1 (irqs ++ r.0 ∷ []) (omega arith))
          (λ s k. omega arith))
      (good (omega arith))

-- Every pointer to a parent is to a node of the tree.
unfoldable pub Rooted : Tree → Type 0
Rooted tree = (p : ℕ) → p < tree.next → Inside tree (tree.node p).parent

find_parent-Ensures :
    (tree : Tree) (type : ℕ) (parent : Option ℕ)
    → Rooted tree
    → Inside tree parent
    → Ensures (Inside tree) (find_parent tree type parent)
unfolding find_parent Rooted Inside
find_parent-Ensures tree type none v i =
    if_cases (Ensures (Inside tree)) (type == type_node) (good i) failed
find_parent-Ensures tree type (some p) v i =
    if_cases (Ensures (Inside tree)) (type == type_node) (good (Inside-none tree)) (
      if_cases (Ensures (Inside tree)) (leb (tree.node p).type type) (good (v p (i p refl)))
        (good i))

-- A new node has no children, its parent is in the tree, and the text has become shorter.
unfoldable pub NewNode : Tree → Tokens → Node × Tokens → Type 0
NewNode tree ts r = (r.0.children ≡ []) × Inside tree r.0.parent × (length r.1 ≤ length ts)

pub read_node-Ensures :
    (fuel : ℕ) (tree : Tree) (parent : Option ℕ) (ts : Tokens)
    → Rooted tree
    → Inside tree parent
    → length ts < fuel
    → Ensures (NewNode tree ts) (read_node fuel tree parent ts)
unfolding read_node NewNode
read_node-Ensures fuel tree parent ts v i h = Ensures-bind (read_number-Ensures ts) λ t l₁.
    Ensures-bind (find_parent-Ensures tree (word64 t.0 % 4294967296) parent v i) λ p inside.
      Ensures-bind (expect-Ensures (codes "NUMBER") t.1) λ t₂ l₂.
        Ensures-bind (read_number-Ensures t₂) λ w l₃.
          Ensures-bind (expect-Ensures (codes "LOAD") w.1) λ t₄ l₄.
            Ensures-bind (read_number-Ensures t₄) λ x l₅.
              Ensures-bind (expect-Ensures (codes "SAVE_MODE") x.1) λ t₆ l₆.
                Ensures-bind (read_number-Ensures t₆) λ y l₇.
                  Ensures-bind (read_irqs-Ensures fuel false y.1 [] (omega arith))
                    λ z l₈. good (refl, inside, omega arith)
