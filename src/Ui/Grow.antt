-- ===== src/Ui/Grow.antt =====
-- ui/irqbalance-ui.c: what parse_into_tree keeps while it puts a node into the tree.
use irqbalance.Prelude.{
  ℕ, ◌+◌, ◌<◌, ◌≤◌, ◌≡◌, ◌≢◌, refl, ap, ◌∙◌, ◌==◌, Option, none, some, [], arith, Bool-cases, inl,
  inr, Option-cases, subst, ==_refl, leb,
}
use irqbalance.Types.{update}
use irqbalance.Ui.Model.{Node, Tree, ok, type_cpu, type_node}
use irqbalance.Ui.Parse.{find_parent, link, attach, next_parent}

-- Two states of a node that differ in its children alone.
pub record SameNode (a b : Node) : Type 0 where
  pub type : a.type ≡ b.type
  pub number : a.number ≡ b.number
  pub load : a.load ≡ b.load
  pub is_powersave : a.is_powersave ≡ b.is_powersave
  pub parent : a.parent ≡ b.parent
  pub irqs : a.irqs ≡ b.irqs

pub SameNode-trans : {a b c : Node} → SameNode a b → SameNode b c → SameNode a c
SameNode-trans h k = record {
  type = h.type ∙ k.type;
  number = h.number ∙ k.number;
  load = h.load ∙ k.load;
  is_powersave = h.is_powersave ∙ k.is_powersave;
  parent = h.parent ∙ k.parent;
  irqs = h.irqs ∙ k.irqs;
}

-- Every node but those of type NODE has a parent, and pointers stay inside the tree.
unfoldable pub Linked : Tree → Type 0
Linked tree =
    (p : ℕ)
    → p < tree.next
    → (tree.node p).type ≢ 3
    → (q : ℕ) × ((tree.node p).parent ≡ some q) × (q < tree.next)

unfoldable pub Inside : Tree → Option ℕ → Type 0
Inside tree q = (p : ℕ) → q ≡ some p → p < tree.next

pub Linked-empty : (tree : Tree) → Linked (record tree { next = 0; roots = [] })
unfolding Linked
Linked-empty tree p h k = absurd (omega arith)

pub Inside-none : (tree : Tree) → Inside tree none
unfolding Inside
Inside-none tree p e = absurd cc

link-SameNode :
    (new : ℕ) (q : Option ℕ) (tree : Tree) (j : ℕ)
    → SameNode ((link new q tree).node j) (tree.node j)
unfolding link
link-SameNode new none tree j = record {
  type = refl;
  number = refl;
  load = refl;
  is_powersave = refl;
  parent = refl;
  irqs = refl;
}
link-SameNode new (some p) tree j = record {
  type = ground arith;
  number = ground arith;
  load = ground arith;
  is_powersave = ground arith;
  parent = ground arith;
  irqs = ground arith;
}

link-next : (new : ℕ) (q : Option ℕ) (tree : Tree) → (link new q tree).next ≡ tree.next
unfolding link
link-next new none tree = refl
link-next new (some p) tree = refl

pub attach-next : (tree : Tree) (new : Node) → (attach tree new).next ≡ tree.next + 1
unfolding attach
attach-next tree new = link-next tree.next new.parent _

abbrev made : Tree → Node → Tree
made tree new = record tree { node = update tree.node tree.next new; next = tree.next + 1 }

pub attach-new : (tree : Tree) (new : Node) → SameNode ((attach tree new).node tree.next) new
unfolding attach
attach-new tree new =
    let e : (made tree new).node tree.next ≡ new = ground (arith, ==_refl tree.next) in
    subst (λ n. SameNode ((link tree.next new.parent (made tree new)).node tree.next) n) e
      (link-SameNode tree.next new.parent (made tree new) tree.next)

pub attach-old :
    (tree : Tree) (new : Node) (j : ℕ)
    → j < tree.next
    → SameNode ((attach tree new).node j) (tree.node j)
unfolding attach
attach-old tree new j h =
    let e : (made tree new).node j ≡ tree.node j = ground arith in
    subst (λ n. SameNode ((link tree.next new.parent (made tree new)).node j) n) e
      (link-SameNode tree.next new.parent (made tree new) j)

-- The parent of the next node is found, and is NULL for a NODE alone.
pub find_parent_lem :
    (tree : Tree) (type : ℕ) (parent : Option ℕ)
    → Linked tree
    → Inside tree parent
    → (parent ≡ none → type ≡ 3)
    → type ≤ 3
    → (q : Option ℕ) × (find_parent tree type parent ≡ ok q) × (q ≡ none → type ≡ 3) × Inside tree q
unfolding find_parent Linked Inside
find_parent_lem tree type none v i n m = (none, ground (arith, n refl), n, λ p e. absurd cc)
find_parent_lem tree type (some p) v i n m = elim (Bool-cases (type == type_node)) [
  | inl e ↦ (none, rw e refl, λ _. ground arith, λ _ x. absurd cc)
  | inr e ↦ elim (Bool-cases (leb (tree.node p).type type)) [
    | inl u ↦
        let up = v p (i p refl) (λ x. ground arith) in
        (some up.0, rw e (rw u (ap ok up.1)), λ x. absurd cc, λ q x. ground (arith, up.2))
    | inr u ↦ (some p, rw e (rw u refl), λ x. absurd cc, i)
  ]
]

pub attach-Linked :
    (tree : Tree) (new : Node)
    → Linked tree
    → (new.parent ≡ none → new.type ≡ 3)
    → Inside tree new.parent
    → Linked (attach tree new)
unfolding Linked Inside
attach-Linked tree new v n i p h k =
    let w = attach-next tree new in
    elim (Bool-cases (tree.next == p)) [
      | inl e ↦
          let at : tree.next ≡ p = ground arith in
          let same =
            subst (λ x. SameNode ((attach tree new).node x) new) at (attach-new tree new) in
          elim (Option-cases new.parent) [
            | inl none_here ↦ absurd (k (same.type ∙ n none_here))
            | inr (q, here) ↦ (q, same.parent ∙ here, rw w (omega (arith, i q here)))
          ]
      | inr e ↦
          let old : p < tree.next = ground (arith, w) in
          let same = attach-old tree new p old in
          let up = v p old (λ x. k (same.type ∙ x)) in
          (up.0, same.parent ∙ up.1, rw w (omega (arith, up.2)))
    ]

pub next_parent_lem :
    (tree : Tree) (new : Node)
    → (new.parent ≡ none → new.type ≡ 3)
    → Inside tree new.parent
    → (next_parent tree new ≢ none) × Inside (attach tree new) (next_parent tree new)
unfolding next_parent Inside
next_parent_lem tree new n i =
    let w = attach-next tree new in
    elim (Bool-cases (new.type == type_cpu)) [
      | inl e ↦ (rw e λ x. ground (arith, n x), λ p x. rw w (omega (arith, i p (ground arith))))
      | inr e ↦ (rw e λ x. absurd cc, λ p x. ground (arith, w))
    ]
