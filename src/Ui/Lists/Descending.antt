-- ===== src/Ui/Lists/Descending.antt =====
-- ui/irqbalance-ui.c: in the tree that is read, every child comes after its parent.
use irqbalance.Prelude.{
  ℕ, suc, ◌+◌, ◌<◌, ◌≤◌, ◌≡◌, refl, sym, ◌==◌, not, Option, none, some, List, [], ◌∷◌, ◌++◌, arith,
  if_cases, if_cases_eq, Bool-cases, inl, inr, subst,
}
use irqbalance.Types.{update}
use irqbalance.Ui.Model.{Node, Tree, type_cpu}
use irqbalance.Ui.Parse.{attach, link, next_parent}
use irqbalance.Ui.Grow.{Inside, attach-next, attach-old, attach-new}
use irqbalance.Ui.Lists.Reading.{Rooted}

abbrev pub AllIn : ℕ → ℕ → List ℕ → Type 0
AllIn lo hi [] = Unit
AllIn lo hi (c ∷ cs) = (lo ≤ c) × (c < hi) × AllIn lo hi cs

AllIn-weaken : (lo hi : ℕ) (ns : List ℕ) → AllIn lo hi ns → AllIn lo (hi + 1) ns
AllIn-weaken lo hi [] h = tt
AllIn-weaken lo hi (c ∷ cs) h = (h.0, omega arith, AllIn-weaken lo hi cs h.2)

AllIn-append :
    (lo hi n : ℕ) (ns : List ℕ) → AllIn lo hi ns → lo ≤ n → n < hi → AllIn lo hi (ns ++ n ∷ [])
AllIn-append lo hi n [] h l u = (l, u, tt)
AllIn-append lo hi n (c ∷ cs) h l u = (h.0, h.1, AllIn-append lo hi n cs h.2 l u)

-- Every child was read after its parent.
pub record IsDescending (tree : Tree) : Type 0 where
  pub children : (k : ℕ) → k < tree.next → AllIn (suc k) tree.next (tree.node k).children
  pub roots : AllIn 0 tree.next tree.roots

abbrev made : Tree → Node → Tree
made tree new = record tree { node = update tree.node tree.next new; next = tree.next + 1 }

made-IsDescending :
    (tree : Tree) (new : Node)
    → new.children ≡ []
    → IsDescending tree
    → IsDescending (made tree new)
made-IsDescending tree new e v = record {
  children = λ k h.
      if_cases_eq (λ (n : Node). AllIn (suc k) (tree.next + 1) n.children) (tree.next == k)
        (λ q. rw e tt)
        (λ q. AllIn-weaken (suc k) tree.next (tree.node k).children (v.children k (ground arith)));
  roots = AllIn-weaken 0 tree.next tree.roots v.roots;
}

link-IsDescending :
    (new : ℕ) (q : Option ℕ) (tree : Tree)
    → ((p : ℕ) → q ≡ some p → p < new)
    → new < tree.next
    → IsDescending tree
    → IsDescending (link new q tree)
unfolding link
link-IsDescending new none tree i h v = record {
  children = v.children;
  roots = AllIn-append 0 tree.next new tree.roots v.roots (omega arith) h;
}
link-IsDescending new (some p) tree i h v = record {
  children = λ k l.
      if_cases_eq (λ (n : Node). AllIn (suc k) tree.next n.children) (p == k)
        (λ q.
          let same : p ≡ k = ground arith in
          subst (λ j. AllIn (suc j) tree.next ((tree.node p).children ++ new ∷ [])) same
            (AllIn-append (suc p) tree.next new (tree.node p).children
              (v.children p (omega (arith, i p refl))) (omega (arith, i p refl)) h))
        (λ q. v.children k l);
  roots = v.roots;
}

pub attach-IsDescending :
    (tree : Tree) (new : Node)
    → new.children ≡ []
    → Inside tree new.parent
    → IsDescending tree
    → IsDescending (attach tree new)
unfolding attach Inside
attach-IsDescending tree new e i v =
    link-IsDescending tree.next new.parent (made tree new) i (omega arith)
      (made-IsDescending tree new e v)

Inside-later : (tree t : Tree) (q : Option ℕ) → t.next ≡ tree.next + 1 → Inside tree q → Inside t q
unfolding Inside
Inside-later tree t q e i p h = omega (arith, i p h)

pub attach-Rooted :
    (tree : Tree) (new : Node) → Inside tree new.parent → Rooted tree → Rooted (attach tree new)
unfolding Rooted
attach-Rooted tree new i v p h =
    let w = attach-next tree new in
    let later = Inside-later tree (attach tree new) in
    elim (Bool-cases (tree.next == p)) [
      | inl e ↦
          let at : tree.next ≡ p = ground arith in
          let same =
            subst (λ x. ((attach tree new).node x).parent ≡ new.parent) at
              (attach-new tree new).parent in
          subst (Inside (attach tree new)) (sym same) (later new.parent w i)
      | inr e ↦
          let old : p < tree.next = ground (arith, w) in
          let same = (attach-old tree new p old).parent in
          subst (Inside (attach tree new)) (sym same) (later (tree.node p).parent w (v p old))
    ]

Inside-new : (tree : Tree) (new : Node) → Inside (attach tree new) (some tree.next)
unfolding Inside
Inside-new tree new p e = ground (arith, attach-next tree new)

pub next_parent-Inside :
    (tree : Tree) (new : Node)
    → Inside tree new.parent
    → Inside (attach tree new) (next_parent tree new)
unfolding next_parent
next_parent-Inside tree new i =
    if_cases (Inside (attach tree new)) (not (new.type == type_cpu)) (Inside-new tree new)
      (Inside-later tree (attach tree new) new.parent (attach-next tree new) i)
