-- ===== src/Ui/Lists/Walks.antt =====
-- ui/helpers.c: for_each_node on a tree whose children come after their parents.
use irqbalance.Prelude.{ℕ, zero, suc, ◌+◌, ◌<◌, ◌≤◌, ◌≡◌, refl, ap, ◌∙◌, List, [], ◌∷◌, arith}
use irqbalance.Ui.Model.{Tree, Parsed, ok, ◌>>=◌}
use irqbalance.Ui.Lists.Ensures.{Ensures, good, Ensures-bind}
use irqbalance.Ui.Lists.Descending.{AllIn, IsDescending}
use irqbalance.Ui.Lists.{for_each_node, walk, walk_tree}

module _ {S : Type 0} (P : S → Type 0) where
  pub for_each-Ensures :
      (fp : ℕ → S → Parsed S) (lo hi : ℕ) (ns : List ℕ) (s : S)
      → AllIn lo hi ns
      → ((n : ℕ) (t : S) → lo ≤ n → n < hi → P t → Ensures P (fp n t))
      → P s
      → Ensures P (for_each_node fp ns s)
  for_each-Ensures fp lo hi [] s h k p = good p
  for_each-Ensures fp lo hi (n ∷ ns) s h k p =
      Ensures-bind (k n s h.0 h.1 p) λ t q. for_each-Ensures fp lo hi ns t h.2 k q

  pub walk-Ensures :
      (tree : Tree) (visit : ℕ → S → Parsed S) (fuel n : ℕ) (s : S)
      → IsDescending tree
      → ((m : ℕ) (t : S) → P t → Ensures P (visit m t))
      → n < tree.next
      → tree.next ≤ n + fuel
      → P s
      → Ensures P (walk tree visit fuel n s)
  unfolding walk
  walk-Ensures tree visit zero n s d k h l p = absurd (omega arith)
  walk-Ensures tree visit (suc fuel) n s d k h l p = Ensures-bind (k n s p) λ t q.
      for_each-Ensures (walk tree visit fuel) (suc n) tree.next (tree.node n).children t
        (d.children n h) (λ m u lo hi r. walk-Ensures tree visit fuel m u d k hi (omega arith) r) q

  pub walk_tree-Ensures :
      (tree : Tree) (visit : ℕ → S → Parsed S) (s : S)
      → IsDescending tree
      → ((m : ℕ) (t : S) → P t → Ensures P (visit m t))
      → P s
      → Ensures P (walk_tree tree visit s)
  walk_tree-Ensures tree visit s d k p =
      for_each-Ensures (walk tree visit tree.next) 0 tree.next tree.roots s d.roots
        (λ m u lo hi r. walk-Ensures tree visit tree.next m u d k hi (omega arith) r) p

-- A walk whose visits only collect returns.
for_each-ok :
    {S : Type 0} (fp : ℕ → S → Parsed S) (lo hi : ℕ) (ns : List ℕ) (s : S)
    → AllIn lo hi ns
    → ((n : ℕ) (t : S) → lo ≤ n → n < hi → (r : S) × (fp n t ≡ ok r))
    → (r : S) × (for_each_node fp ns s ≡ ok r)
for_each-ok fp lo hi [] s h k = (s, refl)
for_each-ok fp lo hi (n ∷ ns) s h k =
    let (t, e) = k n s h.0 h.1 in
    let (r, f) = for_each-ok fp lo hi ns t h.2 k in
    (r, ap (λ m. m >>= λ u. for_each_node fp ns u) e ∙ f)

walk-ok :
    {S : Type 0} (tree : Tree) (visit : ℕ → S → Parsed S) (collect : ℕ → S → S) (fuel n : ℕ) (s : S)
    → IsDescending tree
    → ((m : ℕ) (t : S) → visit m t ≡ ok (collect m t))
    → n < tree.next
    → tree.next ≤ n + fuel
    → (r : S) × (walk tree visit fuel n s ≡ ok r)
unfolding walk
walk-ok tree visit collect zero n s d k h l = absurd (omega arith)
walk-ok tree visit collect (suc fuel) n s d k h l =
    let children = (tree.node n).children in
    let (r, f) =
      for_each-ok (walk tree visit fuel) (suc n) tree.next children (collect n s) (d.children n h)
        (λ m u lo hi. walk-ok tree visit collect fuel m u d k hi (omega arith)) in
    (r, ap (λ m. m >>= λ u. for_each_node (walk tree visit fuel) children u) (k n s) ∙ f)

pub walk_tree-ok :
    {S : Type 0} (tree : Tree) (visit : ℕ → S → Parsed S) (collect : ℕ → S → S) (s : S)
    → IsDescending tree
    → ((m : ℕ) (t : S) → visit m t ≡ ok (collect m t))
    → (r : S) × (walk_tree tree visit s ≡ ok r)
walk_tree-ok tree visit collect s d k =
    for_each-ok (walk tree visit tree.next) 0 tree.next tree.roots s d.roots
      (λ m u lo hi. walk-ok tree visit collect tree.next m u d k hi (omega arith))
