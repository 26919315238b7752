-- ===== src/Ui/Lists/Ends.antt =====
-- ui/irqbalance-ui.c: parse_into_tree ends on every text, and so do the walks over its tree.
use irqbalance.Prelude.{
  pos, negsuc, ◌^◌, map, if◌then◌else◌, ℕ, ℤ, zero, suc, ◌+◌, ◌<◌, ◌≤◌, ◌≡◌, ◌≢◌, refl, ap, ◌∙◌,
  ◌==◌, ltb, false, not, Option, none, List, [], ◌∷◌, ◌++◌, arith, length, if_cases, if_cases_eq,
  is_prefix, codes, ◌%◌, subst, tokens,
}
use irqbalance.Types.{update}
use irqbalance.Ui.Model.{Irq, Node, Tree, type_cpu, Parsed, ok, unfinished, ◌>>=◌}
use irqbalance.Ui.Parse.{Tokens, attach, next_parent, read_nodes, parse_nodes}
use irqbalance.Ui.Grow.{Inside, Inside-none}
use irqbalance.Ui.Lists.Ensures.{
  Ensures, good, left, failed, Ensures-bind, Ensures-weaken, Ensures-ne,
}
use irqbalance.Ui.Lists.Reading.{Rooted, NewNode, read_node-Ensures}
use irqbalance.Ui.Lists.Descending.{
  IsDescending, attach-IsDescending, attach-Rooted, next_parent-Inside,
}
use irqbalance.Ui.Setup.{Setup}
use irqbalance.Ui.Cpus.{CpuBan}
use irqbalance.Ui.Irqs.{copy_irq}
use irqbalance.Ui.Lists.Walks.{for_each-Ensures, walk_tree-Ensures, walk_tree-ok}
use irqbalance.Ui.Lists.{
  get_banned_cpu, get_cpu, get_all_cpus, copy_irqs_from_nodes, get_all_irqs, assign_cpu_lists,
  sum_mask, assign_cpu_mask, assign_lists, parse_into_tree, with_cpus, new_cpu_list,
}

read_nodes-Ensures :
    (fuel : ℕ) (tree : Tree) (parent : Option ℕ) (ts : Tokens)
    → length ts < fuel
    → Rooted tree
    → Inside tree parent
    → IsDescending tree
    → Ensures IsDescending (read_nodes fuel tree parent ts)
unfolding read_nodes NewNode
read_nodes-Ensures zero tree parent ts h v i d = absurd (omega arith)
read_nodes-Ensures (suc fuel) tree parent [] h v i d = good d
read_nodes-Ensures (suc fuel) tree parent (t ∷ ts) h v i d =
    if_cases (Ensures IsDescending) (not (is_prefix (codes "TYPE") t)) left (
      Ensures-bind (read_node-Ensures fuel tree parent ts v i (omega arith)) λ r (e, inside, l).
        read_nodes-Ensures fuel (attach tree r.0) (next_parent tree r.0) r.1 (omega arith)
          (attach-Rooted tree r.0 inside v) (next_parent-Inside tree r.0 inside)
          (attach-IsDescending tree r.0 e inside d))

-- The nodes of two trees have the same children.
record SameShape (tree t : Tree) : Type 0 where
  next : t.next ≡ tree.next
  roots : t.roots ≡ tree.roots
  children : (k : ℕ) → (t.node k).children ≡ (tree.node k).children

-- A change of the lists of one node.
update-SameShape :
    (tree t : Tree) (n : ℕ) (node : Node)
    → node.children ≡ (t.node n).children
    → SameShape tree t
    → SameShape tree (record t { node = update t.node n node })
update-SameShape tree t n node e v = record {
  next = v.next;
  roots = v.roots;
  children = λ k.
      if_cases_eq (λ (m : Node). m.children ≡ (tree.node k).children) (n == k)
        (λ q.
          let same : n ≡ k = ground arith in e ∙ ap (λ j. (t.node j).children) same ∙ v.children k)
        (λ q. v.children k);
}

assign_cpu_lists-Ensures :
    (sort : List ℤ → List ℤ) (tree : Tree) (fuel n : ℕ) (t : Tree)
    → IsDescending tree
    → n < tree.next
    → tree.next ≤ n + fuel
    → SameShape tree t
    → Ensures (SameShape tree) (assign_cpu_lists sort tree fuel n t)
unfolding assign_cpu_lists
assign_cpu_lists-Ensures sort tree zero n t d h l v = absurd (omega arith)
assign_cpu_lists-Ensures sort tree (suc fuel) n t d h l v =
    Ensures-bind
      (for_each-Ensures (SameShape tree) (assign_cpu_lists sort tree fuel) (suc n) tree.next
        (tree.node n).children t (d.children n h)
        (λ m u lo hi w. assign_cpu_lists-Ensures sort tree fuel m u d hi (omega arith) w) v)
      λ u w. good (
        update-SameShape tree u n
          (with_cpus sort (new_cpu_list u n (tree.node n).children) (u.node n)) refl w)

sum_mask-Ensures : (cpus : List ℤ) (sum : ℕ) → Ensures (λ (n : ℕ). Unit {0}) (sum_mask cpus sum)
unfolding sum_mask
sum_mask-Ensures [] sum = good tt
sum_mask-Ensures (negsuc n ∷ cpus) sum = failed
sum_mask-Ensures (pos n ∷ cpus) sum =
    if_cases (Ensures (λ (n : ℕ). Unit {0})) (ltb n 32)
      (sum_mask-Ensures cpus ((sum + 2 ^ n) % 4294967296)) failed

assign_cpu_mask-Ensures :
    (tree : Tree) (n : ℕ) (t : Tree)
    → SameShape tree t
    → Ensures (SameShape tree) (assign_cpu_mask n t)
unfolding assign_cpu_mask
assign_cpu_mask-Ensures tree n t v =
    Ensures-bind (sum_mask-Ensures (t.node n).cpu_list 0)
      λ sum u. good (update-SameShape tree t n _ refl v)

SameShape-refl : (tree : Tree) → SameShape tree tree
SameShape-refl tree = record { next = refl; roots = refl; children = λ k. refl }

SameShape-IsDescending : (tree t : Tree) → SameShape tree t → IsDescending tree → IsDescending t
SameShape-IsDescending tree t v d = record {
  children = λ k h. rw (v.next, v.children k) (d.children k (omega (arith, v.next)));
  roots = rw (v.next, v.roots) d.roots;
}

assign_lists-SameShape :
    (sort : List ℤ → List ℤ) (tree : Tree)
    → IsDescending tree
    → Ensures (SameShape tree) (assign_lists sort tree)
unfolding assign_lists
assign_lists-SameShape sort tree d =
    Ensures-bind
      (for_each-Ensures (SameShape tree) (assign_cpu_lists sort tree tree.next) 0 tree.next
        tree.roots tree d.roots
        (λ m u lo hi w. assign_cpu_lists-Ensures sort tree tree.next m u d hi (omega arith) w)
        (SameShape-refl tree))
      λ t v.
        walk_tree-Ensures (SameShape tree) tree assign_cpu_mask t d
          (λ m u w. assign_cpu_mask-Ensures tree m u w) v

parse_nodes-Ensures : (tree : Tree) (text : List ℕ) → Ensures IsDescending (parse_nodes tree text)
unfolding parse_nodes Rooted
parse_nodes-Ensures tree text =
    let empty = record tree { next = 0; roots = [] } in
    read_nodes-Ensures (suc (length (tokens text))) empty none (tokens text) (omega arith)
      (λ p h. absurd (omega arith)) (Inside-none empty)
      (record { children = λ k h. absurd (omega arith); roots = tt })

parse_into_tree-Ensures :
    (sort : List ℤ → List ℤ) (tree : Tree) (text : List ℕ)
    → Ensures IsDescending (parse_into_tree sort tree text)
unfolding parse_into_tree
parse_into_tree-Ensures sort tree [] =
    good (record { children = λ k h. absurd (omega arith); roots = tt })
parse_into_tree-Ensures sort tree (c ∷ cs) =
    Ensures-bind (parse_nodes-Ensures tree (c ∷ cs))
      λ t d. Ensures-weaken (assign_lists-SameShape sort t d) λ u v. SameShape-IsDescending t u v d

abbrev collect_cpu : Tree → ℕ → List CpuBan → List CpuBan
collect_cpu tree n all_cpus =
    let node = tree.node n in
    if node.type == type_cpu
    then all_cpus ++ record { number = node.number; is_banned = false; is_changed = false } ∷ []
    else all_cpus

get_all_irqs-ok :
    (tree : Tree) (setup : Setup)
    → IsDescending tree
    → (r : List Irq) × (get_all_irqs tree setup ≡ ok r)
unfolding get_all_irqs copy_irqs_from_nodes
get_all_irqs-ok tree setup d =
    walk_tree-ok tree (copy_irqs_from_nodes tree)
      (λ n irqs. irqs ++ map copy_irq (tree.node n).irqs) (map copy_irq setup.banned_irqs) d
      (λ m t. refl)

get_all_cpus-ok :
    (sort : List CpuBan → List CpuBan) (tree : Tree) (setup : Setup) (cpus : List CpuBan)
    → IsDescending tree
    → (r : List CpuBan) × (get_all_cpus sort tree setup cpus ≡ ok r)
unfolding get_all_cpus get_cpu
get_all_cpus-ok sort tree setup (c ∷ cpus) d = (c ∷ cpus, refl)
get_all_cpus-ok sort tree setup [] d =
    let (r, e) = walk_tree-ok tree (get_cpu tree) (collect_cpu tree) [] d (λ m t. refl) in
    let all = sort (r ++ map get_banned_cpu setup.banned_cpus) in
    (all, ap (λ m. m >>= λ c. ok (sort (c ++ map get_banned_cpu setup.banned_cpus))) e)

Ensures-value : {P : Tree → Type 0} {m : Parsed Tree} (t : Tree) → Ensures P m → m ≡ ok t → P t
Ensures-value {P} t (good {a} p) e = let same : a ≡ t = cc in subst P same p
Ensures-value {P} t left e = absurd cc
Ensures-value {P} t failed e = absurd cc

-- Whatever text the daemon answers: parse_into_tree ends, with a tree, or as it exits or follows
-- NULL; no walk runs in a circle. When it makes a tree, the collecting of its interrupts and of its
-- CPUs returns as well.
pub parse_into_tree-Ends :
    (sort : List ℤ → List ℤ) (by_number : List CpuBan → List CpuBan) (tree : Tree) (text : List ℕ)
    → (parse_into_tree sort tree text ≢ unfinished)
      × ((t : Tree) (setup : Setup) (cpus : List CpuBan)
          → parse_into_tree sort tree text ≡ ok t
          → ((irqs : List Irq) × (get_all_irqs t setup ≡ ok irqs))
            × ((all : List CpuBan) × (get_all_cpus by_number t setup cpus ≡ ok all)))
parse_into_tree-Ends sort by_number tree text =
    let sound = parse_into_tree-Ensures sort tree text in
    (
      Ensures-ne sound,
      λ t setup cpus e.
          let d = Ensures-value t sound e in
          (get_all_irqs-ok t setup d, get_all_cpus-ok by_number t setup cpus d),
    )
