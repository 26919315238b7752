-- ===== src/Ui/RoundTrip.antt =====
-- ui/irqbalance-ui.c and irqbalance.c: parse_into_tree on what get_object_stat prints.
use irqbalance.Prelude.{
  ℕ, zero, suc, ◌+◌, ◌<◌, ◌≤◌, ◌≡◌, refl, true, Option, none, some, List, [], ◌∷◌, arith,
  concat_map, length, length-append, get_elem?, append_assoc, count, subst, ==_refl,
}
use irqbalance.Types.{State, obj_type_node}
use irqbalance.Activate.Search.{rank}
use irqbalance.Irqbalance.Stats.{irq_words, object_words, send_stats}
use irqbalance.Irqbalance.Stats.Listing.{irqs_words, words, listing, send_stats-words}
use irqbalance.Ui.Model.{Tree, ok}
use irqbalance.Ui.Parse.{attach, next_parent, read_nodes, parse_nodes}
use irqbalance.Ui.Reads.{Fits, shown, stops, read_node-words}
use irqbalance.Ui.Grow.{
  SameNode, SameNode-trans, Linked, Inside, Linked-empty, Inside-none, attach-next, attach-new,
  attach-old, find_parent_lem, attach-Linked, next_parent_lem,
}

module _ {M : Type 0} where
  abbrev pub AllFit : State M → List ℕ → Type 0
  AllFit s [] = Unit
  AllFit s (o ∷ os) = Fits s o × AllFit s os

  -- The listing is empty, or begins with a node.
  abbrev StartsAtNode : State M → List ℕ → Type 0
  StartsAtNode s [] = Unit
  StartsAtNode s (o ∷ os) = rank (s.obj o).obj_type ≡ 3

  abbrev size : State M → List ℕ → ℕ
  size s [] = 0
  size s (o ∷ os) = suc (length (s.obj o).interrupts + size s os)

  stops-words : (s : State M) (os : List ℕ) → stops (words s os) ≡ true
  unfolding object_words
  stops-words s [] = refl
  stops-words s (o ∷ os) = refl

  rank_le : (s : State M) (o : ℕ) → rank (s.obj o).obj_type ≤ 3
  rank_le s o = ground arith

  -- The nodes of a listing, from `tree` on.
  record Reads (s : State M) (os : List ℕ) (tree t : Tree) : Type 0 where
    next : t.next ≡ tree.next + length os
    old : (j : ℕ) → j < tree.next → SameNode (t.node j) (tree.node j)
    new :
        (k o : ℕ)
        → get_elem? os k ≡ some o
        → (q : Option ℕ) × SameNode (t.node (tree.next + k)) (shown s o q)

  Reads-new :
      (s : State M) (o : ℕ) (os : List ℕ) (q : Option ℕ) (tree t : Tree)
      → Reads s os (attach tree (shown s o q)) t
      → (k o' : ℕ) → get_elem? (o ∷ os) k ≡ some o'
      → (q : Option ℕ) × SameNode (t.node (tree.next + k)) (shown s o' q)
  Reads-new s o os q tree t w zero o' e =
      let node = shown s o q in
      let n = attach-next tree node in
      let here = SameNode-trans (w.old tree.next (omega (arith, n))) (attach-new tree node) in
      let same : o ≡ o' = ground arith in
      let place : tree.next ≡ tree.next + 0 = omega arith in
      (
        q,
        subst (λ x. SameNode (t.node x) (shown s o' q)) place
            (subst (λ x. SameNode (t.node tree.next) (shown s x q)) same here),
      )
  Reads-new s o os q tree t w (suc k) o' e =
      let r = w.new k o' e in
      let n = attach-next tree (shown s o q) in
      let place : (attach tree (shown s o q)).next + k ≡ tree.next + suc k = omega (arith, n) in
      (r.0, subst (λ x. SameNode (t.node x) (shown s o' r.0)) place r.1)

  Reads-step :
      (s : State M) (o : ℕ) (os : List ℕ) (q : Option ℕ) (tree t : Tree)
      → Reads s os (attach tree (shown s o q)) t
      → Reads s (o ∷ os) tree t
  Reads-step s o os q tree t w =
      let node = shown s o q in
      let n = attach-next tree node in
      record {
        next = omega (arith, w.next, n);
        old = λ j k. SameNode-trans (w.old j (omega (arith, n))) (attach-old tree node j k);
        new = Reads-new s o os q tree t w;
      }

  read_nodes-words :
      (s : State M) (os : List ℕ) (fuel : ℕ) (tree : Tree) (parent : Option ℕ)
      → AllFit s os
      → Linked tree
      → Inside tree parent
      → (parent ≡ none → StartsAtNode s os)
      → size s os < fuel
      → (t : Tree) × (read_nodes fuel tree parent (words s os) ≡ ok t) × Reads s os tree t
  unfolding read_nodes
  read_nodes-words s os zero tree parent f v i n h = absurd (omega arith)
  read_nodes-words s [] (suc fuel) tree parent f v i n h = (
    tree,
    refl,
    record {
      next = omega arith;
      old = λ j k. record {
        type = refl;
        number = refl;
        load = refl;
        is_powersave = refl;
        parent = refl;
        irqs = refl;
      };
      new = λ k o e. absurd cc;
    },
  )
  read_nodes-words s (o ∷ os) (suc fuel) tree parent f v i n h =
      let (q, c, qn, qi) =
        find_parent_lem tree (rank (s.obj o).obj_type) parent v i n (rank_le s o) in
      let node = shown s o q in
      let (ts, e, r) =
        read_node-words s o fuel tree parent q (words s os) f.0 c (omega arith)
          (stops-words s os) in
      let (some_parent, inside) = next_parent_lem tree node qn qi in
      let (t, d, w) =
        read_nodes-words s os fuel (attach tree node) (next_parent tree node) f.1
          (attach-Linked tree node v qn qi) inside (λ x. absurd (some_parent x)) (omega arith) in
      (
        t,
        rw (append_assoc (object_words s o) (irqs_words s (s.obj o).interrupts) (words s os))
            (rw e (rw r d)),
        Reads-step s o os q tree t w,
      )

  pub irqs-words : (s : State M) (is : List ℕ) → length is ≤ length (irqs_words s is)
  unfolding irq_words
  irqs-words s [] = omega arith
  irqs-words s (i ∷ is) = omega (arith, irqs-words s is)

  size-words : (s : State M) (os : List ℕ) → size s os ≤ length (words s os)
  unfolding object_words
  size-words s [] = omega arith
  size-words s (o ∷ os) = omega (
    arith,
    size-words s os,
    irqs-words s (s.obj o).interrupts,
    length-append (irqs_words s (s.obj o).interrupts) (words s os),
  )

  starts-listing :
      (s : State M) (nodes : List ℕ)
      → ((d : ℕ) → 0 < count d nodes → (s.obj d).obj_type ≡ obj_type_node)
      → StartsAtNode s (concat_map (listing 4 s) nodes)
  unfolding listing
  starts-listing s [] n = record {}
  starts-listing s (d ∷ ds) n = rw (n d (ground (arith, ==_refl d))) refl

  -- The daemon answers "stats", and the user interface reads the answer. When the roots of the tree
  -- are nodes, when the numbers and classes that are listed fit an `int`, and their loads and
  -- counter differences a `long`, parse_into_tree succeeds, makes one node for each object that is
  -- listed, and the k-th node has the type, number, load, mode and interrupts of the k-th object.
  pub parse_nodes-send_stats :
      (s : State M) (tree : Tree)
      → let os = concat_map (listing 4 s) s.numa_nodes in
        AllFit s os
        → ((d : ℕ) → 0 < count d s.numa_nodes → (s.obj d).obj_type ≡ obj_type_node)
        → (t : Tree) × (parse_nodes tree (send_stats s) ≡ ok t)
          × (t.next ≡ length os)
          × ((k o : ℕ)
              → get_elem? os k ≡ some o
              → (q : Option ℕ) × SameNode (t.node k) (shown s o q))
  unfolding parse_nodes
  parse_nodes-send_stats s tree f n =
      let os = concat_map (listing 4 s) s.numa_nodes in
      let (t, e, r) =
        read_nodes-words s os (suc (length (words s os))) (record tree { next = 0; roots = [] })
          none f (Linked-empty tree) (Inside-none _) (λ _. starts-listing s s.numa_nodes n)
          (omega (arith, size-words s os)) in
      (
        t,
        rw (send_stats-words s) e,
        omega (arith, r.next),
        λ k o g.
            let (q, same) = r.new k o g in
            let place : 0 + k ≡ k = omega arith in
            (q, subst (λ x. SameNode (t.node x) (shown s o q)) place same),
      )
