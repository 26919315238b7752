-- ===== src/Ui/Reads.antt =====
-- ui/irqbalance-ui.c: parse_into_tree on the words that the daemon prints of its objects.
use irqbalance.Prelude.{
  ℕ, ℤ, pos, zero, suc, ◌<◌, ◌≤◌, ◌≡◌, refl, ap, ◌∙◌, Bool, true, false, not, Option, none, List,
  [], ◌∷◌, ◌++◌, arith, bit, codes, is_prefix, length, narrow, long_max, strtol-print_ℕ,
  strtol-print_ℤ, append_assoc, append-nil, word64, ◌%◌,
}
use irqbalance.Types.{State, ObjType, obj_type_cpu, obj_type_cache, obj_type_package, obj_type_node}
use irqbalance.Types.Word.{sub64}
use irqbalance.Activate.Search.{rank}
use irqbalance.Irqbalance.Stats.{irq_words, object_words}
use irqbalance.Irqbalance.Stats.Listing.{irqs_words}
use irqbalance.Ui.Model.{Irq, Node, Tree, Parsed, ok}
use irqbalance.Ui.Parse.{Tokens, read_number, expect, read_irq, read_irqs, find_parent, read_node}

abbrev read_as : Bool → ℤ → ℕ → ℕ → ℤ → Irq
read_as is_banned vector load diff class = record {
  vector = vector;
  load = load;
  diff = diff;
  is_banned = is_banned;
  assigned_to = [];
  class = class;
}

abbrev read_ok {ℓ} : {A : Type ℓ} → A → Tokens → Parsed (A × Tokens)
read_ok v rest = ok (v, rest)

same_read :
    (b : Bool) {v v' c c' : ℤ} {l l' d d' : ℕ} (rest : Tokens)
    → v ≡ v'
    → l ≡ l'
    → d ≡ d'
    → c ≡ c'
    → read_ok (read_as b v l d c) rest ≡ read_ok (read_as b v' l' d' c') rest
same_read b rest h j k m = rw h (rw j (rw k (rw m refl)))

pub small : (n : ℕ) → n ≤ long_max → word64 (pos n) ≡ n
small n h = omega arith

small-rank : (k : ObjType) → rank k ≤ long_max
small-rank obj_type_cpu = omega arith
small-rank obj_type_cache = omega arith
small-rank obj_type_package = omega arith
small-rank obj_type_node = omega arith

rank_word : (k : ObjType) → word64 (pos (rank k)) % 4294967296 ≡ rank k
rank_word obj_type_cpu = refl
rank_word obj_type_cache = refl
rank_word obj_type_package = refl
rank_word obj_type_node = refl

bit_small : (b : Bool) → bit b ≤ long_max
bit_small b = ground arith

narrow-bit : (b : Bool) → narrow (pos (bit b)) ≡ pos (bit b)
narrow-bit true = refl
narrow-bit false = refl

abbrev node_as : Option ℕ → List Irq → ℕ → ℤ → ℕ → ℤ → Node
node_as parent irqs type number load is_powersave = record {
  type = type;
  number = number;
  load = load;
  is_powersave = is_powersave;
  parent = parent;
  children = [];
  irqs = irqs;
  cpu_list = [];
  cpu_mask = none;
}

same_node :
    (q : Option ℕ) (irqs : List Irq) (kind : ℕ) {n n' p p' : ℤ} {l l' : ℕ} (rest : Tokens)
    → n ≡ n'
    → l ≡ l'
    → p ≡ p'
    → read_ok (node_as q irqs kind n l p) rest ≡ read_ok (node_as q irqs kind n' l' p') rest
same_node q irqs kind rest h j k = rw h (rw j (rw k refl))

-- The tokens do not start with another interrupt.
abbrev pub stops : Tokens → Bool
stops [] = true
stops (t ∷ ts) = not (is_prefix (codes "IRQ") t)

module _ {M : Type 0} where
  -- What a `long` can carry of an interrupt and of an object.
  pub record IrqFits (s : State M) (i : ℕ) : Type 0 where
    pub irq : narrow (s.irq i).irq ≡ (s.irq i).irq
    pub load : (s.irq i).load ≤ long_max
    pub diff : sub64 (s.irq i).irq_count (s.irq i).last_irq_count ≤ long_max
    pub class : narrow (s.irq i).class ≡ (s.irq i).class

  abbrev pub IrqsFit : State M → List ℕ → Type 0
  IrqsFit s [] = Unit
  IrqsFit s (i ∷ is) = IrqFits s i × IrqsFit s is

  abbrev pub shown_irq : Bool → State M → ℕ → Irq
  shown_irq b s i = record {
    vector = (s.irq i).irq;
    load = (s.irq i).load;
    diff = sub64 (s.irq i).irq_count (s.irq i).last_irq_count;
    is_banned = b;
    assigned_to = [];
    class = (s.irq i).class;
  }

  read_irq-words :
      (b : Bool) (s : State M) (i : ℕ) (rest : Tokens)
      → IrqFits s i
      → (ts : Tokens) × (irq_words s i ++ rest ≡ codes "IRQ" ∷ ts)
        × (read_irq b ts ≡ ok (shown_irq b s i, rest))
  unfolding irq_words read_irq read_number expect
  read_irq-words b s i rest h =
      let v = s.irq i in
      let diff = sub64 v.irq_count v.last_irq_count in
      (
        _,
        refl,
        rw (strtol-print_ℤ v.irq h.irq) (
            rw (strtol-print_ℕ v.load h.load) (
              rw (strtol-print_ℕ diff h.diff) (
                rw (strtol-print_ℤ v.class h.class)
                  (same_read b rest h.irq (small v.load h.load) (small diff h.diff) h.class)))),
      )

  abbrev pub shown_irqs : Bool → State M → List ℕ → List Irq
  shown_irqs b s [] = []
  shown_irqs b s (i ∷ is) = shown_irq b s i ∷ shown_irqs b s is

  pub read_irqs-words :
      (b : Bool) (s : State M) (is : List ℕ) (fuel : ℕ) (irqs : List Irq) (rest : Tokens)
      → IrqsFit s is
      → length is < fuel
      → stops rest ≡ true
      → read_irqs fuel b (irqs_words s is ++ rest) irqs ≡ ok (irqs ++ shown_irqs b s is, rest)
  unfolding read_irqs
  read_irqs-words b s is zero irqs rest h k e = absurd (omega arith)
  read_irqs-words b s [] (suc fuel) irqs [] h k e = rw (append-nil irqs) refl
  read_irqs-words b s [] (suc fuel) irqs (t ∷ rest) h k e = rw (append-nil irqs) (ground arith)
  read_irqs-words b s (i ∷ is) (suc fuel) irqs rest h k e =
      let r = read_irq-words b s i (irqs_words s is ++ rest) h.0 in
      rw (append_assoc (irq_words s i) (irqs_words s is) rest) (
        rw r.1 (
          rw r.2 (
            read_irqs-words b s is fuel (irqs ++ shown_irq b s i ∷ []) rest h.1 (omega arith) e
            ∙ ap (λ v. read_ok v rest)
                (append_assoc irqs (shown_irq b s i ∷ []) (shown_irqs b s is)))))

  pub record Fits (s : State M) (o : ℕ) : Type 0 where
    pub number : narrow (s.obj o).number ≡ (s.obj o).number
    pub load : (s.obj o).load ≤ long_max
    pub irqs : IrqsFit s (s.obj o).interrupts

  -- What the user interface must show of an object.
  abbrev pub shown : State M → ℕ → Option ℕ → Node
  shown s o parent = record {
    type = rank (s.obj o).obj_type;
    number = (s.obj o).number;
    load = (s.obj o).load;
    is_powersave = pos (bit (s.obj o).powersave_mode);
    parent = parent;
    children = [];
    irqs = shown_irqs false s (s.obj o).interrupts;
    cpu_list = [];
    cpu_mask = none;
  }

  pub read_node-words :
      (s : State M) (o fuel : ℕ) (tree : Tree) (parent q : Option ℕ) (rest : Tokens)
      → Fits s o
      → find_parent tree (rank (s.obj o).obj_type) parent ≡ ok q
      → length (s.obj o).interrupts < fuel
      → stops rest ≡ true
      → (ts : Tokens) × (object_words s o ++ (irqs_words s (s.obj o).interrupts ++ rest)
          ≡ codes "TYPE" ∷ ts)
        × (read_node fuel tree parent ts ≡ ok (shown s o q, rest))
  unfolding object_words read_node read_number expect
  read_node-words s o fuel tree parent q rest h c k e =
      let v = s.obj o in
      let kind = rank v.obj_type in
      (
        _,
        refl,
        rw (strtol-print_ℕ kind (small-rank v.obj_type)) (
            rw (rank_word v.obj_type) (
              rw c (
                rw (strtol-print_ℤ v.number h.number) (
                  rw (strtol-print_ℕ v.load h.load) (
                    rw (strtol-print_ℕ (bit v.powersave_mode) (bit_small v.powersave_mode)) (
                      rw (read_irqs-words false s v.interrupts fuel [] rest h.irqs k e) (
                        same_node q (shown_irqs false s v.interrupts) kind rest h.number
                          (small v.load h.load) (narrow-bit v.powersave_mode)))))))),
      )
