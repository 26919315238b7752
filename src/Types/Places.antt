-- ===== src/Types/Places.antt =====
-- Where an interrupt is listed: in an object's `interrupts`, or in `rebalance_irq_list`. The code
-- passes such a place as a pointer to a topology object, NULL for the list of the unplaced.
use irqbalance.Prelude.{
  ℕ, ◌≡◌, refl, Bool, true, false, Option, none, some, List, ◌==◌, if◌then◌else◌, arith,
}
use irqbalance.Types.{State, TopoObj, set_obj}

abbrev pub Place : Type 0
Place = Option ℕ

abbrev pub place_eq : Place → Place → Bool
place_eq none none = true
place_eq (some p) (some q) = p == q
place_eq _ _ = false

module _ {M : Type 0} where
  abbrev pub place_list : List ℕ → (ℕ → TopoObj M) → Place → List ℕ
  place_list unplaced obj none = unplaced
  place_list unplaced obj (some p) = (obj p).interrupts

  -- The list that `p ? &p->interrupts : &rebalance_irq_list` points at.
  abbrev pub irqs_at : State M → Place → List ℕ
  irqs_at s l = place_list s.rebalance_irq_list s.obj l

  abbrev pub set_irqs_at : State M → Place → List ℕ → State M
  set_irqs_at s none l = record s { rebalance_irq_list = l }
  set_irqs_at s (some p) l = set_obj s p (record (s.obj p) { interrupts = l })

  pub irqs_at-set :
      (s : State M) (p q : Place) (l : List ℕ)
      → irqs_at (set_irqs_at s p l) q ≡ (if place_eq p q then l else irqs_at s q)
  irqs_at-set s none none l = refl
  irqs_at-set s none (some q) l = refl
  irqs_at-set s (some p) none l = refl
  irqs_at-set s (some p) (some q) l = ground arith

pub place_eq-eq : (p q : Place) → place_eq p q ≡ true → p ≡ q
place_eq-eq p q h = ground arith

pub place_eq_refl : (p : Place) → place_eq p p ≡ true
place_eq_refl p = ground arith
