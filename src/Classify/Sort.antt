-- ===== src/Classify/Sort.antt =====
-- classify.c: sort_irqs and sort_irq_list, which put the most important interrupts first.
use irqbalance.Prelude.{
  ℕ, ℤ, pos, negsuc, ◌≤◌, ◌≤ℤ◌, ltb_ℤ, ltb, List, [], ◌∷◌, arith, ◌⊎◌, if◌then◌else◌,
}
use irqbalance.Types.{State}
use irqbalance.Types.Glist.{Glist, Before, IsComparison, AllBefore, IsSorted}
use irqbalance.Types.Places.{Place, irqs_at, set_irqs_at, place_eq_refl, irqs_at-set}
use irqbalance.Types.Invariant.{SameListing, set_irqs_at-SameListing}

module _ {M : Type 0} where
  -- By class, then by load, both from the greatest; then by address.
  unfoldable pub sort_irqs : State M → ℕ → ℕ → ℤ
  sort_irqs s a b =
      let x = s.irq a in
      let y = s.irq b in
      if ltb_ℤ x.class y.class
      then pos 1
      else if ltb_ℤ y.class x.class
      then negsuc 0
      else if ltb x.load y.load
      then pos 1
      else if ltb y.load x.load
      then negsuc 0
      else if ltb a b
      then pos 1
      else negsuc 0

  -- `list` is the list of a place, by its pointer.
  unfoldable pub sort_irq_list : Glist → State M → Place → State M
  sort_irq_list g s l = set_irqs_at s l (g.sort (sort_irqs s) (irqs_at s l))

  -- `a` comes before `b`: its class is higher, or the same and its load is higher, or both are the
  -- same and its address is no lower.
  pub record Outranks (s : State M) (a b : ℕ) : Type 0 where
    pub class : (s.irq b).class ≤ℤ (s.irq a).class
    pub load : (s.irq a).class ≤ℤ (s.irq b).class → (s.irq b).load ≤ (s.irq a).load
    pub address : (s.irq a).class ≤ℤ (s.irq b).class → (s.irq a).load ≤ (s.irq b).load → b ≤ a

  Outranks-trans : (s : State M) (a b c : ℕ) → Outranks s a b → Outranks s b c → Outranks s a c
  Outranks-trans s a b c h k = record {
    class = omega arith;
    load = λ e. omega arith;
    address = λ e f. omega arith;
  }

  pub Before-Outranks : (s : State M) (a b : ℕ) → Before (sort_irqs s) a b → Outranks s a b
  unfolding sort_irqs
  Before-Outranks s a b h = record {
    class = ground arith;
    load = λ e. ground arith;
    address = λ e f. ground arith;
  }

  Outranks-Before : (s : State M) (a b : ℕ) → Outranks s a b → Before (sort_irqs s) a b
  unfolding sort_irqs
  Outranks-Before s a b h = ground (arith, h.class, h.load, h.address)

  Before-total : (s : State M) (a b : ℕ) → Before (sort_irqs s) a b ⊎ Before (sort_irqs s) b a
  unfolding sort_irqs
  Before-total s a b = ground arith

  -- The comparison is an order, so that sorting by it has a meaning.
  pub sort_irqs-IsComparison : (s : State M) → IsComparison (sort_irqs s)
  sort_irqs-IsComparison s = record {
    total = Before-total s;
    trans = λ a b c h k.
        Outranks-Before s a c
          (Outranks-trans s a b c (Before-Outranks s a b h) (Before-Outranks s b c k));
  }

  abbrev pub AllOutranked : State M → ℕ → List ℕ → Type 0
  AllOutranked s a [] = Unit
  AllOutranked s a (b ∷ xs) = Outranks s a b × AllOutranked s a xs

  -- Every interrupt outranks all that stand behind it.
  abbrev pub IsRanked : State M → List ℕ → Type 0
  IsRanked s [] = Unit
  IsRanked s (a ∷ xs) = AllOutranked s a xs × IsRanked s xs

  AllBefore-AllOutranked :
      (s : State M) (a : ℕ) (xs : List ℕ) → AllBefore (sort_irqs s) a xs → AllOutranked s a xs
  AllBefore-AllOutranked s a [] h = tt
  AllBefore-AllOutranked s a (b ∷ xs) h =
      (Before-Outranks s a b h.0, AllBefore-AllOutranked s a xs h.1)

  IsSorted-IsRanked : (s : State M) (xs : List ℕ) → IsSorted (sort_irqs s) xs → IsRanked s xs
  IsSorted-IsRanked s [] h = tt
  IsSorted-IsRanked s (a ∷ xs) h = (AllBefore-AllOutranked s a xs h.0, IsSorted-IsRanked s xs h.1)

  -- Sorting a list of interrupts keeps what every list holds, and ranks the list: each interrupt
  -- outranks all behind it by class, then load, then address.
  pub sort_irq_list-IsRanked :
      (g : Glist) (s : State M) (l : Place)
      → SameListing s (sort_irq_list g s l) × IsRanked s (irqs_at (sort_irq_list g s l) l)
  unfolding sort_irq_list
  sort_irq_list-IsRanked g s l = (
    set_irqs_at-SameListing s l _ (λ i. g.count-sort (sort_irqs s) i (irqs_at s l)),
    rw (irqs_at-set s l l (g.sort (sort_irqs s) (irqs_at s l))) (
        rw (place_eq_refl l) (
          IsSorted-IsRanked s _
            (g.sort-IsSorted (sort_irqs s) (irqs_at s l) (sort_irqs-IsComparison s)))),
  )
