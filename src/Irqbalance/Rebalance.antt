-- ===== src/Irqbalance/Rebalance.antt =====
-- irqbalance.c: force_rebalance_irq, which gives an interrupt up for a new placement.
use irqbalance.Prelude.{
  ℕ, ◌<◌, ◌≤◌, ◌≡◌, refl, ==_refl, Option, none, some, [], ◌∷◌, ◌++◌, arith, ◌≢◌, count,
  count-append, bit, if◌then◌else◌, if_cases,
}
use irqbalance.Types.{State, balance_none, level_eq}
use irqbalance.Types.Places.{Place, place_eq, irqs_at}
use irqbalance.Types.Invariant.{IsPlaced-IsNumbered, IsPlaced}
use irqbalance.Irqlist.Migrate.{
  migrate_irq_obj, migrate_irq_obj-IsPlaced, count-migrate_irq_obj, migrate_irq_obj_frame,
}

module _ {M : Type 0} where
  unfoldable pub rebalance_from : Option ℕ → ℕ → State M → State M
  rebalance_from none info s = record s { rebalance_irq_list = s.rebalance_irq_list ++ info ∷ [] }
  rebalance_from (some p) info s = migrate_irq_obj s (some p) none info

  unfoldable pub force_rebalance_irq : ℕ → State M → State M
  force_rebalance_irq info s =
      if level_eq (s.irq info).level balance_none
      then s
      else rebalance_from (s.irq info).assigned_obj info s

  -- An interrupt that has no place yet is put on the list of the unplaced.
  rebalance_from-none-IsPlaced :
      (info : ℕ) (s : State M)
      → IsPlaced s
      → (s.irq info).assigned_obj ≡ none
      → 0 < count info s.interrupts_db
      → count info s.rebalance_irq_list ≡ 0
      → IsPlaced (rebalance_from none info s)
  unfolding rebalance_from
  rebalance_from-none-IsPlaced info s v e d c = record {
    one_place = one;
    known = kn;
    unique = v.unique;
    listed = v.listed;
  }
    where
      one :
          (l : Place) (i : ℕ)
          → count i (irqs_at (rebalance_from none info s) l)
            ≤ bit (place_eq (s.irq i).assigned_obj l)
      one none i =
          ground (arith, v.one_place none i, count-append i s.rebalance_irq_list (info ∷ []), e)
      one (some p) i = v.one_place (some p) i

      kn :
          (l : Place) (i : ℕ)
          → 0 < count i (irqs_at (rebalance_from none info s) l)
          → 0 < count i s.interrupts_db
      kn none i h = ground (arith, v.known none i, count-append i s.rebalance_irq_list (info ∷ []))
      kn (some p) i h = v.known (some p) i h

  rebalance_from-IsPlaced :
      (at : Option ℕ) (info : ℕ) (s : State M)
      → IsPlaced s
      → (s.irq info).assigned_obj ≡ at
      → 0 < count info s.interrupts_db
      → count info s.rebalance_irq_list ≡ 0
      → IsPlaced (rebalance_from at info s)
        × (count info (rebalance_from at info s).rebalance_irq_list ≡ 1)
        × (((rebalance_from at info s).irq info).assigned_obj ≡ none)
  unfolding rebalance_from
  rebalance_from-IsPlaced none info s v e d c = (
    rebalance_from-none-IsPlaced info s v e d c,
    ground (arith, count-append info s.rebalance_irq_list (info ∷ []), ==_refl info),
    e,
  )
  rebalance_from-IsPlaced (some p) info s v e d c =
      let here = v.listed info p d e in
      (
        migrate_irq_obj-IsPlaced s (some p) none info v here,
        ground (
          arith,
          count-migrate_irq_obj s (some p) none info none info (IsPlaced-IsNumbered v) here,
          ==_refl info,
        ),
        ground (
          arith,
          migrate_irq_obj_frame s (some p) none info info (IsPlaced-IsNumbered v) here,
          ==_refl info,
        ),
      )

  -- When every listed interrupt is where it says: an interrupt of the database that is not waiting
  -- for a place yet, and may be balanced, is taken from where it is listed and waits exactly once
  -- on the list of the unplaced, with no object assigned; every interrupt stays listed where it
  -- says it is. One of level `none` is left alone.
  pub force_rebalance_irq_lem :
      (info : ℕ) (s : State M)
      → IsPlaced s
      → 0 < count info s.interrupts_db
      → count info s.rebalance_irq_list ≡ 0
      → IsPlaced (force_rebalance_irq info s)
        × ((s.irq info).level ≡ balance_none → force_rebalance_irq info s ≡ s)
        × ((s.irq info).level ≢ balance_none
            → (count info (force_rebalance_irq info s).rebalance_irq_list ≡ 1)
              × (((force_rebalance_irq info s).irq info).assigned_obj ≡ none))
  unfolding force_rebalance_irq
  force_rebalance_irq_lem info s v d c =
      let r = rebalance_from-IsPlaced (s.irq info).assigned_obj info s v refl d c in
      (if_cases IsPlaced _ v r.0, λ e. ground arith, λ n. ground (arith, r.1, r.2))
