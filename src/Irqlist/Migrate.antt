-- ===== src/Irqlist/Migrate.antt =====
-- irqlist.c: migrate_irq_obj, the one function by which an interrupt changes its place.
use irqbalance.Prelude.{
  ℕ, pos, ◌+◌, ◌<◌, ◌≡◌, refl, ◌==◌, ◌&&◌, ◌+ℤ◌, ◌-ℤ◌, ◌==ℤ◌, Option, none, some, arith, bit, count,
  if◌then◌else◌, if_cases, ◌∙◌,
}
use irqbalance.Types.{State, TopoObj, set_obj, set_irq, int_max}
use irqbalance.Types.Word.{add64}
use irqbalance.Types.Places.{Place, place_eq, place_eq-eq, place_eq_refl, irqs_at}
use irqbalance.Types.Invariant.{IsPlaced, IsNumbered, IsPlaced-IsNumbered, IsListed}
use irqbalance.Classify.Migrate.{
  migrate_irq, count-migrate_irq, migrate_irq_frame, migrate_irq_loads,
}

-- `if (!from) from = info->assigned_obj;`
abbrev pub or_assigned : Option ℕ → Option ℕ → Option ℕ
or_assigned none assigned = assigned
or_assigned (some p) assigned = some p

module _ {M : Type 0} where
  -- INT_MAX stands for "not known", and is not counted up or down.
  abbrev pub slot_freed : TopoObj M → TopoObj M
  slot_freed o =
      if o.slots_left ==ℤ int_max then o else record o { slots_left = o.slots_left +ℤ pos 1 }

  abbrev pub slot_taken : TopoObj M → TopoObj M
  slot_taken o =
      if o.slots_left ==ℤ int_max then o else record o { slots_left = o.slots_left -ℤ pos 1 }

  release_slot : State M → Option ℕ → State M
  release_slot s none = s
  release_slot s (some p) = set_obj s p (slot_freed (s.obj p))

  -- `to->load += info->load + 1`.
  take_slot : State M → Option ℕ → ℕ → State M
  take_slot s none info = s
  take_slot s (some p) info =
      let o = slot_taken (s.obj p) in
      set_obj s p (record o { load = add64 o.load (add64 (s.irq info).load 1) })

  account : State M → Place → Place → ℕ → State M
  unfolding release_slot take_slot
  account s from to info =
      let s' = take_slot (release_slot s from) to info in
      set_irq s' info (record (s'.irq info) { assigned_obj = to })

  -- A `from` of NULL means the object that the interrupt is assigned to.
  unfoldable pub migrate_irq_obj : State M → Option ℕ → Option ℕ → ℕ → State M
  unfolding account
  migrate_irq_obj s from to info =
      let from' = or_assigned from (s.irq info).assigned_obj in
      let s' = migrate_irq s from' to info in
      if (s'.irq info).moved then account s' from' to info else s'

  account-lists :
      (s : State M) (from to l : Place) (info : ℕ)
      → irqs_at (account s from to info) l ≡ irqs_at s l
  unfolding account
  account-lists s none none l info = refl
  account-lists s none (some q) none info = refl
  account-lists s none (some q) (some p) info = ground arith
  account-lists s (some p) none none info = refl
  account-lists s (some p) none (some q) info = ground arith
  account-lists s (some p) (some q) none info = refl
  account-lists s (some p) (some q) (some l) info = ground arith

  account_frame :
      (s : State M) (from to : Place) (info j : ℕ)
      → ((account s from to info).interrupts_db ≡ s.interrupts_db)
        × (((account s from to info).irq j).irq ≡ (s.irq j).irq)
        × (((account s from to info).irq j).assigned_obj
            ≡ (if info == j then to else (s.irq j).assigned_obj))
  unfolding account
  account_frame s none none info j = (refl, ground arith, ground arith)
  account_frame s none (some q) info j = (refl, ground arith, ground arith)
  account_frame s (some p) none info j = (refl, ground arith, ground arith)
  account_frame s (some p) (some q) info j = (refl, ground arith, ground arith)

  -- The place that an interrupt leaves.
  abbrev pub source : State M → Option ℕ → ℕ → Place
  source s from info = or_assigned from (s.irq info).assigned_obj

  migrate_irq_obj-eq :
      (s : State M) (from to : Option ℕ) (info : ℕ)
      → IsNumbered s
      → 0 < count info (irqs_at s (source s from info))
      → migrate_irq_obj s from to info
        ≡ account (migrate_irq s (source s from info) to info) (source s from info) to info
  unfolding migrate_irq_obj
  migrate_irq_obj-eq s from to info v h =
      rw ((migrate_irq_frame s (source s from info) to info info v h).1)

  -- Where numbers are unique in the database, and the interrupt stands in the list of its source,
  -- a migration takes it off that list, adds it to the list of `to`, and changes the count of
  -- no other interrupt or list. No interrupt is lost or doubled.
  pub count-migrate_irq_obj :
      (s : State M) (from to : Option ℕ) (info : ℕ) (l : Place) (j : ℕ)
      → IsNumbered s
      → 0 < count info (irqs_at s (source s from info))
      → count j (irqs_at (migrate_irq_obj s from to info) l)
          + bit (place_eq (source s from info) l && info == j)
        ≡ count j (irqs_at s l) + bit (place_eq to l && info == j)
  count-migrate_irq_obj s from to info l j v h = rw (migrate_irq_obj-eq s from to info v h) (
      rw (account-lists (migrate_irq s (source s from info) to info) (source s from info) to l info)
        (count-migrate_irq s (source s from info) to info l j v h))

  pub migrate_irq_obj_frame :
      (s : State M) (from to : Option ℕ) (info j : ℕ)
      → IsNumbered s
      → 0 < count info (irqs_at s (source s from info))
      → ((migrate_irq_obj s from to info).interrupts_db ≡ s.interrupts_db)
        × (((migrate_irq_obj s from to info).irq j).irq ≡ (s.irq j).irq)
        × (((migrate_irq_obj s from to info).irq j).assigned_obj
            ≡ (if info == j then to else (s.irq j).assigned_obj))
  migrate_irq_obj_frame s from to info j v h =
      let s' = migrate_irq s (source s from info) to info in
      let f = account_frame s' (source s from info) to info j in
      let g = migrate_irq_frame s (source s from info) to info j v h in
      rw (migrate_irq_obj-eq s from to info v h) (f.0 ∙ g.0, f.1 ∙ g.2, ground (arith, f.2, g.3))

  -- When every listed interrupt is where it says, a migration of one that stands in the list of
  -- its source keeps that so.
  pub migrate_irq_obj-IsPlaced :
      (s : State M) (from to : Option ℕ) (info : ℕ)
      → IsPlaced s
      → 0 < count info (irqs_at s (source s from info))
      → IsPlaced (migrate_irq_obj s from to info)
  migrate_irq_obj-IsPlaced s from to info v h =
      let at = source s from info in
      let e : (s.irq info).assigned_obj ≡ at =
        place_eq-eq _ at (ground (arith, v.one_place at info)) in
      record {
        one_place = λ l i. ground (
          arith,
          v.one_place l i,
          e,
          count-migrate_irq_obj s from to info l i (IsPlaced-IsNumbered v) h,
          migrate_irq_obj_frame s from to info i (IsPlaced-IsNumbered v) h,
        );
        known = λ l i k. ground (
          arith,
          v.known l i,
          v.known at info,
          count-migrate_irq_obj s from to info l i (IsPlaced-IsNumbered v) h,
          migrate_irq_obj_frame s from to info i (IsPlaced-IsNumbered v) h,
        );
        unique = λ i j k m n. ground (
          arith,
          v.unique i j,
          migrate_irq_obj_frame s from to info i (IsPlaced-IsNumbered v) h,
          migrate_irq_obj_frame s from to info j (IsPlaced-IsNumbered v) h,
        );
        listed = λ i p k m. ground (
          arith,
          v.listed i p,
          e,
          place_eq_refl (some p),
          place_eq-eq at (some p),
          count-migrate_irq_obj s from to info (some p) i (IsPlaced-IsNumbered v) h,
          migrate_irq_obj_frame s from to info i (IsPlaced-IsNumbered v) h,
        );
      }

  -- What was listed where it is assigned stays so; the interrupt that moved is listed at `to`.
  pub migrate_irq_obj-IsListed :
      (s : State M) (from to : Option ℕ) (info j : ℕ)
      → IsPlaced s
      → 0 < count info (irqs_at s (source s from info))
      → IsListed s j
      → IsListed (migrate_irq_obj s from to info) j
  migrate_irq_obj-IsListed s from to info j v h k =
      let s' = migrate_irq_obj s from to info in
      let a = (s'.irq j).assigned_obj in
      ground (
        arith,
        v.one_place (source s from info) info,
        count-migrate_irq_obj s from to info a j (IsPlaced-IsNumbered v) h,
        migrate_irq_obj_frame s from to info j (IsPlaced-IsNumbered v) h,
        place_eq_refl to,
        place_eq-eq (source s from info) a,
      )

  account_loads :
      (s : State M) (from to : Place) (info j : ℕ)
      → (((account s from to info).irq j).load ≡ (s.irq j).load)
        × ((account s from to info).migrate_ratio ≡ s.migrate_ratio)
  unfolding account
  account_loads s none none info j = (ground arith, refl)
  account_loads s none (some q) info j = (ground arith, refl)
  account_loads s (some p) none info j = (ground arith, refl)
  account_loads s (some p) (some q) info j = (ground arith, refl)

  -- The loads of the interrupts are not changed by moving one.
  pub migrate_irq_obj_loads :
      (s : State M) (from to : Option ℕ) (info j : ℕ)
      → (((migrate_irq_obj s from to info).irq j).load ≡ (s.irq j).load)
        × ((migrate_irq_obj s from to info).migrate_ratio ≡ s.migrate_ratio)
  unfolding migrate_irq_obj
  migrate_irq_obj_loads s from to info j =
      let at = source s from info in
      let s' = migrate_irq s at to info in
      let moved = migrate_irq_loads s at to info j in
      let a = account_loads s' at to info j in
      if_cases
        (λ (t : State M). ((t.irq j).load ≡ (s.irq j).load) × (t.migrate_ratio ≡ s.migrate_ratio))
        (s'.irq info).moved (a.0 ∙ moved.0, a.1 ∙ moved.1) moved
