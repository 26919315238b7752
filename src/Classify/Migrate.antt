-- ===== src/Classify/Migrate.antt =====
-- classify.c: migrate_irq, which takes an interrupt off one list and appends it to another.
use irqbalance.Prelude.{
  ℕ, ◌+◌, ◌<◌, ◌≡◌, refl, ◌==◌, ◌&&◌, true, none, some, List, [], ◌∷◌, ◌++◌, arith, inl, inr, bit,
  Option-cases, delete_custom, count, count-append, count-delete_custom, ap, ◌∙◌,
}
use irqbalance.Types.{State, IrqInfo, set_irq}
use irqbalance.Types.Places.{Place, place_eq, place_eq-eq, irqs_at, set_irqs_at, irqs_at-set}
use irqbalance.Types.Invariant.{IsNumbered}
use irqbalance.Classify.Lookup.{same_irq, find_irq, find_irq-some, find_irq-none}

module _ {M : Type 0} where
  -- Both lists are read through their pointers when they are used, so they may be one list.
  relink : State M → Place → Place → ℕ → List ℕ → State M
  relink s from to tmp rest =
      let s' = set_irqs_at s from rest in set_irqs_at s' to (irqs_at s' to ++ tmp ∷ [])

  unfoldable pub migrate_irq : State M → Place → Place → ℕ → State M
  unfolding relink
  migrate_irq s from to info =
      let number = (s.irq info).irq in
      elim (find_irq s number (irqs_at s from)) [
        | none ↦ s
        | some tmp ↦
            let s' = relink s from to tmp (delete_custom (same_irq s number) (irqs_at s from)) in
            set_irq s' info (record (s'.irq info) { moved = true })
      ]

  relink-count :
      (s : State M) (from to : Place) (i : ℕ) (rest : List ℕ) (l : Place) (j : ℕ)
      → count j rest + bit (i == j) ≡ count j (irqs_at s from)
      → count j (irqs_at (relink s from to i rest) l) + bit (place_eq from l && i == j)
        ≡ count j (irqs_at s l) + bit (place_eq to l && i == j)
  unfolding relink
  relink-count s from to i rest l j h =
      let s' = set_irqs_at s from rest in
      rw (irqs_at-set s' to l (irqs_at s' to ++ i ∷ [])) (
        ground (
          arith,
          count-append j (irqs_at s' to) (i ∷ []),
          irqs_at-set s from l rest,
          irqs_at-set s from to rest,
          place_eq-eq to l,
          place_eq-eq from l,
        ))

  -- What one successful migration makes of the state.
  abbrev migrated : State M → Place → Place → ℕ → State M
  migrated s from to info =
      let rest = delete_custom (same_irq s (s.irq info).irq) (irqs_at s from) in
      let s' = relink s from to info rest in set_irq s' info (record (s'.irq info) { moved = true })

  find_irq-listed :
      (s : State M) (l : Place) (i : ℕ)
      → IsNumbered s
      → 0 < count i (irqs_at s l)
      → find_irq s (s.irq i).irq (irqs_at s l) ≡ some i
  find_irq-listed s l i v h = elim (Option-cases (find_irq s (s.irq i).irq (irqs_at s l))) [
    | inl absent ↦ absurd (omega (arith, find_irq-none s (s.irq i).irq (irqs_at s l) i absent refl))
    | inr (e, found) ↦
        let f = find_irq-some s (s.irq i).irq (irqs_at s l) found in
        found ∙ ap some (v.unique e i (v.known l e f.1) (v.known l i h) f.0)
  ]

  migrate_irq-eq :
      (s : State M) (from to : Place) (info : ℕ)
      → IsNumbered s
      → 0 < count info (irqs_at s from)
      → migrate_irq s from to info ≡ migrated s from to info
  unfolding migrate_irq
  migrate_irq-eq s from to info v h = rw (find_irq-listed s from info v h, migrate_irq)

  -- When `from` lists the interrupt, one occurrence of it goes from `from` to `to`, and every other
  -- list and interrupt keeps its count; the two places may be one.
  pub count-migrate_irq :
      (s : State M) (from to : Place) (info : ℕ) (l : Place) (j : ℕ)
      → IsNumbered s
      → 0 < count info (irqs_at s from)
      → count j (irqs_at (migrate_irq s from to info) l) + bit (place_eq from l && info == j)
        ≡ count j (irqs_at s l) + bit (place_eq to l && info == j)
  count-migrate_irq s from to info l j v h = rw (migrate_irq-eq s from to info v h) (
      relink-count s from to info _ l j (
        count-delete_custom _ (irqs_at s from) j
          (unfold find_irq in find_irq-listed s from info v h)))

  relink_frame :
      (s : State M) (from to : Place) (i : ℕ) (rest : List ℕ)
      → ((relink s from to i rest).irq ≡ s.irq)
        × ((relink s from to i rest).interrupts_db ≡ s.interrupts_db)
  unfolding relink
  relink_frame s none none i rest = (refl, refl)
  relink_frame s none (some q) i rest = (refl, refl)
  relink_frame s (some p) none i rest = (refl, refl)
  relink_frame s (some p) (some q) i rest = (refl, refl)

  -- Numbers, assignments and the database are left alone, and the interrupt is marked as moved.
  pub migrate_irq_frame :
      (s : State M) (from to : Place) (info j : ℕ)
      → IsNumbered s
      → 0 < count info (irqs_at s from)
      → ((migrate_irq s from to info).interrupts_db ≡ s.interrupts_db)
        × (((migrate_irq s from to info).irq info).moved ≡ true)
        × (((migrate_irq s from to info).irq j).irq ≡ (s.irq j).irq)
        × (((migrate_irq s from to info).irq j).assigned_obj ≡ (s.irq j).assigned_obj)
  migrate_irq_frame s from to info j v h =
      let rest = delete_custom (same_irq s (s.irq info).irq) (irqs_at s from) in
      let f = relink_frame s from to info rest in
      rw (migrate_irq-eq s from to info v h) (
        f.1,
        ground arith,
        ground (arith, ap (λ (g : ℕ → IrqInfo M). g j) f.0),
        ground (arith, ap (λ (g : ℕ → IrqInfo M). g j) f.0),
      )

  relink_ratio :
      (s : State M) (from to : Place) (i : ℕ) (rest : List ℕ)
      → (relink s from to i rest).migrate_ratio ≡ s.migrate_ratio
  unfolding relink
  relink_ratio s none none i rest = refl
  relink_ratio s none (some q) i rest = refl
  relink_ratio s (some p) none i rest = refl
  relink_ratio s (some p) (some q) i rest = refl

  -- No load changes, whether the interrupt is found or not.
  pub migrate_irq_loads :
      (s : State M) (from to : Place) (info j : ℕ)
      → (((migrate_irq s from to info).irq j).load ≡ (s.irq j).load)
        × ((migrate_irq s from to info).migrate_ratio ≡ s.migrate_ratio)
  unfolding migrate_irq
  migrate_irq_loads s from to info j =
      let number = (s.irq info).irq in
      let rest = delete_custom (same_irq s number) (irqs_at s from) in
      elim (Option-cases (find_irq s number (irqs_at s from))) [
        | inl e ↦ rw (e, migrate_irq) (refl, refl)
        | inr (tmp, e) ↦
            rw (e, migrate_irq)
              (
                ground (
                  arith,
                  ap (λ (g : ℕ → IrqInfo M). (g j).load) ((relink_frame s from to tmp rest).0),
                  ap (λ (g : ℕ → IrqInfo M). (g info).load) ((relink_frame s from to tmp rest).0),
                ),
                relink_ratio s from to tmp rest,
              )
      ]
