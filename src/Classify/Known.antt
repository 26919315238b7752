-- ===== src/Classify/Known.antt =====
-- classify.c: what add_new_irq makes of the database.
use irqbalance.Prelude.{
  ℕ, ◌<◌, ◌≤◌, ◌≡◌, refl, ==_refl, ℤ, true, false, Option, none, some, is_some, [], ◌∷◌, ◌++◌,
  arith, ◌⊎◌, inl, inr, count, count-append, Option-cases, if_cases, if_cases_eq,
}
use irqbalance.Types.{State, IrqInfo}
use irqbalance.Types.Cpumask.{Cpumask}
use irqbalance.Types.Invariant.{IsPlaced}
use irqbalance.Classify.Lookup.{find_irq, find_irq-some, get_irq_info, get_irq_info_iff}
use irqbalance.Classify.Bans.{banned_irq, alloc_irq, add_banned_irq}
use irqbalance.Classify.Policy.{UserIrqPolicy}
use irqbalance.Classify.Database.{
  Device, Sysfs, classify_device, new_irq, add_one_irq_to_db, add_new_irq, set_level_of,
}

module _ {M : Type 0} where
  -- The lists are in order, and no list knows a handle that is still to be given out.
  pub record IsSound (s : State M) : Type 0 where
    pub placed : IsPlaced s
    pub fresh_db : (i : ℕ) → s.next_irq ≤ i → count i s.interrupts_db ≡ 0
    pub fresh_banned : (i : ℕ) → s.next_irq ≤ i → count i s.banned_irqs ≡ 0

  unknown :
      (s : State M) (n : ℤ) (e : ℕ)
      → is_some (get_irq_info s n) ≡ false
      → (s.irq e).irq ≡ n
      → (count e s.interrupts_db ≡ 0) × (count e s.banned_irqs ≡ 0)
  unknown s n e h k = elim (get_irq_info_iff s n) [
    | inl (x, found, _, _) ↦ absurd (ground (arith, found))
    | inr (_, all) ↦ all e k
  ]

  in_list-known :
      (s : State M) (n : ℤ) (e : ℕ)
      → (s.irq e).irq ≡ n
      → (0 < count e s.interrupts_db) ⊎ (0 < count e s.banned_irqs)
      → is_some (get_irq_info s n) ≡ true
  in_list-known s n e k m = elim (get_irq_info_iff s n) [
    | inl (x, found, _, _) ↦ rw found refl
    | inr (_, all) ↦ absurd (ground (arith, all e k, m))
  ]

module _ {M : Type 0} ⦃mask : Cpumask M⦄ where
  -- A new entry of the database, of a number that was not known.
  abbrev entered : State M → IrqInfo M → State M
  entered s v =
      let t = alloc_irq s v in record t { interrupts_db = s.interrupts_db ++ s.next_irq ∷ [] }

  entered-IsSound :
      (s : State M) (v : IrqInfo M)
      → IsSound s
      → v.assigned_obj ≡ none
      → is_some (get_irq_info s v.irq) ≡ false
      → IsSound (entered s v)
  entered-IsSound s v w a h = record {
    placed = record {
      one_place = λ l i. ground (arith, w.placed.one_place l i, w.placed.known l i, w.fresh_db i);
      known = λ l i k.
          ground (arith, w.placed.known l i, count-append i s.interrupts_db (s.next_irq ∷ []), k);
      unique = λ i j k m e. ground (
        arith,
        count-append i s.interrupts_db (s.next_irq ∷ []),
        count-append j s.interrupts_db (s.next_irq ∷ []),
        w.fresh_db i,
        w.fresh_db j,
        w.placed.unique i j,
        unknown s v.irq i h,
        unknown s v.irq j h,
        k,
        m,
        e,
      );
      listed = λ i p k m.
          ground
            (arith, w.placed.listed i p, count-append i s.interrupts_db (s.next_irq ∷ []), a, k, m);
    };
    fresh_db =
        λ i k. ground (arith, w.fresh_db i, count-append i s.interrupts_db (s.next_irq ∷ []), k);
    fresh_banned = λ i k. ground (arith, w.fresh_banned i, k);
  }

  new_irq_frame :
      (s : State M) (sys : Sysfs M) (d : Option (Device M)) (hint : IrqInfo M) (pol : UserIrqPolicy)
      → ((new_irq s sys d hint pol).irq ≡ hint.irq)
        × ((new_irq s sys d hint pol).assigned_obj ≡ none)
  unfolding new_irq classify_device set_level_of
  new_irq_frame s sys none hint pol = (refl, refl)
  new_irq_frame s sys (some d) hint pol = ground arith

  add_one_irq_to_db-IsSound :
      (s : State M) (sys : Sysfs M) (d : Option (Device M)) (hint : IrqInfo M) (pol : UserIrqPolicy)
      → IsSound s
      → is_some (get_irq_info s hint.irq) ≡ false
      → IsSound (add_one_irq_to_db s sys d hint pol)
        × (is_some (get_irq_info (add_one_irq_to_db s sys d hint pol) hint.irq) ≡ true)
  unfolding add_one_irq_to_db
  add_one_irq_to_db-IsSound s sys d hint pol w h =
      let v = new_irq s sys d hint pol in
      let f = new_irq_frame s sys d hint pol in
      (
        entered-IsSound s v w f.1 (rw f.0 h),
        in_list-known (entered s v) hint.irq s.next_irq (ground (arith, f.0, ==_refl s.next_irq)) (
            inl (
              ground (
                arith,
                count-append s.next_irq s.interrupts_db (s.next_irq ∷ []),
                ==_refl s.next_irq,
              ))),
      )

  abbrev banned : State M → ℤ → State M
  banned s n =
      let t = alloc_irq s (banned_irq n) in
      record t { banned_irqs = s.banned_irqs ++ s.next_irq ∷ [] }

  banned-IsSound : (s : State M) (n : ℤ) → IsSound s → IsSound (banned s n)
  banned-IsSound s n w = record {
    placed = record {
      one_place = λ l i. ground (arith, w.placed.one_place l i, w.placed.known l i, w.fresh_db i);
      known = λ l i k. ground (arith, w.placed.known l i, k);
      unique =
          λ i j k m e. ground (arith, w.fresh_db i, w.fresh_db j, w.placed.unique i j, k, m, e);
      listed = λ i p k m. ground (arith, w.placed.listed i p, w.fresh_db i, k, m);
    };
    fresh_db = λ i k. ground (arith, w.fresh_db i, k);
    fresh_banned =
        λ i k. ground (arith, w.fresh_banned i, count-append i s.banned_irqs (s.next_irq ∷ []), k);
  }

  add_banned_irq-IsSound :
      (s : State M) (n : ℤ)
      → IsSound s
      → IsSound (add_banned_irq n s) × (is_some (get_irq_info (add_banned_irq n s) n) ≡ true)
  unfolding add_banned_irq
  add_banned_irq-IsSound s n w =
      let P = λ (t : State M). IsSound t × (is_some (get_irq_info t n) ≡ true) in
      let there : is_some (find_irq s n s.banned_irqs) ≡ true → P s = λ e.
        elim (Option-cases (find_irq s n s.banned_irqs)) [
          | inl absent ↦ absurd (ground (arith, absent, e))
          | inr (x, found) ↦
              let f = find_irq-some s n s.banned_irqs found in
              (w, in_list-known s n x f.0 (inr f.1))
        ] in
      if_cases_eq P (is_some (find_irq s n s.banned_irqs)) there (λ e. (
        banned-IsSound s n w,
        in_list-known (banned s n) n s.next_irq (ground (arith, ==_refl s.next_irq)) (
            inr (
              ground (
                arith,
                count-append s.next_irq s.banned_irqs (s.next_irq ∷ []),
                ==_refl s.next_irq,
              ))),
      ))

  -- From a sound state: after add_new_irq the number is known, in the database or among the
  -- banned, and a number that was known before has changed nothing. Numbers stay unique and lists
  -- in order, whatever the devices and the scripts say.
  pub add_new_irq-IsSound :
      (sys : Sysfs M) (path : Option (Device M)) (hint : IrqInfo M) (s : State M)
      → IsSound s
      → IsSound (add_new_irq sys path hint s)
        × (is_some (get_irq_info (add_new_irq sys path hint s) hint.irq) ≡ true)
        × (is_some (get_irq_info s hint.irq) ≡ true → add_new_irq sys path hint s ≡ s)
  unfolding add_new_irq
  add_new_irq-IsSound sys path hint s w =
      let P = λ (t : State M).
        IsSound t
        × (is_some (get_irq_info t hint.irq) ≡ true)
        × (is_some (get_irq_info s hint.irq) ≡ true → t ≡ s) in
      if_cases_eq P (is_some (get_irq_info s hint.irq)) (λ e. (w, e, λ k. refl))
        (λ e.
          if_cases P _ (let b = add_banned_irq-IsSound s hint.irq w in (b.0, b.1, λ k. cc))
            (let b = add_one_irq_to_db-IsSound s sys path hint _ w e in (b.0, b.1, λ k. cc)))
