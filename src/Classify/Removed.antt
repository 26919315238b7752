-- ===== src/Classify/Removed.antt =====
-- classify.c: what is left when an interrupt is taken out of the database.
use irqbalance.Prelude.{
  ℕ, ◌-◌, ◌<◌, ◌≤◌, ◌≡◌, ◌≢◌, refl, ◌==◌, ==_refl, Bool, true, false, Option, none, some, List, [],
  ◌∷◌, arith, inl, inr, delete_custom, is_some, count, bit, ap, Option-cases, Bool-cases,
  if◌then◌else◌, if_cases_eq,
}
use irqbalance.Types.{State, IrqInfo, set_obj, set_irq, int_max}
use irqbalance.Types.Places.{irqs_at}
use irqbalance.Types.Invariant.{IsPlaced, SameListing-IsPlaced}
use irqbalance.Classify.Lookup.{same_irq, same_irq-eq, same_irq_refl, find_irq, find_irq-none}
use irqbalance.Classify.Removal.{unlink, unlink_at, remove_irq, remove_no_existing_irq}

count-delete_only :
    (same : ℕ → Bool) (x : ℕ) (l : List ℕ) (j : ℕ)
    → ((e : ℕ) → 0 < count e l → same e ≡ (e == x))
    → count j (delete_custom same l) ≡ (if x == j then count j l - 1 else count j l)
count-delete_only same x [] j h = ground arith
count-delete_only same x (e ∷ l) j h = ground (
  arith,
  h e (ground (arith, ==_refl e)),
  count-delete_only same x l j (λ y k. h y (omega arith)),
)

bit_le : (b : Bool) → bit b ≤ 1
bit_le b = ground arith

module _ {M : Type 0} where
  same_irq-only :
      (s : State M) (info e : ℕ)
      → IsPlaced s
      → 0 < count info s.interrupts_db
      → 0 < count e s.interrupts_db
      → same_irq s (s.irq info).irq e ≡ (e == info)
  same_irq-only s info e v k m = elim (Bool-cases (same_irq s (s.irq info).irq e)) [
    | inl h ↦
        let same : e ≡ info = v.unique e info m k (same_irq-eq s (s.irq info).irq e h) in
        ground (arith, h, same)
    | inr h ↦ elim (Bool-cases (e == info)) [
      | inl f ↦ let same : e ≡ info = ground arith in let t = same_irq_refl s info in absurd (cc)
      | inr f ↦ ground (arith, h, f)
    ]
  ]

  -- What is in no list is in none after it; every other interrupt keeps its places.
  abbrev pub Removed : State M → ℕ → State M → Type 0
  Removed s info r =
      ((j : ℕ)
        → count j r.interrupts_db
          ≡ (if info == j then count j s.interrupts_db - 1 else count j s.interrupts_db))
      × ((l : Option ℕ) (j : ℕ)
          → count j (irqs_at r l)
            ≡ (if info == j then count j (irqs_at s l) - 1 else count j (irqs_at s l)))
      × (r.irq ≡ s.irq)

  unlink-count :
      (s : State M) (info : ℕ) (l : Option ℕ) (j : ℕ)
      → IsPlaced s
      → 0 < count info s.interrupts_db
      → count j (unlink s info (irqs_at s l))
        ≡ (if info == j then count j (irqs_at s l) - 1 else count j (irqs_at s l))
  unlink-count s info l j v k =
      count-delete_only _ info (irqs_at s l) j (λ e m. same_irq-only s info e v k (v.known l e m))

  -- The state without the link in the database, the ban list and the list of the unplaced.
  abbrev unlisted : State M → ℕ → State M
  unlisted s info = record s {
    interrupts_db = unlink s info s.interrupts_db;
    banned_irqs = unlink s info s.banned_irqs;
    rebalance_irq_list = unlink s info s.rebalance_irq_list;
  }

  unlink-unlisted :
      (s : State M) (info : ℕ) (l : List ℕ) → unlink (unlisted s info) info l ≡ unlink s info l
  unfolding same_irq
  unlink-unlisted s info l = refl

  db-count :
      (s : State M) (info j : ℕ)
      → IsPlaced s
      → 0 < count info s.interrupts_db
      → count j (unlink s info s.interrupts_db)
        ≡ (if info == j then count j s.interrupts_db - 1 else count j s.interrupts_db)
  db-count s info j v k =
      count-delete_only _ info s.interrupts_db j (λ e m. same_irq-only s info e v k m)

  unlink_at-Removed :
      (a : Option ℕ) (info : ℕ) (s : State M)
      → IsPlaced s
      → 0 < count info s.interrupts_db
      → (s.irq info).assigned_obj ≡ a
      → Removed s info (unlink_at (unlisted s info) a info)
  unfolding unlink_at
  unlink_at-Removed none info s v k e = (λ j. db-count s info j v k, lists, refl)
    where
      lists :
          (l : Option ℕ) (j : ℕ)
          → count j (irqs_at (unlisted s info) l)
            ≡ (if info == j then count j (irqs_at s l) - 1 else count j (irqs_at s l))
      lists none j = unlink-count s info none j v k
      lists (some q) j = ground (arith, v.one_place (some q) info, e)
  unlink_at-Removed (some p) info s v k e =
      if_cases_eq (Removed s info)
        (is_some (find_irq (unlisted s info) (s.irq info).irq (s.obj p).interrupts))
        (λ _. (λ j. db-count s info j v k, lists, refl)) (λ h. absurd (lost h))
    where
      lists :
          (l : Option ℕ) (j : ℕ)
          → count j (
              irqs_at
                (set_obj (unlisted s info) p (record (s.obj p) {
                  interrupts = unlink (unlisted s info) info (s.obj p).interrupts;
                  slots_left = int_max;
                }))
                l)
            ≡ (if info == j then count j (irqs_at s l) - 1 else count j (irqs_at s l))
      lists none j = unlink-count s info none j v k
      lists (some q) j = elim (Bool-cases (p == q)) [
        | inl hit ↦
            let same : p ≡ q = ground arith in
            ground (
              arith,
              hit,
              same,
              unlink-unlisted s info (s.obj p).interrupts,
              unlink-count s info (some p) j v k,
            )
        | inr miss ↦ ground (arith, miss, v.one_place (some q) info, e)
      ]

      lost : is_some (find_irq (unlisted s info) (s.irq info).irq (s.obj p).interrupts) ≡ false → ⊥
      lost h =
          elim (Option-cases (find_irq (unlisted s info) (s.irq info).irq (s.obj p).interrupts)) [
            | inl absent ↦
                let gone =
                  find_irq-none (unlisted s info) (s.irq info).irq (s.obj p).interrupts info absent
                    refl in
                omega (arith, v.listed info p k e, gone)
            | inr (x, found) ↦ cc
          ]

  remove_irq-Removed :
      (info : ℕ) (s : State M)
      → IsPlaced s
      → 0 < count info s.interrupts_db
      → Removed s info (remove_irq info s)
  unfolding remove_irq
  remove_irq-Removed info s v k = unlink_at-Removed (s.irq info).assigned_obj info s v k refl

  unmarked-IsPlaced :
      (s : State M) (info : ℕ)
      → IsPlaced s
      → IsPlaced (set_irq s info (record (s.irq info) { existing = false }))
  unmarked-IsPlaced s info v =
      SameListing-IsPlaced {s = s}
        (record {
          lists = λ l i. ground arith;
          assigned = λ i. ground arith;
          numbers = λ i. ground arith;
          db = refl;
        })
        v

  Removed-IsPlaced :
      (s t : State M) (info : ℕ)
      → IsPlaced s
      → count info s.interrupts_db ≡ 1
      → Removed s info t
      → IsPlaced t
  Removed-IsPlaced s t info v once (db, lists, same) =
      let assigned = λ (i : ℕ). ap (λ (g : ℕ → IrqInfo M). (g i).assigned_obj) same in
      let number = λ (i : ℕ). ap (λ (g : ℕ → IrqInfo M). (g i).irq) same in
      record {
        one_place = λ l i. ground (arith, v.one_place l i, lists l i, assigned i);
        known = λ l i h.
            ground (arith, v.known l i, v.one_place l i, lists l i, db i, once, bit_le _, h);
        unique = λ i j h k e. ground (arith, v.unique i j, db i, db j, number i, number j, h, k, e);
        listed =
            λ i p h e. ground (arith, v.listed i p, db i, lists (some p) i, assigned i, once, h, e);
      }

  -- When every listed interrupt is where it says, taking out an interrupt that the database holds
  -- once and /proc/interrupts does not show leaves it in no list and not in the database; all
  -- other interrupts stay where they are, and each is where it says. One that is shown only loses
  -- its mark.
  pub remove_no_existing_irq_lem :
      (info : ℕ) (s : State M)
      → IsPlaced s
      → count info s.interrupts_db ≡ 1
      → let t = remove_no_existing_irq info s in
        IsPlaced t
        × ((s.irq info).existing ≡ false
            → (count info t.interrupts_db ≡ 0) × ((l : Option ℕ) → count info (irqs_at t l) ≡ 0))
        × ((s.irq info).existing ≡ true
            → (count info t.interrupts_db ≡ 1) × ((t.irq info).existing ≡ false))
        × ((j : ℕ)
            → info ≢ j
            → (count j t.interrupts_db ≡ count j s.interrupts_db)
              × ((l : Option ℕ) → count j (irqs_at t l) ≡ count j (irqs_at s l)))
  unfolding remove_no_existing_irq
  remove_no_existing_irq_lem info s v once =
      let P = λ (t : State M).
        IsPlaced t
        × ((s.irq info).existing ≡ false
            → (count info t.interrupts_db ≡ 0) × ((l : Option ℕ) → count info (irqs_at t l) ≡ 0))
        × ((s.irq info).existing ≡ true
            → (count info t.interrupts_db ≡ 1) × ((t.irq info).existing ≡ false))
        × ((j : ℕ)
            → info ≢ j
            → (count j t.interrupts_db ≡ count j s.interrupts_db)
              × ((l : Option ℕ) → count j (irqs_at t l) ≡ count j (irqs_at s l))) in
      let r = remove_irq-Removed info s v (omega (arith, once)) in
      if_cases_eq P (s.irq info).existing
        (λ shown. (
          unmarked-IsPlaced s info v,
          λ h. cc,
          λ h. (once, ground (arith, ==_refl info)),
          λ j n. (refl, λ l. ground arith),
        ))
        (λ gone. (
          Removed-IsPlaced s (remove_irq info s) info v once r,
          λ h. (
            ground (arith, r.0 info, once, ==_refl info),
            λ l. ground (arith, r.1 l info, v.one_place l info, ==_refl info, bit_le _),
          ),
          λ h. cc,
          λ j n. (ground (arith, r.0 j, n), λ l. ground (arith, r.1 l j, n)),
        ))
