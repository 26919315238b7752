-- ===== src/Types/Invariant.antt =====
-- What the placement of interrupts keeps: each interrupt is listed where it says that it is.
use irqbalance.Prelude.{ℕ, ◌≤◌, ◌<◌, ◌≡◌, refl, none, some, List, bit, count, arith, ap, ◌∙◌}
use irqbalance.Types.{State, IrqInfo}
use irqbalance.Types.Places.{Place, place_eq, place_eq-eq, irqs_at, set_irqs_at, irqs_at-set}

module _ {M : Type 0} where
  -- An interrupt is listed at most once, and only at the place that its `assigned_obj` names.
  -- What is listed is in the database, and there a number names one interrupt. What has an
  -- `assigned_obj` is listed there.
  pub record IsPlaced (s : State M) : Type 0 where
    pub one_place :
        (l : Place) (i : ℕ) → count i (irqs_at s l) ≤ bit (place_eq (s.irq i).assigned_obj l)
    pub known : (l : Place) (i : ℕ) → 0 < count i (irqs_at s l) → 0 < count i s.interrupts_db
    pub unique :
        (i j : ℕ)
        → 0 < count i s.interrupts_db
        → 0 < count j s.interrupts_db
        → (s.irq i).irq ≡ (s.irq j).irq
        → i ≡ j
    pub listed :
        (i p : ℕ)
        → 0 < count i s.interrupts_db
        → (s.irq i).assigned_obj ≡ some p
        → 0 < count i (irqs_at s (some p))

  -- The part of it that names interrupts by number, and does not look at `assigned_obj`.
  pub record IsNumbered (s : State M) : Type 0 where
    pub known : (l : Place) (i : ℕ) → 0 < count i (irqs_at s l) → 0 < count i s.interrupts_db
    pub unique :
        (i j : ℕ)
        → 0 < count i s.interrupts_db
        → 0 < count j s.interrupts_db
        → (s.irq i).irq ≡ (s.irq j).irq
        → i ≡ j

  pub IsPlaced-IsNumbered : {s : State M} → IsPlaced s → IsNumbered s
  IsPlaced-IsNumbered v = record { known = v.known; unique = v.unique }

  -- Two states that list every interrupt alike.
  pub record SameListing (s t : State M) : Type 0 where
    pub lists : (l : Place) (i : ℕ) → count i (irqs_at t l) ≡ count i (irqs_at s l)
    pub assigned : (i : ℕ) → (t.irq i).assigned_obj ≡ (s.irq i).assigned_obj
    pub numbers : (i : ℕ) → (t.irq i).irq ≡ (s.irq i).irq
    pub db : t.interrupts_db ≡ s.interrupts_db

  pub SameListing-refl : (s : State M) → SameListing s s
  SameListing-refl s = record {
    lists = λ l i. refl;
    assigned = λ i. refl;
    numbers = λ i. refl;
    db = refl;
  }

  pub SameListing-IsPlaced : {s t : State M} → SameListing s t → IsPlaced s → IsPlaced t
  SameListing-IsPlaced {s} {t} e v = record {
    one_place = λ l i. ground (arith, v.one_place l i, e.lists l i, e.assigned i);
    known = λ l i h. ground (arith, v.known l i, e.lists l i, e.db);
    unique = λ i j h k n. ground (arith, v.unique i j, e.numbers i, e.numbers j, e.db);
    listed = λ i p h a. ground (arith, v.listed i p, e.lists (some p) i, e.assigned i, e.db);
  }

  set_irqs_at_frame :
      (s : State M) (l : Place) (xs : List ℕ)
      → ((set_irqs_at s l xs).irq ≡ s.irq) × ((set_irqs_at s l xs).interrupts_db ≡ s.interrupts_db)
  set_irqs_at_frame s none xs = (refl, refl)
  set_irqs_at_frame s (some p) xs = (refl, refl)

  -- A list that is only rearranged.
  pub set_irqs_at-SameListing :
      (s : State M) (l : Place) (xs : List ℕ)
      → ((i : ℕ) → count i xs ≡ count i (irqs_at s l))
      → SameListing s (set_irqs_at s l xs)
  set_irqs_at-SameListing s l xs h =
      let f = set_irqs_at_frame s l xs in
      record {
        lists = λ m i. ground (arith, irqs_at-set s l m xs, place_eq-eq l m, h i);
        assigned = λ i. ap (λ (g : ℕ → IrqInfo M). (g i).assigned_obj) f.0;
        numbers = λ i. ap (λ (g : ℕ → IrqInfo M). (g i).irq) f.0;
        db = f.1;
      }

  pub SameListing-trans : {s t u : State M} → SameListing s t → SameListing t u → SameListing s u
  SameListing-trans {s} {t} {u} h k = record {
    lists = λ l i. k.lists l i ∙ h.lists l i;
    assigned = λ i. k.assigned i ∙ h.assigned i;
    numbers = λ i. k.numbers i ∙ h.numbers i;
    db = k.db ∙ h.db;
  }

  -- The interrupt stands in the list that it is assigned to.
  abbrev pub IsListed : State M → ℕ → Type 0
  IsListed s i = 0 < count i (irqs_at s (s.irq i).assigned_obj)

  pub SameListing-IsListed :
      {s t : State M} → SameListing s t → (i : ℕ) → IsListed s i → IsListed t i
  SameListing-IsListed {s} {t} e i h =
      rw (e.assigned i) (ground (arith, e.lists (s.irq i).assigned_obj i))
