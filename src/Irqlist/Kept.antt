-- ===== src/Irqlist/Kept.antt =====
-- What the operations on interrupts keep: no interrupt is lost or doubled, and each is listed where
-- it says it is.
use irqbalance.Prelude.{ℕ, ◌<◌, ◌≤◌, Option, some, List, [], ◌∷◌, arith, for_each, count, ==_refl}
use irqbalance.Types.{State}
use irqbalance.Types.Places.{irqs_at}
use irqbalance.Types.Invariant.{
  IsPlaced-IsNumbered, IsPlaced, IsListed, SameListing, SameListing-IsPlaced, SameListing-IsListed,
}
use irqbalance.Irqlist.Migrate.{
  migrate_irq_obj, source, count-migrate_irq_obj, migrate_irq_obj-IsPlaced,
  migrate_irq_obj-IsListed,
}

module _ {M : Type 0} where
  -- After the step every interrupt is where it says, and what was listed still is.
  pub record Kept (s t : State M) : Type 0 where
    pub placed : IsPlaced t
    pub listed : (j : ℕ) → IsListed s j → IsListed t j

  pub Kept-refl : (s : State M) → IsPlaced s → Kept s s
  Kept-refl s v = record { placed = v; listed = λ j h. h }

  pub Kept-trans : {s t u : State M} → Kept s t → Kept t u → Kept s u
  Kept-trans h k = record { placed = k.placed; listed = λ j m. k.listed j (h.listed j m) }

  pub SameListing-Kept : {s t : State M} → SameListing s t → IsPlaced s → Kept s t
  SameListing-Kept e v = record {
    placed = SameListing-IsPlaced e v;
    listed = SameListing-IsListed e;
  }

  pub migrate_irq_obj-Kept :
      (s : State M) (from to : Option ℕ) (info : ℕ)
      → IsPlaced s
      → 0 < count info (irqs_at s (source s from info))
      → Kept s (migrate_irq_obj s from to info)
  migrate_irq_obj-Kept s from to info v h = record {
    placed = migrate_irq_obj-IsPlaced s from to info v h;
    listed = λ j. migrate_irq_obj-IsListed s from to info j v h;
  }

  -- Callbacks over interrupts, and over objects.
  pub for_each-Kept :
      (cb : ℕ → State M → State M)
      → ((x : ℕ) (s : State M) → IsPlaced s → IsListed s x → Kept s (cb x s))
      → (xs : List ℕ) (s : State M) → IsPlaced s
      → ((x : ℕ) → 0 < count x xs → IsListed s x)
      → Kept s (for_each cb xs s)
  for_each-Kept cb keep [] s v h = Kept-refl s v
  for_each-Kept cb keep (x ∷ xs) s v h =
      let k = keep x s v (h x (ground (arith, ==_refl x))) in
      Kept-trans k
        (for_each-Kept cb keep xs (cb x s) k.placed (λ y m. k.listed y (h y (omega arith))))

  pub for_each_obj-Kept :
      (cb : ℕ → State M → State M)
      → ((d : ℕ) (s : State M) → IsPlaced s → Kept s (cb d s))
      → (ds : List ℕ) (s : State M) → IsPlaced s
      → Kept s (for_each cb ds s)
  for_each_obj-Kept cb keep [] s v = Kept-refl s v
  for_each_obj-Kept cb keep (d ∷ ds) s v =
      let k = keep d s v in Kept-trans k (for_each_obj-Kept cb keep ds (cb d s) k.placed)

  -- What an object lists includes the interrupts `is`, with as many occurrences.
  abbrev pub Includes : State M → ℕ → List ℕ → Type 0
  Includes s d is = (i : ℕ) → count i is ≤ count i (irqs_at s (some d))

  pub Includes-migrate :
      (s : State M) (d info : ℕ) (to : Option ℕ) (is : List ℕ)
      → IsPlaced s
      → Includes s d (info ∷ is)
      → Includes (migrate_irq_obj s (some d) to info) d is
  Includes-migrate s d info to is v h i = ground (
    arith,
    h i,
    h info,
    ==_refl info,
    v.one_place (some d) info,
    count-migrate_irq_obj s (some d) to info (some d) i (IsPlaced-IsNumbered v),
  )
