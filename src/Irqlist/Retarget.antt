-- ===== src/Irqlist/Retarget.antt =====
-- An interrupt whose `assigned_obj` is written before it is moved, as the fallback of activate.c
-- does: the migration puts it right again.
use irqbalance.Prelude.{ℕ, ◌<◌, ◌≡◌, Option, some, arith, count, ==_refl}
use irqbalance.Types.{State, set_irq}
use irqbalance.Types.Places.{place_eq_refl, place_eq-eq}
use irqbalance.Types.Invariant.{IsPlaced, IsNumbered}
use irqbalance.Irqlist.Migrate.{migrate_irq_obj, count-migrate_irq_obj, migrate_irq_obj_frame}
use irqbalance.Irqlist.Kept.{Kept}

module _ {M : Type 0} where
  -- `info->assigned_obj = to;`
  abbrev pub retarget : State M → ℕ → Option ℕ → State M
  retarget s info to = set_irq s info (record (s.irq info) { assigned_obj = to })

  retarget-IsNumbered :
      (s : State M) (info : ℕ) (to : Option ℕ) → IsPlaced s → IsNumbered (retarget s info to)
  retarget-IsNumbered s info to v = record {
    known = λ l i h. v.known l i (ground arith);
    unique = λ i j h k e. v.unique i j h k (ground (arith, e));
  }

  -- Every interrupt is again where it says.
  pub migrate-retarget-Kept :
      (s : State M) (p q info : ℕ)
      → IsPlaced s
      → 0 < count info s.interrupts_db
      → (s.irq info).assigned_obj ≡ some p
      → Kept s (migrate_irq_obj (retarget s info (some q)) (some p) (some q) info)
  migrate-retarget-Kept s p q info v d e =
      let t = retarget s info (some q) in
      let n = retarget-IsNumbered s info (some q) v in
      let h = v.listed info p d e in
      record {
        placed = record {
          one_place = λ l i. ground (
            arith,
            v.one_place l i,
            e,
            count-migrate_irq_obj t (some p) (some q) info l i n h,
            migrate_irq_obj_frame t (some p) (some q) info i n h,
          );
          known = λ l i k. ground (
            arith,
            v.known l i,
            d,
            count-migrate_irq_obj t (some p) (some q) info l i n h,
            migrate_irq_obj_frame t (some p) (some q) info i n h,
          );
          unique = λ i j k m o. ground (
            arith,
            v.unique i j,
            migrate_irq_obj_frame t (some p) (some q) info i n h,
            migrate_irq_obj_frame t (some p) (some q) info j n h,
          );
          listed = λ i x k m. ground (
            arith,
            v.listed i x,
            e,
            place_eq_refl (some x),
            place_eq-eq (some p) (some x),
            count-migrate_irq_obj t (some p) (some q) info (some x) i n h,
            migrate_irq_obj_frame t (some p) (some q) info i n h,
          );
        };
        listed = λ j k.
            let t' = migrate_irq_obj t (some p) (some q) info in
            let a = (t'.irq j).assigned_obj in
            ground (
              arith,
              e,
              v.one_place (some p) info,
              count-migrate_irq_obj t (some p) (some q) info a j n h,
              migrate_irq_obj_frame t (some p) (some q) info j n h,
              place_eq_refl (some q),
              place_eq-eq (some p) a,
            );
      }

  pub migrate-retarget_db :
      (s : State M) (p q info : ℕ)
      → IsPlaced s
      → 0 < count info s.interrupts_db
      → (s.irq info).assigned_obj ≡ some p
      → (migrate_irq_obj (retarget s info (some q)) (some p) (some q) info).interrupts_db
        ≡ s.interrupts_db
  migrate-retarget_db s p q info v d e =
      (migrate_irq_obj_frame (retarget s info (some q)) (some p) (some q) info info
        (retarget-IsNumbered s info (some q) v) (v.listed info p d e)).0

  pub migrate-retarget_assigned :
      (s : State M) (p q info : ℕ)
      → IsPlaced s
      → 0 < count info s.interrupts_db
      → (s.irq info).assigned_obj ≡ some p
      → ((migrate_irq_obj (retarget s info (some q)) (some p) (some q) info).irq info).assigned_obj
        ≡ some q
  migrate-retarget_assigned s p q info v d e = ground (
    arith,
    ==_refl info,
    migrate_irq_obj_frame (retarget s info (some q)) (some p) (some q) info info
        (retarget-IsNumbered s info (some q) v) (v.listed info p d e),
  )
