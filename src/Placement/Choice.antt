-- ===== src/Placement/Choice.antt =====
-- placement.c: what the choice of find_best_object promises, without its loop.
use irqbalance.Prelude.{
  ℕ, ◌<◌, ◌≡◌, refl, ◌==◌, Bool, true, false, none, some, List, [], ◌∷◌, arith, ◌⊎◌, inl, inr,
  for_each, count, Bool-cases, Option-cases, if◌then◌else◌, ltb, ◌&&◌, ◌||◌,
}
use irqbalance.Types.{State}
use irqbalance.Types.Cpumask.{Cpumask}
use irqbalance.Types.Word.{u64_max}
use irqbalance.Placement.Best.{
  ObjPlacement, no_placement, best_adjusted_cost, tie_break, skip_object, find_best_object,
  best_among,
}
use irqbalance.Placement.Hosts.{
  adjusted_cost, AsGood, AsGood-refl, AsGood-trans, CanHost, skip_object-CanHost,
  CanHost-skip_object,
}

module _ {M : Type 0} ⦃mask : Cpumask M⦄ where
  -- What is chosen so far is an object that can host, with its load.
  record IsSound (s : State M) (p : ObjPlacement) : Type 0 where
    hosts : (b : ℕ) → p.best ≡ some b → CanHost s b × (p.best_cost ≡ (s.obj b).load)
    empty : p.best ≡ none → p.best_cost ≡ u64_max

  abbrev Covers : State M → ObjPlacement → ℕ → Type 0
  Covers s p d = (b : ℕ) × (p.best ≡ some b) × AsGood s b d

  abbrev chosen : State M → ℕ → ObjPlacement
  chosen s d = record { best = some d; best_cost = (s.obj d).load }

  step_skipped :
      (s : State M) (d : ℕ) (p : ObjPlacement)
      → skip_object s (s.obj d) ≡ true
      → find_best_object s d p ≡ p
  unfolding find_best_object
  step_skipped s d p h = ground arith

  -- One step keeps the choice or takes the new object.
  step_cases :
      (s : State M) (d : ℕ) (p : ObjPlacement)
      → (find_best_object s d p ≡ p)
        ⊎ (find_best_object s d p ≡ chosen s d) × (skip_object s (s.obj d) ≡ false)
  unfolding find_best_object
  step_cases s d p = ground arith

  step-IsSound :
      (s : State M) (d : ℕ) (p : ObjPlacement) → IsSound s p → IsSound s (find_best_object s d p)
  step-IsSound s d p v = elim (step_cases s d p) [
    | inl e ↦ rw e v
    | inr (e, kept) ↦ rw e (record {
      hosts = λ b f. let same : d ≡ b = cc in rw (← same) (skip_object-CanHost s d kept, refl);
      empty = λ f. cc;
    })
  ]

  abbrev beats : State M → ℕ → ObjPlacement → Bool
  beats s d p =
      ltb (adjusted_cost s d) (best_adjusted_cost s p)
      || (adjusted_cost s d == best_adjusted_cost s p && tie_break s d p)

  step_kept :
      (s : State M) (d : ℕ) (p : ObjPlacement)
      → skip_object s (s.obj d) ≡ false
      → find_best_object s d p ≡ (if beats s d p then chosen s d else p)
  unfolding find_best_object
  step_kept s d p h = ground arith

  beats-none : (s : State M) (d : ℕ) (p : ObjPlacement) → p.best ≡ none → beats s d p ≡ true
  unfolding best_adjusted_cost tie_break
  beats-none s d p e = ground arith

  beats-AsGood :
      (s : State M) (d b : ℕ) (p : ObjPlacement)
      → p.best ≡ some b
      → p.best_cost ≡ (s.obj b).load
      → beats s d p ≡ true
      → AsGood s d b
  unfolding best_adjusted_cost tie_break
  beats-AsGood s d b p e c h = record {
    cost = ground arith;
    slots = λ f. ground arith;
    spread = λ f g. ground arith;
  }

  not-beats-AsGood :
      (s : State M) (d b : ℕ) (p : ObjPlacement)
      → p.best ≡ some b
      → p.best_cost ≡ (s.obj b).load
      → beats s d p ≡ false
      → AsGood s b d
  unfolding best_adjusted_cost tie_break
  not-beats-AsGood s d b p e c h = record {
    cost = ground arith;
    slots = λ f. ground arith;
    spread = λ f g. ground arith;
  }

  step-Covers_new :
      (s : State M) (d : ℕ) (p : ObjPlacement)
      → IsSound s p
      → CanHost s d
      → Covers s (find_best_object s d p) d
  step-Covers_new s d p v h =
      rw (step_kept s d p (CanHost-skip_object s d h)) (elim (Bool-cases (beats s d p)) [
        | inl won ↦ rw won (d, refl, AsGood-refl s d)
        | inr lost ↦ rw lost (elim (Option-cases p.best) [
          | inl e ↦ cc (beats-none s d p e)
          | inr (b, e) ↦ (b, e, not-beats-AsGood s d b p e ((v.hosts b e).1) lost)
        ])
      ])

  step-Covers_old :
      (s : State M) (d x : ℕ) (p : ObjPlacement)
      → IsSound s p
      → Covers s p x
      → Covers s (find_best_object s d p) x
  step-Covers_old s d x p v (b, e, g) = elim (Bool-cases (skip_object s (s.obj d))) [
    | inl skipped ↦ rw (step_skipped s d p skipped) (b, e, g)
    | inr kept ↦ rw (step_kept s d p kept) (elim (Bool-cases (beats s d p)) [
      | inl won ↦
          rw won (d, refl, AsGood-trans s d b x (beats-AsGood s d b p e ((v.hosts b e).1) won) g)
      | inr lost ↦ rw lost (b, e, g)
    ])
  ]

  loop_Covers_old :
      (s : State M) (ds : List ℕ) (x : ℕ) (p : ObjPlacement)
      → IsSound s p
      → Covers s p x
      → Covers s (for_each (find_best_object s) ds p) x
  loop_Covers_old s [] x p v c = c
  loop_Covers_old s (d ∷ ds) x p v c =
      loop_Covers_old s ds x (find_best_object s d p) (step-IsSound s d p v)
        (step-Covers_old s d x p v c)

  loop_Covers_new :
      (s : State M) (ds : List ℕ) (x : ℕ) (p : ObjPlacement)
      → IsSound s p
      → 0 < count x ds
      → CanHost s x
      → Covers s (for_each (find_best_object s) ds p) x
  loop_Covers_new s [] x p v c h = absurd (omega arith)
  loop_Covers_new s (d ∷ ds) x p v c h = elim (Bool-cases (d == x)) [
    | inl hit ↦
        let same : d ≡ x = ground arith in
        loop_Covers_old s ds x (find_best_object s d p) (step-IsSound s d p v)
          (rw (← same) (step-Covers_new s d p v (rw same h)))
    | inr miss ↦
        loop_Covers_new s ds x (find_best_object s d p) (step-IsSound s d p v) (ground arith) h
  ]

  loop-IsSound :
      (s : State M) (ds : List ℕ) (p : ObjPlacement)
      → IsSound s p
      → IsSound s (for_each (find_best_object s) ds p)
  loop-IsSound s [] p v = v
  loop-IsSound s (d ∷ ds) p v = loop-IsSound s ds (find_best_object s d p) (step-IsSound s d p v)

  -- The choice is one of the list.
  loop_from :
      (s : State M) (ds : List ℕ) (p : ObjPlacement) (b : ℕ)
      → (for_each (find_best_object s) ds p).best ≡ some b
      → (p.best ≡ some b) ⊎ (0 < count b ds)
  loop_from s [] p b e = inl e
  loop_from s (d ∷ ds) p b e = elim (loop_from s ds (find_best_object s d p) b e) [
    | inl f ↦ elim (step_cases s d p) [
      | inl k ↦ inl (rw k at f)
      | inr (k, _) ↦ let same : d ≡ b = cc in inr (ground arith)
    ]
    | inr g ↦ inr (omega arith)
  ]

  no_placement-IsSound : (s : State M) → IsSound s no_placement
  no_placement-IsSound s = record { hosts = λ b e. cc; empty = λ e. refl }

  -- The object that is chosen is one of the candidates, it can host, and it is as good as every
  -- candidate that can host: it costs less, or as much with more slots left, or as much with as
  -- many slots and no more interrupts.
  pub best_among-some :
      (s : State M) (ds : List ℕ) (b : ℕ)
      → (best_among s ds).best ≡ some b
      → (0 < count b ds) × CanHost s b × ((d : ℕ) → 0 < count d ds → CanHost s d → AsGood s b d)
  unfolding best_among
  best_among-some s ds b e =
      let v = no_placement-IsSound s in
      (
        elim (loop_from s ds no_placement b e) [ inl f ↦ cc | inr g ↦ g ],
        (((loop-IsSound s ds no_placement v).hosts b e).0),
        λ d k h.
            let (x, f, g) = loop_Covers_new s ds d no_placement v k h in
            let same : x ≡ b = cc in rw (← same) g,
      )

  -- Nothing is chosen only if no candidate can host.
  pub best_among-none :
      (s : State M) (ds : List ℕ) (d : ℕ)
      → (best_among s ds).best ≡ none
      → 0 < count d ds
      → ¬ CanHost s d
  unfolding best_among
  best_among-none s ds d e k h =
      let (x, f, g) = loop_Covers_new s ds d no_placement (no_placement-IsSound s) k h in cc
