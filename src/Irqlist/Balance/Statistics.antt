-- ===== src/Irqlist/Balance/Statistics.antt =====
-- irqlist.c: the statistics against their definition, without the loops.
use irqbalance.Prelude.{
  ℕ, ◌+◌, ◌/◌, ◌%◌, ◌<◌, ◌≤◌, ◌≡◌, ◌≢◌, refl, ◌==◌, ltb, List, [], ◌∷◌, arith, ◌⊎◌, inl, inr,
  for_each, count, length, Bool-cases, if◌then◌else◌, ap, ◌∙◌, sym, ◌||◌, ==_refl,
}
use irqbalance.Types.{State}
use irqbalance.Types.Word.{u64_mod}
use irqbalance.Types.Floating.{Floating}
use irqbalance.Types.Glist.{Glist}
use irqbalance.Irqlist.Balance.{
  LoadBalanceInfo, gather_load_stats, compute_deviations, load_statistics, cleared,
}

module _ {M : Type 0} where
  abbrev pub loads : State M → List ℕ → ℕ
  loads s [] = 0
  loads s (d ∷ ds) = (s.obj d).load + loads s ds

module _ {M F : Type 0} where
  gather_total :
      (s : State M) (ds : List ℕ) (lb : LoadBalanceInfo F)
      → lb.total_load < u64_mod
      → let t = for_each (gather_load_stats s) ds lb in
        (t.total_load ≡ (lb.total_load + loads s ds) % u64_mod)
        × (t.load_sources ≡ lb.load_sources + length ds)
  unfolding gather_load_stats
  gather_total s [] lb h = (omega arith, omega arith)
  gather_total s (d ∷ ds) lb h =
      let r = gather_total s ds (gather_load_stats s d lb) (omega arith) in
      (r.0 ∙ omega arith, r.1 ∙ omega arith)

  gather_old :
      (s : State M) (ds : List ℕ) (lb : LoadBalanceInfo F)
      → 0 < lb.load_sources
      → (for_each (gather_load_stats s) ds lb).min_load ≤ lb.min_load
  unfolding gather_load_stats
  gather_old s [] lb h = omega arith
  gather_old s (d ∷ ds) lb h =
      ground (arith, gather_old s ds (gather_load_stats s d lb) (omega arith))

  gather_new :
      (s : State M) (ds : List ℕ) (lb : LoadBalanceInfo F) (d : ℕ)
      → 0 < count d ds
      → (for_each (gather_load_stats s) ds lb).min_load ≤ (s.obj d).load
  unfolding gather_load_stats
  gather_new s [] lb d h = absurd (omega arith)
  gather_new s (x ∷ ds) lb d h = elim (Bool-cases (x == d)) [
    | inl e ↦
        let same : x ≡ d = ground arith in
        rw (← same) (ground (arith, gather_old s ds (gather_load_stats s x lb) (omega arith)))
    | inr e ↦ gather_new s ds (gather_load_stats s x lb) d (ground arith)
  ]

  gather_attained :
      (s : State M) (ds : List ℕ) (lb : LoadBalanceInfo F)
      → ((for_each (gather_load_stats s) ds lb).min_load ≡ lb.min_load)
          × (0 < lb.load_sources ⊎ ds ≡ [])
        ⊎ ((d : ℕ) × (0 < count d ds)
            × ((for_each (gather_load_stats s) ds lb).min_load ≡ (s.obj d).load))
  unfolding gather_load_stats
  gather_attained s [] lb = inl (refl, inr refl)
  gather_attained s (x ∷ ds) lb = elim (gather_attained s ds (gather_load_stats s x lb)) [
    | inr (d, k, e) ↦ inr (d, omega arith, e)
    | inl (e, _) ↦ elim (Bool-cases (lb.load_sources == 0 || ltb (s.obj x).load lb.min_load)) [
      | inl t ↦ inr (x, ground (arith, ==_refl x), ground arith)
      | inr t ↦ inl (ground arith, inl (ground arith))
    ]
  ]

  -- The deviations are all that the second loop changes.
  deviations_frame :
      (s : State M) (ds : List ℕ) (lb : LoadBalanceInfo F)
      → let t = for_each (compute_deviations s) ds lb in
        (t.min_load ≡ lb.min_load)
        × (t.total_load ≡ lb.total_load)
        × (t.avg_load ≡ lb.avg_load)
        × (t.load_sources ≡ lb.load_sources)
  unfolding compute_deviations
  deviations_frame s [] lb = (refl, refl, refl, refl)
  deviations_frame s (d ∷ ds) lb = deviations_frame s ds (compute_deviations s d lb)

module _ {M F : Type 0} (g : Glist) (f : Floating F) where
  -- The statistics of a level that has objects: the total is the sum of the loads (mod 2^64), the
  -- average is the total over the number of objects, and the least load is that of one of the
  -- objects and no more than that of any.
  pub load_statistics_lem :
      (s : State M) (ds : List ℕ)
      → ds ≢ []
      → let t = load_statistics g f s ds in
        (t.total_load ≡ loads s ds % u64_mod)
        × (t.load_sources ≡ length ds)
        × (t.avg_load ≡ t.total_load / length ds)
        × ((d : ℕ) → 0 < count d ds → t.min_load ≤ (s.obj d).load)
        × ((d : ℕ) × (0 < count d ds) × (t.min_load ≡ (s.obj d).load))
  unfolding load_statistics
  load_statistics_lem s ds n =
      let gathered = for_each (gather_load_stats s) ds (cleared f) in
      let sources = if gathered.load_sources == 0 then 1 else gathered.load_sources in
      let averaged : LoadBalanceInfo F = record gathered {
        load_sources = sources;
        avg_load = gathered.total_load / sources;
      } in
      let (m, t, a, c) = deviations_frame s ds averaged in
      let total = gather_total s ds (cleared f) (omega arith) in
      let some_object : 0 < length ds = nonempty ds n in
      let is : sources ≡ length ds = ground (arith, total.1) in
      (
        t ∙ total.0 ∙ ap (λ (x : ℕ). x % u64_mod) (omega arith),
        c ∙ is,
        a ∙ ap (λ (x : ℕ). gathered.total_load / x) is ∙ ap (λ (x : ℕ). x / length ds) (sym t),
        λ d k. rw m (gather_new s ds (cleared f) d k),
        elim (gather_attained s ds (cleared f)) [
          | inl (_, inl absent) ↦ absurd (omega arith)
          | inl (_, inr e) ↦ absurd (n e)
          | inr (d, k, e) ↦ (d, k, m ∙ e)
        ],
      )
    where
      nonempty : (l : List ℕ) → l ≢ [] → 0 < length l
      nonempty [] h = absurd (h refl)
      nonempty (x ∷ l) h = omega arith
