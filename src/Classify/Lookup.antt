-- ===== src/Classify/Lookup.antt =====
-- classify.c: get_irq_info, compare_ints and for_each_irq.
use irqbalance.Prelude.{
  ℕ, ℤ, pos, ◌<◌, ◌≡◌, ◌-ℤ◌, ◌==ℤ◌, Bool, true, Option, none, some, List, [], ◌∷◌, arith, ◌⊎◌, inl,
  inr, Option-cases, find_custom, find_custom-some, find_custom-none, for_each, count, subst,
}
use irqbalance.Types.{State}

-- The difference of the two `irq` fields, as the GList search wants it: 0 for a match.
abbrev pub compare_ints : ℤ → ℤ → ℤ
compare_ints ai bi = ai -ℤ bi

module _ {M : Type 0} where
  -- Whether the entry `e` matches `find`, of which only the number is set.
  unfoldable pub same_irq : State M → ℤ → ℕ → Bool
  same_irq s number e = compare_ints (s.irq e).irq number ==ℤ pos 0

  unfoldable pub find_irq : State M → ℤ → List ℕ → Option ℕ
  find_irq s number l = find_custom (same_irq s number) l

  unfoldable pub get_irq_info : State M → ℤ → Option ℕ
  get_irq_info s number = elim (find_irq s number s.interrupts_db) [
    | some e ↦ some e
    | none ↦ find_irq s number s.banned_irqs
  ]

  -- NULL stands for the database. A callback may delete the link that it is called for, so the walk
  -- is over the entries that the list has at the start.
  unfoldable pub for_each_irq : List ℕ → (ℕ → State M → State M) → State M → State M
  for_each_irq [] cb s = for_each cb s.interrupts_db s
  for_each_irq (x ∷ xs) cb s = for_each cb (x ∷ xs) s

  -- The entries that for_each_irq visits, for a walk that keeps more than the state.
  abbrev pub irqs_or_all : State M → List ℕ → List ℕ
  irqs_or_all s [] = s.interrupts_db
  irqs_or_all s (x ∷ xs) = x ∷ xs

  pub same_irq-eq : (s : State M) (n : ℤ) (e : ℕ) → same_irq s n e ≡ true → (s.irq e).irq ≡ n
  unfolding same_irq
  same_irq-eq s n e h = ground arith

  pub same_irq_refl : (s : State M) (e : ℕ) → same_irq s (s.irq e).irq e ≡ true
  unfolding same_irq
  same_irq_refl s e = ground arith

  pub find_irq-some :
      (s : State M) (n : ℤ) (l : List ℕ) {e : ℕ}
      → find_irq s n l ≡ some e
      → ((s.irq e).irq ≡ n) × (0 < count e l)
  unfolding find_irq
  find_irq-some s n l {e} h =
      let f = find_custom-some (same_irq s n) l h in (same_irq-eq s n e f.0, f.1)

  pub find_irq-none :
      (s : State M) (n : ℤ) (l : List ℕ) (e : ℕ)
      → find_irq s n l ≡ none
      → (s.irq e).irq ≡ n
      → count e l ≡ 0
  unfolding find_irq
  find_irq-none s n l e h k =
      find_custom-none (same_irq s n) l e h
        (subst (λ m. same_irq s m e ≡ true) k (same_irq_refl s e))

  -- The search finds an interrupt of that number exactly if the database or the ban list has one.
  pub get_irq_info_iff :
      (s : State M) (n : ℤ)
      → ((e : ℕ) × (get_irq_info s n ≡ some e)
          × ((s.irq e).irq ≡ n)
          × ((0 < count e s.interrupts_db) ⊎ (0 < count e s.banned_irqs)))
        ⊎ ((get_irq_info s n ≡ none)
            × ((e : ℕ)
                → (s.irq e).irq ≡ n
                → (count e s.interrupts_db ≡ 0) × (count e s.banned_irqs ≡ 0)))
  unfolding get_irq_info
  get_irq_info_iff s n = elim (Option-cases (find_irq s n s.interrupts_db)) [
    | inl absent ↦ elim (Option-cases (find_irq s n s.banned_irqs)) [
      | inl gone ↦ inr (
        rw (absent, get_irq_info) gone,
        λ e h. (
          find_irq-none s n s.interrupts_db e absent h,
          find_irq-none s n s.banned_irqs e gone h,
        ),
      )
      | inr (e, found) ↦
          let f = find_irq-some s n s.banned_irqs found in
          inl (e, rw (absent, get_irq_info) found, f.0, inr f.1)
    ]
    | inr (e, found) ↦
        let f = find_irq-some s n s.interrupts_db found in
        inl (e, rw (found, get_irq_info), f.0, inl f.1)
  ]
