-- ===== src/Samples/Sorting.antt =====
-- An insertion sort: what is assumed of g_list_sort can be met.
use irqbalance.Prelude.{
  ℕ, ℤ, pos_part, neg_part, ◌≡◌, refl, Bool, List, [], ◌∷◌, arith, inl, inr, count, if◌then◌else◌,
  Bool-cases, leb,
}
use irqbalance.Types.Glist.{Glist, Before, IsComparison, AllBefore, IsSorted}

module _ (cmp : ℕ → ℕ → ℤ) where
  abbrev before : ℕ → ℕ → Bool
  before a b = leb (pos_part (cmp a b)) (neg_part (cmp a b))

  pub insert_before : ℕ → List ℕ → List ℕ
  insert_before a [] = a ∷ []
  insert_before a (x ∷ xs) = if before a x then a ∷ x ∷ xs else x ∷ insert_before a xs

  unfoldable pub insertion_sort : List ℕ → List ℕ
  unfolding insert_before
  insertion_sort [] = []
  insertion_sort (x ∷ xs) = insert_before x (insertion_sort xs)

  count-insert : (a b : ℕ) (xs : List ℕ) → count b (insert_before a xs) ≡ count b (a ∷ xs)
  unfolding insert_before
  count-insert a b [] = refl
  count-insert a b (x ∷ xs) = ground (arith, count-insert a b xs)

  pub count-insertion_sort : (b : ℕ) (xs : List ℕ) → count b (insertion_sort xs) ≡ count b xs
  unfolding insertion_sort
  count-insertion_sort b [] = refl
  count-insertion_sort b (x ∷ xs) =
      ground (arith, count-insert x b (insertion_sort xs), count-insertion_sort b xs)

  module _ (h : IsComparison cmp) where
    AllBefore-mono :
        (a b : ℕ) (xs : List ℕ) → Before cmp a b → AllBefore cmp b xs → AllBefore cmp a xs
    AllBefore-mono a b [] k m = tt
    AllBefore-mono a b (x ∷ xs) k m = (h.trans a b x k m.0, AllBefore-mono a b xs k m.1)

    AllBefore-insert :
        (a b : ℕ) (xs : List ℕ)
        → Before cmp b a
        → AllBefore cmp b xs
        → AllBefore cmp b (insert_before a xs)
    unfolding insert_before
    AllBefore-insert a b [] k m = (k, tt)
    AllBefore-insert a b (x ∷ xs) k m = elim (Bool-cases (before a x)) [
      | inl t ↦ rw t (k, m)
      | inr t ↦ rw t (m.0, AllBefore-insert a b xs k m.1)
    ]

    insert-IsSorted : (a : ℕ) (xs : List ℕ) → IsSorted cmp xs → IsSorted cmp (insert_before a xs)
    unfolding insert_before
    insert-IsSorted a [] s = (tt, tt)
    insert-IsSorted a (x ∷ xs) s = elim (Bool-cases (before a x)) [
      | inl t ↦ rw t ((ground arith, AllBefore-mono a x xs (ground arith) s.0), (s.0, s.1))
      | inr t ↦
          rw t (AllBefore-insert a x xs (ground (arith, h.total a x)) s.0, insert-IsSorted a xs s.1)
    ]

    pub insertion_sort-IsSorted : (xs : List ℕ) → IsSorted cmp (insertion_sort xs)
    unfolding insertion_sort
    insertion_sort-IsSorted [] = tt
    insertion_sort-IsSorted (x ∷ xs) =
        insert-IsSorted x (insertion_sort xs) (insertion_sort-IsSorted xs)

abbrev pub sorting : Glist
sorting = record {
  sort = insertion_sort;
  count-sort = count-insertion_sort;
  sort-IsSorted = λ cmp xs h. insertion_sort-IsSorted cmp h xs;
}
