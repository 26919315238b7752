-- ===== src/Types/Glist.antt =====
-- g_list_sort of GLib, which the daemon calls: it permutes a list, and orders it by a comparison
-- that is one.
use irqbalance.Prelude.{ℕ, ℤ, pos, ◌≡◌, ◌⊎◌, ◌≤ℤ◌, List, [], ◌∷◌, count}

abbrev pub Before : (ℕ → ℕ → ℤ) → ℕ → ℕ → Type 0
Before cmp a b = cmp a b ≤ℤ pos 0

pub record IsComparison (cmp : ℕ → ℕ → ℤ) : Type 0 where
  pub total : (a b : ℕ) → Before cmp a b ⊎ Before cmp b a
  pub trans : (a b c : ℕ) → Before cmp a b → Before cmp b c → Before cmp a c

abbrev pub AllBefore : (ℕ → ℕ → ℤ) → ℕ → List ℕ → Type 0
AllBefore cmp a [] = Unit
AllBefore cmp a (b ∷ xs) = Before cmp a b × AllBefore cmp a xs

abbrev pub IsSorted : (ℕ → ℕ → ℤ) → List ℕ → Type 0
IsSorted cmp [] = Unit
IsSorted cmp (a ∷ xs) = AllBefore cmp a xs × IsSorted cmp xs

pub record Glist : Type 0 where
  pub sort : (ℕ → ℕ → ℤ) → List ℕ → List ℕ
  pub count-sort : (cmp : ℕ → ℕ → ℤ) (a : ℕ) (xs : List ℕ) → count a (sort cmp xs) ≡ count a xs
  pub sort-IsSorted :
      (cmp : ℕ → ℕ → ℤ) (xs : List ℕ) → IsComparison cmp → IsSorted cmp (sort cmp xs)
