-- ===== src/Prelude/Lists.antt =====
-- A GList is a list of handles. Its operations under the names that the code calls, and the
-- counting of handles by which the invariants are stated.
use Prim.Native.Nat.{ℕ, zero, suc, ◌+◌, ◌<◌, ◌≤◌}
use mathlib.Core.Path.{◌≡◌, refl, sym, ap, ◌∙◌}
use mathlib.Core.Logic.{inl, inr}
use mathlib.Core.Bool.{Bool, true}
use mathlib.Core.List.{List, [], ◌∷◌, ◌++◌, append_assoc}
use mathlib.Core.Option.{Option, none, some}
use native.Mathlib.Omega.{arith}
use irqbalance.Prelude.Tests.{◌==◌, if◌then◌else◌, bit, Bool-cases}

module _ {ℓ} {A : Type ℓ} where
  abbrev pub length : List A → ℕ
  length [] = 0
  length (x ∷ xs) = suc (length xs)

  abbrev pub get_elem? : List A → ℕ → Option A
  get_elem? [] i = none
  get_elem? (x ∷ xs) zero = some x
  get_elem? (x ∷ xs) (suc i) = get_elem? xs i

  abbrev pub take : ℕ → List A → List A
  take zero xs = []
  take (suc n) [] = []
  take (suc n) (x ∷ xs) = x ∷ take n xs

  abbrev pub drop : ℕ → List A → List A
  drop zero xs = xs
  drop (suc n) [] = []
  drop (suc n) (x ∷ xs) = drop n xs

  pub take_all : (n : ℕ) (xs : List A) → length xs ≤ n → take n xs ≡ xs
  take_all zero [] h = refl
  take_all (suc n) [] h = refl
  take_all zero (x ∷ xs) h = absurd (omega arith)
  take_all (suc n) (x ∷ xs) h = ap (λ ys. x ∷ ys) (take_all n xs (omega arith))

  pub length-take : (n : ℕ) (xs : List A) → length (take n xs) ≤ length xs
  length-take zero xs = omega arith
  length-take (suc n) [] = omega arith
  length-take (suc n) (x ∷ xs) = omega (arith, length-take n xs)

  pub take-append : (xs ys : List A) → take (length xs) (xs ++ ys) ≡ xs
  take-append [] ys = refl
  take-append (x ∷ xs) ys = ap (λ zs. x ∷ zs) (take-append xs ys)

  pub drop-append : (xs ys : List A) → drop (length xs) (xs ++ ys) ≡ ys
  drop-append [] ys = refl
  drop-append (x ∷ xs) ys = drop-append xs ys

  abbrev pub map {κ} : {B : Type κ} → (A → B) → List A → List B
  map f [] = []
  map f (x ∷ xs) = f x ∷ map f xs

  abbrev pub filter : (A → Bool) → List A → List A
  filter p [] = []
  filter p (x ∷ xs) = if p x then x ∷ filter p xs else filter p xs

  pub length-append : (xs ys : List A) → length (xs ++ ys) ≡ length xs + length ys
  length-append [] ys = omega arith
  length-append (x ∷ xs) ys = omega (arith, length-append xs ys)

  abbrev pub concat_map {κ} : {B : Type κ} → (A → List B) → List A → List B
  concat_map f [] = []
  concat_map f (x ∷ xs) = f x ++ concat_map f xs

  pub concat_map-append {κ} :
      {B : Type κ} (f : A → List B) (xs ys : List A)
      → concat_map f (xs ++ ys) ≡ concat_map f xs ++ concat_map f ys
  concat_map-append f [] ys = refl
  concat_map-append f (x ∷ xs) ys =
      ap (λ zs. f x ++ zs) (concat_map-append f xs ys)
      ∙ sym (append_assoc (f x) (concat_map f xs) (concat_map f ys))

  -- A walk over a list that hands a state on: the loop of for_each_object and for_each_irq.
  abbrev pub for_each {κ} : {S : Type κ} → (A → S → S) → List A → S → S
  for_each cb [] s = s
  for_each cb (x ∷ xs) s = for_each cb xs (cb x s)

  -- g_list_find_custom: the first entry that the comparison finds equal.
  abbrev pub find_custom : (A → Bool) → List A → Option A
  find_custom same [] = none
  find_custom same (x ∷ xs) = if same x then some x else find_custom same xs

  -- g_list_delete_link of the link that find_custom finds.
  abbrev pub delete_custom : (A → Bool) → List A → List A
  delete_custom same [] = []
  delete_custom same (x ∷ xs) = if same x then xs else x ∷ delete_custom same xs

pub length-map {ℓ κ} :
    {A : Type ℓ} {B : Type κ} (f : A → B) (xs : List A) → length (map f xs) ≡ length xs
length-map f [] = refl
length-map f (x ∷ xs) = ap suc (length-map f xs)

module _ (handle : ℕ) where
  -- How often a handle stands in a list.
  abbrev pub count : List ℕ → ℕ
  count [] = 0
  count (h ∷ rest) = bit (h == handle) + count rest

  pub count-append : (front back : List ℕ) → count (front ++ back) ≡ count front + count back
  count-append [] back = omega arith
  count-append (h ∷ rest) back = omega (arith, count-append rest back)

-- What find_custom returns passes the test and stands in the list.
pub find_custom-some :
    (same : ℕ → Bool) (xs : List ℕ) {a : ℕ}
    → find_custom same xs ≡ some a
    → (same a ≡ true) × (0 < count a xs)
find_custom-some same [] h = cc
find_custom-some same (x ∷ xs) {a} h = elim (Bool-cases (same x)) [
  | inl hit ↦ ground arith
  | inr miss ↦ ground (arith, find_custom-some same xs {a = a})
]

-- It finds something when an entry passes.
pub find_custom-none :
    (same : ℕ → Bool) (xs : List ℕ) (a : ℕ)
    → find_custom same xs ≡ none
    → same a ≡ true
    → count a xs ≡ 0
find_custom-none same [] a h p = refl
find_custom-none same (x ∷ xs) a h p = ground (arith, find_custom-none same xs a)

-- The found entry is deleted once, and nothing else is.
pub count-delete_custom :
    (same : ℕ → Bool) (xs : List ℕ) {a : ℕ} (b : ℕ)
    → find_custom same xs ≡ some a
    → count b (delete_custom same xs) + bit (a == b) ≡ count b xs
count-delete_custom same [] b h = cc
count-delete_custom same (x ∷ xs) {a} b h = ground (arith, count-delete_custom same xs {a = a} b)
