-- ===== src/Ui/Ranges/Runs.antt =====
-- ui/ui.c: the ranges against the list of the CPUs that they stand for.
use irqbalance.Prelude.{
  ℕ, ℤ, zero, suc, pos, negsuc, ◌+◌, ◌-◌, ◌<◌, ◌≤◌, ◌≡◌, refl, sym, ap, ◌∙◌, ltb, Bool, false, some,
  List, [], ◌∷◌, ◌++◌, append_assoc, arith, length, length-append, take, take_all, map, concat_map,
  for_each, if◌then◌else◌, Bool-cases, inl, inr, subst,
}
use irqbalance.Ui.Model.{Irq}
use irqbalance.Ui.Ranges.{
  Range, range_text, bsnl_emit, copy_assigned_obj, print_assigned_objects_string,
}

-- The ranges of a list that goes on from `lo` to `hi`.
abbrev runs_from : ℕ → ℕ → List ℕ → List (ℕ × ℕ)
runs_from lo hi [] = (lo, hi) ∷ []
runs_from lo hi (x ∷ xs) =
    let next = runs_from x x xs in
    let same = runs_from lo x xs in if ltb (hi + 1) x then (lo, hi) ∷ next else same

abbrev pub runs : List ℕ → List (ℕ × ℕ)
runs [] = []
runs (x ∷ xs) = runs_from x x xs

-- `count` numbers from `lo` on.
abbrev numbers_from : ℕ → ℕ → List ℕ
numbers_from lo zero = []
numbers_from lo (suc count) = lo ∷ numbers_from (lo + 1) count

abbrev pub numbers_of : ℕ × ℕ → List ℕ
numbers_of (lo, hi) = numbers_from lo (hi + 1 - lo)

-- Every number is greater than the one before.
abbrev IsAscending : ℕ → List ℕ → Type 0
IsAscending lo [] = Unit
IsAscending lo (x ∷ xs) = (lo < x) × IsAscending x xs

numbers_from-snoc :
    (lo count : ℕ) → numbers_from lo (suc count) ≡ numbers_from lo count ++ (lo + count) ∷ []
numbers_from-snoc lo zero = ap (λ n. n ∷ []) (omega arith)
numbers_from-snoc lo (suc count) =
    let e : lo + 1 + count ≡ lo + suc count = omega arith in
    ap (λ ns. lo ∷ ns)
      (numbers_from-snoc (lo + 1) count ∙ ap (λ n. numbers_from (lo + 1) count ++ n ∷ []) e)

numbers_of-next :
    (lo hi : ℕ) → lo ≤ hi → numbers_of (lo, suc hi) ≡ numbers_of (lo, hi) ++ suc hi ∷ []
numbers_of-next lo hi h =
    let more : suc hi + 1 - lo ≡ suc (hi + 1 - lo) = omega arith in
    let last : lo + (hi + 1 - lo) ≡ suc hi = omega arith in
    ap (numbers_from lo) more
    ∙ numbers_from-snoc lo (hi + 1 - lo)
    ∙ ap (λ n. numbers_from lo (hi + 1 - lo) ++ n ∷ []) last

numbers_of-one : (x : ℕ) → numbers_of (x, x) ≡ x ∷ []
numbers_of-one x = let e : x + 1 - x ≡ 1 = omega arith in ap (numbers_from x) e

-- The ranges stand for the list.
runs_from-numbers :
    (lo hi : ℕ) (xs : List ℕ)
    → lo ≤ hi
    → IsAscending hi xs
    → concat_map numbers_of (runs_from lo hi xs) ≡ numbers_of (lo, hi) ++ xs
runs_from-numbers lo hi [] h a = refl
runs_from-numbers lo hi (x ∷ xs) h a = elim (Bool-cases (ltb (hi + 1) x)) [
  | inl e ↦ rw e (
      ap (λ ns. numbers_of (lo, hi) ++ ns)
        (runs_from-numbers x x xs (omega arith) a.1 ∙ ap (λ ns. ns ++ xs) (numbers_of-one x)))
  | inr e ↦
      let next : x ≡ suc hi = ground arith in
      rw e (
        runs_from-numbers lo x xs (omega arith) a.1
        ∙ ap (λ n. numbers_of (lo, n) ++ xs) next
        ∙ ap (λ ns. ns ++ xs) (numbers_of-next lo hi h)
        ∙ append_assoc (numbers_of (lo, hi)) (suc hi ∷ []) xs
        ∙ ap (λ n. numbers_of (lo, hi) ++ n ∷ xs) (sym next))
]

abbrev separated : List ℕ → List ℕ
separated text = if ltb 0 (length text) then text ++ 44 ∷ [] else text

-- The ranges behind a text, with a comma before each but the first of all.
abbrev pub joined : List ℕ → List (ℕ × ℕ) → List ℕ
joined text [] = text
joined text ((lo, hi) ∷ rs) = joined (separated text ++ range_text (pos lo) (pos hi)) rs

joined-longer : (text : List ℕ) (rs : List (ℕ × ℕ)) → length text ≤ length (joined text rs)
joined-longer text [] = omega arith
joined-longer text ((lo, hi) ∷ rs) =
    let next = separated text ++ range_text (pos lo) (pos hi) in
    ground (
      arith,
      joined-longer next rs,
      length-append (separated text) (range_text (pos lo) (pos hi)),
      length-append text (44 ∷ []),
    )

emit-joined :
    (text : List ℕ) (lo hi : ℕ)
    → length (separated text ++ range_text (pos lo) (pos hi)) ≤ 127
    → bsnl_emit (record { rbot = pos lo; rtop = pos hi; text = text })
      ≡ separated text ++ range_text (pos lo) (pos hi)
unfolding bsnl_emit
emit-joined text lo hi h =
    let word = range_text (pos lo) (pos hi) in
    let comma = text ++ 44 ∷ [] in
    let room : length comma ≤ 127 =
      ground (arith, length-append (separated text) word, length-append text (44 ∷ [])) in
    ap (λ t. take 127 ((if ltb 0 (length text) then t else text) ++ word)) (take_all 127 comma room)
    ∙ take_all 127 (separated text ++ word) h

abbrev at_range : ℕ → ℕ → List ℕ → Range
at_range lo hi text = record { rbot = pos lo; rtop = pos hi; text = text }

copy-range :
    (x lo hi : ℕ) (text : List ℕ)
    → copy_assigned_obj (pos x) (at_range lo hi text) ≡ (
        if ltb (hi + 1) x
        then at_range x x (bsnl_emit (at_range lo hi text))
        else at_range lo x text)
unfolding copy_assigned_obj
copy-range x lo hi text = ground arith

copy-joined :
    (text : List ℕ) (lo hi : ℕ) (xs : List ℕ)
    → length (joined text (runs_from lo hi xs)) ≤ 127
    → bsnl_emit (for_each copy_assigned_obj (map pos xs) (at_range lo hi text))
      ≡ joined text (runs_from lo hi xs)
copy-joined text lo hi [] h = emit-joined text lo hi h
copy-joined text lo hi (x ∷ xs) h =
    let next = separated text ++ range_text (pos lo) (pos hi) in
    let apart = (lo, hi) ∷ runs_from x x xs in
    let far = at_range x x (bsnl_emit (at_range lo hi text)) in
    let P = λ (b : Bool).
      length (joined text (if b then apart else runs_from lo x xs)) ≤ 127
      → bsnl_emit (for_each copy_assigned_obj (map pos xs) (if b then far else at_range lo x text))
        ≡ joined text (if b then apart else runs_from lo x xs) in
    let go = λ (r : Range). bsnl_emit (for_each copy_assigned_obj (map pos xs) r) in
    let both : P (ltb (hi + 1) x) = elim (Bool-cases (ltb (hi + 1) x)) [
      | inl e ↦ subst P (sym e) (λ room.
          let one = emit-joined text lo hi (omega (arith, joined-longer next (runs_from x x xs))) in
          ap (λ t. go (at_range x x t)) one ∙ copy-joined next x x xs room)
      | inr e ↦ subst P (sym e) (λ room. copy-joined text lo x xs room)
    ] in
    ap go (copy-range x lo hi text) ∙ both h

copy-first :
    (x : ℕ) (rbot : ℤ)
    → copy_assigned_obj (pos x) (record { rbot = rbot; rtop = negsuc 0; text = [] })
      ≡ at_range x x []
unfolding copy_assigned_obj
copy-first x rbot = refl

-- An interrupt that is not banned, with CPUs in ascending order: what is printed is the list of its
-- ranges with commas between them, if that has room, and the numbers from the first to the last of
-- each range are exactly its CPUs, whatever the interrupt before has left in `rbot`.
pub print_assigned-runs :
    (irq : Irq) (rbot : ℤ) (x : ℕ) (xs : List ℕ)
    → irq.is_banned ≡ false
    → irq.assigned_to ≡ map pos (x ∷ xs)
    → IsAscending x xs
    → length (joined [] (runs (x ∷ xs))) ≤ 127
    → ((print_assigned_objects_string irq rbot).0 ≡ some (joined [] (runs (x ∷ xs))))
      × (concat_map numbers_of (runs (x ∷ xs)) ≡ x ∷ xs)
unfolding print_assigned_objects_string
print_assigned-runs irq rbot x xs b a u h =
    let go = λ (r : Range). bsnl_emit (for_each copy_assigned_obj (map pos xs) r) in
    let printed = ap go (copy-first x rbot) ∙ copy-joined [] x x xs h in
    (
      rw b (rw a (ap some printed)),
      runs_from-numbers x x xs (omega arith) u ∙ ap (λ ns. ns ++ xs) (numbers_of-one x),
    )
