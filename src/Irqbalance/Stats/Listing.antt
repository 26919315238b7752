-- ===== src/Irqbalance/Stats/Listing.antt =====
-- The text for "stats" as a list of words: what it says of each object, the tree from the top.
use irqbalance.Prelude.{
  ℕ, zero, suc, ◌≡◌, refl, sym, ap, ◌∙◌, List, [], ◌∷◌, ◌++◌, for_each, concat_map, if◌then◌else◌,
  unwords, true, all_words, is_word-print_ℕ, is_word-print_ℤ, bit, tokens, tokens-unwords,
  append_assoc, append-nil, arith, concat_map-append, unwords-append, all_words-append, Bool-cases,
  inl, inr,
}
use irqbalance.Types.{State, obj_type_cpu, obj_type_eq}
use irqbalance.Types.Word.{sub64}
use irqbalance.Activate.Search.{rank}
use irqbalance.Irqbalance.Stats.{irq_words, object_words, get_irq_data, get_object_stat, send_stats}

module _ {M : Type 0} where
  abbrev pub irqs_words : State M → List ℕ → List (List ℕ)
  irqs_words s is = concat_map (irq_words s) is

  -- The objects that are printed, in order.
  unfoldable pub listing : ℕ → State M → ℕ → List ℕ
  listing zero s o = []
  listing (suc depth) s o =
      let below = concat_map (listing depth s) (s.obj o).children in
      o ∷ (if obj_type_eq (s.obj o).obj_type obj_type_cpu then [] else below)

  abbrev pub words : State M → List ℕ → List (List ℕ)
  words s os = concat_map (λ o. object_words s o ++ irqs_words s (s.obj o).interrupts) os

-- A walk that appends a text for each entry.
for_each-append :
    (cb : ℕ → List ℕ → List ℕ) (f : ℕ → List (List ℕ)) (xs acc : List ℕ)
    → ((x : ℕ) (acc : List ℕ) → cb x acc ≡ acc ++ unwords (f x))
    → for_each cb xs acc ≡ acc ++ unwords (concat_map f xs)
for_each-append cb f [] acc h = sym (append-nil acc)
for_each-append cb f (x ∷ xs) acc h =
    for_each-append cb f xs (cb x acc) h
    ∙ ap (λ t. t ++ unwords (concat_map f xs)) (h x acc)
    ∙ append_assoc acc (unwords (f x)) (unwords (concat_map f xs))
    ∙ ap (λ t. acc ++ t) (sym (unwords-append (f x) (concat_map f xs)))

concat_map-concat_map :
    (f : ℕ → List (List ℕ)) (g : ℕ → List ℕ) (xs : List ℕ)
    → concat_map f (concat_map g xs) ≡ concat_map (λ x. concat_map f (g x)) xs
concat_map-concat_map f g [] = refl
concat_map-concat_map f g (x ∷ xs) =
    concat_map-append f (g x) (concat_map g xs)
    ∙ ap (λ t. concat_map f (g x) ++ t) (concat_map-concat_map f g xs)

all_words-concat :
    (f : ℕ → List (List ℕ)) (xs : List ℕ)
    → ((x : ℕ) → all_words (f x) ≡ true)
    → all_words (concat_map f xs) ≡ true
all_words-concat f [] h = refl
all_words-concat f (x ∷ xs) h =
    all_words-append (f x) (concat_map f xs) (h x) (all_words-concat f xs h)

module _ {M : Type 0} where
  abbrev one_object : State M → ℕ → List (List ℕ)
  one_object s o = object_words s o ++ irqs_words s (s.obj o).interrupts

  pub irqs_data-words :
      (s : State M) (is acc : List ℕ)
      → for_each (get_irq_data s) is acc ≡ acc ++ unwords (irqs_words s is)
  unfolding get_irq_data
  irqs_data-words s is acc = for_each-append (get_irq_data s) (irq_words s) is acc (λ x acc. refl)

  irq_data-words :
      (s : State M) (o : ℕ)
      → unwords (object_words s o) ++ for_each (get_irq_data s) (s.obj o).interrupts []
        ≡ unwords (one_object s o)
  unfolding get_irq_data
  irq_data-words s o =
      ap (λ t. unwords (object_words s o) ++ t)
        (for_each-append (get_irq_data s) (irq_words s) (s.obj o).interrupts [] (λ x acc. refl))
      ∙ sym (unwords-append (object_words s o) (irqs_words s (s.obj o).interrupts))

  get_object_stat-words :
      (depth : ℕ) (s : State M) (o : ℕ) (stats : List ℕ)
      → get_object_stat depth s o stats ≡ stats ++ unwords (words s (listing depth s o))
  unfolding get_object_stat listing
  get_object_stat-words zero s o stats = sym (append-nil stats)
  get_object_stat-words (suc depth) s o stats =
      let kids = (s.obj o).children in
      let one = ap (λ t. stats ++ t) (irq_data-words s o) in
      elim (Bool-cases (obj_type_eq (s.obj o).obj_type obj_type_cpu)) [
        | inl e ↦ rw e (one ∙ ap (λ t. stats ++ unwords t) (sym (append-nil (one_object s o))))
        | inr e ↦ rw e (
            for_each-append (get_object_stat depth s) (λ x. words s (listing depth s x)) kids _
              (get_object_stat-words depth s)
            ∙ ap (λ t. t ++ unwords (concat_map (λ x. words s (listing depth s x)) kids)) one
            ∙ append_assoc stats (unwords (one_object s o)) _
            ∙ ap (λ t. stats ++ t) (sym (unwords-append (one_object s o) _))
            ∙ ap (λ t. stats ++ unwords (one_object s o ++ t))
                (sym (concat_map-concat_map (one_object s) (listing depth s) kids)))
      ]

  irq_words-words : (s : State M) (i : ℕ) → all_words (irq_words s i) ≡ true
  unfolding irq_words
  irq_words-words s i =
      let v = s.irq i in
      ground (
        arith,
        is_word-print_ℤ v.irq,
        is_word-print_ℕ v.load,
        is_word-print_ℕ (sub64 v.irq_count v.last_irq_count),
        is_word-print_ℤ v.class,
      )

  pub irqs_words-words : (s : State M) (is : List ℕ) → all_words (irqs_words s is) ≡ true
  irqs_words-words s is = all_words-concat (irq_words s) is (irq_words-words s)

  object_words-words : (s : State M) (o : ℕ) → all_words (object_words s o) ≡ true
  unfolding object_words
  object_words-words s o =
      let v = s.obj o in
      ground (
        arith,
        is_word-print_ℕ (rank v.obj_type),
        is_word-print_ℤ v.number,
        is_word-print_ℕ v.load,
        is_word-print_ℕ (bit v.powersave_mode),
      )

  -- strtok_r finds in the text for "stats" the words of every object that is listed.
  pub send_stats-words :
      (s : State M) → tokens (send_stats s) ≡ words s (concat_map (listing 4 s) s.numa_nodes)
  unfolding send_stats
  send_stats-words s =
      let os = concat_map (listing 4 s) s.numa_nodes in
      ap tokens (
        for_each-append (get_object_stat 4 s) (λ o. words s (listing 4 s o)) s.numa_nodes []
          (get_object_stat-words 4 s)
        ∙ ap unwords (sym (concat_map-concat_map (one_object s) (listing 4 s) s.numa_nodes)))
      ∙ tokens-unwords (words s os) (
          all_words-concat (one_object s) os λ o.
            all_words-append (object_words s o) (irqs_words s (s.obj o).interrupts)
              (object_words-words s o)
              (all_words-concat (irq_words s) (s.obj o).interrupts (irq_words-words s)))
