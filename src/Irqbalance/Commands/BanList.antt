-- ===== src/Irqbalance/Commands/BanList.antt =====
-- irqbalance.c: the numbers behind "settings ban irqs ", as ui/ui.c prints them.
use irqbalance.Prelude.{
  after_digits, after_number, ℕ, ℤ, zero, suc, pos, ◌+◌, ◌-◌, ◌*◌, ◌<◌, ◌≡◌, refl, ap, ◌∙◌, Bool,
  true, not, List, [], ◌∷◌, ◌++◌, arith, length, length-append, for_each, codes, is_digit, is_word,
  is_word-print_ℕ, digits, strtoul, saturated, to_int, print_ℕ, all_digits, all_digits-print,
  digits-print,
}
use irqbalance.Types.{State}
use irqbalance.Types.Cpumask.{Cpumask}
use irqbalance.Classify.Bans.{add_cl_banned_irq}
use irqbalance.Irqbalance.Commands.{ban_each, ban_irqs}

-- A text that a number can stand before.
abbrev pub ends_number : List ℕ → Bool
ends_number [] = true
ends_number (c ∷ cs) = not (is_digit c)

digits-append :
    (w rest : List ℕ) (acc : ℕ)
    → all_digits w ≡ true
    → ends_number rest ≡ true
    → digits acc (w ++ rest) ≡ digits acc w
digits-append [] [] acc h k = refl
digits-append [] (c ∷ cs) acc h k = ground arith
digits-append (c ∷ w) rest acc h k = ground (arith, digits-append w rest (acc * 10 + (c - 48)))

after_digits-append :
    (w rest : List ℕ)
    → all_digits w ≡ true
    → ends_number rest ≡ true
    → after_digits (w ++ rest) ≡ rest
after_digits-append [] [] h k = refl
after_digits-append [] (c ∷ cs) h k = ground arith
after_digits-append (c ∷ w) rest h k = ground (arith, after_digits-append w rest)

strtoul-word :
    (w rest : List ℕ)
    → all_digits w ≡ true
    → is_word w ≡ true
    → ends_number rest ≡ true
    → (strtoul (32 ∷ (w ++ rest)) ≡ saturated (digits 0 w))
      × (after_number (32 ∷ (w ++ rest)) ≡ rest)
strtoul-word [] rest h k e = absurd cc
strtoul-word (c ∷ w) rest h k e =
    (ground (arith, digits-append (c ∷ w) rest 0), ground (arith, after_digits-append (c ∷ w) rest))

pub strtoul-print_ℕ :
    (n : ℕ) (rest : List ℕ)
    → n < 2147483648
    → ends_number rest ≡ true
    → (strtoul (32 ∷ (print_ℕ n ++ rest)) ≡ n) × (after_number (32 ∷ (print_ℕ n ++ rest)) ≡ rest)
strtoul-print_ℕ n rest h e =
    let r = strtoul-word (print_ℕ n) rest (all_digits-print n) (is_word-print_ℕ n) e in
    let d = digits-print n (omega arith) in (r.0 ∙ ap saturated d ∙ ground arith, r.1)

-- Numbers of interrupts, but for 0, which ends the list.
abbrev pub AllNumbers : List ℕ → Type 0
AllNumbers [] = Unit
AllNumbers (n ∷ ns) = (0 < n) × (n < 2147483648) × AllNumbers ns

-- The numbers, a space before each, and the word with which the user interface closes the list.
abbrev pub ban_list : List ℕ → List ℕ
ban_list [] = codes " NONE"
ban_list (n ∷ ns) = 32 ∷ (print_ℕ n ++ ban_list ns)

ends-ban_list : (ns : List ℕ) → ends_number (ban_list ns) ≡ true
ends-ban_list [] = refl
ends-ban_list (n ∷ ns) = refl

length-ban_list : (ns : List ℕ) → length ns < length (ban_list ns)
length-ban_list [] = omega arith
length-ban_list (n ∷ ns) =
    omega (arith, length-ban_list ns, length-append (print_ℕ n) (ban_list ns))

pub to_int_small : (n : ℕ) → n < 2147483648 → to_int n ≡ pos n
to_int_small n h = ground arith

module _ {M : Type 0} ⦃mask : Cpumask M⦄ where
  abbrev pub add_each : List ℕ → State M → State M
  add_each ns s = for_each (λ n. add_cl_banned_irq (pos n)) ns s

  ban_each-step :
      (fuel m : ℕ) (irq : ℤ) (end rest : List ℕ) (s : State M)
      → strtoul end ≡ m
      → after_number end ≡ rest
      → 0 < m
      → m < 2147483648
      → ban_each (suc fuel) irq end s ≡ ban_each fuel (pos m) rest (add_cl_banned_irq irq s)
  unfolding ban_each
  ban_each-step fuel m irq end rest s e r h k =
      let q : to_int (strtoul end) ≡ pos m = ap to_int e ∙ to_int_small m k in
      rw q (rw r (ground arith))

  ban_each-list :
      (ns : List ℕ) (fuel n : ℕ) (s : State M)
      → AllNumbers ns
      → length ns < fuel
      → ban_each fuel (pos n) (ban_list ns) s ≡ add_each (n ∷ ns) s
  unfolding ban_each
  ban_each-list ns zero n s v h = absurd (omega arith)
  ban_each-list [] (suc fuel) n s v h = refl
  ban_each-list (m ∷ ns) (suc fuel) n s v h =
      let (e, r) = strtoul-print_ℕ m (ban_list ns) v.1 (ends-ban_list ns) in
      ban_each-step fuel m (pos n) (ban_list (m ∷ ns)) (ban_list ns) s e r v.0 v.1
      ∙ ban_each-list ns fuel m (add_cl_banned_irq (pos n) s) v.2 (omega arith)

  -- A list of numbers of interrupts, none of them 0, printed as the user interface prints it, is
  -- read in full: the old list is dropped, and exactly these numbers are added, in order. An empty
  -- list is not read as one: the daemon then bans interrupt 0.
  pub ban_irqs-ban_list :
      (ns : List ℕ) (s : State M)
      → AllNumbers ns
      → let t = record s { cl_banned_irqs = []; need_rescan = true } in
        (0 < length ns → ban_irqs (ban_list ns) s ≡ add_each ns t)
        × (ns ≡ [] → ban_irqs (ban_list ns) s ≡ add_each (0 ∷ []) t)
  unfolding ban_irqs
  ban_irqs-ban_list [] s v = (λ h. absurd (omega arith), λ e. refl)
  ban_irqs-ban_list (n ∷ ns) s v =
      let t = record s { cl_banned_irqs = []; need_rescan = true } in
      let (e, r) = strtoul-print_ℕ n (ban_list ns) v.1 (ends-ban_list ns) in
      let q : to_int (strtoul (ban_list (n ∷ ns))) ≡ pos n = ap to_int e ∙ to_int_small n v.1 in
      (
        λ _.
            ap (λ i. ban_each (length (ban_list (n ∷ ns))) i (after_number (ban_list (n ∷ ns))) t) q
            ∙ ap (λ l. ban_each (length (ban_list (n ∷ ns))) (pos n) l t) r
            ∙ ban_each-list ns (length (ban_list (n ∷ ns))) n t v.2
                (omega (arith, length-ban_list (n ∷ ns))),
        λ x. absurd cc,
      )
