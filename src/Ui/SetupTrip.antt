-- ===== src/Ui/SetupTrip.antt =====
-- ui/irqbalance-ui.c and irqbalance.c: parse_setup on the answer to "setup".
use irqbalance.Prelude.{
  ℕ, pos, suc, ◌<◌, ◌≤◌, ◌≡◌, refl, sym, ap, ◌∙◌, true, List, [], ◌∷◌, ◌++◌, arith, length, codes,
  is_word, all_words, unwords, unwords-append, tokens-last, all_words-append, is_word-print_ℤ,
  print_ℤ, strtol, strtol-print_ℤ, narrow, long_max, append_assoc, length-append,
}
use irqbalance.Types.{State}
use irqbalance.Types.Cpumask.{Cpumask}
use irqbalance.Irqbalance.Stats.Listing.{irqs_words, irqs_data-words, irqs_words-words}
use irqbalance.Irqbalance.Commands.{Settings, answer_setup}
use irqbalance.Ui.Model.{ok}
use irqbalance.Ui.Parse.{Tokens, read_number, expect}
use irqbalance.Ui.Reads.{IrqsFit, shown_irqs, read_irqs-words, small}
use irqbalance.Ui.RoundTrip.{irqs-words}
use irqbalance.Ui.Setup.{Setup, reverse_onto, ban_digits, read_banned, read_setup, parse_setup}

narrow_small : (n : ℕ) → n < 2147483648 → narrow (pos n) ≡ pos n
narrow_small n h = ground arith

module _ {M : Type 0} where
  abbrev setup_words : Settings M → List (List ℕ)
  setup_words c =
      codes "SLEEP"
      ∷ print_ℤ c.daemon.sleep_interval
      ∷ (irqs_words c.daemon.state c.daemon.state.cl_banned_irqs ++ codes "BANNED" ∷ [])

module _ {M : Type 0} ⦃mask : Cpumask M⦄ where
  answer_setup-words :
      (scnprintf : M → List ℕ) (c : Settings M)
      → answer_setup scnprintf c ≡ unwords (setup_words c) ++ scnprintf c.daemon.state.banned_cpus
  unfolding answer_setup
  answer_setup-words scnprintf c =
      let s = c.daemon.state in
      let head : List (List ℕ) = codes "SLEEP" ∷ print_ℤ c.daemon.sleep_interval ∷ [] in
      let irqs = irqs_words s s.cl_banned_irqs in
      let last : List (List ℕ) = codes "BANNED" ∷ [] in
      ap (λ t. t ++ scnprintf s.banned_cpus)
        (ap (λ t. t ++ unwords last) (irqs_data-words s s.cl_banned_irqs (unwords head))
          ∙ append_assoc (unwords head) (unwords irqs) (unwords last)
          ∙ ap (λ t. unwords head ++ t) (sym (unwords-append irqs last))
          ∙ sym (unwords-append head (irqs ++ last)))

  setup_words-words : (c : Settings M) → all_words (setup_words c) ≡ true
  setup_words-words c =
      let s = c.daemon.state in
      let irqs = irqs_words s s.cl_banned_irqs in
      ground (
        arith,
        is_word-print_ℤ c.daemon.sleep_interval,
        all_words-append irqs (codes "BANNED" ∷ []) (irqs_words-words s s.cl_banned_irqs) refl,
      )

  read_setup-words :
      (s : State M) (is p w : List ℕ) (n : ℕ)
      → strtol p ≡ pos n
      → n ≤ long_max
      → IrqsFit s is
      → read_setup (codes "SLEEP" ∷ p ∷ (irqs_words s is ++ codes "BANNED" ∷ w ∷ []))
        ≡ ok (record {
          sleep = n;
          banned_irqs = shown_irqs true s is;
          banned_cpus = ban_digits 0 (reverse_onto w []) [];
        })
  unfolding read_setup read_number expect read_banned
  read_setup-words s is p w n e h f =
      let last : Tokens = codes "BANNED" ∷ w ∷ [] in
      let all : Tokens = codes "SLEEP" ∷ p ∷ (irqs_words s is ++ last) in
      let fuel : length is < suc (length all) =
        omega (arith, length-append (irqs_words s is) last, irqs-words s is) in
      rw e (
        rw (read_irqs-words true s is (suc (length all)) [] last f fuel refl) (rw (small n h) refl))

  -- The daemon answers "setup", and the user interface reads the answer. When the bitmap library
  -- prints the mask of the banned CPUs as one word, the interval is not negative, and the numbers of
  -- the banned interrupts fit: parse_setup succeeds, and finds the interval, the banned interrupts
  -- in order, and the CPUs of the digits of the mask.
  pub parse_setup-answer_setup :
      (scnprintf : M → List ℕ) (c : Settings M) (setup : Setup) (n : ℕ)
      → let s = c.daemon.state in
        is_word (scnprintf s.banned_cpus) ≡ true
        → c.daemon.sleep_interval ≡ pos n
        → n < 2147483648
        → IrqsFit s s.cl_banned_irqs
        → parse_setup setup (answer_setup scnprintf c)
          ≡ ok (record {
            sleep = n;
            banned_irqs = shown_irqs true s s.cl_banned_irqs;
            banned_cpus = ban_digits 0 (reverse_onto (scnprintf s.banned_cpus) []) [];
          })
  unfolding parse_setup read_setup
  parse_setup-answer_setup scnprintf c setup n w e h f =
      let s = c.daemon.state in
      let mask_text = scnprintf s.banned_cpus in
      let irqs = irqs_words s s.cl_banned_irqs in
      ap (parse_setup setup) (answer_setup-words scnprintf c)
      ∙ ap read_setup (tokens-last (setup_words c) mask_text (setup_words-words c) w)
      ∙ ap (λ ts. read_setup (codes "SLEEP" ∷ print_ℤ c.daemon.sleep_interval ∷ ts))
          (append_assoc irqs (codes "BANNED" ∷ []) (mask_text ∷ []))
      ∙ read_setup-words s s.cl_banned_irqs (print_ℤ c.daemon.sleep_interval) mask_text n
          (ap (λ z. strtol (print_ℤ z)) e ∙ strtol-print_ℤ (pos n) (narrow_small n h)) (omega arith)
          f
