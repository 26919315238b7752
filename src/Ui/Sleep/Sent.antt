-- ===== src/Ui/Sleep/Sent.antt =====
-- ui/ui.c and irqbalance.c: the interval that the user types, as the daemon takes it.
use irqbalance.Prelude.{
  ℕ, pos, ◌+◌, ◌<◌, ◌≡◌, ◌≢◌, refl, sym, ap, ◌∙◌, ◌==◌, true, false, none, some, List, [], ◌∷◌,
  ◌++◌, append_assoc, append-nil, arith, length, length-append, map, codes, digits, all_digits,
  all_above, all_above-digits, all_above-print, before_char, before_char-above, after_digits,
  strtol, strtol-digits, strtoul, long_max, at_most, word64, to_int, print_ℕ, length-print_ℕ,
  ==_refl, ltb, lt→ltb, ◌%◌,
}
use irqbalance.Types.Cpumask.{Cpumask}
use irqbalance.Irqbalance.Commands.{
  Settings, set_sleep, with_argument, change_settings, run_command, sock_handle,
}
use irqbalance.Irqbalance.Commands.BanList.{strtoul-print_ℕ, to_int_small}
use irqbalance.Irqbalance.Commands.Received.{from_root, argument-append, sock_handle-from_root}
use irqbalance.Ui.Window.{Key, enter, escape, char}
use irqbalance.Ui.Setup.{Setup}
use irqbalance.Ui.Sleep.{
  is_read, Asked, settled, after_line, check_control_in_sleep_input, get_valid_sleep_input,
  after_input, handle_sleep_setting,
}

-- Digits that are typed stand in the line.
get_valid-digits :
    (sleep : ℕ) (w : List ℕ) (ks : List Key) (input : List ℕ)
    → all_digits w ≡ true
    → length input + length w < 20
    → get_valid_sleep_input sleep (map char w ++ ks) input
      ≡ get_valid_sleep_input sleep ks (input ++ w)
unfolding get_valid_sleep_input
get_valid-digits sleep [] ks input h l =
    ap (get_valid_sleep_input sleep ks) (sym (append-nil input))
get_valid-digits sleep (c ∷ w) ks input h l =
    let rest =
      get_valid-digits sleep w ks (input ++ c ∷ []) (ground arith)
        (omega (arith, length-append input (c ∷ []))) in
    let letter : (c == 113) ≡ false = ground arith in
    let room : ltb (length input + 1) 20 ≡ true = lt→ltb (length input + 1) 20 (omega arith) in
    let byte : c % 256 ≡ c = ground arith in
    rw letter (
      rw room
        (rw byte (rest ∙ ap (get_valid_sleep_input sleep ks) (append_assoc input (c ∷ []) w))))

after_digits-all : (w : List ℕ) → all_digits w ≡ true → after_digits w ≡ []
after_digits-all [] h = refl
after_digits-all (c ∷ w) h = ground (arith, after_digits-all w)

-- The C library reads a line of digits to its end.
is_read-digits : (w : List ℕ) → all_digits w ≡ true → 0 < length w → is_read w ≡ true
is_read-digits [] h l = absurd (omega arith)
is_read-digits (c ∷ []) h l = ground arith
is_read-digits (c ∷ d ∷ cs) h l = ground (arith, after_digits-all cs)

-- The value of the line is the interval.
line-settles :
    (w : List ℕ) (n : ℕ) (rest : List ℕ → Asked)
    → all_digits w ≡ true
    → 0 < length w
    → digits 0 w ≡ n
    → 0 < n
    → n < 2147483648
    → after_line (before_char 0 w) rest ≡ settled (pos n)
line-settles w n rest h l v p b =
    let plain = before_char-above 0 0 w (omega arith) (all_above-digits 0 w (omega arith) h) in
    let value : strtol w ≡ pos n =
      strtol-digits w h ∙ ap (λ d. pos (at_most long_max d)) v ∙ ground arith in
    rw plain (rw (is_read-digits w h l) (rw value (ground arith)))

word64_small : (n : ℕ) → n < 2147483648 → word64 (pos n) ≡ n
word64_small n h = ground arith

-- The setup and the message after a number that differs from the old interval.
after_input-new :
    (setup : Setup) (n : ℕ)
    → n < 2147483648
    → n ≢ setup.sleep
    → after_input setup (settled (pos n))
      ≡ some (record setup { sleep = n }, some (codes "settings sleep " ++ 32 ∷ print_ℕ n))
after_input-new setup n h d =
    let other : (n == setup.sleep) ≡ false = ground (arith, d) in
    rw (word64_small n h) (rw other refl)

after_input-same :
    (setup : Setup)
    → setup.sleep < 2147483648
    → after_input setup (settled (to_int setup.sleep)) ≡ some (setup, none)
after_input-same setup h =
    let same : word64 (to_int setup.sleep) ≡ setup.sleep =
      ap word64 (to_int_small setup.sleep h) ∙ word64_small setup.sleep h in
    rw same (rw (==_refl setup.sleep) refl)

module _ {M : Type 0} ⦃mask : Cpumask M⦄ where
  set_sleep-print :
      (n : ℕ) (c : Settings M)
      → 0 < n
      → n < 2147483648
      → set_sleep (32 ∷ print_ℕ n) c
        ≡ record c { daemon = record c.daemon { sleep_interval = pos n } }
  unfolding set_sleep
  set_sleep-print n c p b =
      let whole = append-nil (print_ℕ n) in
      let value : to_int (strtoul (32 ∷ print_ℕ n)) ≡ pos n =
        ap (λ t. to_int (strtoul (32 ∷ t))) (sym whole)
        ∙ ap to_int (strtoul-print_ℕ n [] b refl).0
        ∙ to_int_small n b in
      rw value (ground arith)

  run_sleep :
      (scnprintf : M → List ℕ) (t stale : List ℕ) (c : Settings M)
      → all_above 0 t ≡ true
      → run_command scnprintf
          (length (codes "settings sleep " ++ t))
          ((codes "settings sleep " ++ t) ++ stale)
          c
        ≡ (none, set_sleep t c)
  unfolding run_command change_settings
  run_sleep scnprintf t stale c above =
      ap (λ a. (none, with_argument a set_sleep c))
        (argument-append (codes "settings sleep ") t stale above)

  -- The user types an interval: up to 19 digits for a number that is not 0 and fits an `int`, other
  -- than the one that is set. Enter keeps it in the setup and sends it, and the daemon, which takes
  -- the message from a client that is root, pauses for as long from then on and changes nothing
  -- else. After ESC the setup stays and nothing is sent.
  pub handle_sleep_setting-sock_handle :
      (scnprintf : M → List ℕ) (setup : Setup) (w stale : List ℕ) (n : ℕ) (c : Settings M)
      → all_digits w ≡ true
      → 0 < length w
      → length w < 20
      → digits 0 w ≡ n
      → 0 < n
      → n < 2147483648
      → n ≢ setup.sleep
      → setup.sleep < 2147483648
      → let message = codes "settings sleep " ++ 32 ∷ print_ℕ n in
        (handle_sleep_setting setup (map char w ++ enter ∷ [])
          ≡ some (record setup { sleep = n }, some message))
        × (sock_handle scnprintf (from_root message stale) c
            ≡ (none, record c { daemon = record c.daemon { sleep_interval = pos n } }))
        × (handle_sleep_setting setup (map char w ++ escape ∷ []) ≡ some (setup, none))
  unfolding handle_sleep_setting get_valid_sleep_input check_control_in_sleep_input
  handle_sleep_setting-sock_handle scnprintf setup w stale n c h l m v p b d o =
      let message = codes "settings sleep " ++ 32 ∷ print_ℕ n in
      let rest = get_valid_sleep_input setup.sleep [] in
      let typed_in = get_valid-digits setup.sleep w (enter ∷ []) [] h (omega arith) in
      let left = get_valid-digits setup.sleep w (escape ∷ []) [] h (omega arith) in
      let short : length message ≢ 16384 =
        λ q. absurd (omega (arith, length-print_ℕ 9 n (omega arith))) in
      (
        ap (after_input setup) (typed_in ∙ line-settles w n rest h l v p b)
            ∙ after_input-new setup n b d,
        sock_handle-from_root scnprintf message stale c short
            ∙ run_sleep scnprintf (32 ∷ print_ℕ n) stale c (all_above-print 0 n (omega arith))
            ∙ ap (λ r. (none, r)) (set_sleep-print n c p b),
        ap (after_input setup) left ∙ after_input-same setup o,
      )
