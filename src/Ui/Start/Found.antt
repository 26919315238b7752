-- ===== src/Ui/Start/Found.antt =====
-- ui/irqbalance-ui.c, `main`: which process is taken for the daemon.
use irqbalance.Prelude.{
  codes, has_substring, ℕ, pos, ◌<◌, ◌≡◌, refl, Bool, true, false, Option, none, some, List, [],
  ◌∷◌, ◌++◌, ap, ◌∙◌, arith, ℤ, sym, append-nil, ◌&&◌, not, print_ℕ, strtol, strtol-print_ℕ, word64,
  to_int, ◌==ℤ◌,
}
use irqbalance.Irqbalance.Commands.BanList.{to_int_small}
use irqbalance.Ui.Start.{
  read_cmdline, names_daemon, cmdfile, no_pid, try_entry, find_pid, no_daemon, running, start,
}

-- The line names irqbalance, and not its user interface.
abbrev pub is_daemon_line : List ℕ → Bool
is_daemon_line line =
    has_substring line (codes "irqbalance") && not (has_substring line (codes "irqbalance-ui"))

-- An entry's file that does not open, is empty, or is the command line of another program.
abbrev pub is_other : Option (List ℕ) → Bool
is_other none = true
is_other (some []) = true
is_other (some (c ∷ cs)) = not (is_daemon_line (read_cmdline (c ∷ cs) []))

abbrev pub are_others : (List ℕ → Option (List ℕ)) → List (List ℕ) → Bool
are_others fopen [] = true
are_others fopen (name ∷ names) = is_other (fopen (cmdfile name)) && are_others fopen names

abbrev pub is_daemon : Option (List ℕ) → Bool
is_daemon none = false
is_daemon (some []) = false
is_daemon (some (c ∷ cs)) = is_daemon_line (read_cmdline (c ∷ cs) [])

not-false : (b : Bool) → not b ≡ true → b ≡ false
not-false true h = ground arith
not-false false h = refl

both : (a b : Bool) → (a && b) ≡ true → (a ≡ true) × (b ≡ true)
both true b h = (refl, h)
both false b h = absurd (ground arith)

-- The search goes on behind another program, with a line that names no daemon.
try-other :
    (file : Option (List ℕ)) (name line : List ℕ) (rest : List ℕ → ℤ)
    → is_other file ≡ true
    → is_daemon_line line ≡ false
    → (next : List ℕ) × (is_daemon_line next ≡ false) × (try_entry file name line rest ≡ rest next)
unfolding names_daemon
try-other none name line rest h l = (line, l, refl)
try-other (some []) name line rest h l = (line, l, rw l refl)
try-other (some (c ∷ cs)) name line rest h l =
    let next = read_cmdline (c ∷ cs) [] in
    let other = not-false (is_daemon_line next) h in (next, other, rw other refl)

pid-no_pid : (n : ℕ) → (pos n ==ℤ no_pid) ≡ false
pid-no_pid n = ground arith

try-daemon :
    (file : Option (List ℕ)) (n : ℕ) (line : List ℕ) (rest : List ℕ → ℤ)
    → is_daemon file ≡ true
    → n < 2147483648
    → try_entry file (print_ℕ n) line rest ≡ pos n
unfolding names_daemon
try-daemon none n line rest h b = absurd (ground arith)
try-daemon (some []) n line rest h b = absurd (ground arith)
try-daemon (some (c ∷ cs)) n line rest h b =
    let small : word64 (pos n) ≡ n = ground arith in
    let value : to_int (word64 (strtol (print_ℕ n))) ≡ pos n =
      ap (λ z. to_int (word64 z)) (strtol-print_ℕ n (omega arith))
      ∙ ap to_int small
      ∙ to_int_small n b in
    rw h (rw value (rw (pid-no_pid n) refl))

find_pid-others :
    (fopen : List ℕ → Option (List ℕ)) (before after : List (List ℕ)) (line : List ℕ)
    → are_others fopen before ≡ true
    → is_daemon_line line ≡ false
    → (next : List ℕ) × (is_daemon_line next ≡ false)
      × (find_pid fopen (before ++ after) line ≡ find_pid fopen after next)
unfolding find_pid
find_pid-others fopen [] after line h l = (line, l, refl)
find_pid-others fopen (name ∷ before) after line h l =
    let now = both (is_other (fopen (cmdfile name))) (are_others fopen before) h in
    let first =
      try-other (fopen (cmdfile name)) name line (find_pid fopen (before ++ after)) now.0 l in
    let rest = find_pid-others fopen before after first.0 now.1 first.1 in
    (rest.0, rest.1, first.2 ∙ rest.2)

-- Without an argument, as root. The entries of /proc before the daemon's have files that do not
-- open, are empty, or are command lines of other programs; no daemon is named in the buffer at
-- first. Then the user interface talks to the daemon's process, whatever entries follow. When all
-- entries are such, it ends with the message that there is no daemon.
pub start-found :
    (fopen : List ℕ → Option (List ℕ)) (before after : List (List ℕ)) (n : ℕ) (line : List ℕ)
    → are_others fopen before ≡ true
    → is_daemon_line line ≡ false
    → is_daemon (fopen (cmdfile (print_ℕ n))) ≡ true
    → n < 2147483648
    → (start 0 fopen (some (before ++ print_ℕ n ∷ after)) line [] ≡ running (pos n))
      × (start 0 fopen (some before) line [] ≡ no_daemon)
unfolding start find_pid
start-found fopen before after n line h l d b =
    let passed = find_pid-others fopen before (print_ℕ n ∷ after) line h l in
    let all = find_pid-others fopen before [] line h l in
    let found =
      passed.2 ∙ try-daemon (fopen (cmdfile (print_ℕ n))) n passed.0 (find_pid fopen after) d b in
    (rw found (rw (pid-no_pid n) refl), rw (sym (append-nil before)) (rw all.2 refl))
