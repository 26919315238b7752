-- ===== src/Ui/Cpus/Sent.antt =====
-- ui/ui.c and irqbalance.c: the bans of CPUs that the user interface saves, as the daemon takes
-- them.
use irqbalance.Prelude.{
  ℕ, ◌+◌, ◌<◌, ◌≤◌, ◌≡◌, ◌≢◌, refl, sym, ap, ◌∙◌, true, false, none, some, List, [], ◌∷◌, ◌++◌,
  append_assoc, arith, length, length-append, for_each, codes, all_above, all_above-append,
  before_char, before_char-above, is_prefix, subst, if◌then◌else◌, Bool-cases, inl, inr, concat_map,
}
use irqbalance.Numa.Build.{digit_first}
use irqbalance.Types.Cpumask.{Cpumask}
use irqbalance.Irqbalance.Commands.{
  Settings, map_state, skip_blanks, keep_cpus, set_cpus, with_argument, change_settings,
  run_command, sock_handle,
}
use irqbalance.Irqbalance.Commands.Received.{from_root, argument-append, sock_handle-from_root}
use irqbalance.Ui.Window.{Window, Key, ScrollsOver}
use irqbalance.Ui.Cpus.{CpuBan, get_new_cpu_ban_values, cpu_settings, ended, handle_cpu_banning}
use irqbalance.Ui.Cpus.Safe.{EndsWell, handle_cpu_banning-EndsWell}
use irqbalance.Ui.Cpus.Numbered.{IsNumbered}
use irqbalance.Ui.Cpus.Words.{
  ban_text, any_banned, settings_text, digit_first-append, ban_text_cases,
}

skip_blanks-above : (t : List ℕ) → all_above 32 t ≡ true → skip_blanks t ≡ t
skip_blanks-above [] h = refl
skip_blanks-above (x ∷ xs) h = ground arith

all_above-weaken : (t : List ℕ) → all_above 32 t ≡ true → all_above 0 t ≡ true
all_above-weaken [] h = refl
all_above-weaken (x ∷ xs) h = ground (arith, all_above-weaken xs)

saved_text : List CpuBan → List ℕ
saved_text cpus = codes "settings cpus " ++ (concat_map ban_text cpus ++ codes "NULL")

cpu_settings-text :
    (cpus : List CpuBan) (message : List ℕ)
    → IsNumbered 0 cpus
    → length cpus ≤ 250
    → cpu_settings cpus ≡ some message
    → (message ≡ saved_text cpus) × (length message ≢ 16384)
unfolding cpu_settings saved_text
cpu_settings-text cpus message h b e =
    let prefix = codes "settings cpus " in
    let text = for_each get_new_cpu_ban_values cpus prefix in
    let whole = (settings_text 0 cpus prefix h (omega arith) (omega arith)).0 in
    let sent : message ≡ text ++ codes "NULL" = ground arith in
    let size = length-append text (codes "NULL") in
    let short : length text + 4 < 1024 = ground arith in
    (
      sent
          ∙ ap (λ t. t ++ codes "NULL") whole
          ∙ append_assoc prefix (concat_map ban_text cpus) (codes "NULL"),
      rw sent (λ q. absurd (omega arith)),
    )

module _ {M : Type 0} ⦃mask : Cpumask M⦄ where
  -- What the daemon makes of a saved list: the old texts go, the new one stands if a CPU is banned,
  -- and the tree is built again.
  abbrev pub with_bans : List CpuBan → Settings M → Settings M
  with_bans cpus c =
      let word = concat_map ban_text cpus ++ codes "NULL" in
      map_state (λ s. record s { need_rescan = true })
        (record c {
          cpu_ban_string = if any_banned cpus then some word else none;
          banned_cpumask_from_ui = if any_banned cpus then some word else none;
        })

  keep_cpus-digits :
      (t w : List ℕ) (c : Settings M)
      → digit_first w ≡ true
      → keep_cpus t w c ≡ record c { cpu_ban_string = some t; banned_cpumask_from_ui = some w }
  keep_cpus-digits t [] c h = absurd cc
  keep_cpus-digits t (x ∷ xs) c h =
      let e : is_prefix (codes "NULL") (x ∷ xs) ≡ false = ground arith in rw e refl

  set_cpus-text :
      (cpus : List CpuBan) (c : Settings M)
      → IsNumbered 0 cpus
      → all_above 32 (concat_map ban_text cpus ++ codes "NULL") ≡ true
      → set_cpus
          (concat_map ban_text cpus ++ codes "NULL")
          (record c { cpu_ban_string = none; banned_cpumask_from_ui = none })
        ≡ with_bans cpus c
  unfolding set_cpus
  set_cpus-text cpus c h a =
      let word = concat_map ban_text cpus ++ codes "NULL" in
      let bare = record c { cpu_ban_string = none; banned_cpumask_from_ui = none } in
      let first : before_char 32 (skip_blanks word) ≡ word =
        ap (before_char 32) (skip_blanks-above word a)
        ∙ before_char-above 32 32 word (omega arith) a in
      let cases = ban_text_cases 0 cpus h in
      rw first (elim (Bool-cases (any_banned cpus)) [
        | inl b ↦
            rw
              (keep_cpus-digits word word bare
                (digit_first-append (concat_map ban_text cpus) (codes "NULL") (cases.0 b)))
              (rw b refl)
        | inr b ↦ rw (cases.1 b) (rw b refl)
      ])

  run-saved_text :
      (scnprintf : M → List ℕ) (cpus : List CpuBan) (stale : List ℕ) (c : Settings M)
      → IsNumbered 0 cpus
      → length cpus ≤ 250
      → run_command scnprintf (length (saved_text cpus)) (saved_text cpus ++ stale) c
        ≡ (none, with_bans cpus c)
  unfolding run_command change_settings saved_text
  run-saved_text scnprintf cpus stale c h b =
      let prefix = codes "settings cpus " in
      let word = concat_map ban_text cpus ++ codes "NULL" in
      let bare = record c { cpu_ban_string = none; banned_cpumask_from_ui = none } in
      let plain = (settings_text 0 cpus prefix h (omega arith) (omega arith)).1 in
      let above : all_above 32 word ≡ true =
        all_above-append 32 (concat_map ban_text cpus) (codes "NULL") plain refl in
      let copied = argument-append prefix word stale (all_above-weaken word above) in
      let done = set_cpus-text cpus c h above in
      ap (λ a. (none, with_argument a set_cpus bare)) copied ∙ ap (λ d. (none, d)) done

  -- The user edits the bans of the CPUs, numbered from 0, and saves; the daemon takes the message
  -- that is sent, from a client that is root. Then exactly the numbers that the saved list bans
  -- stand in the text that the next build of the tree reads, and none stands if no CPU is banned.
  -- The tree is built again, nothing else of the settings changes, and nothing is answered.
  pub handle_cpu_banning-sock_handle :
      (scnprintf : M → List ℕ) (all_cpus cpus : List CpuBan) (keys : List Key) (w w' : Window)
      (message stale : List ℕ) (c : Settings M)
      → IsNumbered 0 all_cpus
      → 0 < length all_cpus
      → length all_cpus ≤ 250
      → ScrollsOver (length all_cpus) 8 w
      → handle_cpu_banning all_cpus keys w ≡ ended w' cpus (some message)
      → sock_handle scnprintf (from_root message stale) c ≡ (none, with_bans cpus c)
  handle_cpu_banning-sock_handle scnprintf all_cpus cpus keys w w' message stale c h p b o e =
      let (over, numbered, counted, told) =
        subst (EndsWell (length all_cpus)) e
          (handle_cpu_banning-EndsWell all_cpus keys w h p b o) in
      let few : length cpus ≤ 250 = omega arith in
      let (text, short) = cpu_settings-text cpus message numbered few (told message refl) in
      sock_handle-from_root scnprintf message stale c short
      ∙ subst (λ x. run_command scnprintf (length x) (x ++ stale) c ≡ (none, with_bans cpus c))
          (sym text) (run-saved_text scnprintf cpus stale c numbered few)
