-- ===== src/Irqbalance/Options.antt =====
-- irqbalance.c: parse_command_line. getopt_long of the C library gives the options one by one.
use irqbalance.Prelude.{
  ℕ, ℤ, pos, ◌≤◌, ◌≡◌, refl, ◌==◌, ltb, ltb_ℤ, not, Bool, true, false, ◌||◌, Option, some, List, [],
  ◌∷◌, arith, if◌then◌else◌, if_cases, if_cases_eq, codes, is_prefix, is_digit, skip_spaces,
  strtoul, strtol, narrow, to_int,
}
use irqbalance.Types.{State}
use irqbalance.Types.Cpumask.{Cpumask}
use irqbalance.Types.Word.{u64_max}
use irqbalance.Classify.Bans.{add_cl_banned_irq, add_cl_banned_module}

-- `lopts`, with the argument of those that have one. `unknown` is what getopt_long reports as '?'.
pub data Opt : Type 0 where
  unknown version debug foreground oneshot journal : Opt
  powerthresh banirq deepestcache policyscript pid banmod interval migrateval : List ℕ → Opt

-- The globals that the options set.
pub record Options (M : Type 0) : Type 0 where
  pub state : State M
  pub deepest_cache : ℕ
  pub sleep_interval : ℤ
  pub debug_mode : Bool
  pub foreground_mode : Bool
  pub one_shot_mode : Bool
  pub journal_logging : Bool
  pub polscript : Option (List ℕ)
  pub pidfile : Option (List ℕ)

-- `exits` is exit with that status.
pub data Parsing (M : Type 0) : Type 0 where
  going : Options M → Parsing M
  exits : ℕ → Parsing M

abbrev pub digit_next : List ℕ → Bool
digit_next [] = false
digit_next (c ∷ cs) = is_digit c

abbrev pub number_next : List ℕ → Bool
number_next [] = false
number_next (c ∷ cs) = if c == 45 || c == 43 then digit_next cs else is_digit c

-- `optarg != endptr`: there is a number to read.
abbrev pub has_number : List ℕ → Bool
has_number optarg = number_next (skip_spaces optarg)

abbrev pub is_version : Opt → Bool
is_version version = true
is_version _ = false

abbrev pub asks_version : List Opt → Bool
asks_version [] = false
asks_version (opt ∷ opts) = is_version opt || asks_version opts

at_least : (a b : Bool) (n : ℕ) → (a || b || ltb n 1) ≡ false → 1 ≤ n
at_least a b n e = ground arith

neither : (a b : Bool) → (a || b) ≡ false → b ≡ false
neither a b e = ground arith

module _ {M : Type 0} ⦃mask : Cpumask M⦄ where
  unfoldable pub set_power_thresh : List ℕ → Options M → Parsing M
  set_power_thresh optarg o =
      let n = strtoul optarg in
      if is_prefix (codes "off") optarg
      then going (record o { state = record o.state { power_thresh = u64_max } })
      else if not (has_number optarg) || n == u64_max
      then exits 1
      else going (record o { state = record o.state { power_thresh = n } })

  -- One round of the switch.
  unfoldable pub set_option : Opt → Options M → Parsing M
  unfolding set_power_thresh
  set_option unknown o = exits 1
  set_option version o = exits 0
  set_option debug o = going (record o { debug_mode = true; foreground_mode = true })
  set_option foreground o = going (record o { foreground_mode = true })
  set_option oneshot o = going (record o { one_shot_mode = true })
  set_option journal o = going (record o { journal_logging = true; foreground_mode = true })
  set_option (powerthresh optarg) o = set_power_thresh optarg o
  set_option (banirq optarg) o =
      let val = strtoul optarg in
      if not (has_number optarg) || val == u64_max
      then exits 1
      else going (record o { state = add_cl_banned_irq (to_int val) o.state })
  set_option (deepestcache optarg) o =
      let n = strtoul optarg in
      if not (has_number optarg) || n == u64_max || ltb n 1
      then exits 1
      else going (record o { deepest_cache = n })
  set_option (policyscript optarg) o = going (record o { polscript = some optarg })
  set_option (pid optarg) o = going (record o { pidfile = some optarg })
  set_option (banmod optarg) o = going (record o { state = add_cl_banned_module optarg o.state })
  set_option (interval optarg) o =
      let n = narrow (strtol optarg) in
      if not (has_number optarg) || ltb_ℤ n (pos 1)
      then exits 1
      else going (record o { sleep_interval = n })
  set_option (migrateval optarg) o =
      if not (has_number optarg)
      then exits 1
      else going (record o { state = record o.state { migrate_ratio = strtoul optarg } })

  abbrev pub and_then : Parsing M → (Options M → Parsing M) → Parsing M
  and_then (exits status) next = exits status
  and_then (going o) next = next o

  unfoldable pub parse_command_line : List Opt → Options M → Parsing M
  unfolding set_option
  parse_command_line [] o = going o
  parse_command_line (opt ∷ opts) o = and_then (set_option opt o) (λ o. parse_command_line opts o)

  -- What the rest of the program relies on.
  pub record IsValid (o : Options M) : Type 0 where
    pub cache : 1 ≤ o.deepest_cache
    pub pause : ltb_ℤ o.sleep_interval (pos 1) ≡ false

  -- A command line that is taken leaves valid options; otherwise the daemon exits with 1, or with 0
  -- where the version is asked for.
  pub data Proper (opts : List Opt) : Parsing M → Type 0 where
    taken : (o : Options M) → IsValid o → Proper opts (going o)
    failed : Proper opts (exits 1)
    asked : asks_version opts ≡ true → Proper opts (exits 0)

  with_state :
      (opts : List Opt) (o : Options M) (s : State M)
      → IsValid o
      → Proper opts (going (record o { state = s }))
  with_state opts o s v = taken _ (record { cache = v.cache; pause = v.pause })

  set_option-Proper :
      (opt : Opt) (opts : List Opt) (o : Options M)
      → IsValid o
      → Proper (opt ∷ opts) (set_option opt o)
  unfolding set_option
  set_option-Proper unknown opts o v = failed
  set_option-Proper version opts o v = asked refl
  set_option-Proper debug opts o v = taken _ (record { cache = v.cache; pause = v.pause })
  set_option-Proper foreground opts o v = taken _ (record { cache = v.cache; pause = v.pause })
  set_option-Proper oneshot opts o v = taken _ (record { cache = v.cache; pause = v.pause })
  set_option-Proper journal opts o v = taken _ (record { cache = v.cache; pause = v.pause })
  set_option-Proper (powerthresh t) opts o v =
      let P = Proper (powerthresh t ∷ opts) in
      let n = strtoul t in
      if_cases P (is_prefix (codes "off") t)
        (with_state (powerthresh t ∷ opts) o (record o.state { power_thresh = u64_max }) v)
        (if_cases P (not (has_number t) || n == u64_max) failed
          (with_state (powerthresh t ∷ opts) o (record o.state { power_thresh = n }) v))
  set_option-Proper (banirq t) opts o v =
      if_cases (Proper (banirq t ∷ opts)) (not (has_number t) || strtoul t == u64_max) failed
        (with_state (banirq t ∷ opts) o (add_cl_banned_irq (to_int (strtoul t)) o.state) v)
  set_option-Proper (deepestcache t) opts o v =
      let n = strtoul t in
      if_cases_eq (Proper (deepestcache t ∷ opts)) (not (has_number t) || n == u64_max || ltb n 1)
        (λ e. failed)
        (λ e.
          taken (record o { deepest_cache = n })
            (record { cache = at_least (not (has_number t)) (n == u64_max) n e; pause = v.pause }))
  set_option-Proper (policyscript t) opts o v =
      taken _ (record { cache = v.cache; pause = v.pause })
  set_option-Proper (pid t) opts o v = taken _ (record { cache = v.cache; pause = v.pause })
  set_option-Proper (banmod t) opts o v =
      with_state (banmod t ∷ opts) o (add_cl_banned_module t o.state) v
  set_option-Proper (interval t) opts o v =
      let n = narrow (strtol t) in
      if_cases_eq (Proper (interval t ∷ opts)) (not (has_number t) || ltb_ℤ n (pos 1)) (λ e. failed)
        (λ e.
          taken (record o { sleep_interval = n })
            (record { cache = v.cache; pause = neither (not (has_number t)) (ltb_ℤ n (pos 1)) e }))
  set_option-Proper (migrateval t) opts o v =
      if_cases (Proper (migrateval t ∷ opts)) (not (has_number t)) failed
        (with_state (migrateval t ∷ opts) o (record o.state { migrate_ratio = strtoul t }) v)

  more : (opt : Opt) (opts : List Opt) (r : Parsing M) → Proper opts r → Proper (opt ∷ opts) r
  more opt opts _ (taken o v) = taken o v
  more opt opts _ failed = failed
  more opt opts _ (asked e) = asked (ground (arith, e))

  and_then-Proper :
      (opt : Opt) (opts : List Opt) (r : Parsing M) (next : Options M → Parsing M)
      → Proper (opt ∷ opts) r
      → ((u : Options M) → IsValid u → Proper opts (next u))
      → Proper (opt ∷ opts) (and_then r next)
  and_then-Proper opt opts _ next (taken u w) h = more opt opts (next u) (h u w)
  and_then-Proper opt opts _ next failed h = failed
  and_then-Proper opt opts _ next (asked e) h = asked e

  -- The command line, from options that are valid: if it is taken, at least one level of caches is
  -- looked at and the daemon pauses for a second at least; if not, the daemon exits with 1, or with
  -- 0, and then the version is asked for.
  pub parse_command_line-Proper :
      (opts : List Opt) (o : Options M) → IsValid o → Proper opts (parse_command_line opts o)
  unfolding parse_command_line
  parse_command_line-Proper [] o v = taken o v
  parse_command_line-Proper (opt ∷ opts) o v =
      and_then-Proper opt opts (set_option opt o) (λ o. parse_command_line opts o)
        (set_option-Proper opt opts o v) (λ u w. parse_command_line-Proper opts u w)
