-- ===== src/Cputree/Parse.antt =====
-- cputree.c: setup_banned_cpus and parse_cpu_tree.
use irqbalance.Prelude.{
  drop, ℕ, Bool, true, false, ◌||◌, ◌&&◌, ◌==◌, Option, none, some, List, [], ◌∷◌, for_each, codes,
  is_prefix, is_digit, if◌then◌else◌,
}
use irqbalance.Types.{State}
use irqbalance.Types.Cpumask.{Cpumask}
use irqbalance.Cputree.Add.{CpuFiles, do_one_cpu}
use irqbalance.Numa.Build.{connect_cpu_mem_topo}

-- Where the banned CPUs come from. The parsers of the bitmap library are given: what they make of
-- a mask.
pub record BanSources (M : Type 0) : Type 0 where
  pub cpumask_parse_user : List ℕ → M → M
  pub cpulist_parse : List ℕ → M → M
  pub cpu_ban_string : Bool
  pub banned_cpumask_from_ui : Option (List ℕ)
  pub irqbalance_banned_cpus : Option (List ℕ)
  pub irqbalance_banned_cpulist : Option (List ℕ)
  pub isolated : Option (List ℕ)
  pub nohz_full : Option (List ℕ)
  pub thermal_banned_cpus : M

-- An entry of /sys/devices/system/cpu.
pub record CpuEntry (M : Type 0) : Type 0 where
  pub name : List ℕ
  pub files : CpuFiles M

abbrev pub digits_only : List ℕ → Bool
digits_only [] = true
digits_only (c ∷ cs) = is_digit c && digits_only cs

-- `sscanf(name, "cpu%d%c", …) == 1` of a name without a space: a number and nothing behind it.
abbrev pub is_number : List ℕ → Bool
is_number [] = false
is_number (c ∷ []) = is_digit c
is_number (c ∷ d ∷ cs) = (is_digit c || c == 45 || c == 43) && digits_only (d ∷ cs)

abbrev pub is_cpu_name : List ℕ → Bool
is_cpu_name name = is_prefix (codes "cpu") name && is_number (drop 3 name)

module _ {M : Type 0} ⦃mask : Cpumask M⦄ where
  abbrev pub get_mask_from_cpulist : BanSources M → List ℕ → M → M
  get_mask_from_cpulist b [] m = m
  get_mask_from_cpulist b (c ∷ cs) m = if c == 10 then m else b.cpulist_parse (c ∷ cs) m

  -- `process_one_line(path, get_mask_from_cpulist, &m)` of a cleared mask.
  unfoldable pub listed_in : BanSources M → Option (List ℕ) → M
  listed_in b none = mask.cpus_clear
  listed_in b (some line) = get_mask_from_cpulist b line mask.cpus_clear

  unfoldable pub ban_from_kernel : BanSources M → M
  unfolding listed_in
  ban_from_kernel b = mask.cpus_or (listed_in b b.nohz_full) (listed_in b b.isolated)

  unfoldable pub ban_from_list : BanSources M → Option (List ℕ) → M → M
  unfolding ban_from_kernel
  ban_from_list b (some env) banned = b.cpulist_parse env banned
  ban_from_list b none banned = ban_from_kernel b

  -- An empty text counts as none.
  unfoldable pub ban_from_env : BanSources M → Option (List ℕ) → M → M
  unfolding ban_from_list
  ban_from_env b (some (c ∷ cs)) banned = b.cpumask_parse_user (c ∷ cs) banned
  ban_from_env b (some []) banned = ban_from_list b b.irqbalance_banned_cpulist banned
  ban_from_env b none banned = ban_from_list b b.irqbalance_banned_cpulist banned

  unfoldable pub ban_from_user : BanSources M → Option (List ℕ) → M → M
  unfolding ban_from_env
  ban_from_user b (some text) banned =
      if b.cpu_ban_string
      then b.cpulist_parse text banned
      else ban_from_env b b.irqbalance_banned_cpus banned
  ban_from_user b none banned = ban_from_env b b.irqbalance_banned_cpus banned

  unfoldable pub setup_banned_cpus : BanSources M → State M → State M
  unfolding ban_from_user
  setup_banned_cpus b s =
      let banned = ban_from_user b b.banned_cpumask_from_ui s.banned_cpus in
      record s { banned_cpus = mask.cpus_or banned b.thermal_banned_cpus }

  -- The first two statements of parse_cpu_tree.
  unfoldable pub ban_cpus : BanSources M → State M → State M
  unfolding setup_banned_cpus
  ban_cpus b s =
      let t = setup_banned_cpus b s in
      record t { unbanned_cpus = mask.cpus_complement t.banned_cpus }

  unfoldable pub parse_cpu_entry : ℕ → M → CpuEntry M → State M → State M
  parse_cpu_entry deepest_cache online_cpus e s =
      if is_cpu_name e.name then do_one_cpu deepest_cache online_cpus e.files s else s

  -- `entries` is the directory, if it can be opened.
  unfoldable pub parse_cpu_tree :
      ℕ → BanSources M → M → Option (List (CpuEntry M)) → State M → State M
  unfolding ban_cpus parse_cpu_entry
  parse_cpu_tree deepest_cache b online_cpus none s = ban_cpus b s
  parse_cpu_tree deepest_cache b online_cpus (some entries) s =
      let t = for_each (parse_cpu_entry deepest_cache online_cpus) entries (ban_cpus b s) in
      for_each (connect_cpu_mem_topo 4) t.packages t
