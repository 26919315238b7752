-- ===== src/Classify/Policy.antt =====
-- classify.c: the policy that the user's scripts give for an interrupt.
use irqbalance.Prelude.{
  ℕ, ℤ, ◌==◌, Bool, true, false, Option, none, some, is_some, List, [], ◌∷◌, for_each, same_text,
  before_char, after_char, strtoul, to_int, if◌then◌else◌,
}
use irqbalance.Types.{State, Level, balance_none, balance_package, balance_cache, balance_core}
use irqbalance.Numa.{get_numa_node}

-- `none` is the -1 of a field that no policy sets. `numa_node` is set with `numa_node_set`.
pub record UserIrqPolicy : Type 0 where
  pub ban : Option Bool
  pub level : Option Level
  pub numa_node : Option ℤ

abbrev pub no_policy : UserIrqPolicy
no_policy = record { ban = none; level = none; numa_node = none }

-- "ban", "balance_level", "numa_node", "false", "true", "none", "package", "cache", "core".
abbrev pub word_ban : List ℕ
word_ban = 98 ∷ 97 ∷ 110 ∷ []

abbrev pub word_balance_level : List ℕ
word_balance_level = 98 ∷ 97 ∷ 108 ∷ 97 ∷ 110 ∷ 99 ∷ 101 ∷ 95 ∷ 108 ∷ 101 ∷ 118 ∷ 101 ∷ 108 ∷ []

abbrev pub word_numa_node : List ℕ
word_numa_node = 110 ∷ 117 ∷ 109 ∷ 97 ∷ 95 ∷ 110 ∷ 111 ∷ 100 ∷ 101 ∷ []

abbrev pub word_false : List ℕ
word_false = 102 ∷ 97 ∷ 108 ∷ 115 ∷ 101 ∷ []

abbrev pub word_true : List ℕ
word_true = 116 ∷ 114 ∷ 117 ∷ 101 ∷ []

abbrev pub word_none : List ℕ
word_none = 110 ∷ 111 ∷ 110 ∷ 101 ∷ []

abbrev pub word_package : List ℕ
word_package = 112 ∷ 97 ∷ 99 ∷ 107 ∷ 97 ∷ 103 ∷ 101 ∷ []

abbrev pub word_cache : List ℕ
word_cache = 99 ∷ 97 ∷ 99 ∷ 104 ∷ 101 ∷ []

abbrev pub word_core : List ℕ
word_core = 99 ∷ 111 ∷ 114 ∷ 101 ∷ []

-- `idx` of `levelvals`, if the value is one of them.
unfoldable pub level_named : List ℕ → Option Level
level_named value =
    if same_text word_none value
    then some balance_none
    else if same_text word_package value
    then some balance_package
    else if same_text word_cache value
    then some balance_cache
    else if same_text word_core value
    then some balance_core
    else none

unfoldable pub set_ban : List ℕ → UserIrqPolicy → UserIrqPolicy
set_ban value pol =
    if same_text word_false value
    then record pol { ban = some false }
    else if same_text word_true value
    then record pol { ban = some true }
    else pol

unfoldable pub set_level : Option Level → UserIrqPolicy → UserIrqPolicy
set_level none pol = pol
set_level (some l) pol = record pol { level = some l }

module _ {M : Type 0} where
  unfoldable pub set_node : State M → ℤ → UserIrqPolicy → UserIrqPolicy
  set_node s idx pol =
      if is_some (get_numa_node s idx) then record pol { numa_node = some idx } else pol

  unfoldable pub set_key : State M → List ℕ → List ℕ → UserIrqPolicy → UserIrqPolicy
  unfolding set_ban set_level set_node level_named
  set_key s key value pol =
      if same_text word_ban key
      then set_ban value pol
      else if same_text word_balance_level key
      then set_level (level_named value) pol
      else if same_text word_numa_node key
      then set_node s (to_int (strtoul value)) pol
      else pol

  -- One line `key=value`; the value ends at the newline. Other lines are ignored.
  unfoldable pub parse_user_policy_key : State M → List ℕ → UserIrqPolicy → UserIrqPolicy
  unfolding set_key
  parse_user_policy_key s buf pol = elim (after_char 61 buf) [
    | none ↦ pol
    | some value ↦ set_key s (before_char 61 buf) (before_char 10 value) pol
  ]

-- A run of a script: whether it starts, the lines it prints, its exit status.
pub record ScriptRun : Type 0 where
  pub starts : Bool
  pub lines : List (List ℕ)
  pub status : ℕ

-- An entry of a directory of scripts, for one interrupt.
pub record ScriptFile : Type 0 where
  pub can_stat : Bool
  pub is_regular : Bool
  pub is_executable : Bool
  pub run : ScriptRun

-- What `polscript` names. `missing` is also a file that cannot be found.
pub data PolicyScript : Type 0 where
  missing : PolicyScript
  script : ScriptRun → PolicyScript
  directory : Bool → List ScriptFile → PolicyScript

abbrev pub is_runnable : ScriptFile → Bool
is_runnable f = if f.can_stat then (if f.is_regular then f.is_executable else false) else false

module _ {M : Type 0} where
  -- The exit status, and what the lines make of the policy. One that does not start has status 1.
  unfoldable pub run_script_for_policy : State M → ScriptRun → UserIrqPolicy → ℕ × UserIrqPolicy
  run_script_for_policy s r pol =
      if r.starts then (r.status, for_each (parse_user_policy_key s) r.lines pol) else (1, pol)

  -- The first script that accepts the interrupt ends the search. A script that rejects it, or fails,
  -- leaves what it printed until the next script runs.
  unfoldable pub first_accepting : State M → List ScriptFile → UserIrqPolicy → UserIrqPolicy
  unfolding run_script_for_policy
  first_accepting s [] pol = pol
  first_accepting s (f ∷ fs) pol =
      let (ret, after) = run_script_for_policy s f.run no_policy in
      let next = first_accepting s fs after in
      let skipped = first_accepting s fs pol in
      if is_runnable f then (if ret == 0 then after else next) else skipped

  unfoldable pub get_irq_user_policy : State M → PolicyScript → UserIrqPolicy
  unfolding first_accepting run_script_for_policy
  get_irq_user_policy s PolicyScript.missing = no_policy
  get_irq_user_policy s (PolicyScript.script r) =
      let (ret, pol) = run_script_for_policy s r no_policy in if ret == 0 then pol else no_policy
  get_irq_user_policy s (PolicyScript.directory opens files) =
      if opens then first_accepting s files no_policy else no_policy
