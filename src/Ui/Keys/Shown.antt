-- ===== src/Ui/Keys/Shown.antt =====
-- ui/ui.c: what drawing a screen leaves of the state, if the daemon has answered.
use irqbalance.Prelude.{◌+◌, ◌-◌, ◌<◌, ◌≤◌, ◌≡◌, refl, List, [], ◌∷◌, arith, length, subst}
use irqbalance.Ui.Model.{Tree, Parsed, ok, out, fault, unfinished, ◌>>=◌}
use irqbalance.Ui.Window.{ScrollsOver}
use irqbalance.Ui.Setup.{Setup, parse_setup}
use irqbalance.Ui.Cpus.{CpuBan}
use irqbalance.Ui.Cpus.Numbered.{IsNumbered}
use irqbalance.Ui.Cpus.Cursor.{draw-max}
use irqbalance.Ui.Lists.{walk_tree, get_all_cpus, get_all_irqs, parse_into_tree}
use irqbalance.Ui.Keys.{
  settings, Ui, Input, display_tree_node, display_tree, show_settings, show_irqs,
}

-- What holds of a result, if there is one.
abbrev pub After {ℓ κ} : {A : Type ℓ} → (A → Type κ) → Parsed A → Type κ
After P (ok a) = P a
After P out = Unit
After P fault = Unit
After P unfinished = Unit

pub After-bind {ℓ κ μ} :
    {A : Type ℓ} {B : Type κ} (P : B → Type μ) (m : Parsed A) (f : A → Parsed B)
    → ((a : A) → After P (f a))
    → After P (m >>= f)
After-bind P (ok a) f k = k a
After-bind P out f k = tt
After-bind P fault f k = tt
After-bind P unfinished f k = tt

pub After-eq {ℓ κ} :
    {A : Type ℓ} (P : A → Type κ) (m : Parsed A) (a : A) → After P m → m ≡ ok a → P a
After-eq P (ok b) a h e = let same : b ≡ a = cc in subst P same h
After-eq P out a h e = absurd cc
After-eq P fault a h e = absurd cc
After-eq P unfinished a h e = absurd cc

-- The CPUs have been read, and are numbered from 0.
pub record Known (cpus : List CpuBan) : Type 0 where
  pub numbered : IsNumbered 0 cpus
  pub any : 0 < length cpus
  pub few : length cpus ≤ 250

-- A screen of the settings that can be edited.
pub record InView (ui : Ui) : Type 0 where
  pub known : Known ui.all_cpus
  pub over : ScrollsOver (length ui.all_cpus) 8 ui.window

unfoldable pub Stays : Ui → Type 0
Stays ui = ui.state ≡ settings → InView ui

-- The list that is there is shown again, whatever the daemon answers.
pub get_all_cpus-same :
    (sort : List CpuBan → List CpuBan) (nodes : Tree) (setup : Setup) (cpus : List CpuBan)
    → 0 < length cpus
    → get_all_cpus sort nodes setup cpus ≡ ok cpus
unfolding get_all_cpus
get_all_cpus-same sort nodes setup [] h = absurd (omega arith)
get_all_cpus-same sort nodes setup (c ∷ cpus) h = refl

pub show_settings-InView :
    (input : Input) (ui : Ui)
    → Known ui.all_cpus
    → 10 ≤ ui.window.lines
    → ui.window.lines < 2147483648
    → ui.window.offset ≤ length ui.all_cpus + 9 - ui.window.lines
    → After InView (show_settings input ui)
unfolding show_settings
show_settings-InView input ui v t s o =
    After-bind InView (parse_setup ui.setup input.setup_text) _ λ setup.
      rw (get_all_cpus-same input.sort_all_cpus ui.nodes setup ui.all_cpus v.any) (
        let (m, same, tall) = draw-max ui.all_cpus ui.window in
        record {
          known = v;
          over = record {
            tall = omega arith;
            short = omega arith;
            counted = omega arith;
            scrolled = omega arith;
          };
        })

pub display_tree-state :
    (input : Input) (ui : Ui) → After (λ (u : Ui). u.state ≡ ui.state) (display_tree input ui)
unfolding display_tree
display_tree-state input ui =
    let P = λ (u : Ui). u.state ≡ ui.state in
    After-bind P (parse_setup ui.setup input.setup_text) _ λ setup.
      After-bind P (parse_into_tree input.sort_ints ui.nodes input.stats_text) _
        λ nodes. After-bind P (walk_tree nodes (display_tree_node nodes) 0) _ λ lines. refl

pub show_irqs-state :
    (input : Input) (ui : Ui) → After (λ (u : Ui). u.state ≡ ui.state) (show_irqs input ui)
unfolding show_irqs
show_irqs-state input ui =
    After-bind (λ (u : Ui). u.state ≡ ui.state) (get_all_irqs ui.nodes ui.setup) _ λ irqs. refl
