-- ===== src/Ui/Keys/Settings.antt =====
-- ui/irqbalance-ui.c and ui/ui.c: what the keys leave of the screen of the settings.
use irqbalance.Prelude.{
  ℕ, ◌+◌, ◌-◌, ◌≤◌, ◌≡◌, ◌≢◌, sym, ◌∙◌, ◌==◌, ltb, Option, none, some, List, [], arith, length,
  if_cases, if_cases_eq, subst,
}
use irqbalance.Ui.Model.{Parsed, ok, out, fault, unfinished}
use irqbalance.Ui.Window.{
  Key, up, down, npage, ppage, f3, f4, f5, enter, escape, backspace, nothing, char, ScrollsOver,
}
use irqbalance.Ui.Setup.{Setup}
use irqbalance.Ui.Cpus.{
  CpuBan, CpuEdit, Session, waiting, ended, closed, broken, handle_cpu_banning,
}
use irqbalance.Ui.Cpus.Safe.{EndsWell, handle_cpu_banning-EndsWell}
use irqbalance.Ui.Sleep.{Asked, settled, asking, get_valid_sleep_input, after_input}
use irqbalance.Ui.Keys.{
  Screen, show, fixed_lines, tree, settings, setup_irqs, Ui, Input, show_settings, scroll_window,
  at_offset, next_page, previous_page, switch, on_f3, on_f4, on_f5, after_cpus, with_sleep,
  after_sleep, on_c, on_i, on_s, on_char, key_loop,
}
use irqbalance.Ui.Keys.Shown.{
  After, After-eq, Known, InView, Stays, show_settings-InView, display_tree-state, show_irqs-state,
}

After-Stays : (m : Parsed Ui) → After InView m → After Stays m
unfolding Stays
After-Stays (ok ui) h = λ e. h
After-Stays out h = h
After-Stays fault h = h
After-Stays unfinished h = h

After-leaves :
    (s : Screen) (m : Parsed Ui) → s ≢ settings → After (λ (u : Ui). u.state ≡ s) m → After Stays m
unfolding Stays
After-leaves s (ok ui) n h = λ e. absurd (n (sym h ∙ e))
After-leaves s out n h = h
After-leaves s fault n h = h
After-leaves s unfinished n h = h

scroll-Stays :
    (input : Input) (ui : Ui) (o : ℕ)
    → ui.state ≡ settings
    → InView ui
    → o ≤ length ui.all_cpus + 9 - ui.window.lines
    → After Stays (scroll_window input (at_offset o ui))
unfolding scroll_window
scroll-Stays input ui o e v h =
    subst (λ s. After Stays (show s input (at_offset o ui))) (sym e)
      (After-Stays (show_settings input (at_offset o ui)) (
        show_settings-InView input (at_offset o ui) v.known (omega (arith, v.over.tall))
          (omega (arith, v.over.short)) h))

after_cpus-Stays :
    (ui : Ui) (r : Session CpuEdit CpuBan)
    → Known ui.all_cpus
    → EndsWell (length ui.all_cpus) r
    → After Stays (after_cpus ui r)
unfolding Stays
after_cpus-Stays ui (waiting e) k h = tt
after_cpus-Stays ui (ended w cpus text) k h = λ e. record {
  known = record {
    numbered = h.1;
    any = omega (arith, k.any, h.2);
    few = omega (arith, k.few, h.2);
  };
  over = subst (λ n. ScrollsOver n 8 w) (sym h.2) h.0;
}
after_cpus-Stays ui closed k h = tt
after_cpus-Stays ui broken k h = tt

with_sleep-Stays :
    (ui : Ui) (r : Option (Setup × Option (List ℕ))) → InView ui → InView (with_sleep ui r)
with_sleep-Stays ui none v = v
with_sleep-Stays ui (some (setup, text)) v = record { known = v.known; over = v.over }

after_sleep-Stays : (ui : Ui) (r : Asked) → InView ui → After Stays (after_sleep ui r)
unfolding Stays
after_sleep-Stays ui (settled n) v = λ e. with_sleep-Stays ui (after_input ui.setup (settled n)) v
after_sleep-Stays ui asking v = tt
after_sleep-Stays ui Asked.closed v = tt
after_sleep-Stays ui Asked.broken v = tt

ok-Stays : (ui : Ui) → InView ui → After Stays (ok ui)
unfolding Stays
ok-Stays ui v = λ e. v

on_char-Stays :
    (c : ℕ) (input : Input) (ui : Ui)
    → ui.state ≡ settings
    → InView ui
    → After Stays (on_char c input ui)
on_char-Stays c input ui e v =
    let stays = ok-Stays ui v in
    if_cases (After Stays) (c == 113) tt (
      if_cases (After Stays) (c == 99)
        (subst (λ s. After Stays (on_c s input ui)) (sym e)
          (after_cpus-Stays ui (handle_cpu_banning ui.all_cpus input.keys ui.window) v.known (
            handle_cpu_banning-EndsWell ui.all_cpus input.keys ui.window v.known.numbered
              v.known.any v.known.few v.over)))
        (if_cases (After Stays) (c == 105)
          (subst (λ s. After Stays (on_i s input ui)) (sym e) stays)
          (if_cases (After Stays) (c == 115)
            (subst (λ s. After Stays (on_s s input ui)) (sym e)
              (after_sleep-Stays ui (get_valid_sleep_input ui.setup.sleep input.keys []) v))
            stays)))

key_loop-Stays :
    (k : Key) (input : Input) (ui : Ui)
    → ui.state ≡ settings
    → InView ui
    → After Stays (key_loop k input ui)
unfolding key_loop next_page previous_page
key_loop-Stays up input ui e v =
    if_cases (After Stays) (ltb 0 ui.window.offset)
      (scroll-Stays input ui (ui.window.offset - 1) e v (omega (arith, v.over.scrolled)))
      (ok-Stays ui v)
key_loop-Stays down input ui e v =
    if_cases_eq (After Stays) (ltb ui.window.offset ui.window.max_offset)
      (λ h. scroll-Stays input ui (ui.window.offset + 1) e v (ground (arith, v.over.counted)))
      (λ h. ok-Stays ui v)
key_loop-Stays npage input ui e v =
    scroll-Stays input ui (next_page ui) e v (ground (arith, v.over.counted))
key_loop-Stays ppage input ui e v =
    let page =
      subst (λ s. ui.window.offset + fixed_lines s - ui.window.lines ≤ ui.window.offset) (sym e)
        (omega (arith, v.over.tall)) in
    scroll-Stays input ui (previous_page ui) e v (omega (arith, page, v.over.scrolled))
key_loop-Stays f3 input ui e v =
    subst (λ s. After Stays (on_f3 s input ui)) (sym e)
      (After-leaves tree (switch tree input ui) (λ q. absurd cc)
        (display_tree-state input (record (at_offset 0 ui) { state = tree })))
key_loop-Stays f4 input ui e v =
    subst (λ s. After Stays (on_f4 s input ui)) (sym e)
      (After-Stays (show_settings input ui)
        (show_settings-InView input ui v.known v.over.tall v.over.short v.over.scrolled))
key_loop-Stays f5 input ui e v =
    subst (λ s. After Stays (on_f5 s input ui)) (sym e)
      (After-leaves setup_irqs (switch setup_irqs input ui) (λ q. absurd cc)
        (show_irqs-state input (record (at_offset 0 ui) { state = setup_irqs })))
key_loop-Stays (char c) input ui e v = on_char-Stays c input ui e v
key_loop-Stays enter input ui e v = ok-Stays ui v
key_loop-Stays escape input ui e v = ok-Stays ui v
key_loop-Stays backspace input ui e v = ok-Stays ui v
key_loop-Stays nothing input ui e v = ok-Stays ui v

-- The keys of the screen of the settings, whatever the daemon answers and whatever is typed in an
-- editing session. When the CPUs on the screen are numbered from 0, at most 250, in a window of at
-- least ten lines that is scrolled no further than the list allows: a key that does not leave the
-- screen leaves it so, and the view stays at most one line beyond the end of the list.
pub key_loop-InView :
    (k : Key) (input : Input) (ui ui' : Ui)
    → ui.state ≡ settings
    → InView ui
    → key_loop k input ui ≡ ok ui'
    → ui'.state ≡ settings
    → InView ui' × (ui'.window.offset ≤ ui'.window.max_offset + 1)
unfolding Stays
key_loop-InView k input ui ui' e v r s =
    let w = After-eq Stays (key_loop k input ui) ui' (key_loop-Stays k input ui e v) r s in
    (w, omega (arith, w.over.counted, w.over.scrolled))
