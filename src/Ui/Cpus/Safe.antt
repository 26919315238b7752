-- ===== src/Ui/Cpus/Safe.antt =====
-- ui/ui.c: handle_cpu_banning never leaves the list of the CPUs, when these are numbered from 0.
use irqbalance.Prelude.{
  ℕ, ◌<◌, ◌≤◌, ◌≡◌, ◌≢◌, refl, ◌∙◌, Option, none, some, List, [], ◌∷◌, arith, length, length-map,
  map,
}
use irqbalance.Ui.Window.{Window, Key, ScrollsOver}
use irqbalance.Ui.Cpus.{
  CpuBan, copy_cpu_ban, draw_cpus, cpu_settings, CpuEdit, Pressed, going, discard, save, quit,
  fault, press_cpu, Session, waiting, ended, closed, broken, after_press, send_cpus, edit_cpus,
  handle_cpu_banning,
}
use irqbalance.Ui.Cpus.Numbered.{IsNumbered, copy-IsNumbered}
use irqbalance.Ui.Cpus.Cursor.{draw-max, Fits, StillFits, press_cpu-Fits}
use irqbalance.Ui.Cpus.Text.{settings_fit}

-- How an editing session may end.
abbrev pub EndsWell : ℕ → Session CpuEdit CpuBan → Type 0
EndsWell n (waiting e) = Fits n e
EndsWell n (ended w cpus text) =
    ScrollsOver n 8 w
    × IsNumbered 0 cpus
    × (length cpus ≡ n)
    × ((message : List ℕ) → text ≡ some message → cpu_settings cpus ≡ some message)
EndsWell n closed = Unit
EndsWell n broken = ⊥

send-EndsWell :
    (n : ℕ) (w : Window) (cpus : List CpuBan) (r : Option (List ℕ))
    → ScrollsOver n 8 w
    → IsNumbered 0 cpus
    → length cpus ≡ n
    → cpu_settings cpus ≡ r
    → r ≢ none
    → EndsWell n (send_cpus w cpus r)
send-EndsWell n w cpus none o h c e f = absurd (f refl)
send-EndsWell n w cpus (some text) o h c e f = (o, h, c, λ message q. e ∙ q)

draw_cpus-ScrollsOver :
    (n : ℕ) (e : CpuEdit) (cpus : List CpuBan)
    → Fits n e
    → length cpus ≡ n
    → ScrollsOver n 8 (draw_cpus cpus e.window)
draw_cpus-ScrollsOver n e cpus v h =
    let (m, same, tall) = draw-max cpus e.window in
    record {
      tall = omega (arith, v.tall);
      short = omega (arith, v.short);
      counted = omega arith;
      scrolled = omega (arith, v.scrolled);
    }

after_press-EndsWell :
    (n : ℕ) (all_cpus : List CpuBan) (e : CpuEdit) (p : Pressed CpuEdit)
    (rest : CpuEdit → Session CpuEdit CpuBan)
    → n ≤ 250
    → IsNumbered 0 all_cpus × (length all_cpus ≡ n)
    → Fits n e
    → StillFits n p
    → ((f : CpuEdit) → Fits n f → EndsWell n (rest f))
    → EndsWell n (after_press all_cpus e p rest)
after_press-EndsWell n all_cpus e (going f) rest b a v h k = k f h
after_press-EndsWell n all_cpus e discard rest b a v h k =
    (draw_cpus-ScrollsOver n e all_cpus v a.1, a.0, a.1, λ message q. absurd cc)
after_press-EndsWell n all_cpus e save rest b a v h k =
    send-EndsWell n (draw_cpus e.tmp e.window) e.tmp (cpu_settings e.tmp)
      (draw_cpus-ScrollsOver n e e.tmp v v.counted) v.numbered v.counted refl
      (settings_fit e.tmp v.numbered (omega (arith, v.counted)))
after_press-EndsWell n all_cpus e quit rest b a v h k = tt
after_press-EndsWell n all_cpus e fault rest b a v h k = h

edit_cpus-EndsWell :
    (n : ℕ) (all_cpus : List CpuBan) (keys : List Key) (e : CpuEdit)
    → n ≤ 250
    → IsNumbered 0 all_cpus × (length all_cpus ≡ n)
    → Fits n e
    → EndsWell n (edit_cpus all_cpus keys e)
unfolding edit_cpus
edit_cpus-EndsWell n all_cpus [] e b a v = v
edit_cpus-EndsWell n all_cpus (k ∷ keys) e b a v =
    after_press-EndsWell n all_cpus e (press_cpu all_cpus k e) (edit_cpus all_cpus keys) b a v
      (press_cpu-Fits n all_cpus k e b a.1 v) (λ f w. edit_cpus-EndsWell n all_cpus keys f b a w)

-- The editing of the bans, whatever keys are pressed. When the CPUs are numbered from 0, from 1 to
-- 250 of them, in a window of at least ten lines that is not scrolled beyond the list: the cursor
-- stays on a line of the list, no toggle looks for a CPU that is not there, the text that is saved
-- fits its buffer, and the list has the same numbers at the end; what is sent is the text of that
-- list.
pub handle_cpu_banning-EndsWell :
    (all_cpus : List CpuBan) (keys : List Key) (w : Window)
    → IsNumbered 0 all_cpus
    → 0 < length all_cpus
    → length all_cpus ≤ 250
    → ScrollsOver (length all_cpus) 8 w
    → EndsWell (length all_cpus) (handle_cpu_banning all_cpus keys w)
unfolding handle_cpu_banning
handle_cpu_banning-EndsWell all_cpus keys w h p b o =
    edit_cpus-EndsWell (length all_cpus) all_cpus keys
      (record { window = w; position = 6; tmp = map copy_cpu_ban all_cpus }) b (h, refl)
      (record {
        tall = o.tall;
        short = o.short;
        low = omega arith;
        high = omega (arith, o.tall);
        within = omega (arith, o.tall, o.scrolled);
        bounded = omega (arith, o.counted);
        scrolled = o.scrolled;
        numbered = copy-IsNumbered 0 all_cpus h;
        counted = length-map copy_cpu_ban all_cpus;
      })
