-- ===== src/Ui/Cpus/Cursor.antt =====
-- ui/ui.c: the cursor of handle_cpu_banning, and what a key leaves of it.
use irqbalance.Prelude.{
  ℕ, ℤ, pos, ◌+◌, ◌-◌, ◌<◌, ◌≤◌, ◌≡◌, refl, ap, ◌∙◌, ◌==◌, Bool, Option, none, some, List, [], ◌∷◌,
  arith, length, for_each, leb, ltb, if_cases_eq, if_cases, tests, subst,
}
use irqbalance.Ui.Window.{
  Row, Window, Key, up, down, npage, ppage, f3, f4, f5, enter, escape, backspace, nothing, char,
  size_less,
}
use irqbalance.Ui.Cpus.{
  CpuBan, print_tmp_cpu_line, print_cpu_line, draw_tmp_cpus, draw_cpus, toggle_cpu, CpuEdit,
  Pressed, going, discard, save, quit, fault, cpu_up, cpu_down, cpu_limit, cpu_enter, after_toggle,
  press_cpu,
}
use irqbalance.Ui.Cpus.Numbered.{IsNumbered, Hits, toggle_cpu-Hits}

pub count-print :
    (lines offset m : ℕ) (cpus : List CpuBan) (rows : List Row)
    → (for_each (print_tmp_cpu_line lines offset) cpus (rows, m)).1 ≡ m + length cpus
unfolding print_tmp_cpu_line
count-print lines offset m [] rows = omega arith
count-print lines offset m (c ∷ cpus) rows =
    count-print lines offset (m + 1) cpus (print_tmp_cpu_line lines offset c (rows, m)).0
    ∙ omega arith

pub draw_tmp-max :
    (cpus : List CpuBan) (w : Window)
    → (draw_tmp_cpus cpus w).max_offset ≡ length cpus + 9 - w.lines
unfolding draw_tmp_cpus
draw_tmp-max cpus w =
    ap (λ n. n + 9 - w.lines) (count-print w.lines w.offset 0 cpus [] ∙ omega arith)

pub draw_tmp-kept :
    (cpus : List CpuBan) (w : Window)
    → ((draw_tmp_cpus cpus w).offset ≡ w.offset) × ((draw_tmp_cpus cpus w).lines ≡ w.lines)
unfolding draw_tmp_cpus
draw_tmp-kept cpus w = (refl, refl)

pub count-print_all :
    (lines offset m : ℕ) (cpus : List CpuBan) (rows : List Row)
    → (for_each (print_cpu_line lines offset) cpus (rows, m)).1 ≡ m + length cpus
unfolding print_cpu_line
count-print_all lines offset m [] rows = omega arith
count-print_all lines offset m (c ∷ cpus) rows =
    count-print_all lines offset (m + 1) cpus (print_cpu_line lines offset c (rows, m)).0
    ∙ omega arith

pub draw-max :
    (cpus : List CpuBan) (w : Window)
    → ((draw_cpus cpus w).max_offset ≡ length cpus + 8 - w.lines)
      × ((draw_cpus cpus w).offset ≡ w.offset)
      × ((draw_cpus cpus w).lines ≡ w.lines)
unfolding draw_cpus
draw-max cpus w = (
  ap (λ n. n + 8 - w.lines) (count-print_all w.lines w.offset 0 cpus [] ∙ omega arith),
  refl,
  refl,
)

-- The cursor stands on a line of the list, and the list is not scrolled beyond its end.
pub record Fits (n : ℕ) (e : CpuEdit) : Type 0 where
  pub tall : 10 ≤ e.window.lines
  pub short : e.window.lines < 2147483648
  pub low : 6 ≤ e.position
  pub high : e.position + 4 ≤ e.window.lines
  pub within : e.position + e.window.offset ≤ n + 5
  pub bounded : e.window.max_offset ≤ n + 9 - e.window.lines
  pub scrolled : e.window.offset ≤ n + 9 - e.window.lines
  pub numbered : IsNumbered 0 e.tmp
  pub counted : length e.tmp ≡ n

pub scroll-Fits :
    (n o : ℕ) (e : CpuEdit)
    → Fits n e
    → e.position + o ≤ n + 5
    → o ≤ n + 9 - e.window.lines
    → Fits n (record e { window = draw_tmp_cpus e.tmp (record e.window { offset = o }) })
scroll-Fits n o e v h k =
    let w : Window = record e.window { offset = o } in
    let m = draw_tmp-max e.tmp w in
    let (same, tall) = draw_tmp-kept e.tmp w in
    record {
      tall = omega (arith, v.tall);
      short = omega (arith, v.short);
      low = v.low;
      high = omega (arith, v.high);
      within = omega arith;
      bounded = omega (arith, v.counted);
      scrolled = omega arith;
      numbered = v.numbered;
      counted = v.counted;
    }

pub move-Fits :
    (n p : ℕ) (e : CpuEdit)
    → Fits n e
    → 6 ≤ p
    → p + 4 ≤ e.window.lines
    → p + e.window.offset ≤ n + 5
    → Fits n (record e { position = p })
move-Fits n p e v h k l = record {
  tall = v.tall;
  short = v.short;
  low = h;
  high = k;
  within = l;
  bounded = v.bounded;
  scrolled = v.scrolled;
  numbered = v.numbered;
  counted = v.counted;
}

pub cpu_up-Fits : (n : ℕ) (e : CpuEdit) → Fits n e → Fits n (cpu_up e)
unfolding cpu_up
cpu_up-Fits n e v =
    if_cases_eq (Fits n) (ltb 6 e.position)
      (λ h.
        move-Fits n (e.position - 1) e v (ground arith) (omega (arith, v.high))
          (omega (arith, v.within)))
      (λ h.
        if_cases_eq (Fits n) (ltb 0 e.window.offset)
          (λ k.
            scroll-Fits n (e.window.offset - 1) e v (omega (arith, v.within))
              (omega (arith, v.scrolled)))
          (λ k. v))

pub cpu_down-Fits :
    (n : ℕ) (all_cpus : List CpuBan) (e : CpuEdit)
    → n ≤ 250
    → length all_cpus ≡ n
    → Fits n e
    → Fits n (cpu_down all_cpus e)
unfolding cpu_down
cpu_down-Fits n all_cpus e b c v =
    if_cases_eq (Fits n) (ltb e.position (size_less e.window.lines 4))
      (λ h.
        if_cases_eq (Fits n) (leb e.position (cpu_limit (length all_cpus) e.window.offset))
          (λ k.
            move-Fits n (e.position + 1) e v (omega (arith, v.low))
              (omega (tests, v.high, v.tall, v.short)) (omega (tests, v.scrolled, v.tall)))
          (λ k. v))
      (λ h.
        if_cases_eq (Fits n) (ltb e.window.offset e.window.max_offset)
          (λ k.
            scroll-Fits n (e.window.offset + 1) e v
              (ground (arith, v.high, v.tall, v.short, v.bounded)) (omega (tests, v.bounded)))
          (λ k. v))

-- What a key press leaves.
abbrev pub StillFits : ℕ → Pressed CpuEdit → Type 0
StillFits n (going e) = Fits n e
StillFits n discard = Unit
StillFits n save = Unit
StillFits n quit = Unit
StillFits n fault = ⊥

pub after_toggle-Fits :
    (n : ℕ) (e : CpuEdit) (number : ℤ) (r : Option (List CpuBan × Bool))
    → Fits n e
    → Hits 0 n r
    → StillFits n (after_toggle e number r)
after_toggle-Fits n e number none v h = h
after_toggle-Fits n e number (some (cpus, banned)) v h = record {
  tall = v.tall;
  short = v.short;
  low = v.low;
  high = v.high;
  within = v.within;
  bounded = v.bounded;
  scrolled = v.scrolled;
  numbered = h.0;
  counted = h.1;
}

pub cpu_enter-Fits : (n : ℕ) (e : CpuEdit) → Fits n e → StillFits n (cpu_enter e)
unfolding cpu_enter
cpu_enter-Fits n e v =
    let p = e.position + e.window.offset - 6 in
    after_toggle-Fits n e (pos p) (toggle_cpu e.tmp (pos p)) v (
      subst (λ m. Hits 0 m (toggle_cpu e.tmp (pos p))) v.counted
        (toggle_cpu-Hits 0 p e.tmp v.numbered (omega arith)
          (omega (arith, v.counted, v.within, v.low))))

pub press_cpu-Fits :
    (n : ℕ) (all_cpus : List CpuBan) (k : Key) (e : CpuEdit)
    → n ≤ 250
    → length all_cpus ≡ n
    → Fits n e
    → StillFits n (press_cpu all_cpus k e)
unfolding press_cpu
press_cpu-Fits n all_cpus up e b c v = cpu_up-Fits n e v
press_cpu-Fits n all_cpus down e b c v = cpu_down-Fits n all_cpus e b c v
press_cpu-Fits n all_cpus enter e b c v = cpu_enter-Fits n e v
press_cpu-Fits n all_cpus escape e b c v = tt
press_cpu-Fits n all_cpus (char x) e b c v =
    if_cases (StillFits n) (x == 115) tt (if_cases (StillFits n) (x == 113) tt v)
press_cpu-Fits n all_cpus npage e b c v = v
press_cpu-Fits n all_cpus ppage e b c v = v
press_cpu-Fits n all_cpus f3 e b c v = v
press_cpu-Fits n all_cpus f4 e b c v = v
press_cpu-Fits n all_cpus f5 e b c v = v
press_cpu-Fits n all_cpus backspace e b c v = v
press_cpu-Fits n all_cpus nothing e b c v = v
