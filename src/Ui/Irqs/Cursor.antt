-- ===== src/Ui/Irqs/Cursor.antt =====
-- ui/ui.c: the cursor of handle_irq_banning, and what a key leaves of it.
use irqbalance.Prelude.{
  ℕ, ℤ, zero, suc, pos, negsuc, ◌+◌, ◌-◌, ◌<◌, ◌≤◌, ◌≡◌, ◌≢◌, refl, ap, ◌∙◌, ◌==◌, true, false,
  List, [], ◌∷◌, arith, tests, length, map, for_each, ltb, if_cases_eq, if_cases, if◌then◌else◌,
}
use irqbalance.Ui.Model.{Irq}
use irqbalance.Ui.Window.{
  Window, Key, up, down, npage, ppage, f3, f4, f5, enter, escape, backspace, nothing, char,
  size_less,
}
use irqbalance.Ui.Cpus.{Pressed, going, discard, save, quit, fault}
use irqbalance.Ui.Irqs.Text.{vectors}
use irqbalance.Ui.Irqs.{
  copy_irq, Drawing, print_irq_line, draw_tmp_irqs, toggle_irq, IrqEdit, irq_up, irq_down,
  irq_enter, show_toggled, press_irq,
}

pub copy-all : (irqs : List Irq) → map copy_irq irqs ≡ irqs
unfolding copy_irq
copy-all [] = refl
copy-all (irq ∷ irqs) = ap (λ l. irq ∷ l) (copy-all irqs)

pub vectors-length : (xs ys : List Irq) → vectors xs ≡ vectors ys → length xs ≡ length ys
vectors-length [] [] e = refl
vectors-length [] (y ∷ ys) e = absurd cc
vectors-length (x ∷ xs) [] e = absurd cc
vectors-length (x ∷ xs) (y ∷ ys) e = ap suc (vectors-length xs ys (cc))

-- A toggle inside the list keeps the numbers and turns one ban; the answer is not -1.
pub toggle_irq-inside :
    (irqs : List Irq) (k : ℕ)
    → k < length irqs
    → (vectors (toggle_irq irqs k).0 ≡ vectors irqs) × ((toggle_irq irqs k).1 ≢ negsuc 0)
unfolding toggle_irq
toggle_irq-inside [] k h = absurd (omega arith)
toggle_irq-inside (irq ∷ irqs) zero h = (
  refl,
  elim irq.is_banned as (λ b. (if b then pos 0 else pos 1) ≢ negsuc 0) [
    | true ↦ (λ e. absurd cc)
    | false ↦ (λ e. absurd cc)
  ],
)
toggle_irq-inside (irq ∷ irqs) (suc k) h =
    let r = toggle_irq-inside irqs k (omega arith) in (ap (λ l. irq.vector ∷ l) r.0, r.1)

pub count-print :
    (edge : ℕ) (names : ℕ → List ℕ) (lines offset : ℕ) (irqs : List Irq) (d : Drawing)
    → (for_each (print_irq_line edge names lines offset) irqs d).max_offset
      ≡ d.max_offset + length irqs
unfolding print_irq_line
count-print edge names lines offset [] d = omega arith
count-print edge names lines offset (irq ∷ irqs) d =
    let next = print_irq_line edge names lines offset irq d in
    let one : next.max_offset ≡ d.max_offset + 1 = ground arith in
    count-print edge names lines offset irqs next ∙ omega arith

pub draw_tmp-max :
    (names : ℕ → List ℕ) (irqs : List Irq) (w : Window)
    → ((draw_tmp_irqs names irqs w).max_offset ≡ length irqs + 7 - w.lines)
      × ((draw_tmp_irqs names irqs w).offset ≡ w.offset)
      × ((draw_tmp_irqs names irqs w).lines ≡ w.lines)
unfolding draw_tmp_irqs
draw_tmp-max names irqs w =
    let d : Drawing = record {
      rows = [];
      max_offset = 0;
      rbot = w.rbot;
      is_outside = w.is_outside;
    } in
    (
      ap (λ n. n + 7 - w.lines) (count-print 3 names w.lines w.offset irqs d ∙ omega arith),
      refl,
      refl,
    )

-- The cursor stands on a line of the list, and the list is not scrolled beyond its end. `irqs` is
-- the list before the editing.
pub record Fits (irqs : List Irq) (e : IrqEdit) : Type 0 where
  pub short : e.window.lines < 2147483648
  pub low : 4 ≤ e.position
  pub high : e.position + 4 ≤ e.window.lines
  pub within : e.position + e.window.offset ≤ length irqs + 3
  pub bounded : e.window.max_offset ≤ length irqs + 7 - e.window.lines
  pub scrolled : e.window.offset ≤ length irqs + 7 - e.window.lines
  pub kept : vectors e.tmp ≡ vectors irqs

pub scroll-Fits :
    (names : ℕ → List ℕ) (irqs : List Irq) (o : ℕ) (e : IrqEdit)
    → Fits irqs e
    → e.position + o ≤ length irqs + 3
    → o ≤ length irqs + 7 - e.window.lines
    → Fits irqs (record e { window = draw_tmp_irqs names e.tmp (record e.window { offset = o }) })
scroll-Fits names irqs o e v h k =
    let w : Window = record e.window { offset = o } in
    let (m, same, tall) = draw_tmp-max names e.tmp w in
    let size = vectors-length e.tmp irqs v.kept in
    record {
      short = omega (arith, v.short);
      low = v.low;
      high = omega (arith, v.high);
      within = omega arith;
      bounded = omega arith;
      scrolled = omega arith;
      kept = v.kept;
    }

pub move-Fits :
    (irqs : List Irq) (p : ℕ) (e : IrqEdit)
    → Fits irqs e
    → 4 ≤ p
    → p + 4 ≤ e.window.lines
    → p + e.window.offset ≤ length irqs + 3
    → Fits irqs (record e { position = p })
move-Fits irqs p e v h k l = record {
  short = v.short;
  low = h;
  high = k;
  within = l;
  bounded = v.bounded;
  scrolled = v.scrolled;
  kept = v.kept;
}

pub irq_up-Fits :
    (names : ℕ → List ℕ) (irqs : List Irq) (e : IrqEdit) → Fits irqs e → Fits irqs (irq_up names e)
unfolding irq_up
irq_up-Fits names irqs e v =
    if_cases_eq (Fits irqs) (ltb 4 e.position)
      (λ h.
        move-Fits irqs (e.position - 1) e v (ground arith) (omega (arith, v.high))
          (omega (arith, v.within)))
      (λ h.
        if_cases_eq (Fits irqs) (ltb 0 e.window.offset)
          (λ k.
            scroll-Fits names irqs (e.window.offset - 1) e v (omega (arith, v.within))
              (omega (arith, v.scrolled)))
          (λ k. v))

pub irq_down-Fits :
    (names : ℕ → List ℕ) (irqs : List Irq) (e : IrqEdit)
    → Fits irqs e
    → Fits irqs (irq_down names irqs e)
unfolding irq_down
irq_down-Fits names irqs e v =
    if_cases_eq (Fits irqs) (ltb e.position (size_less e.window.lines 4))
      (λ h.
        if_cases_eq (Fits irqs) (ltb e.position (length irqs + 3))
          (λ k.
            move-Fits irqs (e.position + 1) e v (omega (arith, v.low))
              (omega (tests, v.high, v.low, v.short))
              (omega (tests, v.high, v.low, v.short, v.scrolled)))
          (λ k. v))
      (λ h.
        if_cases_eq (Fits irqs) (ltb e.window.offset e.window.max_offset)
          (λ k.
            scroll-Fits names irqs (e.window.offset + 1) e v
              (ground (arith, v.high, v.low, v.short, v.bounded)) (omega (tests, v.bounded)))
          (λ k. v))

pub show-Fits :
    (irqs : List Irq) (e : IrqEdit) (r : List Irq × ℤ)
    → Fits irqs e
    → vectors r.0 ≡ vectors irqs
    → Fits irqs (show_toggled e r)
show-Fits irqs e (tmp, banned) v h = record {
  short = v.short;
  low = v.low;
  high = v.high;
  within = v.within;
  bounded = v.bounded;
  scrolled = v.scrolled;
  kept = h;
}

pub irq_enter-Fits : (irqs : List Irq) (e : IrqEdit) → Fits irqs e → Fits irqs (irq_enter e)
unfolding irq_enter
irq_enter-Fits irqs e v =
    let p = e.position + e.window.offset - 4 in
    let inside : p < length e.tmp =
      omega (arith, v.within, v.low, vectors-length e.tmp irqs v.kept) in
    show-Fits irqs e (toggle_irq e.tmp p) v ((toggle_irq-inside e.tmp p inside).0 ∙ v.kept)

-- What a key press leaves. No press follows NULL here.
abbrev pub StillFits : List Irq → Pressed IrqEdit → Type 0
StillFits irqs (going e) = Fits irqs e
StillFits irqs discard = Unit
StillFits irqs save = Unit
StillFits irqs quit = Unit
StillFits irqs fault = ⊥

pub press_irq-Fits :
    (names : ℕ → List ℕ) (irqs : List Irq) (k : Key) (e : IrqEdit)
    → Fits irqs e
    → StillFits irqs (press_irq names irqs k e)
unfolding press_irq
press_irq-Fits names irqs up e v = irq_up-Fits names irqs e v
press_irq-Fits names irqs down e v = irq_down-Fits names irqs e v
press_irq-Fits names irqs enter e v = irq_enter-Fits irqs e v
press_irq-Fits names irqs escape e v = tt
press_irq-Fits names irqs (char x) e v =
    if_cases (StillFits irqs) (x == 115) tt (if_cases (StillFits irqs) (x == 113) tt v)
press_irq-Fits names irqs npage e v = v
press_irq-Fits names irqs ppage e v = v
press_irq-Fits names irqs f3 e v = v
press_irq-Fits names irqs f4 e v = v
press_irq-Fits names irqs f5 e v = v
press_irq-Fits names irqs backspace e v = v
press_irq-Fits names irqs nothing e v = v
