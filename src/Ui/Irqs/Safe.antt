-- ===== src/Ui/Irqs/Safe.antt =====
-- ui/ui.c: handle_irq_banning never leaves the list of the interrupts.
use irqbalance.Prelude.{
  ℕ, ◌+◌, ◌-◌, ◌<◌, ◌≤◌, ◌≡◌, ◌≢◌, refl, ap, ◌∙◌, Option, none, some, List, [], ◌∷◌, arith, length,
  map,
}
use irqbalance.Ui.Model.{Irq}
use irqbalance.Ui.Window.{Window, Key, ScrollsOver}
use irqbalance.Ui.Cpus.{
  Pressed, going, discard, save, quit, fault, Session, waiting, ended, closed, broken,
}
use irqbalance.Ui.Irqs.Text.{AllSmall, vectors, AllSmall-vectors, settings_fit}
use irqbalance.Ui.Irqs.{
  copy_irq, Drawing, print_all_irqs, irq_settings, IrqEdit, press_irq, after_irq_press, send_irqs,
  edit_irqs, handle_irq_banning,
}
use irqbalance.Ui.Irqs.Cursor.{
  copy-all, vectors-length, count-print, Fits, StillFits, press_irq-Fits,
}

pub draw-max :
    (names : ℕ → List ℕ) (irqs : List Irq) (w : Window)
    → ((print_all_irqs names irqs w).max_offset ≡ length irqs + 6 - w.lines)
      × ((print_all_irqs names irqs w).offset ≡ w.offset)
      × ((print_all_irqs names irqs w).lines ≡ w.lines)
unfolding print_all_irqs
draw-max names irqs w =
    let d : Drawing = record {
      rows = [];
      max_offset = 0;
      rbot = w.rbot;
      is_outside = w.is_outside;
    } in
    (
      ap (λ n. n + 6 - w.lines) (count-print 2 names w.lines w.offset irqs d ∙ omega arith),
      refl,
      refl,
    )

print_all-ScrollsOver :
    (names : ℕ → List ℕ) (irqs shown : List Irq) (e : IrqEdit)
    → Fits irqs e
    → length shown ≡ length irqs
    → ScrollsOver (length irqs) 6 (print_all_irqs names shown e.window)
print_all-ScrollsOver names irqs shown e v h =
    let (m, same, tall) = draw-max names shown e.window in
    record {
      tall = omega (arith, v.low, v.high);
      short = omega (arith, v.short);
      counted = omega arith;
      scrolled = omega (arith, v.scrolled);
    }

-- How an editing session may end: a text of so many interrupts fits its buffer.
abbrev pub EndsWell : List Irq → Session IrqEdit Irq → Type 0
EndsWell irqs (waiting e) = Fits irqs e
EndsWell irqs (ended w shown text) =
    ScrollsOver (length irqs) 6 w
    × (vectors shown ≡ vectors irqs)
    × ((message : List ℕ) → text ≡ some message → irq_settings shown ≡ some message)
EndsWell irqs closed = Unit
EndsWell irqs broken = ⊥

send-EndsWell :
    (irqs : List Irq) (w : Window) (shown : List Irq) (r : Option (List ℕ))
    → ScrollsOver (length irqs) 6 w
    → vectors shown ≡ vectors irqs
    → irq_settings shown ≡ r
    → r ≢ none
    → EndsWell irqs (send_irqs w shown r)
send-EndsWell irqs w shown none o h e f = absurd (f refl)
send-EndsWell irqs w shown (some text) o h e f = (o, h, λ message q. e ∙ q)

after_press-EndsWell :
    (names : ℕ → List ℕ) (irqs : List Irq) (e : IrqEdit) (p : Pressed IrqEdit)
    (rest : IrqEdit → Session IrqEdit Irq)
    → AllSmall irqs
    → length irqs ≤ 200
    → Fits irqs e
    → StillFits irqs p
    → ((f : IrqEdit) → Fits irqs f → EndsWell irqs (rest f))
    → EndsWell irqs (after_irq_press names irqs e p rest)
after_press-EndsWell names irqs e (going f) rest a b v h k = k f h
after_press-EndsWell names irqs e discard rest a b v h k =
    (print_all-ScrollsOver names irqs irqs e v refl, refl, λ message q. absurd cc)
after_press-EndsWell names irqs e save rest a b v h k =
    let size = vectors-length e.tmp irqs v.kept in
    send-EndsWell irqs (print_all_irqs names e.tmp e.window) e.tmp (irq_settings e.tmp)
      (print_all-ScrollsOver names irqs e.tmp e v size) v.kept refl
      (settings_fit e.tmp (AllSmall-vectors e.tmp irqs v.kept a) (omega arith))
after_press-EndsWell names irqs e quit rest a b v h k = tt
after_press-EndsWell names irqs e fault rest a b v h k = h

edit_irqs-EndsWell :
    (names : ℕ → List ℕ) (irqs : List Irq) (keys : List Key) (e : IrqEdit)
    → AllSmall irqs
    → length irqs ≤ 200
    → Fits irqs e
    → EndsWell irqs (edit_irqs names irqs keys e)
unfolding edit_irqs
edit_irqs-EndsWell names irqs [] e a b v = v
edit_irqs-EndsWell names irqs (k ∷ keys) e a b v =
    after_press-EndsWell names irqs e (press_irq names irqs k e) (edit_irqs names irqs keys) a b v
      (press_irq-Fits names irqs k e v) (λ f w. edit_irqs-EndsWell names irqs keys f a b w)

pub handle_irq_banning-EndsWell :
    (names : ℕ → List ℕ) (irqs : List Irq) (keys : List Key) (w : Window)
    → AllSmall irqs
    → 0 < length irqs
    → length irqs ≤ 200
    → ScrollsOver (length irqs) 6 w
    → EndsWell irqs (handle_irq_banning names irqs keys w)
unfolding handle_irq_banning
handle_irq_banning-EndsWell names irqs keys w a p b o =
    edit_irqs-EndsWell names irqs keys
      (record { window = w; position = 4; tmp = map copy_irq irqs }) a b
      (record {
        short = o.short;
        low = omega arith;
        high = omega (arith, o.tall);
        within = omega (arith, o.tall, o.scrolled);
        bounded = omega (arith, o.counted);
        scrolled = o.scrolled;
        kept = ap vectors (copy-all irqs);
      })
