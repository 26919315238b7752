-- ===== src/Ui/Irqs.antt =====
-- ui/ui.c: the screen of the interrupts, and the editing of their bans. What get_irq_name has read
-- from a shell command is an argument, a text for each line.
pub mod Text
pub mod Cursor
pub mod Safe
pub mod Sent
use irqbalance.Prelude.{
  ℕ, ℤ, zero, suc, pos, negsuc, ◌+◌, ◌-◌, ◌==◌, ◌==ℤ◌, ltb, leb, Bool, true, false, not, ◌&&◌,
  Option, none, some, List, [], ◌∷◌, ◌++◌, length, get_elem?, for_each, map, if◌then◌else◌, codes,
  print_ℤ,
}
use irqbalance.Ui.Model.{Irq}
use irqbalance.Ui.Window.{
  Row, Window, Key, up, down, npage, ppage, f3, f4, f5, enter, escape, backspace, nothing, char,
  size_less, rest_of, print_onto,
}
use irqbalance.Ui.Ranges.{print_assigned_objects_string}
use irqbalance.Ui.Cpus.{
  Pressed, going, discard, save, quit, fault, Session, waiting, ended, closed, broken,
}

unfoldable pub copy_irq : Irq → Irq
copy_irq irq = irq

abbrev irq_class_to_str : List (List ℕ)
irq_class_to_str =
    codes "Other"
    ∷ codes "Legacy"
    ∷ codes "SCSI"
    ∷ codes "Video"
    ∷ codes "Ethernet"
    ∷ codes "Gigabit Ethernet"
    ∷ codes "10-Gigabit Ethernet"
    ∷ codes "Virt Event"
    ∷ []

-- `none` is read behind the end of IRQ_CLASS_TO_STR.
class_text : ℤ → Option (List ℕ)
class_text (pos n) = get_elem? irq_class_to_str n
class_text (negsuc n) = some (codes "Unknown")

abbrev class_colours : List ℕ
class_colours = 1 ∷ 2 ∷ 3 ∷ 8 ∷ 9 ∷ 9 ∷ 9 ∷ 10 ∷ []

abbrev colour_or : Option ℕ → ℕ
colour_or none = 0
colour_or (some n) = n

class_colour : ℤ → ℕ
class_colour (pos n) = colour_or (get_elem? class_colours n)
class_colour (negsuc n) = 0

-- The loop over the interrupts: the rows, `max_offset`, `rbot`, and whether a name of a class was
-- read out of bounds.
pub record Drawing : Type 0 where
  pub rows : List Row
  pub max_offset : ℕ
  pub rbot : ℤ
  pub is_outside : Bool

abbrev text_or_none : Option (List ℕ) → List (List ℕ)
text_or_none none = []
text_or_none (some t) = t ∷ []

abbrev irq_row : (ℕ → List ℕ) → ℕ → Irq → Option (List ℕ) → Row
irq_row names line irq assigned = record {
  line = line;
  number = some irq.vector;
  is_banned = irq.is_banned;
  colour = class_colour irq.class;
  texts = text_or_none (class_text irq.class) ++ (text_or_none assigned ++ names line ∷ []);
}

abbrev is_none : Option (List ℕ) → Bool
is_none none = true
is_none (some t) = false

-- print_irq_line stops `edge` = 2 lines above the end of the window, print_tmp_irq_line 3; the line
-- of an interrupt above the window is less than 4.
unfoldable pub print_irq_line : ℕ → (ℕ → List ℕ) → ℕ → ℕ → Irq → Drawing → Drawing
unfolding print_assigned_objects_string class_text class_colour
print_irq_line edge names lines offset irq d =
    let line = d.max_offset - offset + 4 in
    let (assigned, rbot) = print_assigned_objects_string irq d.rbot in
    if leb offset d.max_offset && ltb (line + edge) lines
    then record {
      rows = d.rows ++ irq_row names line irq assigned ∷ [];
      max_offset = d.max_offset + 1;
      rbot = rbot;
      is_outside = if d.is_outside then true else is_none (class_text irq.class);
    }
    else record d { max_offset = d.max_offset + 1 }

-- `k` lines of the window are for other things.
draw_irqs : ℕ → ℕ → (ℕ → List ℕ) → List Irq → Window → Window
unfolding print_irq_line
draw_irqs edge k names irqs w =
    let d =
      for_each (print_irq_line edge names w.lines w.offset) irqs
        (record { rows = []; max_offset = 0; rbot = w.rbot; is_outside = w.is_outside }) in
    record w {
      rows = d.rows;
      max_offset = rest_of d.max_offset w.lines k;
      rbot = d.rbot;
      is_outside = d.is_outside;
    }

unfoldable pub print_all_irqs : (ℕ → List ℕ) → List Irq → Window → Window
unfolding draw_irqs
print_all_irqs names irqs w = draw_irqs 2 6 names irqs w

unfoldable pub draw_tmp_irqs : (ℕ → List ℕ) → List Irq → Window → Window
unfolding draw_irqs
draw_tmp_irqs names irqs w = draw_irqs 3 7 names irqs w

abbrev behind_irq : Irq → List Irq × ℤ → List Irq × ℤ
behind_irq irq (irqs, banned) = (irq ∷ irqs, banned)

-- The list with the ban of the entry at `position` turned, and the ban; -1 if there is none.
unfoldable pub toggle_irq : List Irq → ℕ → List Irq × ℤ
toggle_irq [] position = ([], negsuc 0)
toggle_irq (irq ∷ irqs) zero =
    (record irq { is_banned = not irq.is_banned } ∷ irqs, if irq.is_banned then pos 0 else pos 1)
toggle_irq (irq ∷ irqs) (suc position) = behind_irq irq (toggle_irq irqs position)

unfoldable pub get_new_irq_ban_values : Irq → List ℕ → List ℕ
get_new_irq_ban_values irq ban_list =
    if irq.is_banned then print_onto ban_list (32 ∷ print_ℤ irq.vector) else ban_list

-- The text that is sent. The prefix always stands, so the word always follows; `none` is a text
-- that fills its buffer and has no end.
unfoldable pub irq_settings : List Irq → Option (List ℕ)
unfolding get_new_irq_ban_values
irq_settings irqs =
    let text = for_each get_new_irq_ban_values irqs (codes "settings ban irqs ") in
    if ltb (length text + 5) 1024 then some (text ++ codes " NONE") else none

pub record IrqEdit : Type 0 where
  pub window : Window
  pub position : ℕ
  pub tmp : List Irq

unfoldable pub irq_up : (ℕ → List ℕ) → IrqEdit → IrqEdit
unfolding draw_tmp_irqs
irq_up names e =
    if ltb 4 e.position
    then record e { position = e.position - 1 }
    else if ltb 0 e.window.offset
    then record e {
      window = draw_tmp_irqs names e.tmp (record e.window { offset = e.window.offset - 1 });
    }
    else e

unfoldable pub irq_down : (ℕ → List ℕ) → List Irq → IrqEdit → IrqEdit
unfolding draw_tmp_irqs
irq_down names all_irqs e =
    if ltb e.position (size_less e.window.lines 4)
    then if ltb e.position (length all_irqs + 3) then record e { position = e.position + 1 } else e
    else if ltb e.window.offset e.window.max_offset
    then record e {
      window = draw_tmp_irqs names e.tmp (record e.window { offset = e.window.offset + 1 });
    }
    else e

abbrev pub show_toggled : IrqEdit → List Irq × ℤ → IrqEdit
show_toggled e (irqs, banned) =
    let word = if banned ==ℤ pos 0 then codes "NO " else codes "YES" in
    let row : Row = record {
      line = e.position;
      number = none;
      is_banned = not (banned ==ℤ pos 0);
      colour = 3;
      texts = word ∷ [];
    } in
    record e { tmp = irqs; window = record e.window { rows = e.window.rows ++ row ∷ [] } }

unfoldable pub irq_enter : IrqEdit → IrqEdit
unfolding toggle_irq
irq_enter e = show_toggled e (toggle_irq e.tmp (e.position + e.window.offset - 4))

unfoldable pub press_irq : (ℕ → List ℕ) → List Irq → Key → IrqEdit → Pressed IrqEdit
unfolding irq_up irq_down irq_enter
press_irq names all_irqs up e = going (irq_up names e)
press_irq names all_irqs down e = going (irq_down names all_irqs e)
press_irq names all_irqs enter e = going (irq_enter e)
press_irq names all_irqs escape e = discard
press_irq names all_irqs (char c) e = if c == 115 then save else if c == 113 then quit else going e
press_irq names all_irqs npage e = going e
press_irq names all_irqs ppage e = going e
press_irq names all_irqs f3 e = going e
press_irq names all_irqs f4 e = going e
press_irq names all_irqs f5 e = going e
press_irq names all_irqs backspace e = going e
press_irq names all_irqs nothing e = going e

abbrev pub send_irqs : Window → List Irq → Option (List ℕ) → Session IrqEdit Irq
send_irqs w irqs none = broken
send_irqs w irqs (some text) = ended w irqs (some text)

abbrev pub after_irq_press :
    (ℕ → List ℕ)
    → List Irq
    → IrqEdit
    → Pressed IrqEdit
    → (IrqEdit → Session IrqEdit Irq)
    → Session IrqEdit Irq
after_irq_press names all_irqs e (going f) rest = rest f
after_irq_press names all_irqs e discard rest =
    ended (print_all_irqs names all_irqs e.window) all_irqs none
after_irq_press names all_irqs e save rest =
    send_irqs (print_all_irqs names e.tmp e.window) e.tmp (irq_settings e.tmp)
after_irq_press names all_irqs e quit rest = closed
after_irq_press names all_irqs e fault rest = broken

unfoldable pub edit_irqs : (ℕ → List ℕ) → List Irq → List Key → IrqEdit → Session IrqEdit Irq
unfolding press_irq
edit_irqs names all_irqs [] e = waiting e
edit_irqs names all_irqs (k ∷ ks) e =
    after_irq_press names all_irqs e (press_irq names all_irqs k e) (edit_irqs names all_irqs ks)

unfoldable pub handle_irq_banning :
    (ℕ → List ℕ) → List Irq → List Key → Window → Session IrqEdit Irq
unfolding edit_irqs copy_irq
handle_irq_banning names all_irqs keys w =
    edit_irqs names all_irqs keys (record { window = w; position = 4; tmp = map copy_irq all_irqs })
