-- ===== src/Ui/Cpus.antt =====
-- ui/ui.c: the list of the CPUs on the screen of the settings, and the editing of their bans.
pub mod Numbered
pub mod Cursor
pub mod Text
pub mod Words
pub mod Safe
pub mod Sent
use irqbalance.Prelude.{
  ℕ, ℤ, zero, suc, pos, ◌+◌, ◌-◌, ◌%◌, ◌==◌, ◌==ℤ◌, ltb, leb, Bool, true, false, not, ◌&&◌, Option,
  none, some, List, [], ◌∷◌, ◌++◌, length, map, for_each, if◌then◌else◌, codes, print_ℤ,
}
use irqbalance.Ui.Model.{Node, Tree, type_cpu, Parsed, ok, unfinished, ◌>>=◌}
use irqbalance.Ui.Window.{
  Row, Window, Key, up, down, npage, ppage, f3, f4, f5, enter, escape, backspace, nothing, char,
  size_less, rest_of, print_onto,
}

pub record CpuBan : Type 0 where
  pub number : ℤ
  pub is_banned : Bool
  pub is_changed : Bool

unfoldable pub copy_cpu_ban : CpuBan → CpuBan
copy_cpu_ban c = record c { is_changed = false }

abbrev cpu_row : ℕ → CpuBan → ℕ → Row
cpu_row line c colour = record {
  line = line;
  number = some c.number;
  is_banned = c.is_banned;
  colour = colour;
  texts = [];
}

abbrev ban_colour : Bool → ℕ
ban_colour is_banned = if is_banned then 10 else 9

-- The rows so far, and `max_offset`, which counts the entries.
unfoldable pub print_tmp_cpu_line : ℕ → ℕ → CpuBan → List Row × ℕ → List Row × ℕ
print_tmp_cpu_line lines offset c (rows, max_offset) =
    let line = max_offset - offset + 6 in
    let row = cpu_row line c (if c.is_changed then 3 else ban_colour c.is_banned) in
    (
      if leb offset max_offset && ltb (line + 3) lines then rows ++ row ∷ [] else rows,
      max_offset + 1,
    )

unfoldable pub print_cpu_line : ℕ → ℕ → CpuBan → List Row × ℕ → List Row × ℕ
print_cpu_line lines offset c (rows, max_offset) =
    let line = max_offset - offset + 6 in
    let row = cpu_row line c (ban_colour c.is_banned) in
    (
      if leb offset max_offset && ltb (line + 2) lines then rows ++ row ∷ [] else rows,
      max_offset + 1,
    )

unfoldable pub draw_tmp_cpus : List CpuBan → Window → Window
unfolding print_tmp_cpu_line
draw_tmp_cpus cpus w =
    let r = for_each (print_tmp_cpu_line w.lines w.offset) cpus ([], 0) in
    record w { rows = r.0; max_offset = rest_of r.1 w.lines 9 }

unfoldable pub draw_cpus : List CpuBan → Window → Window
unfolding print_cpu_line
draw_cpus cpus w =
    let r = for_each (print_cpu_line w.lines w.offset) cpus ([], 0) in
    record w { rows = r.0; max_offset = rest_of r.1 w.lines 8 }

abbrev toggled : CpuBan → CpuBan
toggled c = record c { is_banned = not c.is_banned; is_changed = true }

abbrev pub behind_cpu : CpuBan → Option (List CpuBan × Bool) → Option (List CpuBan × Bool)
behind_cpu c none = none
behind_cpu c (some (cpus, banned)) = some (c ∷ cpus, banned)

-- `none` follows the NULL at the end of the list.
unfoldable pub toggle_cpu : List CpuBan → ℤ → Option (List CpuBan × Bool)
toggle_cpu [] cpu_number = none
toggle_cpu (c ∷ cpus) cpu_number =
    if c.number ==ℤ cpu_number
    then some (toggled c ∷ cpus, not c.is_banned)
    else behind_cpu c (toggle_cpu cpus cpu_number)

unfoldable pub get_new_cpu_ban_values : CpuBan → List ℕ → List ℕ
get_new_cpu_ban_values c mask_data =
    if c.is_banned then print_onto mask_data (print_ℤ c.number ++ 44 ∷ []) else mask_data

-- The text that is sent. The prefix always stands, so the word always follows; `none` is a text
-- that fills its buffer and has no end.
unfoldable pub cpu_settings : List CpuBan → Option (List ℕ)
unfolding get_new_cpu_ban_values
cpu_settings cpus =
    let text = for_each get_new_cpu_ban_values cpus (codes "settings cpus ") in
    if ltb (length text + 4) 1024 then some (text ++ codes "NULL") else none

-- The list that is edited, and the line of the cursor.
pub record CpuEdit : Type 0 where
  pub window : Window
  pub position : ℕ
  pub tmp : List CpuBan

pub data Pressed (E : Type 0) : Type 0 where
  going : E → Pressed E
  discard save quit fault : Pressed E

unfoldable pub cpu_up : CpuEdit → CpuEdit
unfolding draw_tmp_cpus
cpu_up e =
    if ltb 6 e.position
    then record e { position = e.position - 1 }
    else if ltb 0 e.window.offset
    then record e {
      window = draw_tmp_cpus e.tmp (record e.window { offset = e.window.offset - 1 });
    }
    else e

-- `g_list_length(all_cpus) + 4 - offset` is unsigned.
abbrev pub cpu_limit : ℕ → ℕ → ℕ
cpu_limit count offset = (4294967296 + count + 4 - offset) % 4294967296

unfoldable pub cpu_down : List CpuBan → CpuEdit → CpuEdit
unfolding draw_tmp_cpus
cpu_down all_cpus e =
    if ltb e.position (size_less e.window.lines 4)
    then if leb e.position (cpu_limit (length all_cpus) e.window.offset)
      then record e { position = e.position + 1 }
      else e
    else if ltb e.window.offset e.window.max_offset
    then record e {
      window = draw_tmp_cpus e.tmp (record e.window { offset = e.window.offset + 1 });
    }
    else e

abbrev pub after_toggle : CpuEdit → ℤ → Option (List CpuBan × Bool) → Pressed CpuEdit
after_toggle e number none = fault
after_toggle e number (some (cpus, banned)) =
    let row : Row = record {
      line = e.position;
      number = some number;
      is_banned = banned;
      colour = 3;
      texts = [];
    } in
    going (record e { tmp = cpus; window = record e.window { rows = e.window.rows ++ row ∷ [] } })

unfoldable pub cpu_enter : CpuEdit → Pressed CpuEdit
unfolding toggle_cpu
cpu_enter e =
    let number = pos (e.position + e.window.offset - 6) in
    after_toggle e number (toggle_cpu e.tmp number)

unfoldable pub press_cpu : List CpuBan → Key → CpuEdit → Pressed CpuEdit
unfolding cpu_up cpu_down cpu_enter
press_cpu all_cpus up e = going (cpu_up e)
press_cpu all_cpus down e = going (cpu_down all_cpus e)
press_cpu all_cpus enter e = cpu_enter e
press_cpu all_cpus escape e = discard
press_cpu all_cpus (char c) e = if c == 115 then save else if c == 113 then quit else going e
press_cpu all_cpus npage e = going e
press_cpu all_cpus ppage e = going e
press_cpu all_cpus f3 e = going e
press_cpu all_cpus f4 e = going e
press_cpu all_cpus f5 e = going e
press_cpu all_cpus backspace e = going e
press_cpu all_cpus nothing e = going e

-- How an editing session ends: the list and the window after it, and what is sent. `waiting` is for
-- a key.
pub data Session (E C : Type 0) : Type 0 where
  waiting : E → Session E C
  ended : Window → List C → Option (List ℕ) → Session E C
  closed broken : Session E C

abbrev pub send_cpus : Window → List CpuBan → Option (List ℕ) → Session CpuEdit CpuBan
send_cpus w cpus none = broken
send_cpus w cpus (some text) = ended w cpus (some text)

abbrev pub after_press :
    List CpuBan
    → CpuEdit
    → Pressed CpuEdit
    → (CpuEdit → Session CpuEdit CpuBan)
    → Session CpuEdit CpuBan
after_press all_cpus e (going f) rest = rest f
after_press all_cpus e discard rest = ended (draw_cpus all_cpus e.window) all_cpus none
after_press all_cpus e save rest = send_cpus (draw_cpus e.tmp e.window) e.tmp (cpu_settings e.tmp)
after_press all_cpus e quit rest = closed
after_press all_cpus e fault rest = broken

unfoldable pub edit_cpus : List CpuBan → List Key → CpuEdit → Session CpuEdit CpuBan
unfolding press_cpu
edit_cpus all_cpus [] e = waiting e
edit_cpus all_cpus (k ∷ ks) e =
    after_press all_cpus e (press_cpu all_cpus k e) (edit_cpus all_cpus ks)

unfoldable pub handle_cpu_banning : List CpuBan → List Key → Window → Session CpuEdit CpuBan
unfolding edit_cpus copy_cpu_ban
handle_cpu_banning all_cpus keys w =
    edit_cpus all_cpus keys (record { window = w; position = 6; tmp = map copy_cpu_ban all_cpus })
