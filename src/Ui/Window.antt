-- ===== src/Ui/Window.antt =====
-- ui/ui.c: the window of the user interface, the keys, and the text buffers. A window has no
-- negative height, and `offset` is the number of lines that have scrolled away.
use irqbalance.Prelude.{ℕ, ℤ, suc, ◌+◌, ◌-◌, ◌%◌, ◌<◌, ◌≤◌, ◌≡◌, Bool, Option, List, ◌++◌, take}

-- What is written on one line: the number of a CPU or an interrupt, unless only the columns behind it
-- are written, in a pair of colours.
pub record Row : Type 0 where
  pub line : ℕ
  pub number : Option ℤ
  pub is_banned : Bool
  pub colour : ℕ
  pub texts : List (List ℕ)

-- LINES, `offset`, `max_offset`, what was drawn last, the static `rbot`, and whether the name of a
-- class was read behind the end of its table.
pub record Window : Type 0 where
  pub lines : ℕ
  pub offset : ℕ
  pub max_offset : ℕ
  pub rows : List Row
  pub rbot : ℤ
  pub is_outside : Bool

-- What getch gives; `nothing` is ERR, since the terminal does not wait.
pub data Key : Type 0 where
  up down npage ppage f3 f4 f5 enter escape backspace nothing : Key
  char : ℕ → Key

-- `(size_t)(LINES - k)`.
abbrev pub size_less : ℕ → ℕ → ℕ
size_less lines k = (18446744073709551616 + lines - k) % 18446744073709551616

-- `max_offset -= LINES - k; if (max_offset < 0) max_offset = 0;` after `drawn` lines.
abbrev pub rest_of : ℕ → ℕ → ℕ → ℕ
rest_of drawn lines k = drawn + k - lines

-- `snprintf(buf + strlen(buf), 1024 - strlen(buf), …)`: what does not fit is cut.
abbrev pub print_onto : List ℕ → List ℕ → List ℕ
print_onto buf text = take 1023 (buf ++ text)

-- A window over a list of `n` entries, of which `k` lines are for other things. After an editing
-- session, which uses one line more, it may be scrolled one line beyond `max_offset`.
pub record ScrollsOver (n k : ℕ) (w : Window) : Type 0 where
  pub tall : k + 2 ≤ w.lines
  pub short : w.lines < 2147483648
  pub counted : w.max_offset ≡ n + k - w.lines
  pub scrolled : w.offset ≤ n + suc k - w.lines
