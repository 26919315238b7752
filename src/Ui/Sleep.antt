-- ===== src/Ui/Sleep.antt =====
-- ui/ui.c: the input of the interval between two scans.
pub mod Sent
use irqbalance.Prelude.{
  ℕ, ℤ, zero, suc, ◌+◌, ◌%◌, ◌==◌, ltb, leb, not, Bool, true, false, ◌&&◌, ◌||◌, Option, none, some,
  List, [], ◌∷◌, ◌++◌, length, if◌then◌else◌, codes, is_digit, skip_spaces, before_char, has_digit,
  after_number, strtol, word64, to_int, print_ℕ,
}
use irqbalance.Ui.Window.{
  Key, up, down, npage, ppage, f3, f4, f5, enter, escape, backspace, nothing, char,
}
use irqbalance.Ui.Setup.{Setup}

-- The codes of curses.
abbrev key_code : Key → ℕ
key_code up = 259
key_code down = 258
key_code npage = 338
key_code ppage = 339
key_code f3 = 267
key_code f4 = 268
key_code f5 = 269
key_code enter = 13
key_code escape = 27
key_code backspace = 263
key_code nothing = 0
key_code (char c) = c

-- What a key does to the line: `overrun` is a buffer that is full and has no end.
pub data Stroke : Type 0 where
  more : List ℕ → Stroke
  typed : List ℕ → Stroke
  cancel quit overrun : Stroke

abbrev drop_last : List ℕ → List ℕ
drop_last [] = []
drop_last (c ∷ []) = []
drop_last (c ∷ d ∷ cs) = c ∷ drop_last (d ∷ cs)

abbrev add_key : ℕ → ℕ → List ℕ → Stroke
add_key max_len c input =
    if ltb (length input + 1) max_len then more (input ++ (c % 256) ∷ []) else overrun

unfoldable pub check_control_in_sleep_input : ℕ → Key → List ℕ → Stroke
check_control_in_sleep_input max_len nothing input = more input
check_control_in_sleep_input max_len enter input = typed input
check_control_in_sleep_input max_len backspace input = more (drop_last input)
check_control_in_sleep_input max_len escape input = cancel
check_control_in_sleep_input max_len (char c) input =
    if c == 113 then quit else add_key max_len c input
check_control_in_sleep_input max_len up input = add_key max_len (key_code up) input
check_control_in_sleep_input max_len down input = add_key max_len (key_code down) input
check_control_in_sleep_input max_len npage input = add_key max_len (key_code npage) input
check_control_in_sleep_input max_len ppage input = add_key max_len (key_code ppage) input
check_control_in_sleep_input max_len f3 input = add_key max_len (key_code f3) input
check_control_in_sleep_input max_len f4 input = add_key max_len (key_code f4) input
check_control_in_sleep_input max_len f5 input = add_key max_len (key_code f5) input

-- What the user has settled on.
pub data Asked : Type 0 where
  settled : ℤ → Asked
  asking closed broken : Asked

abbrev is_empty : List ℕ → Bool
is_empty [] = true
is_empty (c ∷ cs) = false

-- `*error == '\0'`: strtol has read the whole text. Where there is no digit it stops at the start.
abbrev pub is_read : List ℕ → Bool
is_read s = is_empty (after_number s)

-- A line is asked for again until it is a number; then the number is cut to an `int`.
abbrev pub after_line : List ℕ → (List ℕ → Asked) → Asked
after_line s rest =
    let new_sleep = word64 (strtol s) in
    if is_read s && leb 1 new_sleep then settled (to_int new_sleep) else rest []

abbrev after_stroke : ℕ → Stroke → (List ℕ → Asked) → Asked
after_stroke sleep (more line) rest = rest line
after_stroke sleep (typed line) rest = after_line (before_char 0 line) rest
after_stroke sleep cancel rest = settled (to_int sleep)
after_stroke sleep quit rest = closed
after_stroke sleep overrun rest = broken

unfoldable pub get_valid_sleep_input : ℕ → List Key → List ℕ → Asked
unfolding check_control_in_sleep_input
get_valid_sleep_input sleep [] input = asking
get_valid_sleep_input sleep (k ∷ ks) input =
    after_stroke sleep (check_control_in_sleep_input 20 k input) (get_valid_sleep_input sleep ks)

-- The setup after the input and what is sent, if the input ends.
abbrev pub after_input : Setup → Asked → Option (Setup × Option (List ℕ))
after_input setup (settled n) =
    let new_sleep = word64 n in
    some (
      if new_sleep == setup.sleep then (setup, none) else (
        record setup { sleep = new_sleep },
        some (codes "settings sleep " ++ 32 ∷ print_ℕ new_sleep),
      ))
after_input setup asking = none
after_input setup closed = none
after_input setup broken = none

unfoldable pub handle_sleep_setting : Setup → List Key → Option (Setup × Option (List ℕ))
unfolding get_valid_sleep_input
handle_sleep_setting setup keys = after_input setup (get_valid_sleep_input setup.sleep keys [])
