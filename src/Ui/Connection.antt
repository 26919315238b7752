-- ===== src/Ui/Connection.antt =====
-- ui/irqbalance-ui.c: init_connection and get_data, the request to the daemon.
pub mod Whole
use irqbalance.Prelude.{
  ℕ, ℤ, zero, suc, pos, ◌+◌, ◌==ℤ◌, ltb, ltb_ℤ, not, Bool, true, false, ◌||◌, Option, none, some,
  List, length, if◌then◌else◌,
}

-- What the system calls of one attempt give: the descriptor, whether the two connects succeed, and
-- the whole message that recv finds. MSG_TRUNC is taken to
-- make its length the result, which the code relies on.
pub record Attempt : Type 0 where
  pub socket_fd : ℤ
  pub is_connected : Bool
  pub is_abstract_connected : Bool
  pub received : Option (List ℕ)

-- The descriptor, and 0 if there is no connection.
unfoldable pub init_connection : Attempt → ℤ
init_connection a =
    if ltb_ℤ a.socket_fd (pos 0)
    then pos 0
    else if a.is_connected
    then a.socket_fd
    else if a.is_abstract_connected
    then a.socket_fd
    else pos 0

-- `text` is `none` for NULL; `is_outside` says that `data[len] = '\0'` was written behind the buffer.
pub record Answer : Type 0 where
  pub text : Option (List ℕ)
  pub default_bufsz : ℕ
  pub is_outside : Bool

abbrev pub null : ℕ → Bool → Answer
null bufsz is_outside = record { text = none; default_bufsz = bufsz; is_outside = is_outside }

-- `again` is the next attempt, with a larger buffer.
abbrev pub after_recv : ℕ → Bool → Option (List ℕ) → (ℕ → Bool → Option Answer) → Option Answer
after_recv bufsz is_outside none again = some (null bufsz is_outside)
after_recv bufsz is_outside (some message) again =
    if ltb (length message) bufsz
    then some (record { text = some message; default_bufsz = bufsz; is_outside = is_outside })
    else again (bufsz + 8192) true

-- `fuel` is how many attempts are made; the result is `none` if these are not enough.
unfoldable pub get_data : ℕ → (ℕ → Attempt) → ℕ → ℕ → Bool → Option Answer
unfolding init_connection
get_data zero attempts i bufsz is_outside = none
get_data (suc fuel) attempts i bufsz is_outside =
    let a = attempts i in
    let read = after_recv bufsz is_outside a.received (get_data fuel attempts (i + 1)) in
    if init_connection a ==ℤ pos 0 then some (null bufsz is_outside) else read
