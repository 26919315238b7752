-- ===== src/Ui/Connection/Whole.antt =====
-- ui/irqbalance-ui.c: get_data against a daemon that answers.
use irqbalance.Prelude.{
  ℕ, zero, suc, pos, ◌+◌, ◌*◌, ◌<◌, ◌≡◌, refl, ◌∙◌, ◌==ℤ◌, ltb, not, Bool, true, false, ◌||◌, some,
  List, arith, length, if◌then◌else◌, lt→ltb, leb,
}
use irqbalance.Ui.Connection.{Attempt, init_connection, Answer, after_recv, get_data}

-- Every attempt reaches the daemon, which answers with the same message.
pub record Answers (attempts : ℕ → Attempt) (message : List ℕ) : Type 0 where
  pub connected : (i : ℕ) → (init_connection (attempts i) ==ℤ pos 0) ≡ false
  pub received : (i : ℕ) → (attempts i).received ≡ some message

-- The size of the buffer that has room for `len` bytes and an end, in steps of 8192.
abbrev enlarged : ℕ → ℕ → ℕ → ℕ
enlarged zero len bufsz = bufsz
enlarged (suc fuel) len bufsz =
    let more = enlarged fuel len (bufsz + 8192) in if ltb len bufsz then bufsz else more

enlarged-room : (fuel len bufsz : ℕ) → len < bufsz + 8192 * fuel → len < enlarged fuel len bufsz
enlarged-room zero len bufsz h = omega arith
enlarged-room (suc fuel) len bufsz h = ground (arith, enlarged-room fuel len (bufsz + 8192))

get_data-step :
    (fuel : ℕ) (attempts : ℕ → Attempt) (i bufsz : ℕ) (is_outside : Bool) (message : List ℕ)
    → Answers attempts message
    → get_data (suc fuel) attempts i bufsz is_outside
      ≡ after_recv bufsz is_outside (some message) (get_data fuel attempts (i + 1))
unfolding get_data
get_data-step fuel attempts i bufsz is_outside message v =
    rw (v.connected i) (rw (v.received i) refl)

get_data_from :
    (fuel : ℕ) (attempts : ℕ → Attempt) (i bufsz : ℕ) (is_outside : Bool) (message : List ℕ)
    → Answers attempts message
    → length message < bufsz + 8192 * fuel
    → get_data (suc fuel) attempts i bufsz is_outside
      ≡ some (record {
        text = some message;
        default_bufsz = enlarged fuel (length message) bufsz;
        is_outside = is_outside || not (ltb (length message) bufsz);
      })
get_data_from zero attempts i bufsz is_outside message v h =
    let fits : ltb (length message) bufsz ≡ true = lt→ltb (length message) bufsz (omega arith) in
    get_data-step zero attempts i bufsz is_outside message v ∙ ground arith
get_data_from (suc fuel) attempts i bufsz is_outside message v h =
    let later = get_data_from fuel attempts (i + 1) (bufsz + 8192) true message v (omega arith) in
    get_data-step (suc fuel) attempts i bufsz is_outside message v ∙ ground (arith, later)

-- A daemon that answers each attempt with the same message: as many attempts as the message has
-- blocks of 8192 bytes more than the buffer, and one, bring the whole message, and leave a buffer
-- that has room for it. The end of the text was written behind the buffer exactly if the first
-- buffer was too small.
pub get_data-whole :
    (fuel : ℕ) (attempts : ℕ → Attempt) (bufsz : ℕ) (message : List ℕ)
    → Answers attempts message
    → length message < bufsz + 8192 * fuel
    → (a : Answer) × (get_data (suc fuel) attempts 0 bufsz false ≡ some a)
      × (a.text ≡ some message)
      × (length message < a.default_bufsz)
      × (a.is_outside ≡ leb bufsz (length message))
get_data-whole fuel attempts bufsz message v h = (
  record {
    text = some message;
    default_bufsz = enlarged fuel (length message) bufsz;
    is_outside = false || not (ltb (length message) bufsz);
  },
  get_data_from fuel attempts 0 bufsz false message v h,
  refl,
  enlarged-room fuel (length message) bufsz h,
  ground arith,
)
