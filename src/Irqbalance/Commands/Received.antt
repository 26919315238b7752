-- ===== src/Irqbalance/Commands/Received.antt =====
-- irqbalance.c: sock_handle with a whole message of a client that is root, and the text behind a
-- prefix of the message.
use irqbalance.Prelude.{
  ℕ, ◌+◌, ◌-◌, ◌≡◌, ◌≢◌, refl, ap, ◌∙◌, ◌==◌, ltb, true, false, some, List, ◌++◌, append_assoc,
  arith, length, length-append, take-append, drop, drop-append, all_above, before_char-above,
}
use irqbalance.Types.Cpumask.{Cpumask}
use irqbalance.Irqbalance.Commands.{Client, Settings, text, argument, run_command, sock_handle}

-- The client is root, and says who it is.
abbrev pub from_root : List ℕ → List ℕ → Client
from_root message stale = record {
  is_input = true;
  accepted = true;
  received = some message;
  stale = stale;
  has_control = true;
  uid = some 0;
}

-- What stands behind the prefix is copied whole, and nothing of the stale bytes.
pub argument-append :
    (prefix t stale : List ℕ)
    → all_above 0 t ≡ true
    → argument (length prefix) (length (prefix ++ t)) ((prefix ++ t) ++ stale) ≡ text t
unfolding argument
argument-append prefix t stale h =
    let size = length-append prefix t in
    let small : ltb (length (prefix ++ t) + 1) (length prefix) ≡ false = ground (arith, size) in
    let more : (length (prefix ++ t) + 1 == length prefix) ≡ false = ground (arith, size) in
    let left : length (prefix ++ t) - length prefix ≡ length t = omega (arith, size) in
    let behind : drop (length prefix) ((prefix ++ t) ++ stale) ≡ t ++ stale =
      ap (drop (length prefix)) (append_assoc prefix t stale) ∙ drop-append prefix (t ++ stale) in
    let whole = before_char-above 0 0 t (omega arith) h in
    rw small (rw more (rw left (rw behind (rw (take-append t stale) (ap text whole)))))

module _ {M : Type 0} ⦃mask : Cpumask M⦄ where
  pub sock_handle-from_root :
      (scnprintf : M → List ℕ) (message stale : List ℕ) (c : Settings M)
      → length message ≢ 16384
      → sock_handle scnprintf (from_root message stale) c
        ≡ run_command scnprintf (length message) (message ++ stale) c
  unfolding sock_handle
  sock_handle-from_root scnprintf message stale c h =
      let e : (length message == 16384) ≡ false = ground (arith, h) in rw e refl
