-- ===== src/Thermal/Receive.antt =====
-- thermal.c: receive_thermal_event, which the main loop calls for as long as it returns TRUE.
use irqbalance.Prelude.{
  ℕ, ◌+◌, ◌≤◌, ◌≡◌, leb, Bool, true, false, ◌&&◌, List, [], ◌∷◌, arith, bit, if◌then◌else◌,
}

abbrev pub max_recv_errs : ℕ
max_recv_errs = 2

-- A call: whether the condition is G_IO_IN, and whether nl_recvmsgs then fails.
pub record Wakeup : Type 0 where
  pub is_input : Bool
  pub fails : Bool

-- `retry` is the static counter. The result says whether the source is kept.
unfoldable pub receive_thermal_event : Wakeup → ℕ → Bool × ℕ
receive_thermal_event w retry =
    if w.is_input
    then if w.fails then (leb (retry + 1) max_recv_errs, retry + 1) else (true, retry)
    else (true, retry)

-- The calls of the main loop, up to the one that ends the source: whether it is still there.
unfoldable pub dispatch : List Wakeup → ℕ → Bool × ℕ
unfolding receive_thermal_event
dispatch [] retry = (true, retry)
dispatch (w ∷ ws) retry =
    let r = receive_thermal_event w retry in let rest = dispatch ws r.1 in if r.0 then rest else r

abbrev pub failures : List Wakeup → ℕ
failures [] = 0
failures (w ∷ ws) = bit (w.is_input && w.fails) + failures ws

-- The source is kept exactly as long as no more than two calls failed in all, however many
-- succeeded in between; the third failure disconnects it, and nothing is received after that.
pub dispatch_lem :
    (ws : List Wakeup) (retry : ℕ)
    → retry ≤ max_recv_errs
    → ((dispatch ws retry).0 ≡ leb (retry + failures ws) max_recv_errs)
      × ((dispatch ws retry).0 ≡ true → (dispatch ws retry).1 ≡ retry + failures ws)
      × ((dispatch ws retry).0 ≡ false → (dispatch ws retry).1 ≡ 3)
unfolding dispatch receive_thermal_event
dispatch_lem [] retry h = (ground arith, λ e. omega arith, λ e. cc)
dispatch_lem (w ∷ ws) retry h = ground (arith, dispatch_lem ws retry, dispatch_lem ws (retry + 1))
