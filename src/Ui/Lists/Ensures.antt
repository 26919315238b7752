-- ===== src/Ui/Lists/Ensures.antt =====
-- What holds of a result, if there is one; the reading has not run out of fuel.
use irqbalance.Prelude.{◌≢◌}
use irqbalance.Ui.Model.{Parsed, ok, out, fault, unfinished, ◌>>=◌}

pub data Ensures {ℓ κ} {A : Type ℓ} (P : A → Type κ) : Parsed A → Type (ℓ ⊔ κ) where
  good : {a : A} → P a → Ensures P (ok a)
  left : Ensures P out
  failed : Ensures P fault

pub Ensures-bind {ℓ κ μ ν} :
    {A : Type ℓ} {B : Type κ} {Q : A → Type μ} {P : B → Type ν} {m : Parsed A} {f : A → Parsed B}
    → Ensures Q m
    → ((a : A) → Q a → Ensures P (f a))
    → Ensures P (m >>= f)
Ensures-bind (good {a} q) k = k a q
Ensures-bind left k = left
Ensures-bind failed k = failed

pub Ensures-ne {ℓ κ} : {A : Type ℓ} {P : A → Type κ} {m : Parsed A} → Ensures P m → m ≢ unfinished
Ensures-ne (good p) e = absurd cc
Ensures-ne left e = absurd cc
Ensures-ne failed e = absurd cc

pub Ensures-weaken {ℓ κ μ} :
    {A : Type ℓ} {P : A → Type κ} {Q : A → Type μ} {m : Parsed A}
    → Ensures P m
    → ((a : A) → P a → Q a)
    → Ensures Q m
Ensures-weaken (good {a} p) k = good (k a p)
Ensures-weaken left k = left
Ensures-weaken failed k = failed
