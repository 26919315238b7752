-- ===== src/Samples/Masks.antt =====
-- Masks of two CPUs: the interface of cpumask.h can be met.
use irqbalance.Prelude.{
  ℕ, zero, suc, ◌<◌, ◌+◌, ◌≡◌, ◌≢◌, refl, Bool, true, false, not, ◌&&◌, ◌||◌, arith, inl, inr, bit,
  Bool-cases,
}
use irqbalance.Types.Cpumask.{Cpumask}

pub record Mask : Type 0 where
  pub cpu0 : Bool
  pub cpu1 : Bool

abbrev pub mk : Bool → Bool → Mask
mk a b = record { cpu0 = a; cpu1 = b }

abbrev pub isset : ℕ → Mask → Bool
isset zero m = m.cpu0
isset (suc zero) m = m.cpu1
isset (suc (suc k)) m = false

abbrev pub set_cpu : ℕ → Mask → Mask
set_cpu zero m = mk true m.cpu1
set_cpu (suc zero) m = mk m.cpu0 true
set_cpu (suc (suc k)) m = m

abbrev pub both : Mask → Mask → Mask
both a b = mk (a.cpu0 && b.cpu0) (a.cpu1 && b.cpu1)

abbrev pub either : Mask → Mask → Mask
either a b = mk (a.cpu0 || b.cpu0) (a.cpu1 || b.cpu1)

abbrev pub others : Mask → Mask
others a = mk (not a.cpu0) (not a.cpu1)

abbrev pub same : Bool → Bool → Bool
same true b = b
same false b = not b

abbrev pub meets : Mask → Mask → Bool
meets a b = (a.cpu0 && b.cpu0) || (a.cpu1 && b.cpu1)

pub isset-none : (k : ℕ) → isset k (mk false false) ≡ false
isset-none zero = refl
isset-none (suc zero) = refl
isset-none (suc (suc k)) = refl

pub isset-set_self : (k : ℕ) (m : Mask) → k < 2 → isset k (set_cpu k m) ≡ true
isset-set_self zero m h = refl
isset-set_self (suc zero) m h = refl
isset-set_self (suc (suc k)) m h = absurd (omega arith)

pub isset-set_ne : (k j : ℕ) (m : Mask) → k ≢ j → isset j (set_cpu k m) ≡ isset j m
isset-set_ne zero zero m h = absurd (h refl)
isset-set_ne zero (suc zero) m h = refl
isset-set_ne zero (suc (suc j)) m h = refl
isset-set_ne (suc zero) zero m h = refl
isset-set_ne (suc zero) (suc zero) m h = absurd (h refl)
isset-set_ne (suc zero) (suc (suc j)) m h = refl
isset-set_ne (suc (suc k)) j m h = refl

pub isset-both : (k : ℕ) (a b : Mask) → isset k (both a b) ≡ (isset k a && isset k b)
isset-both zero a b = refl
isset-both (suc zero) a b = refl
isset-both (suc (suc k)) a b = refl

pub isset-either : (k : ℕ) (a b : Mask) → isset k (either a b) ≡ (isset k a || isset k b)
isset-either zero a b = refl
isset-either (suc zero) a b = refl
isset-either (suc (suc k)) a b = refl

pub isset-others : (k : ℕ) (m : Mask) → k < 2 → isset k (others m) ≡ not (isset k m)
isset-others zero m h = refl
isset-others (suc zero) m h = refl
isset-others (suc (suc k)) m h = absurd (omega arith)

pub equal-isset :
    (a b : Mask)
    → (same a.cpu0 b.cpu0 && same a.cpu1 b.cpu1) ≡ true
    → (k : ℕ) → isset k a ≡ isset k b
equal-isset a b h zero = ground arith
equal-isset a b h (suc zero) = ground arith
equal-isset a b h (suc (suc k)) = refl

pub meets-isset :
    (a b : Mask) → meets a b ≡ true → (k : ℕ) × (k < 2) × (isset k a ≡ true) × (isset k b ≡ true)
meets-isset a b h = elim (Bool-cases (a.cpu0 && b.cpu0)) [
  | inl first ↦ (0, omega arith, ground arith, ground arith)
  | inr other ↦ (1, omega arith, ground arith, ground arith)
]

pub not-meets-isset : (a b : Mask) (k : ℕ) → meets a b ≡ false → (isset k a && isset k b) ≡ false
not-meets-isset a b zero h = ground arith
not-meets-isset a b (suc zero) h = ground arith
not-meets-isset a b (suc (suc k)) h = refl

pub empty-isset : (a : Mask) (k : ℕ) → not (a.cpu0 || a.cpu1) ≡ true → isset k a ≡ false
empty-isset a zero h = ground arith
empty-isset a (suc zero) h = ground arith
empty-isset a (suc (suc k)) h = refl

instance abbrev pub two_cpus : Cpumask Mask
two_cpus = record {
  nr_cpus = 2;
  cpu_isset = isset;
  cpus_clear = mk false false;
  cpus_setall = mk true true;
  cpu_set = set_cpu;
  cpus_and = both;
  cpus_or = either;
  cpus_complement = others;
  cpus_equal = λ a b. same a.cpu0 b.cpu0 && same a.cpu1 b.cpu1;
  cpus_intersects = meets;
  cpus_empty = λ a. not (a.cpu0 || a.cpu1);
  cpus_weight = λ a. bit a.cpu0 + bit a.cpu1;
  cpu_isset-clear = isset-none;
  cpu_isset-set_self = isset-set_self;
  cpu_isset-set_ne = isset-set_ne;
  cpu_isset-and = isset-both;
  cpu_isset-or = isset-either;
  cpu_isset-complement = isset-others;
  cpus_equal-true = equal-isset;
  cpus_intersects-true = meets-isset;
  cpus_intersects-false = not-meets-isset;
  cpus_empty-true = empty-isset;
}
