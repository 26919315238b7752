-- ===== src/Types/Cpumask.antt =====
-- cpumask.h as its clients see it. The masks are the Linux kernel's bitmaps, copied into the
-- repository; here they are any type with the operations that the daemon calls.
use irqbalance.Prelude.{ℕ, ◌<◌, ◌≡◌, ◌≢◌, Bool, true, false, not, ◌&&◌, ◌||◌}

pub record Cpumask (M : Type 0) : Type 0 where
  pub nr_cpus : ℕ
  pub cpu_isset : ℕ → M → Bool
  pub cpus_clear : M
  pub cpus_setall : M
  pub cpu_set : ℕ → M → M
  pub cpus_and : M → M → M
  pub cpus_or : M → M → M
  pub cpus_complement : M → M
  pub cpus_equal : M → M → Bool
  pub cpus_intersects : M → M → Bool
  pub cpus_empty : M → Bool
  pub cpus_weight : M → ℕ
  pub cpu_isset-clear : (k : ℕ) → cpu_isset k cpus_clear ≡ false
  pub cpu_isset-set_self : (k : ℕ) (m : M) → k < nr_cpus → cpu_isset k (cpu_set k m) ≡ true
  pub cpu_isset-set_ne : (k j : ℕ) (m : M) → k ≢ j → cpu_isset j (cpu_set k m) ≡ cpu_isset j m
  pub cpu_isset-and :
      (k : ℕ) (a b : M) → cpu_isset k (cpus_and a b) ≡ (cpu_isset k a && cpu_isset k b)
  pub cpu_isset-or :
      (k : ℕ) (a b : M) → cpu_isset k (cpus_or a b) ≡ (cpu_isset k a || cpu_isset k b)
  pub cpu_isset-complement :
      (k : ℕ) (m : M) → k < nr_cpus → cpu_isset k (cpus_complement m) ≡ not (cpu_isset k m)
  pub cpus_equal-true : (a b : M) → cpus_equal a b ≡ true → (k : ℕ) → cpu_isset k a ≡ cpu_isset k b
  pub cpus_intersects-true :
      (a b : M)
      → cpus_intersects a b ≡ true
      → (k : ℕ) × (k < nr_cpus) × (cpu_isset k a ≡ true) × (cpu_isset k b ≡ true)
  pub cpus_intersects-false :
      (a b : M) (k : ℕ) → cpus_intersects a b ≡ false → (cpu_isset k a && cpu_isset k b) ≡ false
  pub cpus_empty-true : (a : M) (k : ℕ) → cpus_empty a ≡ true → cpu_isset k a ≡ false
