-- ===== src/Placement/Hosts.antt =====
-- placement.c: when an object can host an interrupt, and when one object is as good as another.
use irqbalance.Prelude.{
  ℕ, pos, ◌≤◌, ◌≡◌, ◌≢◌, ◌≤ℤ◌, ≤ℤ_antisymm, ==ℤ-eq, true, false, arith, length,
}
use irqbalance.Types.{State, obj_type_node, numa_no_node}
use irqbalance.Types.Cpumask.{Cpumask}
use irqbalance.Types.Word.{add64}
use irqbalance.Placement.Best.{slots_penalty, skip_object}

module _ {M : Type 0} where
  abbrev pub adjusted_cost : State M → ℕ → ℕ
  adjusted_cost s d = add64 (s.obj d).load (slots_penalty (s.obj d))

  -- `b` is as good as `d`: it costs less, or as much with more slots left, or as much with as many
  -- slots left and no more interrupts.
  pub record AsGood (s : State M) (b d : ℕ) : Type 0 where
    pub cost : adjusted_cost s b ≤ adjusted_cost s d
    pub slots : adjusted_cost s b ≡ adjusted_cost s d → (s.obj d).slots_left ≤ℤ (s.obj b).slots_left
    pub spread :
        adjusted_cost s b ≡ adjusted_cost s d
        → (s.obj d).slots_left ≡ (s.obj b).slots_left
        → length (s.obj b).interrupts ≤ length (s.obj d).interrupts

  pub AsGood-refl : (s : State M) (d : ℕ) → AsGood s d d
  AsGood-refl s d = omega arith

  pub AsGood-trans : (s : State M) (a b c : ℕ) → AsGood s a b → AsGood s b c → AsGood s a c
  AsGood-trans s a b c h k = record {
    cost = omega arith;
    slots = λ e. omega arith;
    spread = λ e f. ground (
      arith,
      h.spread,
      k.spread,
      ≤ℤ_antisymm (s.obj b).slots_left (s.obj a).slots_left,
      ≤ℤ_antisymm (s.obj c).slots_left (s.obj b).slots_left,
    );
  }

module _ {M : Type 0} ⦃mask : Cpumask M⦄ where
  -- An object can be chosen if it is awake, has slots left and, being a node, is a real one with a
  -- CPU that is not banned.
  pub record CanHost (s : State M) (d : ℕ) : Type 0 where
    pub awake : (s.obj d).powersave_mode ≡ false
    pub roomy : pos 1 ≤ℤ (s.obj d).slots_left
    pub real :
        (s.obj d).obj_type ≡ obj_type_node → s.numa_avail ≡ true → (s.obj d).number ≢ numa_no_node
    pub usable :
        (s.obj d).obj_type ≡ obj_type_node
        → mask.cpus_intersects (s.obj d).mask s.unbanned_cpus ≡ true

  pub skip_object-CanHost : (s : State M) (d : ℕ) → skip_object s (s.obj d) ≡ false → CanHost s d
  unfolding skip_object
  skip_object-CanHost s d h = record {
    awake = ground arith;
    roomy = ground arith;
    real = λ e f g. ground arith;
    usable = λ e. ground arith;
  }

  pub CanHost-skip_object : (s : State M) (d : ℕ) → CanHost s d → skip_object s (s.obj d) ≡ false
  unfolding skip_object
  CanHost-skip_object s d h = ground (arith, h.real, h.usable, ==ℤ-eq (s.obj d).number numa_no_node)
