-- ===== src/Activate/Domain.antt =====
-- activate.c: the scope of a fallback, told by the tree.
use irqbalance.Prelude.{
  ℕ, zero, suc, ◌≡◌, ◌≢◌, refl, true, false, subst, Option, none, some, arith, ◌⊎◌, inl, inr,
  if_cases_eq,
}
use irqbalance.Types.{
  State, ObjType, Level, balance_none, balance_package, balance_cache, balance_core, obj_type_cpu,
  obj_type_cache, obj_type_package, obj_type_node, obj_type_eq,
}
use irqbalance.Activate.Fallback.{climb, scope_above, search_scope}

obj_type_eq-true : (t u : ObjType) → obj_type_eq t u ≡ true → t ≡ u
obj_type_eq-true obj_type_cpu u h = ground arith
obj_type_eq-true obj_type_cache u h = ground arith
obj_type_eq-true obj_type_package u h = ground arith
obj_type_eq-true obj_type_node u h = ground arith

obj_type_eq_refl : (t : ObjType) → obj_type_eq t t ≡ true
obj_type_eq_refl obj_type_cpu = refl
obj_type_eq_refl obj_type_cache = refl
obj_type_eq_refl obj_type_package = refl
obj_type_eq_refl obj_type_node = refl

obj_type_eq-false : (t u : ObjType) → obj_type_eq t u ≡ false → t ≢ u
obj_type_eq-false t u h q = absurd (ground (arith, h, q, obj_type_eq_refl t))

module _ {M : Type 0} where
  -- From `d` up the parents, the first object of that type is `a`.
  pub data Nearest (s : State M) (t : ObjType) : ℕ → ℕ → Type 0 where
    here : (d : ℕ) → (s.obj d).obj_type ≡ t → Nearest s t d d
    above :
        (d p a : ℕ)
        → (s.obj d).obj_type ≢ t
        → (s.obj d).parent ≡ some p
        → Nearest s t p a
        → Nearest s t d a

  -- An interrupt on a CPU may go anywhere in the cache domain, or in the package, that the CPU stands
  -- in, as its level says; an interrupt on another object anywhere under that object.
  abbrev pub IsScope : State M → Level → ℕ → ℕ → Type 0
  IsScope s level original scope =
      ((s.obj original).obj_type ≢ obj_type_cpu) × (scope ≡ original)
      ⊎ ((s.obj original).obj_type ≡ obj_type_cpu)
        × (p : ℕ) × ((s.obj original).parent ≡ some p)
        × ((level ≡ balance_cache) × Nearest s obj_type_cache p scope
            ⊎ (level ≡ balance_package) × Nearest s obj_type_package p scope)

  climb-Nearest :
      (n : ℕ) (s : State M) (t : ObjType) (p a : ℕ)
      → climb n s t (some p) ≡ some a
      → Nearest s t p a
  unfolding climb
  climb-Nearest zero s t p a h = cc
  climb-Nearest (suc n) s t p a h =
      if_cases_eq (λ (o : Option ℕ). o ≡ some a → Nearest s t p a)
        (obj_type_eq (s.obj p).obj_type t)
        (λ e q.
          let same : p ≡ a = ground arith in
          subst (λ x. Nearest s t p x) same
            (Nearest.here p (obj_type_eq-true (s.obj p).obj_type t e)))
        (λ e q.
          further (climb-Nearest n s t) (s.obj p).parent refl
            (obj_type_eq-false (s.obj p).obj_type t e) q)
        h
    where
      further :
          ((x a : ℕ) → climb n s t (some x) ≡ some a → Nearest s t x a)
          → (o : Option ℕ) → (s.obj p).parent ≡ o
          → (s.obj p).obj_type ≢ t
          → climb n s t o ≡ some a
          → Nearest s t p a
      further ih none e d q = cc
      further ih (some x) e d q = Nearest.above p x a d e (ih x a q)

  climb-above :
      (s : State M) (t : ObjType) (o : Option ℕ) (scope : ℕ)
      → climb 4 s t o ≡ some scope
      → (p : ℕ) × (o ≡ some p) × Nearest s t p scope
  unfolding climb
  climb-above s t none scope h = absurd cc
  climb-above s t (some p) scope h = (p, refl, climb-Nearest 4 s t p scope h)

  scope_above-IsScope :
      (s : State M) (level : Level) (original scope : ℕ)
      → (s.obj original).obj_type ≡ obj_type_cpu
      → scope_above s level original ≡ some scope
      → IsScope s level original scope
  unfolding scope_above
  scope_above-IsScope s balance_cache original scope e h =
      let (p, q, n) = climb-above s obj_type_cache (s.obj original).parent scope h in
      inr (e, p, q, inl (refl, n))
  scope_above-IsScope s balance_package original scope e h =
      let (p, q, n) = climb-above s obj_type_package (s.obj original).parent scope h in
      inr (e, p, q, inr (refl, n))
  scope_above-IsScope s balance_none original scope e h = absurd cc
  scope_above-IsScope s balance_core original scope e h = absurd cc

  pub search_scope-IsScope :
      (s : State M) (level : Level) (original scope : ℕ)
      → search_scope s level original ≡ some scope
      → IsScope s level original scope
  unfolding search_scope
  search_scope-IsScope s level original scope h =
      if_cases_eq (λ (o : Option ℕ). o ≡ some scope → IsScope s level original scope)
        (obj_type_eq (s.obj original).obj_type obj_type_cpu)
        (λ e.
          scope_above-IsScope s level original scope
            (obj_type_eq-true (s.obj original).obj_type obj_type_cpu e))
        (λ e q. inl (obj_type_eq-false (s.obj original).obj_type obj_type_cpu e, ground arith)) h
