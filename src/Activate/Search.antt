-- ===== src/Activate/Search.antt =====
-- activate.c: is_valid_fallback and find_best_cpu_under_obj, the search for a CPU to fall back to.
-- The tree has four levels at most (node, package, cache domain, CPU), so four levels are searched.
use irqbalance.Prelude.{
  ℕ, zero, suc, pos, ◌<◌, ◌≡◌, refl, ==_refl, ◌==◌, ◌≤ℤ◌, ltb_ℤ, Bool, true, false, not, ◌||◌,
  Option, none, some, List, [], ◌∷◌, arith, ◌⊎◌, inl, inr, for_each, count, if◌then◌else◌,
  Bool-cases, if_cases_eq,
}
use irqbalance.Types.{
  State, ObjType, obj_type_cpu, obj_type_cache, obj_type_package, obj_type_node, obj_type_eq,
}
use irqbalance.Types.Cpumask.{Cpumask}

module _ {M : Type 0} where
  -- `if (!best || candidate->slots_left > best->slots_left) best = candidate;`
  abbrev pub roomier : State M → Option ℕ → Option ℕ → Option ℕ
  roomier s best none = best
  roomier s none (some c) = some c
  roomier s (some b) (some c) =
      if ltb_ℤ (s.obj b).slots_left (s.obj c).slots_left then some c else some b

module _ {M : Type 0} ⦃mask : Cpumask M⦄ where
  abbrev pub is_valid_fallback : State M → ℕ → ℕ → M → Bool
  is_valid_fallback s cpu original tried_cpus =
      let o = s.obj cpu in
      if cpu == original || not (obj_type_eq o.obj_type obj_type_cpu)
      then false
      else if not (ltb_ℤ (pos 0) o.slots_left)
      then false
      else if not (mask.cpus_intersects o.mask s.unbanned_cpus)
      then false
      else not (mask.cpus_intersects o.mask tried_cpus)

  -- The first number is the depth that is searched.
  unfoldable pub find_best_cpu_under_obj : ℕ → State M → ℕ → M → ℕ → Option ℕ
  find_best_cpu_under_obj zero s original tried_cpus obj = none
  find_best_cpu_under_obj (suc n) s original tried_cpus obj =
      if obj_type_eq (s.obj obj).obj_type obj_type_cpu
      then (if is_valid_fallback s obj original tried_cpus then some obj else none)
      else for_each
          (λ child best. roomier s best (find_best_cpu_under_obj n s original tried_cpus child))
          (s.obj obj).children none

-- The level of the tree that an object stands on.
abbrev pub rank : ObjType → ℕ
rank obj_type_cpu = 0
rank obj_type_cache = 1
rank obj_type_package = 2
rank obj_type_node = 3

module _ {M : Type 0} where
  -- Children stand on a lower level than their parent.
  abbrev pub IsGraded : State M → Type 0
  IsGraded s =
      (d x : ℕ) → 0 < count x (s.obj d).children → rank (s.obj x).obj_type < rank (s.obj d).obj_type

  -- The CPU `c` stands under `d` in the tree, at any depth.
  pub data Under (s : State M) : ℕ → ℕ → Type 0 where
    here : (d : ℕ) → (s.obj d).obj_type ≡ obj_type_cpu → Under s d d
    below : (d x c : ℕ) → 0 < count x (s.obj d).children → Under s x c → Under s d c

  -- `best` satisfies `P` and has at least as many slots left as all that satisfy it.
  pub record IsRoomiest (s : State M) (P : ℕ → Type 0) (best : Option ℕ) : Type 0 where
    pub holds : (c : ℕ) → best ≡ some c → P c
    pub most :
        (x : ℕ) → P x → (c : ℕ) × (best ≡ some c) × ((s.obj x).slots_left ≤ℤ (s.obj c).slots_left)

  IsRoomiest-iff :
      {s : State M} {P Q : ℕ → Type 0} {best : Option ℕ}
      → ((c : ℕ) → P c → Q c)
      → ((c : ℕ) → Q c → P c)
      → IsRoomiest s P best
      → IsRoomiest s Q best
  IsRoomiest-iff f g r = record { holds = λ c e. f c (r.holds c e); most = λ x q. r.most x (g x q) }

  roomier-IsRoomiest :
      (s : State M) (P Q : ℕ → Type 0) (a b : Option ℕ)
      → IsRoomiest s P a
      → IsRoomiest s Q b
      → IsRoomiest s (λ c. P c ⊎ Q c) (roomier s a b)
  roomier-IsRoomiest s P Q a none h k = record {
    holds = λ c e. inl (h.holds c e);
    most = λ x. elim [ (inl p) ↦ h.most x p | (inr q) ↦ let (c, e, _) = k.most x q in cc ];
  }
  roomier-IsRoomiest s P Q none (some b) h k = record {
    holds = λ c e. inr (k.holds c e);
    most = λ x. elim [ (inl p) ↦ let (c, e, _) = h.most x p in cc | (inr q) ↦ k.most x q ];
  }
  roomier-IsRoomiest s P Q (some a) (some b) h k =
      elim (Bool-cases (ltb_ℤ (s.obj a).slots_left (s.obj b).slots_left)) [
        | inl e ↦ rw e (record {
          holds = λ c f. inr (k.holds c f);
          most = λ x. elim [
            | (inl p) ↦
                let (c, f, m) = h.most x p in
                let same : a ≡ c = cc in (b, refl, ground (arith, same))
            | (inr q) ↦ k.most x q
          ];
        })
        | inr e ↦ rw e (record {
          holds = λ c f. inl (h.holds c f);
          most = λ x. elim [
            | (inl p) ↦ h.most x p
            | (inr q) ↦
                let (c, f, m) = k.most x q in
                let same : b ≡ c = cc in (a, refl, ground (arith, same))
          ];
        })
      ]

  for_each-IsRoomiest :
      (s : State M) (find : ℕ → Option ℕ) (Q : ℕ → ℕ → Type 0) (xs : List ℕ) (P : ℕ → Type 0)
      (best : Option ℕ)
      → ((x : ℕ) → 0 < count x xs → IsRoomiest s (Q x) (find x))
      → IsRoomiest s P best
      → IsRoomiest s
          (λ c. P c ⊎ (x : ℕ) × (0 < count x xs) × Q x c)
          (for_each (λ child b. roomier s b (find child)) xs best)
  for_each-IsRoomiest s find Q [] P best each h =
      IsRoomiest-iff (λ c p. inl p)
        (λ c. elim [ (inl p) ↦ p | (inr (x, m, _)) ↦ absurd (omega arith) ]) h
  for_each-IsRoomiest s find Q (x ∷ xs) P best each h =
      IsRoomiest-iff
        (λ c. elim [
          | (inl (inl p)) ↦ inl p
          | (inl (inr q)) ↦ inr (x, ground (arith, ==_refl x), q)
          | (inr (y, m, q)) ↦ inr (y, omega arith, q)
        ])
        (λ c. elim [
          | (inl p) ↦ inl (inl p)
          | (inr (y, m, q)) ↦ elim (Bool-cases (x == y)) [
            | inl e ↦ let same : x ≡ y = ground arith in inl (inr (rw same q))
            | inr e ↦ inr (y, ground arith, q)
          ]
        ])
        (for_each-IsRoomiest s find Q xs (λ c. P c ⊎ Q x c) (roomier s best (find x))
          (λ y m. each y (omega arith))
          (roomier-IsRoomiest s P (Q x) best (find x) h (each x (ground (arith, ==_refl x)))))

module _ {M : Type 0} ⦃mask : Cpumask M⦄ where
  -- A CPU under `d` that is not `original`, has slots left, is not banned and was not tried.
  abbrev pub Candidate : State M → ℕ → M → ℕ → ℕ → Type 0
  Candidate s original tried_cpus d c =
      Under s d c × (is_valid_fallback s c original tried_cpus ≡ true)

  Under-cpu :
      (s : State M) (d c : ℕ) → IsGraded s → (s.obj d).obj_type ≡ obj_type_cpu → Under s d c → d ≡ c
  Under-cpu s d _ g e (Under.here _ _) = refl
  Under-cpu s d _ g e (Under.below _ x c m u) = let b = g d x m in absurd (ground (arith, b, e))

  Under-child :
      (s : State M) (d c : ℕ)
      → obj_type_eq (s.obj d).obj_type obj_type_cpu ≡ false
      → Under s d c
      → (x : ℕ) × (0 < count x (s.obj d).children) × Under s x c
  Under-child s d _ e (Under.here _ h) = absurd (ground arith)
  Under-child s d _ e (Under.below _ x c m u) = (x, m, u)

  search_lem :
      (n : ℕ) (s : State M) (original : ℕ) (tried_cpus : M) (d : ℕ)
      → IsGraded s
      → rank (s.obj d).obj_type < n
      → IsRoomiest s
          (Candidate s original tried_cpus d)
          (find_best_cpu_under_obj n s original tried_cpus d)
  unfolding find_best_cpu_under_obj
  search_lem zero s original tried_cpus d g h = absurd (omega arith)
  search_lem (suc n) s original tried_cpus d g h =
      let P = IsRoomiest s (Candidate s original tried_cpus d) in
      let is_cpu = obj_type_eq (s.obj d).obj_type obj_type_cpu in
      if_cases_eq P is_cpu
        (λ e.
          let cpu : (s.obj d).obj_type ≡ obj_type_cpu = ground arith in
          if_cases_eq P (is_valid_fallback s d original tried_cpus)
            (λ v. record {
              holds = λ c f. let same : d ≡ c = cc in rw (← same) (Under.here d cpu, v);
              most =
                  λ x u. let same = Under-cpu s d x g cpu u.0 in (d, refl, rw same (omega arith));
            })
            (λ v. record {
              holds = λ c f. cc;
              most = λ x u. let same = Under-cpu s d x g cpu u.0 in cc;
            }))
        (λ e.
          IsRoomiest-iff
            (λ c. elim [ (inl p) ↦ absurd p | (inr (x, m, u)) ↦ (Under.below d x c m u.0, u.1) ])
            (λ c u. let (x, m, w) = Under-child s d c e u.0 in inr (x, m, (w, u.1)))
            (for_each-IsRoomiest s (find_best_cpu_under_obj n s original tried_cpus)
              (Candidate s original tried_cpus) (s.obj d).children (λ c. ⊥) none
              (λ x m. search_lem n s original tried_cpus x g (omega (arith, g d x m)))
              (record { holds = λ c f. cc; most = λ x p. absurd p })))

  -- In a graded tree, four levels are enough: the search finds a candidate CPU under the object with
  -- the most slots left, and finds none only if there is none.
  pub find_best_cpu_under_obj_lem :
      (s : State M) (original : ℕ) (tried_cpus : M) (d : ℕ)
      → IsGraded s
      → IsRoomiest s
          (Candidate s original tried_cpus d)
          (find_best_cpu_under_obj 4 s original tried_cpus d)
  find_best_cpu_under_obj_lem s original tried_cpus d g =
      search_lem 4 s original tried_cpus d g (ground arith)
