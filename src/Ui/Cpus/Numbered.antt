-- ===== src/Ui/Cpus/Numbered.antt =====
-- ui/ui.c: the list of the CPUs, numbered from 0, and toggle_cpu on it.
use irqbalance.Prelude.{
  ℕ, suc, pos, ◌+◌, ◌<◌, ◌≤◌, ◌≡◌, refl, ap, ◌==ℤ◌, Bool, Option, none, some, List, [], ◌∷◌, arith,
  length, map, if_cases_eq,
}
use irqbalance.Ui.Cpus.{CpuBan, copy_cpu_ban, toggle_cpu, behind_cpu}

-- The CPUs are numbered from `k` on.
abbrev pub IsNumbered : ℕ → List CpuBan → Type 0
IsNumbered k [] = Unit
IsNumbered k (c ∷ cpus) = (c.number ≡ pos k) × IsNumbered (k + 1) cpus

pub copy-IsNumbered :
    (k : ℕ) (cpus : List CpuBan) → IsNumbered k cpus → IsNumbered k (map copy_cpu_ban cpus)
unfolding copy_cpu_ban
copy-IsNumbered k [] h = h
copy-IsNumbered k (c ∷ cpus) h = (h.0, copy-IsNumbered (k + 1) cpus h.1)

-- A number of the list is found, and the list keeps its numbers.
abbrev pub Hits : ℕ → ℕ → Option (List CpuBan × Bool) → Type 0
Hits k count none = ⊥
Hits k count (some (cpus, banned)) = IsNumbered k cpus × (length cpus ≡ count)

pub behind-Hits :
    (k count : ℕ) (c : CpuBan) (r : Option (List CpuBan × Bool))
    → c.number ≡ pos k
    → Hits (k + 1) count r
    → Hits k (suc count) (behind_cpu c r)
behind-Hits k count c none e h = h
behind-Hits k count c (some (cpus, banned)) e h = ((e, h.0), ap suc h.1)

pub toggle_cpu-Hits :
    (k n : ℕ) (cpus : List CpuBan)
    → IsNumbered k cpus
    → k ≤ n
    → n < k + length cpus
    → Hits k (length cpus) (toggle_cpu cpus (pos n))
unfolding toggle_cpu
toggle_cpu-Hits k n [] h l u = absurd (omega arith)
toggle_cpu-Hits k n (c ∷ cpus) h l u =
    if_cases_eq (Hits k (suc (length cpus))) (c.number ==ℤ pos n) (λ e. (h, refl))
      (λ e.
        behind-Hits k (length cpus) c (toggle_cpu cpus (pos n)) h.0
          (toggle_cpu-Hits (k + 1) n cpus h.1 (ground arith) (omega arith)))
