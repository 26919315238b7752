-- ===== src/Irqbalance/Stats.antt =====
-- irqbalance.c: get_irq_data and get_object_stat, the text that a client gets for "stats".
pub mod Listing
use irqbalance.Prelude.{
  ℕ, zero, suc, List, [], ◌∷◌, ◌++◌, bit, for_each, if◌then◌else◌, codes, print_ℕ, print_ℤ, unwords,
  pos,
}
use irqbalance.Types.{State, ObjType, obj_type_cpu, obj_type_eq}
use irqbalance.Types.Word.{sub64}
use irqbalance.Activate.Search.{rank}

module _ {M : Type 0} where
  unfoldable pub irq_words : State M → ℕ → List (List ℕ)
  irq_words s irq =
      let i = s.irq irq in
      codes "IRQ"
      ∷ print_ℤ i.irq
      ∷ codes "LOAD"
      ∷ print_ℕ i.load
      ∷ codes "DIFF"
      ∷ print_ℕ (sub64 i.irq_count i.last_irq_count)
      ∷ codes "CLASS"
      ∷ print_ℤ i.class
      ∷ []

  unfoldable pub get_irq_data : State M → ℕ → List ℕ → List ℕ
  get_irq_data s irq irqdata = irqdata ++ unwords (irq_words s irq)

  unfoldable pub object_words : State M → ℕ → List (List ℕ)
  object_words s object =
      let o = s.obj object in
      codes "TYPE"
      ∷ print_ℕ (rank o.obj_type)
      ∷ codes "NUMBER"
      ∷ print_ℤ o.number
      ∷ codes "LOAD"
      ∷ print_ℕ o.load
      ∷ codes "SAVE_MODE"
      ∷ print_ℕ (bit o.powersave_mode)
      ∷ []

  -- An object type is printed as its number, which is its rank. The first number is the depth that
  -- is printed: the tree has four levels.
  unfoldable pub get_object_stat : ℕ → State M → ℕ → List ℕ → List ℕ
  get_object_stat zero s object stats = stats
  get_object_stat (suc depth) s object stats =
      let o = s.obj object in
      let irq_data = for_each (get_irq_data s) o.interrupts [] in
      let stats₁ = stats ++ (unwords (object_words s object) ++ irq_data) in
      let below = for_each (get_object_stat depth s) o.children stats₁ in
      if obj_type_eq o.obj_type obj_type_cpu then stats₁ else below

  unfoldable pub send_stats : State M → List ℕ
  send_stats s = for_each (get_object_stat 4 s) s.numa_nodes []
