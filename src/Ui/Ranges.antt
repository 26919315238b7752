-- ===== src/Ui/Ranges.antt =====
-- ui/ui.c: print_assigned_objects_string, the CPUs of an interrupt as ranges.
pub mod Runs
use irqbalance.Prelude.{
  ℕ, ℤ, pos, negsuc, ◌+ℤ◌, ◌==ℤ◌, ltb_ℤ, ltb, Option, none, some, List, [], ◌∷◌, ◌++◌, length, take,
  for_each, if◌then◌else◌, print_ℤ,
}
use irqbalance.Ui.Model.{Irq}

-- The static `rbot` and `rtop`, which keep their values from one interrupt to the next, and the text.
pub record Range : Type 0 where
  pub rbot : ℤ
  pub rtop : ℤ
  pub text : List ℕ

abbrev pub range_text : ℤ → ℤ → List ℕ
range_text rbot rtop = if rbot ==ℤ rtop then print_ℤ rbot else print_ℤ rbot ++ 45 ∷ print_ℤ rtop

-- `buflen` is 128; a comma that does not fit is cut like the rest.
unfoldable pub bsnl_emit : Range → List ℕ
bsnl_emit r =
    let buf = if ltb 0 (length r.text) then take 127 (r.text ++ 44 ∷ []) else r.text in
    take 127 (buf ++ range_text r.rbot r.rtop)

unfoldable pub copy_assigned_obj : ℤ → Range → Range
unfolding bsnl_emit
copy_assigned_obj number r =
    if r.rtop ==ℤ negsuc 0
    then record r { rbot = number; rtop = number }
    else if ltb_ℤ (r.rtop +ℤ pos 1) number
    then record { rbot = number; rtop = number; text = bsnl_emit r }
    else record r { rtop = number }

-- The text, if one is written, and the `rbot` that is left.
unfoldable pub print_assigned_objects_string : Irq → ℤ → Option (List ℕ) × ℤ
unfolding copy_assigned_obj
print_assigned_objects_string irq rbot =
    let r =
      for_each copy_assigned_obj irq.assigned_to
        (record { rbot = rbot; rtop = negsuc 0; text = [] }) in
    if irq.is_banned then (none, rbot) else (some (bsnl_emit r), r.rbot)
