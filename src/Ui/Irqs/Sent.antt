-- ===== src/Ui/Irqs/Sent.antt =====
-- ui/ui.c and irqbalance.c: the bans of interrupts that the user interface saves, as the daemon
-- takes them.
use irqbalance.Prelude.{
  ℕ, ◌<◌, ◌≤◌, ◌≡◌, ◌≢◌, refl, sym, ap, ◌∙◌, true, Option, none, some, List, [], ◌∷◌, ◌++◌,
  append_assoc, arith, length, concat_map, codes, print_ℕ, print_ℤ, print_ℤ-pos, pos_part,
  all_above, all_above-append, subst, if◌then◌else◌, Bool-cases, inl, inr,
}
use irqbalance.Types.{State}
use irqbalance.Types.Cpumask.{Cpumask}
use irqbalance.Irqbalance.Commands.{
  Settings, map_state, ban_irqs, with_argument, change_settings, run_command, sock_handle,
}
use irqbalance.Irqbalance.Commands.BanList.{AllNumbers, ban_list, add_each, ban_irqs-ban_list}
use irqbalance.Irqbalance.Commands.Received.{from_root, argument-append, sock_handle-from_root}
use irqbalance.Ui.Model.{Irq}
use irqbalance.Ui.Window.{Window, Key, ScrollsOver}
use irqbalance.Ui.Cpus.{ended}
use irqbalance.Ui.Irqs.{handle_irq_banning}
use irqbalance.Ui.Irqs.Text.{AllSmall, AllSmall-vectors, vectors, ban_text, irq_settings-text}
use irqbalance.Ui.Irqs.Cursor.{vectors-length}
use irqbalance.Ui.Irqs.Safe.{EndsWell, handle_irq_banning-EndsWell}

-- The numbers of the interrupts that a list bans.
abbrev pub banned_numbers : List Irq → List ℕ
banned_numbers [] = []
banned_numbers (irq ∷ irqs) =
    if irq.is_banned then pos_part irq.vector ∷ banned_numbers irqs else banned_numbers irqs

banned-AllNumbers : (irqs : List Irq) → AllSmall irqs → AllNumbers (banned_numbers irqs)
banned-AllNumbers [] h = tt
banned-AllNumbers (irq ∷ irqs) h =
    let rest = banned-AllNumbers irqs h.3 in
    elim (Bool-cases irq.is_banned) [
      | inl b ↦ rw b (h.1, omega (arith, h.2), rest)
      | inr b ↦ rw b rest
    ]

ban_text-list :
    (irqs : List Irq)
    → AllSmall irqs
    → concat_map ban_text irqs ++ codes " NONE" ≡ ban_list (banned_numbers irqs)
ban_text-list [] h = refl
ban_text-list (irq ∷ irqs) h =
    let n = pos_part irq.vector in
    let rest = ban_text-list irqs h.3 in
    let word : print_ℤ irq.vector ≡ print_ℕ n = ap print_ℤ h.0 ∙ print_ℤ-pos n in
    elim (Bool-cases irq.is_banned) [
      | inl b ↦ rw b (
          ap (λ t. 32 ∷ t)
            (append_assoc (print_ℤ irq.vector) (concat_map ban_text irqs) (codes " NONE")
              ∙ ap (λ t. print_ℤ irq.vector ++ t) rest
              ∙ ap (λ w. w ++ ban_list (banned_numbers irqs)) word))
      | inr b ↦ rw b rest
    ]

module _ {M : Type 0} ⦃mask : Cpumask M⦄ where
  -- The old list is dropped, these numbers are added, and the tree is built again.
  abbrev pub with_bans : List ℕ → Settings M → Settings M
  with_bans numbers c =
      map_state (λ s. add_each numbers (record s { cl_banned_irqs = []; need_rescan = true })) c

  run_ban_list :
      (scnprintf : M → List ℕ) (t stale : List ℕ) (c : Settings M)
      → all_above 0 t ≡ true
      → run_command scnprintf
          (length (codes "settings ban irqs " ++ t))
          ((codes "settings ban irqs " ++ t) ++ stale)
          c
        ≡ (none, map_state (ban_irqs t) c)
  unfolding run_command change_settings
  run_ban_list scnprintf t stale c above =
      ap (λ a. (none, with_argument a (λ u. map_state (ban_irqs u)) c))
        (argument-append (codes "settings ban irqs ") t stale above)

  -- The user edits the bans of the interrupts, and saves; the daemon takes the message that is
  -- sent, from a client that is root. With 1 to 200 interrupts, of numbers from 1 to 9999: if a ban
  -- is left, the daemon bans exactly the numbers that the saved list bans, in its order, and if none
  -- is left it bans interrupt 0. The tree is built again, and nothing is answered.
  pub handle_irq_banning-sock_handle :
      (scnprintf : M → List ℕ) (names : ℕ → List ℕ) (irqs shown : List Irq) (keys : List Key)
      (w w' : Window) (message stale : List ℕ) (c : Settings M)
      → AllSmall irqs
      → 0 < length irqs
      → length irqs ≤ 200
      → ScrollsOver (length irqs) 6 w
      → handle_irq_banning names irqs keys w ≡ ended w' shown (some message)
      → (vectors shown ≡ vectors irqs)
        × (0 < length (banned_numbers shown)
            → sock_handle scnprintf (from_root message stale) c
              ≡ (none, with_bans (banned_numbers shown) c))
        × (banned_numbers shown ≡ []
            → sock_handle scnprintf (from_root message stale) c ≡ (none, with_bans (0 ∷ []) c))
  handle_irq_banning-sock_handle scnprintf names irqs shown keys w w' message stale c a p b o e =
      let (over, kept, told) =
        subst (EndsWell irqs) e (handle_irq_banning-EndsWell names irqs keys w a p b o) in
      let small = AllSmall-vectors shown irqs kept a in
      let few : length shown ≤ 200 = omega (arith, vectors-length shown irqs kept) in
      let prefix = codes "settings ban irqs " in
      let (text, short, above) = irq_settings-text shown small few in
      let body = concat_map ban_text shown ++ codes " NONE" in
      let sent : message ≡ prefix ++ body =
        cc (told message refl, text)
        ∙ append_assoc prefix (concat_map ban_text shown) (codes " NONE") in
      let size : length message ≢ 16384 = λ q. absurd (
        omega (
          arith,
          ap length sent,
          ap length (append_assoc prefix (concat_map ban_text shown) (codes " NONE")),
        )) in
      let plain = all_above-append 0 (concat_map ban_text shown) (codes " NONE") above refl in
      let ran : sock_handle scnprintf (from_root message stale) c
          ≡ (none, map_state (ban_irqs body) c) =
        sock_handle-from_root scnprintf message stale c size
        ∙ subst
            (λ x.
              run_command scnprintf (length x) (x ++ stale) c ≡ (none, map_state (ban_irqs body) c))
            (sym sent) (run_ban_list scnprintf body stale c plain) in
      let list : body ≡ ban_list (banned_numbers shown) = ban_text-list shown small in
      let s = c.daemon.state in
      let added = ban_irqs-ban_list (banned_numbers shown) s (banned-AllNumbers shown small) in
      let answer : State M → Option (List ℕ) × Settings M =
        λ r. (none, record c { daemon = record c.daemon { state = r } }) in
      (
        kept,
        λ h. ran ∙ ap (λ t. (none, map_state (ban_irqs t) c)) list ∙ ap answer (added.0 h),
        λ h. ran ∙ ap (λ t. (none, map_state (ban_irqs t) c)) list ∙ ap answer (added.1 h),
      )
