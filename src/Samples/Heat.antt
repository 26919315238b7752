-- ===== src/Samples/Heat.antt =====
-- The theorems on thermal.c applied: a sweep over two CPUs, the second of which is too hot.
use irqbalance.Prelude.{
  ℕ, ◌+◌, ◌≡◌, refl, pos, negsuc, ltb, leb, true, false, List, [], ◌∷◌, arith, ◌<◌, ◌⊎◌, to_int,
  zero, suc, inl, ◌++◌,
}
use irqbalance.Thermal.Bans.{Thermal, update_banned_cpus}
use irqbalance.Thermal.Sweep.{Report, banned_by, reports_on, Holds, update_banned_cpus-refines}
use irqbalance.Thermal.Events.{
  handle_report, read_reports, handle_report-bounds, read_reports-fault,
}
use irqbalance.Thermal.Receive.{Wakeup, dispatch, failures, max_recv_errs, dispatch_lem}
use irqbalance.Thermal.Netlink.{Receive, Waiting, finish, error, answered, Ends, await, await-Ends}
use irqbalance.Thermal.Setup.{Netlink, Settled, idle, init_thermal, init_thermal-Settled}
use irqbalance.Samples.Masks.{Mask, mk, two_cpus, isset, isset-none}

-- CPU 0 has been reported, and is not to be banned.
abbrev half : Thermal Mask
half = record {
  banmask = mk false false;
  itrmask = mk true false;
  thermal_banned_cpus = mk false false;
  need_rescan = false;
  fault = false;
}

abbrev cool : Report
cool = record { cpu = 0; ban = false }

abbrev hot : Report
hot = record { cpu = 1; ban = true }

half-reach : (k : ℕ) → isset k (mk true false) ≡ reports_on k (cool ∷ [])
half-reach zero = refl
half-reach (suc zero) = refl
half-reach (suc (suc k)) = ground arith

half-Holds : Holds half (cool ∷ [])
half-Holds = record { bans = isset-none; reach = half-reach }

update_banned_cpus-refines_example :
    let u = update_banned_cpus 2 1 true half in
    (u.fault ≡ false)
    × (Holds u (hot ∷ cool ∷ [])
          × (u.thermal_banned_cpus ≡ mk false false)
          × (u.need_rescan ≡ false)
          × (ltb (two_cpus.cpus_weight u.itrmask) 2 ≡ true)
        ⊎ (ltb (two_cpus.cpus_weight (two_cpus.cpu_set 1 half.itrmask)) 2 ≡ false)
          × Holds u []
          × ((k : ℕ) → isset k u.thermal_banned_cpus ≡ banned_by k (hot ∷ cool ∷ []))
          × (u.need_rescan ≡ false → (false ≡ false) × (u.thermal_banned_cpus ≡ mk false false)))
update_banned_cpus-refines_example =
    update_banned_cpus-refines 2 hot half (cool ∷ []) half-Holds (omega arith)

abbrev wakeups : List Wakeup
wakeups =
    record { is_input = true; fails = true }
    ∷ record { is_input = true; fails = false }
    ∷ record { is_input = true; fails = true }
    ∷ record { is_input = true; fails = true }
    ∷ []

dispatch_example :
    ((dispatch wakeups 0).0 ≡ leb (0 + failures wakeups) max_recv_errs)
    × ((dispatch wakeups 0).0 ≡ true → (dispatch wakeups 0).1 ≡ 0 + failures wakeups)
    × ((dispatch wakeups 0).0 ≡ false → (dispatch wakeups 0).1 ≡ 3)
dispatch_example = dispatch_lem wakeups 0 (omega arith)

handle_report-bounds_example :
    let u = handle_report 2 2 0 0 half in
    ((k : ℕ) → to_int 2 ≡ pos k → k < 2 → u.fault ≡ false)
    × ((k : ℕ) → to_int 2 ≡ pos k → 2 < k → u ≡ half)
    × (to_int 2 ≡ pos 2 → u.fault ≡ true)
    × ((k : ℕ) → to_int 2 ≡ negsuc k → u.fault ≡ true)
handle_report-bounds_example = handle_report-bounds 2 2 0 0 half

-- CPU 9 is dropped, CPU 2 is the one behind the mask of two.
read_reports-fault_example : (read_reports 2 (9 ∷ 0 ∷ 0 ∷ 2 ∷ 5 ∷ 5 ∷ 0 ∷ []) half).fault ≡ true
read_reports-fault_example = read_reports-fault 2 (9 ∷ 0 ∷ 0 ∷ 2 ∷ 5 ∷ 5 ∷ 0 ∷ []) half

abbrev answers : List Receive
answers =
    record { fails = false; replies = error (pos 5) ∷ [] }
    ∷ record { fails = false; replies = [] ++ finish ∷ [] }
    ∷ []

abbrev start : Waiting
start = record { callback_rc = pos 1; group_id = negsuc 1 }

await-Ends_example :
    (u : Waiting) × (await [] (negsuc 3) answers start ≡ answered u) × (u.callback_rc ≡ pos 0)
await-Ends_example =
    await-Ends [] (negsuc 3) answers start
      (Ends.later (error (pos 5) ∷ []) _ (Ends.last [] finish [] (inl refl)))

abbrev no_group : Netlink
no_group = record {
  nl_socket_alloc = true;
  genl_connect = true;
  nl_cb_alloc = true;
  nlmsg_alloc = true;
  genl_ctrl_resolve = true;
  genlmsg_put = true;
  nla_put_string = true;
  nl_cb_clone = true;
  nl_send_auto = true;
  nl_cb_err = true;
  nl_cb_set_ack = true;
  nl_cb_set_finish = true;
  nl_cb_set_valid = true;
  received = answers;
  event_group = [];
  minus_intr = negsuc 3;
  nl_socket_add_membership = true;
  sysconf = true;
  nl_cb_set_seq_check = true;
  nl_cb_set_event = true;
  nl_socket_set_nonblocking = true;
  nl_socket_get_fd = true;
}

init_thermal-Settled_example : Settled (init_thermal no_group idle)
init_thermal-Settled_example = init_thermal-Settled no_group
