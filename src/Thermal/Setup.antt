-- ===== src/Thermal/Setup.antt =====
-- thermal.c: init_thermal and the steps it takes. `Netlink` says how every call of libnl, glib and
-- sysconf ends; `Resources` is what the process holds, the static pointers and the two locals of
-- establish_netlink.
use irqbalance.Prelude.{
  ℕ, ℤ, pos, negsuc, ◌≡◌, refl, Bool, true, false, not, ltb_ℤ, Option, none, some, List,
  if◌then◌else◌, arith, sym, subst, if_cases,
}
use irqbalance.Thermal.Netlink.{Receive, Waiting, Wait, blocked, failed, answered, await}

-- `true` is success, and a pointer that is not null.
pub record Netlink : Type 0 where
  pub nl_socket_alloc : Bool
  pub genl_connect : Bool
  pub nl_cb_alloc : Bool
  pub nlmsg_alloc : Bool
  pub genl_ctrl_resolve : Bool
  pub genlmsg_put : Bool
  pub nla_put_string : Bool
  pub nl_cb_clone : Bool
  pub nl_send_auto : Bool
  pub nl_cb_err : Bool
  pub nl_cb_set_ack : Bool
  pub nl_cb_set_finish : Bool
  pub nl_cb_set_valid : Bool
  pub received : List Receive
  pub event_group : List ℕ
  pub minus_intr : ℤ
  pub nl_socket_add_membership : Bool
  pub sysconf : Bool
  pub nl_cb_set_seq_check : Bool
  pub nl_cb_set_event : Bool
  pub nl_socket_set_nonblocking : Bool
  pub nl_socket_get_fd : Bool

pub record Resources : Type 0 where
  pub sock : Bool
  pub callback : Bool
  pub msg : Bool
  pub cloned_callback : Bool
  pub event_source : Bool

-- What a step returns: TRUE for an error; `none` while it waits for a message.
abbrev pub Attempt : Type 0
Attempt = Option Bool × Resources

unfoldable pub prepare_netlink : Netlink → Resources → Attempt
prepare_netlink c r =
    if not c.nl_socket_alloc
    then (some true, record r { sock = false })
    else if not c.genl_connect
    then (some true, record r { sock = true })
    else if not c.nl_cb_alloc
    then (some true, record r { sock = true; callback = false })
    else (some false, record r { sock = true; callback = true })

unfoldable pub join_group : Netlink → Waiting → Resources → Attempt
join_group c w r =
    if ltb_ℤ w.group_id (pos 0)
    then (some true, r)
    else if not c.nl_socket_add_membership
    then (some true, r)
    else (some false, r)

unfoldable pub after_wait : Netlink → Resources → Wait → Attempt
unfolding join_group
after_wait c r blocked = (none, r)
after_wait c r failed = (some true, r)
after_wait c r (answered w) = join_group c w r

unfoldable pub await_group : Netlink → Resources → Attempt
unfolding after_wait
await_group c r =
    let start : Waiting = record { callback_rc = pos 1; group_id = negsuc 1 } in
    after_wait c r (await c.event_group c.minus_intr c.received start)

-- The body, with the message and the copy of the callbacks that it takes on the way.
unfoldable pub ask_group : Netlink → Resources → Attempt
unfolding await_group
ask_group c r =
    let r₁ = record r { msg = true } in
    let r₂ = record r₁ { cloned_callback = true } in
    if not c.nlmsg_alloc
    then (some true, r)
    else if not c.genl_ctrl_resolve
    then (some true, r₁)
    else if not c.genlmsg_put
    then (some true, r₁)
    else if not c.nla_put_string
    then (some true, r₁)
    else if not c.nl_cb_clone
    then (some true, r₁)
    else if not c.nl_send_auto
    then (some true, r₂)
    else if not c.nl_cb_err
    then (some true, r₂)
    else if not c.nl_cb_set_ack
    then (some true, r₂)
    else if not c.nl_cb_set_finish
    then (some true, r₂)
    else if not c.nl_cb_set_valid
    then (some true, r₂)
    else await_group c r₂

-- `err_out`, which success reaches as well.
unfoldable pub err_out : Attempt → Attempt
err_out (none, r) = (none, r)
err_out (some e, r) = (some e, record r { cloned_callback = false; msg = false })

unfoldable pub establish_netlink : Netlink → Resources → Attempt
unfolding ask_group err_out
establish_netlink c r = err_out (ask_group c r)

unfoldable pub register_netlink_handler : Netlink → Bool
register_netlink_handler c =
    if not c.sysconf
    then true
    else if not c.nl_cb_set_seq_check
    then true
    else if not c.nl_cb_set_event
    then true
    else false

unfoldable pub set_netlink_nonblocking : Netlink → Resources → Bool × Resources
set_netlink_nonblocking c r =
    if not c.nl_socket_set_nonblocking
    then (true, r)
    else if not c.nl_socket_get_fd
    then (true, r)
    else (false, record r { event_source = true })

unfoldable pub deinit_thermal : Resources → Resources
deinit_thermal r =
    let r₁ = if r.callback then record r { callback = false } else r in
    if r₁.sock then record r₁ { sock = false } else r₁

-- The handlers and the source, once the group is joined.
unfoldable pub finish_init : Netlink → Resources → Attempt
unfolding register_netlink_handler set_netlink_nonblocking deinit_thermal
finish_init c r =
    if register_netlink_handler c
    then (some true, deinit_thermal r)
    else let s = set_netlink_nonblocking c r in
      if s.0 then (some true, deinit_thermal s.1) else (some false, s.1)

unfoldable pub init_joined : Netlink → Attempt → Attempt
unfolding finish_init
init_joined c (none, r) = (none, r)
init_joined c (some true, r) = (some true, deinit_thermal r)
init_joined c (some false, r) = finish_init c r

unfoldable pub init_prepared : Netlink → Attempt → Attempt
unfolding init_joined establish_netlink
init_prepared c (none, r) = (none, r)
init_prepared c (some true, r) = (some true, deinit_thermal r)
init_prepared c (some false, r) = init_joined c (establish_netlink c r)

unfoldable pub init_thermal : Netlink → Resources → Attempt
unfolding prepare_netlink init_prepared
init_thermal c r = init_prepared c (prepare_netlink c r)

abbrev pub idle : Resources
idle = record {
  sock = false;
  callback = false;
  msg = false;
  cloned_callback = false;
  event_source = false;
}

abbrev pub listening : Resources
listening = record idle { sock = true; callback = true; event_source = true }

-- The socket and the callbacks are held, and the main loop does not watch them yet.
abbrev Connected : Resources → Type 0
Connected r = (r.sock ≡ true) × (r.callback ≡ true) × (r.event_source ≡ false)

after_wait-kept : (c : Netlink) (r : Resources) (w : Wait) → (after_wait c r w).1 ≡ r
unfolding after_wait join_group
after_wait-kept c r blocked = refl
after_wait-kept c r failed = refl
after_wait-kept c r (answered w) = ground arith

ask_group-Connected : (c : Netlink) (r : Resources) → Connected r → Connected (ask_group c r).1
unfolding ask_group await_group
ask_group-Connected c r h =
    let start : Waiting = record { callback_rc = pos 1; group_id = negsuc 1 } in
    ground (
      arith,
      after_wait-kept c (record r { msg = true; cloned_callback = true })
          (await c.event_group c.minus_intr c.received start),
    )

-- What init_thermal must leave behind: with an error nothing, with success a watched socket.
unfoldable pub Settled : Attempt → Type 0
Settled (none, r) = Unit
Settled (some true, r) = r ≡ idle
Settled (some false, r) = r ≡ listening

connected : Resources
connected = record idle { sock = true; callback = true }

finish_init-Settled : (c : Netlink) → Settled (finish_init c connected)
unfolding finish_init register_netlink_handler set_netlink_nonblocking deinit_thermal Settled
    connected
finish_init-Settled c = ground arith

init_joined-Settled :
    (c : Netlink) (a : Attempt) → Connected a.1 → Settled (init_joined c (err_out a))
unfolding init_joined err_out deinit_thermal Settled connected
init_joined-Settled c (none, r) h = record {}
init_joined-Settled c (some true, r) h = ground arith
init_joined-Settled c (some false, r) h =
    let e : record r { cloned_callback = false; msg = false } ≡ connected = ground arith in
    subst (λ r. Settled (finish_init c r)) (sym e) (finish_init-Settled c)

-- init_thermal from nothing held: when it reports an error, the socket, the callbacks, the message
-- and the copy of the callbacks are all released again, whichever call failed; when it reports
-- success, the socket and the callbacks are held, the socket is watched, and the message and the
-- copy are released.
pub init_thermal-Settled : (c : Netlink) → Settled (init_thermal c idle)
unfolding init_thermal init_prepared prepare_netlink deinit_thermal establish_netlink Settled
    connected
init_thermal-Settled c =
    let P = λ (a : Attempt). Settled (init_prepared c a) in
    if_cases P (not c.nl_socket_alloc) refl (
      if_cases P (not c.genl_connect) refl (
        if_cases P (not c.nl_cb_alloc) refl (
          init_joined-Settled c (ask_group c connected)
            (ask_group-Connected c connected (refl, refl, refl)))))
