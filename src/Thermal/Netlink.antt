-- ===== src/Thermal/Netlink.antt =====
-- thermal.c: handle_groupid, handle_error, handle_end and the wait for their answers. What libnl
-- answers is data: the calls that can fail in `Netlink`, what the socket receives in `Receive`.
use irqbalance.Prelude.{
  ℕ, ℤ, pos, ◌≡◌, ◌==◌, ◌==ℤ◌, Bool, true, false, not, ◌||◌, Option, none, some, List, [], ◌∷◌,
  refl, to_int, for_each, if◌then◌else◌, ◌⊎◌, inl, inr, ◌++◌, Bool-cases, ==ℤ-eq,
}

-- An entry of the list of multicast groups: whether it parses, and its name and id, if it has them.
-- A name is the bytes of its attribute.
pub record Group : Type 0 where
  pub group_parses : Bool
  pub name : Option (List ℕ)
  pub id : Option ℕ

-- A family description: whether it parses, and its groups, if it has any.
pub record Family : Type 0 where
  pub parses : Bool
  pub groups : Option (List Group)

pub data Reply : Type 0 where
  valid : Family → Reply
  error : ℤ → Reply
  finish ack : Reply

-- One nl_recvmsgs: whether it returns an error, and the messages that it hands to the callbacks.
pub record Receive : Type 0 where
  pub fails : Bool
  pub replies : List Reply

pub record Waiting : Type 0 where
  pub callback_rc : ℤ
  pub group_id : ℤ

-- `strncmp(name, group, nla_len(name)) == 0`, where the name is as long as its attribute.
unfoldable pub same_prefix : List ℕ → List ℕ → Bool
same_prefix [] group = true
same_prefix (a ∷ xs) [] = a == 0
same_prefix (a ∷ xs) (b ∷ ys) =
    let rest = same_prefix xs ys in if a == b then a == 0 || rest else false

unfoldable pub matching : List ℕ → Option (List ℕ) → Option ℕ → Option ℕ
unfolding same_prefix
matching group (some name) (some id) = if same_prefix name group then some id else none
matching group none id = none
matching group (some name) none = none

unfoldable pub find_group : List ℕ → List Group → Waiting → Waiting
unfolding matching
find_group group [] w = w
find_group group (g ∷ gs) w =
    let rest = find_group group gs w in
    elim (if g.group_parses then matching group g.name g.id else none) [
      | none ↦ rest
      | some i ↦ record w { group_id = to_int i }
    ]

unfoldable pub handle_groupid : List ℕ → Family → Waiting → Waiting
unfolding find_group
handle_groupid group f w =
    if not f.parses then w else elim f.groups [ none ↦ w | some gs ↦ find_group group gs w ]

-- `intr` is -NLE_INTR.
unfoldable pub handle_error : ℤ → ℤ → Waiting → Waiting
handle_error intr e w = if not (e ==ℤ intr) then record w { callback_rc = e } else w

unfoldable pub handle_end : Waiting → Waiting
handle_end w = record w { callback_rc = pos 0 }

unfoldable pub handle_reply : List ℕ → ℤ → Reply → Waiting → Waiting
unfolding handle_groupid handle_error handle_end
handle_reply group intr (valid f) w = handle_groupid group f w
handle_reply group intr (error e) w = handle_error intr e w
handle_reply group intr finish w = handle_end w
handle_reply group intr ack w = handle_end w

-- The loop waits for callback_rc to become 0. `blocked`: nothing more arrives.
pub data Wait : Type 0 where
  blocked failed : Wait
  answered : Waiting → Wait

unfoldable pub await : List ℕ → ℤ → List Receive → Waiting → Wait
unfolding handle_reply
await group intr [] w = if w.callback_rc ==ℤ pos 0 then answered w else blocked
await group intr (r ∷ rs) w =
    let rest = await group intr rs (for_each (handle_reply group intr) r.replies w) in
    if w.callback_rc ==ℤ pos 0 then answered w else if r.fails then failed else rest

-- The receives up to one that ends with a finish or an ack do not fail.
pub data Ends : List Receive → Type 0 where
  last :
      (before : List Reply) (r : Reply) (rs : List Receive)
      → (r ≡ finish) ⊎ (r ≡ ack)
      → Ends (record { fails = false; replies = before ++ r ∷ [] } ∷ rs)
  later :
      (replies : List Reply) (rs : List Receive)
      → Ends rs
      → Ends (record { fails = false; replies = replies } ∷ rs)

for_each-last :
    (group : List ℕ) (intr : ℤ) (before : List Reply) (r : Reply) (w : Waiting)
    → (r ≡ finish) ⊎ (r ≡ ack)
    → (for_each (handle_reply group intr) (before ++ r ∷ []) w).callback_rc ≡ pos 0
unfolding handle_reply handle_end
for_each-last group intr [] r w (inl e) = rw e refl
for_each-last group intr [] r w (inr e) = rw e refl
for_each-last group intr (b ∷ bs) r w h =
    for_each-last group intr bs r (handle_reply group intr b w) h

await-ended :
    (group : List ℕ) (intr : ℤ) (rs : List Receive) (w : Waiting)
    → w.callback_rc ≡ pos 0
    → await group intr rs w ≡ answered w
unfolding await
await-ended group intr [] w h = rw h refl
await-ended group intr (r ∷ rs) w h = rw h refl

-- The wait ends, and with an answer, whatever was said before, when the messages arrive up to one
-- batch whose last reply is a finish or an ack, and no receive up to there fails.
pub await-Ends :
    (group : List ℕ) (intr : ℤ) (rs : List Receive) (w : Waiting)
    → Ends rs
    → (u : Waiting) × (await group intr rs w ≡ answered u) × (u.callback_rc ≡ pos 0)
unfolding await
await-Ends group intr _ w (last before r rs e) =
    let v = for_each (handle_reply group intr) (before ++ r ∷ []) w in
    elim (Bool-cases (w.callback_rc ==ℤ pos 0)) [
      | inl z ↦ (w, rw z refl, ==ℤ-eq w.callback_rc (pos 0) z)
      | inr z ↦
          let q = for_each-last group intr before r w e in
          (v, rw z (await-ended group intr rs v q), q)
    ]
await-Ends group intr _ w (later replies rs h) =
    let v = for_each (handle_reply group intr) replies w in
    elim (Bool-cases (w.callback_rc ==ℤ pos 0)) [
      | inl z ↦ (w, rw z refl, ==ℤ-eq w.callback_rc (pos 0) z)
      | inr z ↦ let ih = await-Ends group intr rs v h in (ih.0, rw z ih.1, ih.2)
    ]
