-- ===== src/Amb/ChannelRedirect/Laws.antt =====
-- What `_switchToChannel` of src/sn/amb/ChannelRedirect.ts leaves on the old channel.
use now_sdk_ext_core.Common.{
  ℕ, zero, suc, ◌+◌, ◌≤◌, true, false, not, ◌&&◌, List, [], ◌∷◌, ◌++◌, append_assoc, none, some,
  ◌≡◌, inl, inr, Option-cases, refl, sym, ap, arith, is_some, ◌==◌, length, length-append,
  Bool-cases, All,
}
use now_sdk_ext_core.Amb.Channel.{
  ListenerId, ChannelListener, Channel, Bus, same_id, assign_id, remove_listener_id,
  subscribe_channel, unsubscribe_channel, unsubscribe_from_cometd, is_deserted,
}
use now_sdk_ext_core.Amb.ChannelRedirect.{
  Channels, listener_at, set_new_channel, switch_from, switch_to_channel,
}

-- The second, the fourth and so on.
abbrev pub every_second : List ChannelListener → List ChannelListener
every_second [] = []
every_second (l ∷ []) = []
every_second (l ∷ (m ∷ ls)) = m ∷ every_second ls

-- Another listener, with another id.
abbrev pub Apart : ChannelListener → ChannelListener → Type 0
Apart l m =
    (same_id m.id l.id ≡ false)
    × (same_id l.id m.id ≡ false)
    × ((m.handle == l.handle) ≡ false)
    × ((l.handle == m.handle) ≡ false)

-- All the listeners are apart from each other, and each is known by its id.
abbrev pub AllApart : List ChannelListener → Type 0
AllApart [] = Unit
AllApart (l ∷ ls) = (same_id l.id l.id ≡ true) × All (Apart l) ls × AllApart ls

unsubscribe_from_cometd-listeners :
    (bus : Bus) (c : Channel) → (unsubscribe_from_cometd bus c).0.listeners ≡ c.listeners
unfolding unsubscribe_from_cometd
unsubscribe_from_cometd-listeners bus c = elim (Option-cases c.subscription) [
  | inl e ↦ rw e refl
  | inr (s, e) ↦ elim (Bool-cases bus.has_sender) [
    | inl f ↦ rw e (rw f refl)
    | inr f ↦ rw e (rw f refl)
  ]
]

unsubscribe_channel-listeners :
    (bus : Bus) (l : ChannelListener) (c : Channel)
    → (unsubscribe_channel bus l c).0.listeners ≡ remove_listener_id l.id c.listeners
unfolding unsubscribe_channel
unsubscribe_channel-listeners bus l c =
    let left = remove_listener_id l.id c.listeners in
    elim (Bool-cases (is_deserted left && is_some c.subscription && not bus.disconnected)) [
      | inl e ↦ rw e (unsubscribe_from_cometd-listeners bus (record c { listeners = left }))
      | inr e ↦ rw e refl
    ]

remove_kept :
    (l : ChannelListener) (kept rest : List ChannelListener)
    → same_id l.id l.id ≡ true
    → All (Apart l) kept
    → remove_listener_id l.id (kept ++ l ∷ rest) ≡ kept ++ rest
unfolding remove_listener_id
remove_kept l [] rest self h = rw self refl
remove_kept l (k ∷ kept) rest self h =
    rw (h.0.0) (ap (λ r. k ∷ r) (remove_kept l kept rest self h.1))

assign_id-Apart :
    (l : ChannelListener) (id : ListenerId) (ls : List ChannelListener)
    → All (Apart l) ls
    → assign_id l.handle id ls ≡ ls
assign_id-Apart l id [] h = refl
assign_id-Apart l id (m ∷ ls) h = rw (h.0.2) (ap (λ r. m ∷ r) (assign_id-Apart l id ls h.1))

All-snoc :
    (P : ChannelListener → Type 0) (xs : List ChannelListener) (x : ChannelListener)
    → All P xs
    → P x
    → All P (xs ++ x ∷ [])
All-snoc P [] x h p = (p, tt)
All-snoc P (y ∷ xs) x h p = (h.0, All-snoc P xs x h.1 p)

-- Those that are still to come are apart from those that are left behind.
abbrev Clear : List ChannelListener → List ChannelListener → Type 0
Clear kept [] = Unit
Clear kept (l ∷ ls) = All (Apart l) kept × Clear kept ls

Apart-sym : (l m : ChannelListener) → Apart l m → Apart m l
Apart-sym l m h = (h.1, h.0, h.3, h.2)

Clear-snoc :
    (kept : List ChannelListener) (m : ChannelListener) (ls : List ChannelListener)
    → Clear kept ls
    → All (Apart m) ls
    → Clear (kept ++ m ∷ []) ls
Clear-snoc kept m [] h k = tt
Clear-snoc kept m (l ∷ ls) h k =
    (All-snoc (Apart l) kept m h.0 (Apart-sym m l k.0), Clear-snoc kept m ls h.1 k.1)

Clear-nil : (ls : List ChannelListener) → Clear [] ls
Clear-nil [] = tt
Clear-nil (l ∷ ls) = (tt, Clear-nil ls)

listener_at-append :
    (kept : List ChannelListener) (l : ChannelListener) (ls : List ChannelListener)
    → listener_at (length kept) (kept ++ l ∷ ls) ≡ some l
listener_at-append [] l ls = refl
listener_at-append (k ∷ kept) l ls = listener_at-append kept l ls

listener_at-none : (i : ℕ) (ls : List ChannelListener) → length ls ≤ i → listener_at i ls ≡ none
listener_at-none i [] h = refl
listener_at-none zero (l ∷ ls) h = absurd (omega arith)
listener_at-none (suc i) (l ∷ ls) h = listener_at-none i ls (omega arith)

All-append_both :
    (P : ChannelListener → Type 0) (xs ys : List ChannelListener)
    → All P xs
    → All P ys
    → All P (xs ++ ys)
All-append_both P [] ys h k = k
All-append_both P (x ∷ xs) ys h k = (h.0, All-append_both P xs ys h.1 k)

-- Moving a listener takes it off the channel, and no other.
set_new_channel-removes :
    (bus : Bus) (l : ChannelListener) (cs : Channels) (kept ls : List ChannelListener)
    → cs.from_channel.listeners ≡ kept ++ l ∷ ls
    → same_id l.id l.id ≡ true
    → All (Apart l) kept
    → All (Apart l) ls
    → (set_new_channel bus l cs).0.from_channel.listeners ≡ kept ++ ls
unfolding set_new_channel
set_new_channel-removes bus l cs kept ls e self h k =
    let id = (subscribe_channel bus l cs.to_channel).1 in
    let removed : (unsubscribe_channel bus l cs.from_channel).0.listeners ≡ kept ++ ls =
      rw (unsubscribe_channel-listeners bus l cs.from_channel)
        (rw e (remove_kept l kept ls self h)) in
    rw removed (assign_id-Apart l id (kept ++ ls) (All-append_both (Apart l) kept ls h k))

switch_from-stops :
    (fuel : ℕ) (bus : Bus) (i : ℕ) (cs : Channels)
    → length cs.from_channel.listeners ≤ i
    → (switch_from fuel bus i cs).0 ≡ cs
unfolding switch_from
switch_from-stops zero bus i cs h = refl
switch_from-stops (suc fuel) bus i cs h =
    rw (listener_at-none i cs.from_channel.listeners h, switch_from) refl

switch_from-every_second :
    (fuel : ℕ) (bus : Bus) (i : ℕ) (cs : Channels) (kept rest : List ChannelListener)
    → cs.from_channel.listeners ≡ kept ++ rest
    → i ≡ length kept
    → length rest ≤ fuel
    → AllApart rest
    → Clear kept rest
    → (switch_from fuel bus i cs).0.from_channel.listeners ≡ kept ++ every_second rest
unfolding switch_from
switch_from-every_second fuel bus i cs kept [] e at enough apart clear =
    let size : length cs.from_channel.listeners ≡ length (kept ++ []) = ap length e in
    rw (switch_from-stops fuel bus i cs (omega (arith, size, length-append kept []))) e
switch_from-every_second zero bus i cs kept (l ∷ ls) e at enough apart clear = absurd (omega arith)
switch_from-every_second (suc fuel) bus i cs kept (l ∷ []) e at enough apart clear =
    let found : listener_at i cs.from_channel.listeners ≡ some l =
      rw e (rw at (listener_at-append kept l [])) in
    let moved = (set_new_channel bus l cs).0 in
    let left : moved.from_channel.listeners ≡ kept ++ [] =
      set_new_channel-removes bus l cs kept [] e apart.0 clear.0 tt in
    let size : length moved.from_channel.listeners ≡ length (kept ++ []) = ap length left in
    rw (found, switch_from)
      (rw (switch_from-stops fuel bus (i + 1) moved (omega (arith, size, length-append kept [])))
        left)
switch_from-every_second (suc fuel) bus i cs kept (l ∷ (m ∷ ls)) e at enough apart clear =
    let found : listener_at i cs.from_channel.listeners ≡ some l =
      rw e (rw at (listener_at-append kept l (m ∷ ls))) in
    let moved = (set_new_channel bus l cs).0 in
    let left : moved.from_channel.listeners ≡ kept ++ m ∷ ls =
      set_new_channel-removes bus l cs kept (m ∷ ls) e apart.0 clear.0 apart.1 in
    let split : moved.from_channel.listeners ≡ (kept ++ m ∷ []) ++ ls =
      rw left (sym (append_assoc kept (m ∷ []) ls)) in
    let later =
      switch_from-every_second fuel bus (i + 1) moved (kept ++ m ∷ []) ls split
        (omega (arith, at, length-append kept (m ∷ []))) (omega arith) apart.2.2
        (Clear-snoc kept m ls clear.1.1 apart.2.1) in
    rw (found, switch_from) (rw later (append_assoc kept (m ∷ []) (every_second ls)))

-- Where the listeners of the old channel are different objects with ids of their own, a redirect
-- leaves every second one of them on it: the loop moves the first, the third and so on.
pub switch_to_channel-every_second :
    (bus : Bus) (cs : Channels)
    → AllApart cs.from_channel.listeners
    → (switch_to_channel bus cs).0.from_channel.listeners ≡ every_second cs.from_channel.listeners
unfolding switch_to_channel
switch_to_channel-every_second bus cs apart =
    switch_from-every_second (length cs.from_channel.listeners) bus 0 cs []
      cs.from_channel.listeners refl refl (omega arith) apart (Clear-nil cs.from_channel.listeners)
