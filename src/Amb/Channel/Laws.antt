-- ===== src/Amb/Channel/Laws.antt =====
-- What `resubscribe` of src/sn/amb/Channel.ts does.
use now_sdk_ext_core.Common.{ℕ, true, List, [], ◌∷◌, none, ◌≡◌, refl, arith, All, ◌∙◌, ap}
use now_sdk_ext_core.Amb.Channel.{
  ListenerId, ChannelListener, Channel, Bus, is_listed, assign_id, subscribe_channel,
  subscribe_listener, resubscribe_all, resubscribe,
}

is_listed-assign_id :
    (h handle : ℕ) (id : ListenerId) (ls : List ChannelListener)
    → is_listed h (assign_id handle id ls) ≡ is_listed h ls
is_listed-assign_id h handle id [] = refl
is_listed-assign_id h handle id (l ∷ ls) = ground (arith, is_listed-assign_id h handle id ls)

-- A listener with a callback, in the channel's list.
abbrev Settled : Channel → ChannelListener → Type 0
Settled c l = (l.has_callback ≡ true) × (is_listed l.handle c.listeners ≡ true)

subscribe_channel-Settled :
    (bus : Bus) (l : ChannelListener) (c : Channel)
    → Settled c l
    → subscribe_channel bus l c ≡ ((c, []), l.id)
unfolding subscribe_channel
subscribe_channel-Settled bus l c s = ground (arith, s.0, s.1)

-- Nothing reaches the bus, and what is settled stays so.
subscribe_listener-Settled :
    (bus : Bus) (l : ChannelListener) (c : Channel)
    → Settled c l
    → ((subscribe_listener bus l c).1 ≡ [])
      × ((subscribe_listener bus l c).0.subscription ≡ c.subscription)
      × ((h : ℕ) → is_listed h (subscribe_listener bus l c).0.listeners ≡ is_listed h c.listeners)
unfolding subscribe_listener
subscribe_listener-Settled bus l c s =
    let e = subscribe_channel-Settled bus l c s in
    (
      ap (λ r. r.0.1) e,
      ap (λ r. r.0.0.subscription) e,
      λ h.
          ap (λ r. is_listed h (assign_id l.handle r.1 r.0.0.listeners)) e
          ∙ is_listed-assign_id h l.handle l.id c.listeners,
    )

All-Settled :
    (c d : Channel) (ls : List ChannelListener)
    → ((h : ℕ) → is_listed h d.listeners ≡ is_listed h c.listeners)
    → All (Settled c) ls
    → All (Settled d) ls
All-Settled c d [] same h = tt
All-Settled c d (l ∷ ls) same h = ((h.0.0, same l.handle ∙ h.0.1), All-Settled c d ls same h.1)

resubscribe_all-Settled :
    (bus : Bus) (ls : List ChannelListener) (c : Channel)
    → All (Settled c) ls
    → ((resubscribe_all bus ls c).1 ≡ [])
      × ((resubscribe_all bus ls c).0.subscription ≡ c.subscription)
unfolding resubscribe_all
resubscribe_all-Settled bus [] c h = (refl, refl)
resubscribe_all-Settled bus (l ∷ ls) c h =
    let (none_first, kept, same) = subscribe_listener-Settled bus l c h.0 in
    let c' = (subscribe_listener bus l c).0 in
    let (none_later, kept') = resubscribe_all-Settled bus ls c' (All-Settled c c' ls same h.1) in
    (rw none_first none_later, kept' ∙ kept)

All-listed :
    (ls : List ChannelListener)
    → All (λ (l : ChannelListener). l.has_callback ≡ true) ls
    → (c : Channel) → ((h : ℕ) → is_listed h ls ≡ true → is_listed h c.listeners ≡ true)
    → All (Settled c) ls
All-listed [] h c there = tt
All-listed (l ∷ ls) h c there =
    ((h.0, there l.handle (ground arith)), All-listed ls h.1 c (λ k e. there k (ground arith)))

-- Where every listener has a callback, `resubscribe` drops the subscription of the channel and
-- makes no call to the bus or the sender that would replace it.
pub resubscribe_silent :
    (bus : Bus) (c : Channel)
    → All (λ (l : ChannelListener). l.has_callback ≡ true) c.listeners
    → ((resubscribe bus c).1 ≡ []) × ((resubscribe bus c).0.subscription ≡ none)
unfolding resubscribe
resubscribe_silent bus c h =
    resubscribe_all-Settled bus c.listeners (record c { subscription = none })
      (All-listed c.listeners h (record c { subscription = none }) (λ k e. e))
