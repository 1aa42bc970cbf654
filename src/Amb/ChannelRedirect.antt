-- ===== src/Amb/ChannelRedirect.antt =====
-- src/sn/amb/ChannelRedirect.ts: the listeners of one channel are moved to another. The loop walks
-- the live list of the channel's listeners by index, while moving a listener takes it out of that
-- list. The two channels are different objects; effects are a list in the order of the calls.
pub mod Laws
use now_sdk_ext_core.Common.{ℕ, zero, suc, ◌+◌, List, [], ◌∷◌, ◌++◌, Option, none, some, length}
use now_sdk_ext_core.Amb.Channel.{
  ChannelListener, Channel, Bus, Effect, assign_id, subscribe_channel, unsubscribe_channel,
}

pub record Channels : Type 0 where
  pub from_channel : Channel
  pub to_channel : Channel

abbrev pub listener_at : ℕ → List ChannelListener → Option ChannelListener
listener_at i [] = none
listener_at zero (l ∷ ls) = some l
listener_at (suc i) (l ∷ ls) = listener_at i ls

-- `listener.setNewChannel(toChannel)`: the listener object has its new id wherever it is held.
unfoldable pub set_new_channel : Bus → ChannelListener → Channels → Channels × List Effect
set_new_channel bus l cs =
    let (left, es) = unsubscribe_channel bus l cs.from_channel in
    let ((joined, more), id) = subscribe_channel bus l cs.to_channel in
    (
      record {
        from_channel = record left { listeners = assign_id l.handle id left.listeners };
        to_channel = record joined { listeners = assign_id l.handle id joined.listeners };
      },
      es ++ more,
    )

-- The loop of `_switchToChannel` from index i. The list grows no longer, so that its length at the
-- start is fuel enough.
unfoldable pub switch_from : ℕ → Bus → ℕ → Channels → Channels × List Effect
unfolding set_new_channel
switch_from zero bus i cs = (cs, [])
switch_from (suc fuel) bus i cs = elim (listener_at i cs.from_channel.listeners) [
  | none ↦ (cs, [])
  | some l ↦
      let (moved, es) = set_new_channel bus l cs in
      let (rest, more) = switch_from fuel bus (i + 1) moved in (rest, es ++ more)
]

unfoldable pub switch_to_channel : Bus → Channels → Channels × List Effect
unfolding switch_from
switch_to_channel bus cs = switch_from (length cs.from_channel.listeners) bus 0 cs

-- `_onAdvice`: a channel that is not there leaves all as it is.
unfoldable pub on_advice : Bus → Option Channel → Option Channel → Option (Channels × List Effect)
unfolding switch_to_channel
on_advice bus (some from_channel) (some to_channel) =
    some (switch_to_channel bus (record { from_channel = from_channel; to_channel = to_channel }))
on_advice bus none to_channel = none
on_advice bus (some from_channel) none = none
