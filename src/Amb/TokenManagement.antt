-- ===== src/Amb/TokenManagement.antt =====
-- src/sn/amb/TokenManagementExtension.ts, and the settings that it reads of
-- src/sn/amb/Properties.ts: the tokens for subscription commands in flight.
pub mod Laws
use text.Mathlib.Text.{◌==◌ as str_eq}
use now_sdk_ext_core.Common.{
  ℕ, ◌+◌, ◌-◌, Bool, true, false, not, ◌&&◌, ◌||◌, List, [], ◌∷◌, ◌++◌, Option, none, some, String,
  if◌then◌else◌, ltb,
}

-- `properties.instance.subscribeCommandsFlow`; times are in milliseconds.
pub record Flow : Type 0 where
  pub enable : Bool
  pub max_inflight : ℕ
  pub max_wait : ℕ
  pub retries : ℕ
  pub retry_min : ℕ
  pub retry_max : ℕ
  pub increase_factor : ℕ

abbrev pub default_flow : Flow
default_flow = record {
  enable = false;
  max_inflight = 1;
  max_wait = 10000;
  retries = 3;
  retry_min = 2000;
  retry_max = 300000;
  increase_factor = 2;
}

-- What the extension reads of a message. `received_by_glide` is the channel of the message that
-- stands under that name; `supports_flow` is `supportsSubscribeCommandFlow`.
pub record Ext : Type 0 where
  pub received_by_glide : Option String
  pub supports_flow : Bool

pub record Message : Type 0 where
  pub channel : String
  pub ext : Option Ext

-- A listener is any value; to notify is to call the listeners, in order.
pub record TokenManager (L : Type 0) : Type 0 where
  pub token_count : ℕ
  pub token_event_listeners : List L

abbrev pub is_meta_sub_unsub : String → Bool
is_meta_sub_unsub channel = str_eq channel "/meta/subscribe" || str_eq channel "/meta/unsubscribe"

abbrev pub is_meta_handshake : Message → Bool
is_meta_handshake m = str_eq m.channel "/meta/handshake"

abbrev pub is_received_by_glide : Option Ext → Bool
is_received_by_glide none = false
is_received_by_glide (some e) = elim e.received_by_glide [
  | none ↦ false
  | some channel ↦ is_meta_sub_unsub channel
]

abbrev pub supporting : Option Ext → Ext
supporting none = record { received_by_glide = none; supports_flow = true }
supporting (some e) = record e { supports_flow = true }

abbrev pub announce : Message → Message
announce m = if is_meta_handshake m then record m { ext = some (supporting m.ext) } else m

module _ {L : Type 0} where
  abbrev pub full : Flow → TokenManager L
  full flow = record { token_count = flow.max_inflight; token_event_listeners = [] }

  unfoldable pub update_token_count : ℕ → TokenManager L → TokenManager L
  update_token_count count t = record t { token_count = count }

  -- The listeners are those to call.
  unfoldable pub refill_tokens : Flow → TokenManager L → TokenManager L × List L
  refill_tokens flow t = (record t { token_count = flow.max_inflight }, t.token_event_listeners)

  unfoldable pub outgoing : Flow → Message → TokenManager L → TokenManager L × Message
  outgoing flow m t =
      if not flow.enable
      then (t, announce m)
      else if is_meta_sub_unsub m.channel && ltb 0 t.token_count
      then (record t { token_count = t.token_count - 1 }, announce m)
      else (t, announce m)

  abbrev pub give_back : Flow → TokenManager L → TokenManager L
  give_back flow t =
      if ltb t.token_count flow.max_inflight
      then record t { token_count = t.token_count + 1 }
      else t

  -- What the caller gets (none for null) and the listeners to call.
  unfoldable pub incoming :
      Flow → Message → TokenManager L → TokenManager L × Option Message × List L
  incoming flow m t =
      if not flow.enable
      then (t, some m, [])
      else if is_meta_sub_unsub m.channel
      then (give_back flow t, some m, t.token_event_listeners)
      else if is_received_by_glide m.ext
      then (t, none, [])
      else (t, some m, [])

  unfoldable pub get_token_count : TokenManager L → ℕ
  get_token_count t = t.token_count

  unfoldable pub add_listener : L → TokenManager L → TokenManager L
  add_listener l t = record t { token_event_listeners = t.token_event_listeners ++ l ∷ [] }

  -- `findIndex` and `splice`: the first that is the same goes.
  unfoldable pub remove_first : (L → Bool) → List L → List L
  remove_first is [] = []
  remove_first is (l ∷ ls) = let rest = remove_first is ls in if is l then ls else l ∷ rest

  unfoldable pub remove_listener : (L → Bool) → TokenManager L → TokenManager L
  unfolding remove_first
  remove_listener is t = record t {
    token_event_listeners = remove_first is t.token_event_listeners;
  }
