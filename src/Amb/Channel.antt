-- ===== src/Amb/Channel.antt =====
-- src/sn/amb/Channel.ts and src/sn/amb/ChannelListener.ts: a channel, its listeners, and the
-- subscription it holds with the bus. A listener object stands by its handle; where the source
-- changes its id, every place where the channel holds it changes. Effects are a list in the order
-- of the calls.
pub mod Laws
use now_sdk_ext_core.Common.{
  ℕ, zero, suc, ◌+◌, Bool, true, false, not, ◌&&◌, ◌||◌, List, [], ◌∷◌, ◌++◌, map, Option, none,
  some, if◌then◌else◌, ◌==◌, any, is_some,
}

-- A listener's id: -1 before it subscribes, null where it could not.
pub data ListenerId : Type 0 where
  unset null_id : ListenerId
  given : ℕ → ListenerId

abbrev pub same_id : ListenerId → ListenerId → Bool
same_id unset unset = true
same_id null_id null_id = true
same_id (given a) (given b) = a == b
same_id _ _ = false

-- The callbacks are there or not.
pub record ChannelListener : Type 0 where
  pub handle : ℕ
  pub id : ListenerId
  pub has_callback : Bool
  pub has_subscription_callback : Bool

-- A subscription and a response are opaque values of the bus client.
pub record Channel : Type 0 where
  pub subscription : Option ℕ
  pub subscription_callback_response : Option ℕ
  pub listeners : List ChannelListener
  pub listener_callback_queue : List ℕ
  pub id_counter : ℕ
  pub initialized : Bool

pub data Effect : Type 0 where
  -- The sender's `subscribeToChannel` and `unsubscribeToChannel`.
  sender_subscribes sender_unsubscribes : Effect
  -- `_cometd.subscribe` and `_cometd.unsubscribe`
  cometd_subscribes : Effect
  cometd_unsubscribes : ℕ → Effect
  -- A listener's subscription callback, and its message callback.
  calls_back : ℕ → ℕ → Effect
  delivers : ℕ → Effect

abbrev pub Run : Type 0
Run = Channel × List Effect

-- Whether there is a command sender, what `_cometd.subscribe` returns (none where it throws),
-- whether the sender's `subscribeToChannel` returns (a command that it issues may throw), and
-- whether the bus client's status is disconnecting or disconnected. What the sender makes of a
-- channel when it issues a command is SubscriptionCommandSender's.
pub record Bus : Type 0 where
  pub has_sender : Bool
  pub subscribes : Option ℕ
  pub sender_returns : Bool
  pub disconnected : Bool

abbrev pub is_listed : ℕ → List ChannelListener → Bool
is_listed handle ls = any (λ l. l.handle == handle) ls

-- `_subscribeToCometD`; the Boolean is whether it returned.
unfoldable pub subscribe_directly : Bus → Channel → Run × Bool
subscribe_directly bus c = elim bus.subscribes [
  | none ↦ ((c, cometd_subscribes ∷ []), false)
  | some s ↦ ((record c { subscription = some s }, cometd_subscribes ∷ []), true)
]

unfoldable pub subscribe_to_cometd : Bus → Channel → Run × Bool
subscribe_to_cometd bus c =
    if bus.has_sender
    then ((c, sender_subscribes ∷ []), bus.sender_returns)
    else subscribe_directly bus c

-- The listener's subscription callback is called with the response, or waits for one.
unfoldable pub join : ChannelListener → Channel → Run
join l c =
    let pushed : Channel = record c { listeners = c.listeners ++ l ∷ [] } in
    if l.has_subscription_callback
    then elim c.subscription_callback_response [
      | some response ↦ (pushed, calls_back l.handle response ∷ [])
      | none ↦ (
        record pushed { listener_callback_queue = c.listener_callback_queue ++ l.handle ∷ [] },
        [],
      )
    ]
    else (pushed, [])

-- `++this.idCounter`
abbrev pub next_id : Channel → Channel × ListenerId
next_id c = (record c { id_counter = c.id_counter + 1 }, given (c.id_counter + 1))

abbrev pub finish_subscribe : Bus → Channel → Run × ListenerId
finish_subscribe bus c =
    if not (is_some c.subscription) && c.initialized
    then (let ((c', es), returned) = subscribe_to_cometd bus c in
        if returned then (((next_id c').0, es), (next_id c').1) else ((c', es), null_id))
    else (((next_id c).0, []), (next_id c).1)

unfoldable pub subscribe_channel : Bus → ChannelListener → Channel → Run × ListenerId
subscribe_channel bus l c =
    if not l.has_callback
    then ((c, []), null_id)
    else if is_listed l.handle c.listeners
    then ((c, []), l.id)
    else (let (joined, es) = join l c in
        let ((c', more), id) = finish_subscribe bus joined in ((c', es ++ more), id))

abbrev pub assign_id : ℕ → ListenerId → List ChannelListener → List ChannelListener
assign_id handle id ls = map (λ l. if l.handle == handle then record l { id = id } else l) ls

-- `ChannelListener.subscribe`: the id that the channel gives becomes the listener's.
unfoldable pub subscribe_listener : Bus → ChannelListener → Channel → Run
subscribe_listener bus l c =
    let ((c', es), id) = subscribe_channel bus l c in
    (record c' { listeners = assign_id l.handle id c'.listeners }, es)

-- The loop of `resubscribe` over the listeners.
unfoldable pub resubscribe_all : Bus → List ChannelListener → Channel → Run
resubscribe_all bus [] c = (c, [])
resubscribe_all bus (l ∷ ls) c =
    let (c', es) = subscribe_listener bus l c in
    let (c'', more) = resubscribe_all bus ls c' in (c'', es ++ more)

unfoldable pub resubscribe : Bus → Channel → Run
resubscribe bus c = resubscribe_all bus c.listeners (record c { subscription = none })

-- `_handleResponse`: a listener without a callback only logs.
unfoldable pub deliver_to : List ChannelListener → List Effect
deliver_to [] = []
deliver_to (l ∷ ls) = if l.has_callback then delivers l.handle ∷ deliver_to ls else deliver_to ls

-- The first listener with the id is spliced out.
unfoldable pub remove_listener_id : ListenerId → List ChannelListener → List ChannelListener
remove_listener_id id [] = []
remove_listener_id id (l ∷ ls) =
    let rest = remove_listener_id id ls in if same_id l.id id then ls else l ∷ rest

unfoldable pub unsubscribe_from_cometd : Bus → Channel → Run
unsubscribe_from_cometd bus c = elim c.subscription [
  | none ↦ (c, [])
  | some s ↦ if bus.has_sender then (c, sender_unsubscribes ∷ []) else (
    record c { subscription = none; subscription_callback_response = none },
    cometd_unsubscribes s ∷ [],
  )
]

abbrev pub is_deserted : List ChannelListener → Bool
is_deserted [] = true
is_deserted (_ ∷ _) = false

unfoldable pub unsubscribe_channel : Bus → ChannelListener → Channel → Run
unsubscribe_channel bus l c =
    let left = remove_listener_id l.id c.listeners in
    let c' : Channel = record c { listeners = left } in
    if is_deserted left && is_some c.subscription && not bus.disconnected
    then unsubscribe_from_cometd bus c'
    else (c', [])

unfoldable pub call_queue : ℕ → List ℕ → List Effect
call_queue response [] = []
call_queue response (handle ∷ queue) = calls_back handle response ∷ call_queue response queue

unfoldable pub subscription_callback : ℕ → Channel → Run
subscription_callback response c = (
  record c { subscription_callback_response = some response; listener_callback_queue = [] },
  call_queue response c.listener_callback_queue,
)
