-- ===== src/Amb/SubscriptionCommandSender.antt =====
-- src/sn/amb/SubscriptionCommandSender.ts: the controlled flow of subscribe and unsubscribe
-- commands. Its effects on timers, the bus and the channels are a list in the order of the calls.
pub mod Laws
pub mod Rounds
use now_sdk_ext_core.Common.{
  ℕ, ◌+◌, ◌-◌, ◌*◌, min, max, Bool, true, false, not, ◌&&◌, ◌||◌, List, [], ◌∷◌, ◌++◌, map, Option,
  none, some, if◌then◌else◌, ltb, leb, ◌==◌, or_else, is_some,
}
use now_sdk_ext_core.Amb.FunctionQueue.{
  FunctionQueue, amount, enqueue, dequeue_multiple, clear, get_size,
}
use now_sdk_ext_core.Amb.TokenManagement.{Flow}

-- `maxTimeInterval`: five minutes.
abbrev pub max_time_interval : ℕ
max_time_interval = 300000

pub data Mode : Type 0 where
  subscribing : Mode
  unsubscribing : Mode

-- What a queued item, a closure, holds. A channel stands by its identity.
pub record Command : Type 0 where
  pub mode : Mode
  pub channel : ℕ
  pub tries_left : ℕ
  pub retry_delay : ℕ

-- What is read of a response: `rejected_by_glide` and the status, none where it is no number.
pub record Reply : Type 0 where
  pub rejected : Bool
  pub status_code : Option ℕ

pub record Response : Type 0 where
  pub ext : Option Reply

pub data Effect : Type 0 where
  -- The item runs: `channel._subscribeToCometD` or `channel._unsubscribeFromCometD`.
  issue : Command → Effect
  -- `channel.subscriptionCallback(response)`
  callback : ℕ → Response → Effect
  set_timer : ℕ → Effect
  clear_timer : Effect
  -- `setTimeout` of an enqueue with these values, after the delay.
  schedule : Command → ℕ → Effect

-- The timer is whether one is running; the tokens are the token manager's count.
pub record Sender : Type 0 where
  pub stopping : Bool
  pub timer : Bool
  pub command_queue : FunctionQueue Command
  pub token_count : ℕ

-- The constructor. The token manager's listener, which it adds, is `processQueue`.
abbrev pub create : Flow → FunctionQueue Command → ℕ → Sender
create flow command_queue token_count = record {
  stopping = not flow.enable;
  timer = false;
  command_queue = command_queue;
  token_count = token_count;
}

-- A state, the effects up to it, and whether the code came this far: an exception ends it early.
pub record Run : Type 0 where
  pub sender : Sender
  pub effects : List Effect
  pub returned : Bool

abbrev pub did : Sender → List Effect → Run
did s es = record { sender = s; effects = es; returned = true }

-- What follows an exception is skipped.
abbrev pub ◌also◌ : Run → (Sender → Run) → Run

infixl 40 ◌also◌
r also f =
    let next = f r.sender in
    if r.returned then record next { effects = r.effects ++ next.effects } else r

abbrev pub clamp : ℕ → ℕ → ℕ → ℕ
clamp val min_limit max_limit = min max_limit (max min_limit val)

abbrev pub stop_timer : Sender → Run
stop_timer s = if s.timer then did (record s { timer = false }) (clear_timer ∷ []) else did s []

abbrev pub items_to_run : Option (List Command) → List Command
items_to_run none = []
items_to_run (some items) = items

-- The token manager's count after a command has gone to the bus, whose client calls the
-- manager's extension when it sends, and whether the command throws: the bus client is third-party.
module _ (flow : Flow) (sent : Command → ℕ → ℕ) (throws : Command → Bool) where
  abbrev pub available : Sender → ℕ
  available s = clamp s.token_count 0 flow.max_inflight

  abbrev pub is_bucket_full : Sender → Bool
  is_bucket_full s = leb flow.max_inflight s.token_count

  abbrev started : Sender → Run
  started s =
      did (record s { timer = true }) (set_timer (clamp flow.max_wait 0 max_time_interval) ∷ [])

  abbrev pub restart_timer : Bool → Sender → Run
  restart_timer force s = if force || not s.timer then (stop_timer s also started) else did s []

  -- `itemsToRun.forEach(item => item())`: an item that throws ends it.
  unfoldable pub run_items : List Command → Sender → Run
  run_items [] s = did s []
  run_items (c ∷ cs) s =
      let s' : Sender = record s { token_count = sent c s.token_count } in
      let rest = run_items cs s' in
      if throws c
      then record { sender = s'; effects = issue c ∷ []; returned = false }
      else record rest { effects = issue c ∷ rest.effects }

  unfoldable pub process_queue : Sender → Run
  process_queue s =
      let number_to_process = min (get_size s.command_queue) (available s) in
      if ltb 0 number_to_process
      then (let (queue, items) = dequeue_multiple (amount number_to_process) s.command_queue in
          run_items (items_to_run items) (record s { command_queue = queue })
          also restart_timer false)
      else did s []

  -- The Boolean is what it returns, where no exception passes through.
  unfoldable pub add_item_to_queue : Command → Sender → Run × Bool
  add_item_to_queue c s =
      let (queue, added) = enqueue c s.command_queue in
      if added
      then (process_queue (record s { command_queue = queue }), true)
      else (did s [], false)

  abbrev pub get_retry_delay : ℕ
  get_retry_delay = clamp flow.retry_min 0 max_time_interval

  -- `enqueueSubscribe` and `enqueueUnsubscribe`: missing tries and delay are the settings'.
  unfoldable pub enqueue_command : Mode → ℕ → Option ℕ → Option ℕ → Sender → Run × Bool
  enqueue_command mode channel tries_left retry_delay s =
      let tries = or_else tries_left (1 + flow.retries) in
      if not s.stopping && ltb 0 tries
      then add_item_to_queue
          (record {
            mode = mode;
            channel = channel;
            tries_left = tries;
            retry_delay = or_else retry_delay get_retry_delay;
          })
          s
      else (did s [], false)

  abbrev pub subscribe_to_channel : ℕ → Sender → Run × Bool
  subscribe_to_channel channel s = enqueue_command subscribing channel none none s

  abbrev pub unsubscribe_to_channel : ℕ → Sender → Run × Bool
  unsubscribe_to_channel channel s = enqueue_command unsubscribing channel none none s

  abbrev pub get_new_retry_delay : ℕ → ℕ
  get_new_retry_delay retry_delay =
      clamp (flow.increase_factor * retry_delay) flow.retry_min flow.retry_max

  -- `scheduleRetry`: the command that is enqueued later, and the delay until then.
  unfoldable pub schedule_retry : Command → Effect
  schedule_retry c =
      schedule (record c { retry_delay = get_new_retry_delay c.retry_delay }) c.retry_delay

  abbrev pub is_retriable : Response → Bool
  is_retriable response = elim response.ext [
    | none ↦ false
    | some reply ↦ elim reply.status_code [
      | none ↦ false
      | some code ↦ reply.rejected && (code == 429 || code == 202)
    ]
  ]

  -- One try is used up; the truncated difference differs from the source only where none was
  -- left, and neither is positive then.
  abbrev pub retried : Command → Command
  retried c = record c { tries_left = c.tries_left - 1 }

  abbrev pub settle : Response → Command → Effect
  settle response c =
      if ltb 0 c.tries_left && is_retriable response
      then schedule_retry c
      else callback c.channel response

  -- The response to a command that was issued.
  unfoldable pub on_response : Response → Command → Sender → Run
  on_response response c s =
      if not s.stopping
      then (if is_bucket_full s then stop_timer s else did s [])
        also (λ s'. did s' (settle response (retried c) ∷ []))
        also process_queue
      else did s (callback c.channel response ∷ [])

  -- The token manager's refill notifies its listener, `processQueue`.
  unfoldable pub on_timer : Sender → Run
  on_timer s =
      let s' : Sender = record s { timer = false } in
      if not s.stopping
      then process_queue (record s' { token_count = flow.max_inflight }) also process_queue
      else did s' []

  abbrev emptied : Sender → Run
  emptied s = did (record s { command_queue = clear s.command_queue }) []

  unfoldable pub signal_stop : Sender → Run
  signal_stop s =
      if not s.stopping then (stop_timer (record s { stopping = true }) also emptied) else did s []
