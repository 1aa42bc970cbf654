-- ===== src/Amb/Tests.antt =====
-- Runs of the message bus client, src/sn/amb.
use now_sdk_ext_core.Common.{
  ℕ, ◌+◌, ◌==◌, ◌≤◌, Bool, true, false, List, [], ◌∷◌, ◌++◌, map, none, some, ◌≡◌, refl, arith,
  length, ◌-◌,
}
use now_sdk_ext_core.Amb.FunctionQueue as Queue
use now_sdk_ext_core.Amb.FunctionQueue.{amount, enqueue}
use now_sdk_ext_core.Amb.FunctionQueue.Laws as QueueLaws
use now_sdk_ext_core.Amb.FunctionQueue.Laws.{
  perform_all, perform_all-new, puts, puts_all, get_many, clears,
}
use now_sdk_ext_core.Amb.EventManager as Events
use now_sdk_ext_core.Amb.EventManager.{
  publish, unsubscribe, run, subscribes, unsubscribes, without, get_subscriptions,
  publish-unsubscribe,
}
use now_sdk_ext_core.Amb.Channel as Ids
use now_sdk_ext_core.Amb.Channel.{ChannelListener, Channel, Bus, resubscribe}
use now_sdk_ext_core.Amb.Channel.Laws.{resubscribe_silent}
use now_sdk_ext_core.Amb.ChannelRedirect.{Channels, switch_to_channel}
use now_sdk_ext_core.Amb.ChannelRedirect.Laws.{switch_to_channel-every_second}
use now_sdk_ext_core.Amb.TokenManagement.{Flow, default_flow, full}
use now_sdk_ext_core.Amb.TokenManagement.Laws.{Event, sends, receives, handle_all, handle_all-sent}
use now_sdk_ext_core.Amb.SubscriptionCommandSender as Sender
use now_sdk_ext_core.Amb.SubscriptionCommandSender.{
  Command, signal_stop, process_queue, settle, retried,
}
use now_sdk_ext_core.Amb.SubscriptionCommandSender.Laws.{
  issued, wants, ticks, notifies, react_all, react_all-signal_stop, settle-Scheduled, Scheduled,
}
use now_sdk_ext_core.Amb.SubscriptionCommandSender.Rounds.{process_queue-issued}

abbrev queue_calls : List (QueueLaws.Call ℕ)
queue_calls =
    puts 1 ∷ puts 2 ∷ get_many (amount 1) ∷ clears ∷ puts_all (3 ∷ 4 ∷ 5 ∷ []) ∷ puts 6 ∷ []

perform_all-new_example :
    ((perform_all queue_calls (Queue.new (some 2))).accepted
      ≡ (perform_all queue_calls (Queue.new (some 2))).left
        ++ (perform_all queue_calls (Queue.new (some 2))).queue.queue_buffer)
    × (length (perform_all queue_calls (Queue.new (some 2))).queue.queue_buffer ≤ 2)
perform_all-new_example = perform_all-new queue_calls 2

abbrev some_calls : List (Events.Call ℕ)
some_calls = subscribes "opened" 10 ∷ subscribes "closed" 11 ∷ subscribes "opened" 12 ∷ []

publish-unsubscribe_example :
    publish "opened" (unsubscribe 0 (run some_calls Events.new))
    ≡ map (λ s. s.callback) (without 0 (get_subscriptions "opened" (run some_calls Events.new)))
publish-unsubscribe_example = publish-unsubscribe some_calls 0 "opened"

abbrev enabled : Flow
enabled = record default_flow { enable = true; max_inflight = 2 }

abbrev traffic : List Event
traffic =
    sends (record { channel = "/meta/subscribe"; ext = none })
    ∷ receives (record { channel = "/meta/subscribe"; ext = none })
    ∷ sends (record { channel = "/meta/unsubscribe"; ext = none })
    ∷ []

handle_all-sent_example :
    (handle_all enabled traffic (full {L = ℕ} enabled)).token_count + 2 ≡ 2 + 1
handle_all-sent_example =
    handle_all-sent ℕ enabled traffic refl (omega arith, (omega arith, (omega arith, tt)))

abbrev takes_token : Command → ℕ → ℕ
takes_token c count = count - 1

abbrev throws_at : ℕ → Command → Bool
throws_at channel c = c.channel == channel

abbrev command : ℕ → Command
command channel = record {
  mode = Sender.subscribing;
  channel = channel;
  tries_left = 4;
  retry_delay = 2000;
}

abbrev busy : Sender.Sender
busy = record {
  stopping = false;
  timer = true;
  command_queue = record {
    queue_buffer = command 1 ∷ command 2 ∷ command 3 ∷ [];
    max_queue_size = 10;
  };
  token_count = 2;
}

react_all-signal_stop_example :
    issued
      (react_all enabled takes_token
        (throws_at 1)
        (wants Sender.subscribing 4 none none ∷ ticks ∷ notifies 2 ∷ [])
        (signal_stop enabled takes_token (throws_at 1) busy).sender).1
    ≡ []
react_all-signal_stop_example =
    react_all-signal_stop enabled takes_token (throws_at 1) busy
      (wants Sender.subscribing 4 none none ∷ ticks ∷ notifies 2 ∷ []) refl

-- The second command is lost, since the first throws.
process_queue-issued_example :
    (issued (process_queue enabled takes_token (throws_at 1) busy).effects ≡ command 1 ∷ [])
    × ((process_queue enabled takes_token (throws_at 1) busy).sender.command_queue.queue_buffer
        ≡ command 3 ∷ [])
    × ((process_queue enabled takes_token (throws_at 1) busy).returned ≡ false)
process_queue-issued_example = process_queue-issued enabled takes_token (throws_at 1) busy

abbrev too_many : Sender.Response
too_many = record { ext = some (record { rejected = true; status_code = some 429 }) }

settle-Scheduled_example : Scheduled enabled takes_token (throws_at 1) too_many (command 1) (
    settle enabled takes_token
      (throws_at 1)
      too_many
      (retried enabled takes_token (throws_at 1) (command 1)))
settle-Scheduled_example =
    settle-Scheduled enabled takes_token (throws_at 1) too_many (command 1) (omega arith)

abbrev watcher : ℕ → ChannelListener
watcher handle = record {
  handle = handle;
  id = Ids.given handle;
  has_callback = true;
  has_subscription_callback = false;
}

abbrev watched : Channel
watched = record {
  subscription = some 5;
  subscription_callback_response = none;
  listeners = watcher 1 ∷ watcher 2 ∷ [];
  listener_callback_queue = [];
  id_counter = 2;
  initialized = true;
}

abbrev direct : Bus
direct = record {
  has_sender = false;
  subscribes = some 6;
  sender_returns = true;
  disconnected = false;
}

resubscribe_silent_example :
    ((resubscribe direct watched).1 ≡ []) × ((resubscribe direct watched).0.subscription ≡ none)
resubscribe_silent_example = resubscribe_silent direct watched (refl, (refl, tt))

-- Three listeners to be moved to a channel without any.
abbrev redirect : Channels
redirect = record {
  from_channel = record watched { listeners = watcher 1 ∷ watcher 2 ∷ watcher 3 ∷ [] };
  to_channel = record watched { listeners = []; id_counter = 0 };
}

switch_to_channel-every_second_example :
    (switch_to_channel direct redirect).0.from_channel.listeners ≡ watcher 2 ∷ []
switch_to_channel-every_second_example = switch_to_channel-every_second direct redirect (
  refl,
  ((refl, refl, refl, refl), ((refl, refl, refl, refl), tt)),
  (refl, ((refl, refl, refl, refl), tt), (refl, tt, tt)),
)
