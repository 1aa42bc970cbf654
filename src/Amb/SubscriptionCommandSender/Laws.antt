-- ===== src/Amb/SubscriptionCommandSender/Laws.antt =====
-- What src/sn/amb/SubscriptionCommandSender.ts does with a response, and once it is told to stop.
use now_sdk_ext_core.Common.{
  ℕ, Bool, ◌-◌, ◌≤◌, ◌<◌, min, true, false, ◌&&◌, List, [], ◌∷◌, ◌++◌, Option, ◌≡◌, refl, ap, arith,
  ltb, inl, inr, Bool-cases, length,
}
use now_sdk_ext_core.Amb.FunctionQueue.{clear, get_size}
use now_sdk_ext_core.Amb.TokenManagement.{Flow}
use now_sdk_ext_core.Amb.SubscriptionCommandSender.{
  Sender, Command, Mode, Response, Effect, issue, callback, set_timer, clear_timer, schedule, Run,
  process_queue, enqueue_command, on_response, on_timer, signal_stop, schedule_retry, available,
  settle, retried, is_retriable,
}

-- The commands that a run of effects issues.
abbrev pub issued : List Effect → List Command
issued [] = []
issued (issue c ∷ es) = c ∷ issued es
issued (_ ∷ es) = issued es

pub issued-append : (es fs : List Effect) → issued (es ++ fs) ≡ issued es ++ issued fs
issued-append [] fs = refl
issued-append (issue c ∷ es) fs = ap (λ r. c ∷ r) (issued-append es fs)
issued-append (callback c r ∷ es) fs = issued-append es fs
issued-append (set_timer n ∷ es) fs = issued-append es fs
issued-append (clear_timer ∷ es) fs = issued-append es fs
issued-append (schedule c n ∷ es) fs = issued-append es fs

-- What reaches the sender.
pub data Event : Type 0 where
  -- A client's call, or a retry that was scheduled.
  wants : Mode → ℕ → Option ℕ → Option ℕ → Event
  responds : Response → Command → Event
  ticks : Event
  -- The token manager has this count, and tells its listener.
  notifies : ℕ → Event

module _ (flow : Flow) (sent : Command → ℕ → ℕ) (throws : Command → Bool) where
  pub react : Event → Sender → Run
  react (wants mode channel tries delay) s =
      (enqueue_command flow sent throws mode channel tries delay s).0
  react (responds response c) s = on_response flow sent throws response c s
  react ticks s = on_timer flow sent throws s
  react (notifies count) s = process_queue flow sent throws (record s { token_count = count })

  -- The state and the effects; an exception ends its own event only.
  pub react_all : List Event → Sender → Sender × List Effect
  react_all [] s = (s, [])
  react_all (e ∷ es) s =
      let first = react e s in
      let (s', rest) = react_all es first.sender in (s', first.effects ++ rest)

  -- A sender that has been stopped.
  pub record IsStopped (s : Sender) : Type 0 where
    pub stopping : s.stopping ≡ true
    pub empty : s.command_queue.queue_buffer ≡ []

  pub record Silent (r : Run) : Type 0 where
    pub stopped : IsStopped r.sender
    pub nothing : issued r.effects ≡ []

  process_queue-Silent : (s : Sender) → IsStopped s → Silent (process_queue flow sent throws s)
  unfolding process_queue get_size
  process_queue-Silent s h =
      let none_left : ltb 0
            (min (length s.command_queue.queue_buffer) (available flow sent throws s))
          ≡ false =
        ground (arith, h.empty) in
      rw none_left (record { stopped = h; nothing = refl })

  react-Silent : (e : Event) (s : Sender) → IsStopped s → Silent (react e s)
  unfolding react on_response on_timer enqueue_command
  react-Silent (wants mode channel tries delay) s h =
      rw h.stopping
        (record { stopped = record { stopping = refl; empty = h.empty }; nothing = refl })
  react-Silent (responds response c) s h =
      rw h.stopping
        (record { stopped = record { stopping = refl; empty = h.empty }; nothing = refl })
  react-Silent ticks s h =
      rw h.stopping
        (record { stopped = record { stopping = refl; empty = h.empty }; nothing = refl })
  react-Silent (notifies count) s h =
      process_queue-Silent (record s { token_count = count })
        (record { stopping = h.stopping; empty = h.empty })

  react_all-Silent : (es : List Event) (s : Sender) → IsStopped s → issued (react_all es s).1 ≡ []
  unfolding react_all
  react_all-Silent [] s h = refl
  react_all-Silent (e ∷ es) s h =
      let first = react-Silent e s h in
      cc (
        issued-append (react e s).effects (react_all es (react e s).sender).1,
        first.nothing,
        react_all-Silent es (react e s).sender first.stopped,
      )

  signal_stop-IsStopped :
      (s : Sender) → s.stopping ≡ false → IsStopped (signal_stop flow sent throws s).sender
  unfolding signal_stop clear
  signal_stop-IsStopped s h = elim (Bool-cases s.timer) [
    | inl e ↦ rw h (rw e (record { stopping = refl; empty = refl }))
    | inr e ↦ rw h (rw e (record { stopping = refl; empty = refl }))
  ]

  -- Once a running sender is told to stop, no call, scheduled retry, response, timer or token
  -- makes it issue another command.
  pub react_all-signal_stop :
      (s : Sender) (es : List Event)
      → s.stopping ≡ false
      → issued (react_all es (signal_stop flow sent throws s).sender).1 ≡ []
  react_all-signal_stop s es h =
      react_all-Silent es (signal_stop flow sent throws s).sender (signal_stop-IsStopped s h)

  -- What may come of a response to a command: the channel gets it, or the same command is
  -- scheduled, after its own delay, with fewer tries left and a delay in the settings' bounds.
  abbrev pub Scheduled : Response → Command → Effect → Type 0
  Scheduled response c (schedule c' delay) =
      (c'.mode ≡ c.mode)
      × (c'.channel ≡ c.channel)
      × (c'.tries_left < c.tries_left)
      × (0 < c'.tries_left)
      × (delay ≡ c.retry_delay)
      × (flow.retry_min ≤ c'.retry_delay)
      × (c'.retry_delay ≤ flow.retry_max)
  Scheduled response c (callback channel r) = (channel ≡ c.channel) × (r ≡ response)
  Scheduled response c (issue _) = ⊥
  Scheduled response c (set_timer _) = ⊥
  Scheduled response c clear_timer = ⊥

  -- Where the smallest retry delay is at most the largest, the answer to a command that was issued
  -- is given to the channel, or the command is scheduled again with fewer tries left, at least
  -- one, and a new delay between the settings' bounds.
  pub settle-Scheduled :
      (response : Response) (c : Command)
      → flow.retry_min ≤ flow.retry_max
      → Scheduled response c (settle flow sent throws response (retried flow sent throws c))
  unfolding schedule_retry
  settle-Scheduled response c h =
      elim (Bool-cases (ltb 0 (c.tries_left - 1) && is_retriable flow sent throws response)) [
        | inl e ↦ rw e (
            let left : 0 < c.tries_left - 1 = ground arith in
            (refl, refl, omega arith, left, refl, omega arith, omega arith))
        | inr e ↦ rw e (refl, refl)
      ]
