-- ===== src/Amb/SubscriptionCommandSender/Rounds.antt =====
-- `processQueue` of src/sn/amb/SubscriptionCommandSender.ts: a round of its queue.
use now_sdk_ext_core.Common.{
  ℕ, zero, suc, ◌∙◌, sym, not, any, Bool, if◌then◌else◌, min, true, false, List, [], ◌∷◌, ◌≡◌, refl,
  ap, arith, ltb, leb, ◌⊎◌, inl, inr, Bool-cases, take, drop, length, append-nil,
}
use now_sdk_ext_core.Amb.FunctionQueue.{dequeue_multiple, get_size}
use now_sdk_ext_core.Amb.TokenManagement.{Flow}
use now_sdk_ext_core.Amb.SubscriptionCommandSender.{
  Sender, Command, Run, run_items, process_queue, available, restart_timer, ◌also◌, did,
}
use now_sdk_ext_core.Amb.SubscriptionCommandSender.Laws.{issued, issued-append}

module _ (flow : Flow) (sent : Command → ℕ → ℕ) (throws : Command → Bool) where
  -- The commands up to the first that throws, and that one.
  abbrev pub until_throw : List Command → List Command
  until_throw [] = []
  until_throw (c ∷ cs) = if throws c then c ∷ [] else c ∷ until_throw cs

  run_items-issued :
      (cs : List Command) (s : Sender)
      → (issued (run_items flow sent throws cs s).effects ≡ until_throw cs)
        × ((run_items flow sent throws cs s).sender.command_queue ≡ s.command_queue)
        × ((run_items flow sent throws cs s).returned ≡ not (any throws cs))
  unfolding run_items
  run_items-issued [] s = (refl, refl, refl)
  run_items-issued (c ∷ cs) s = elim (Bool-cases (throws c)) [
    | inl e ↦ rw e (refl, refl, refl)
    | inr e ↦
        let (i, q, r) = run_items-issued cs (record s { token_count = sent c s.token_count }) in
        rw e (ap (λ r. c ∷ r) i, q, r)
  ]

  zero-min : (n : ℕ) → min n 0 ≡ 0
  zero-min n = omega arith

  min-zero : (n : ℕ) → min 0 n ≡ 0
  min-zero n = omega arith

  min-suc : (m n : ℕ) → min (suc m) (suc n) ≡ suc (min m n)
  min-suc m n = omega arith

  take-min : (n : ℕ) (cs : List Command) → take (min (length cs) n) cs ≡ take n cs
  take-min zero cs = rw (zero-min (length cs)) refl
  take-min (suc n) [] = rw (min-zero (suc n)) refl
  take-min (suc n) (c ∷ cs) = rw (min-suc (length cs) n) (ap (λ r. c ∷ r) (take-min n cs))

  drop-min : (n : ℕ) (cs : List Command) → drop (min (length cs) n) cs ≡ drop n cs
  drop-min zero cs = rw (zero-min (length cs)) refl
  drop-min (suc n) [] = rw (min-zero (suc n)) refl
  drop-min (suc n) (c ∷ cs) = rw (min-suc (length cs) n) (drop-min n cs)

  restart_timer-keeps :
      (s : Sender)
      → (issued (restart_timer flow sent throws false s).effects ≡ [])
        × ((restart_timer flow sent throws false s).sender.command_queue ≡ s.command_queue)
        × ((restart_timer flow sent throws false s).returned ≡ true)
  restart_timer-keeps s = elim (Bool-cases s.timer) [
    | inl e ↦ rw e (refl, refl, refl)
    | inr e ↦ rw e (refl, refl, refl)
  ]

  -- A round that takes `m` commands off the queue.
  abbrev queue_round : ℕ → Sender → Run
  queue_round m s =
      run_items flow sent throws (take m s.command_queue.queue_buffer) (record s {
        command_queue = record s.command_queue {
          queue_buffer = drop m s.command_queue.queue_buffer;
        };
      })
      also restart_timer flow sent throws false

  -- What a round that takes `m` commands off the queue does.
  record Round (m : ℕ) (queue : List Command) (r : Run) : Type 0 where
    commands : issued r.effects ≡ until_throw (take m queue)
    others : r.sender.command_queue.queue_buffer ≡ drop m queue
    ended : r.returned ≡ not (any throws (take m queue))

  round-issued : (m : ℕ) (s : Sender) → Round m s.command_queue.queue_buffer (queue_round m s)
  round-issued m s =
      let queue = s.command_queue.queue_buffer in
      let s' : Sender = record s {
        command_queue = record s.command_queue { queue_buffer = drop m queue };
      } in
      let ran = run_items flow sent throws (take m queue) s' in
      let timed = restart_timer flow sent throws false ran.sender in
      let (i, q, r) = run_items-issued (take m queue) s' in
      let (none_more, kept, on) = restart_timer-keeps ran.sender in
      elim (Bool-cases ran.returned) [
        | inl e ↦ rw e (record {
          commands =
              issued-append ran.effects timed.effects
              ∙ rw (i, none_more) (append-nil (until_throw (take m queue)));
          others = ap (λ k. k.queue_buffer) (kept ∙ q);
          ended = on ∙ sym e ∙ r;
        })
        | inr e ↦
            rw e (record { commands = i; others = ap (λ k. k.queue_buffer) q; ended = sym e ∙ r })
      ]

  process_queue-round :
      (s : Sender)
      → let m = min (length s.command_queue.queue_buffer) (available flow sent throws s) in
        (process_queue flow sent throws s ≡ queue_round m s)
        ⊎ ((m ≡ 0) × (process_queue flow sent throws s ≡ did s []))
  unfolding process_queue get_size dequeue_multiple
  process_queue-round s =
      let queue = s.command_queue.queue_buffer in
      let m = min (length queue) (available flow sent throws s) in
      let fits : leb m (length queue) ≡ true = ground arith in
      elim (Bool-cases (ltb 0 m)) [
        | inl e ↦ inl (rw (e, fits) refl)
        | inr e ↦ inr (ground arith, rw e refl)
      ]

  -- A round of the queue takes its first commands off it, as many as there are tokens and at most
  -- the limit of commands in flight; the others stay queued. It issues those that it took, in
  -- order, up to the first that throws; those after it are lost. The round returns exactly when
  -- none throws.
  pub process_queue-issued :
      (s : Sender)
      → let n = min flow.max_inflight s.token_count in
        let first = take n s.command_queue.queue_buffer in
        let r = process_queue flow sent throws s in
        (issued r.effects ≡ until_throw first)
        × (r.sender.command_queue.queue_buffer ≡ drop n s.command_queue.queue_buffer)
        × (r.returned ≡ not (any throws first))
  process_queue-issued s =
      let queue = s.command_queue.queue_buffer in
      let m = min (length queue) (available flow sent throws s) in
      let exact : m ≡ min (length queue) (min flow.max_inflight s.token_count) = omega arith in
      let first : take m queue ≡ take (min flow.max_inflight s.token_count) queue =
        rw exact (take-min _ queue) in
      let later : drop m queue ≡ drop (min flow.max_inflight s.token_count) queue =
        rw exact (drop-min _ queue) in
      elim (process_queue-round s) [
        | inl e ↦
            let round = round-issued m s in
            rw (e, ← first, ← later) (round.commands, round.others, round.ended)
        | inr (nothing, e) ↦ rw e (rw (← first, ← later) (rw nothing (refl, refl, refl)))
      ]
