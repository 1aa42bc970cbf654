-- ===== src/Amb/TokenManagement/Laws.antt =====
-- The tokens of src/sn/amb/TokenManagementExtension.ts against the commands sent and answered.
use now_sdk_ext_core.Common.{
  ℕ, suc, ◌+◌, ◌-◌, ◌≤◌, ◌<◌, min, true, List, [], ◌∷◌, ◌≡◌, inl, inr, arith, if◌then◌else◌,
  Bool-cases,
}
use now_sdk_ext_core.Amb.TokenManagement.{
  Flow, Message, TokenManager, full, refill_tokens, outgoing, incoming, is_meta_sub_unsub,
}

-- What the bus tells the extension, and its refill.
pub data Event : Type 0 where
  sends : Message → Event
  receives : Message → Event
  refills : Event

module _ {L : Type 0} where
  pub handle : Flow → Event → TokenManager L → TokenManager L
  handle flow (sends m) t = (outgoing flow m t).0
  handle flow (receives m) t = (incoming flow m t).0
  handle flow refills t = (refill_tokens flow t).0

  pub handle_all : Flow → List Event → TokenManager L → TokenManager L
  handle_all flow [] t = t
  handle_all flow (e ∷ es) t = handle_all flow es (handle flow e t)

-- The subscription commands that are sent, and those that are answered.
abbrev pub sent : List Event → ℕ
sent [] = 0
sent (sends m ∷ es) = if is_meta_sub_unsub m.channel then suc (sent es) else sent es
sent (_ ∷ es) = sent es

abbrev pub answered : List Event → ℕ
answered [] = 0
answered (receives m ∷ es) = if is_meta_sub_unsub m.channel then suc (answered es) else answered es
answered (_ ∷ es) = answered es

-- With n commands unanswered at the start: no refill, no answer without a command that is
-- unanswered, and never more commands unanswered than the limit.
abbrev pub WithinLimit : Flow → List Event → ℕ → Type 0
WithinLimit flow [] n = Unit
WithinLimit flow (sends m ∷ es) n =
    if is_meta_sub_unsub m.channel
    then (n < flow.max_inflight) × WithinLimit flow es (suc n)
    else WithinLimit flow es n
WithinLimit flow (receives m ∷ es) n =
    if is_meta_sub_unsub m.channel
    then (0 < n) × WithinLimit flow es (n - 1)
    else WithinLimit flow es n
WithinLimit flow (refills ∷ es) n = ⊥

module _ {L : Type 0} (flow : Flow) (on : flow.enable ≡ true) where
  outgoing-count :
      (m : Message) (t : TokenManager L)
      → (outgoing flow m t).0.token_count
        ≡ (if is_meta_sub_unsub m.channel then t.token_count - 1 else t.token_count)
  unfolding outgoing
  outgoing-count m t = ground arith

  incoming-count :
      (m : Message) (t : TokenManager L)
      → t.token_count ≤ flow.max_inflight
      → (incoming flow m t).0.token_count ≡ (
          if is_meta_sub_unsub m.channel
          then min flow.max_inflight (suc t.token_count)
          else t.token_count)
  unfolding incoming
  incoming-count m t h = ground arith

  handle_all-from :
      (es : List Event) (t : TokenManager L) (n : ℕ)
      → t.token_count + n ≡ flow.max_inflight
      → WithinLimit flow es n
      → (handle_all flow es t).token_count + (n + sent es) ≡ flow.max_inflight + answered es
  unfolding handle_all handle
  handle_all-from [] t n h within = omega arith
  handle_all-from (sends m ∷ es) t n h within = elim (Bool-cases (is_meta_sub_unsub m.channel)) [
    | inl e ↦
        let (room, later) = (rw e at within) in
        let count = rw e at (outgoing-count m t) in
        rw e (
          omega (
            arith,
            handle_all-from es (outgoing flow m t).0 (suc n) (omega (arith, count, h, room)) later,
          ))
    | inr e ↦
        let count = rw e at (outgoing-count m t) in
        rw e (handle_all-from es (outgoing flow m t).0 n (omega (arith, count, h)) (rw e at within))
  ]
  handle_all-from (receives m ∷ es) t n h within = elim (Bool-cases (is_meta_sub_unsub m.channel)) [
    | inl e ↦
        let (some_left, later) = (rw e at within) in
        let count = rw e at (incoming-count m t (omega (arith, h))) in
        rw e (
          omega (
            arith,
            handle_all-from es (incoming flow m t).0 (n - 1) (omega (arith, count, h, some_left))
                later,
            some_left,
          ))
    | inr e ↦
        let count = rw e at (incoming-count m t (omega (arith, h))) in
        rw e (handle_all-from es (incoming flow m t).0 n (omega (arith, count, h)) (rw e at within))
  ]
  handle_all-from (refills ∷ es) t n h within = absurd within

-- While the flow of commands is controlled, from the start and through messages without a refill,
-- where every answer is to a command that was sent and no more commands are unanswered at a time
-- than the limit, the tokens that are left and the commands that were sent are together the limit
-- and the commands that were answered.
pub handle_all-sent :
    (L : Type 0) (flow : Flow) (es : List Event)
    → flow.enable ≡ true
    → WithinLimit flow es 0
    → (handle_all flow es (full {L = L} flow)).token_count + sent es
      ≡ flow.max_inflight + answered es
handle_all-sent L flow es on within =
    omega (arith, handle_all-from flow on es (full {L = L} flow) 0 (omega arith) within)
