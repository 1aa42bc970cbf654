-- ===== src/Amb/FunctionQueue.antt =====
-- src/sn/amb/FunctionQueue.ts: a bounded queue. Items are of any type. The head of the list is the
-- item that was added first.
pub mod Laws
use now_sdk_ext_core.Common.{
  ℕ, zero, suc, ◌+◌, ◌-◌, max, Bool, true, false, List, [], ◌∷◌, ◌++◌, Option, none, some,
  if◌then◌else◌, ltb, leb, length, take, drop,
}

-- `_defaultMaxFunctionQueueSize`
abbrev pub default_max_function_queue_size : ℕ
default_max_function_queue_size = 0x7ffffff

pub record FunctionQueue (A : Type 0) : Type 0 where
  pub queue_buffer : List A
  pub max_queue_size : ℕ

-- A count that a caller passes: it may be negative.
pub data Count : Type 0 where
  negative : Count
  amount : ℕ → Count

module _ {A : Type 0} where
  -- The size that is asked for is rounded down already; a missing one is the default.
  unfoldable pub new : Option ℕ → FunctionQueue A
  new none = record { queue_buffer = []; max_queue_size = max 1 default_max_function_queue_size }
  new (some queue_size) = record { queue_buffer = []; max_queue_size = max 1 queue_size }

  -- The buffer is never longer than the maximum, so the difference that stops at 0 is exact.
  unfoldable pub get_available_space : FunctionQueue A → ℕ
  get_available_space q = q.max_queue_size - length q.queue_buffer

  unfoldable pub enqueue : A → FunctionQueue A → FunctionQueue A × Bool
  unfolding get_available_space
  enqueue item q =
      if ltb 0 (get_available_space q)
      then (record q { queue_buffer = q.queue_buffer ++ item ∷ [] }, true)
      else (q, false)

  unfoldable pub enqueue_multiple : List A → FunctionQueue A → FunctionQueue A × Bool
  unfolding get_available_space
  enqueue_multiple items q =
      if leb (length items) (get_available_space q)
      then (record q { queue_buffer = q.queue_buffer ++ items }, true)
      else (q, false)

  unfoldable pub dequeue : FunctionQueue A → FunctionQueue A × Option A
  dequeue q = elim q.queue_buffer [
    | [] ↦ (q, none)
    | item ∷ items ↦ (record q { queue_buffer = items }, some item)
  ]

  unfoldable pub dequeue_multiple : Count → FunctionQueue A → FunctionQueue A × Option (List A)
  dequeue_multiple negative q = (q, none)
  dequeue_multiple (amount count) q =
      if leb count (length q.queue_buffer)
      then (record q { queue_buffer = drop count q.queue_buffer }, some (take count q.queue_buffer))
      else (q, none)

  unfoldable pub clear : FunctionQueue A → FunctionQueue A
  clear q = record q { queue_buffer = [] }

  unfoldable pub get_size : FunctionQueue A → ℕ
  get_size q = length q.queue_buffer

  unfoldable pub get_capacity : FunctionQueue A → ℕ
  get_capacity q = q.max_queue_size
