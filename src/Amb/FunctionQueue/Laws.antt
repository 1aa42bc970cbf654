-- ===== src/Amb/FunctionQueue/Laws.antt =====
-- The queue of src/sn/amb/FunctionQueue.ts refines a plain sequence: what leaves is what went
-- in, in order, and the capacity is kept.
use now_sdk_ext_core.Common.{
  ℕ, ◌-◌, ◌≤◌, max, List, [], ◌∷◌, ◌++◌, Option, none, some, ◌≡◌, inl, inr, refl, sym, ap, arith,
  if◌then◌else◌, ltb, leb, length, length-append, length-drop, take-append-drop, append_assoc,
  append-nil, Bool-cases, ◌∙◌,
}
use now_sdk_ext_core.Amb.FunctionQueue.{
  FunctionQueue, Count, negative, amount, new, enqueue, enqueue_multiple, dequeue, dequeue_multiple,
  clear,
}

-- The calls of a client that change the queue.
pub data Call (A : Type 0) : Type 0 where
  puts : A → Call A
  puts_all : List A → Call A
  get : Call A
  get_many : Count → Call A
  clears : Call A

abbrev pub items_of {ℓ} : {A : Type ℓ} → Option (List A) → List A
items_of none = []
items_of (some items) = items

abbrev pub item_of {ℓ} : {A : Type ℓ} → Option A → List A
item_of none = []
item_of (some item) = item ∷ []

-- A queue after a call, with what the call put in, and what left: the items that the caller
-- got, or, at a clear, those that were dropped.
pub record Traced (A : Type 0) : Type 0 where
  pub queue : FunctionQueue A
  pub accepted : List A
  pub left : List A

module _ {A : Type 0} where
  pub perform : Call A → FunctionQueue A → Traced A
  perform (puts item) q =
      let (q', added) = enqueue item q in
      record { queue = q'; accepted = if added then item ∷ [] else []; left = [] }
  perform (puts_all items) q =
      let (q', added) = enqueue_multiple items q in
      record { queue = q'; accepted = if added then items else []; left = [] }
  perform get q =
      let (q', item) = dequeue q in record { queue = q'; accepted = []; left = item_of item }
  perform (get_many count) q =
      let (q', items) = dequeue_multiple count q in
      record { queue = q'; accepted = []; left = items_of items }
  perform clears q = record { queue = clear q; accepted = []; left = q.queue_buffer }

  pub perform_all : List (Call A) → FunctionQueue A → Traced A
  perform_all [] q = record { queue = q; accepted = []; left = [] }
  perform_all (c ∷ cs) q =
      let first = perform c q in
      let rest = perform_all cs first.queue in
      record {
        queue = rest.queue;
        accepted = first.accepted ++ rest.accepted;
        left = first.left ++ rest.left;
      }

  -- What a call leaves: the items in order, the capacity, and no more items than that.
  pub record Kept (q : FunctionQueue A) (t : Traced A) : Type 0 where
    pub order : q.queue_buffer ++ t.accepted ≡ t.left ++ t.queue.queue_buffer
    pub capacity : t.queue.max_queue_size ≡ q.max_queue_size
    pub fits : length t.queue.queue_buffer ≤ q.max_queue_size

  perform-Kept :
      (c : Call A) (q : FunctionQueue A)
      → length q.queue_buffer ≤ q.max_queue_size
      → Kept q (perform c q)
  unfolding perform enqueue enqueue_multiple dequeue dequeue_multiple clear
  perform-Kept (puts item) q h =
      elim (Bool-cases (ltb 0 (q.max_queue_size - length q.queue_buffer))) [
        | inl e ↦ rw e (record {
          order = refl;
          capacity = refl;
          fits = ground (arith, length-append q.queue_buffer (item ∷ []));
        })
        | inr e ↦ rw e (record { order = append-nil q.queue_buffer; capacity = refl; fits = h })
      ]
  perform-Kept (puts_all items) q h =
      elim (Bool-cases (leb (length items) (q.max_queue_size - length q.queue_buffer))) [
        | inl e ↦ rw e (record {
          order = refl;
          capacity = refl;
          fits = ground (arith, length-append q.queue_buffer items);
        })
        | inr e ↦ rw e (record { order = append-nil q.queue_buffer; capacity = refl; fits = h })
      ]
  perform-Kept get q h = taken_first q.queue_buffer refl
    where
      taken_first : (items : List A) → q.queue_buffer ≡ items → Kept q (perform get q)
      taken_first [] e = record {
        order = ground (arith, append-nil q.queue_buffer);
        capacity = ground arith;
        fits = ground arith;
      }
      taken_first (item ∷ items) e = record {
        order = ground (arith, append-nil q.queue_buffer);
        capacity = ground arith;
        fits = ground arith;
      }
  perform-Kept (get_many negative) q h = record {
    order = append-nil q.queue_buffer;
    capacity = refl;
    fits = h;
  }
  perform-Kept (get_many (amount n)) q h = elim (Bool-cases (leb n (length q.queue_buffer))) [
    | inl e ↦ rw e (record {
      order = append-nil q.queue_buffer ∙ sym (take-append-drop n q.queue_buffer);
      capacity = refl;
      fits = omega (arith, length-drop n q.queue_buffer);
    })
    | inr e ↦ rw e (record { order = append-nil q.queue_buffer; capacity = refl; fits = h })
  ]
  perform-Kept clears q h = record { order = refl; capacity = refl; fits = omega arith }

  chained :
      (b a t b' a' t' b'' : List A)
      → b ++ a ≡ t ++ b'
      → b' ++ a' ≡ t' ++ b''
      → b ++ (a ++ a') ≡ (t ++ t') ++ b''
  chained b a t b' a' t' b'' p q = cc (
    append_assoc b a a',
    append_assoc t b' a',
    append_assoc t t' b'',
    ap (λ x. x ++ a') p,
    ap (λ x. t ++ x) q,
  )

  perform_all-Kept :
      (cs : List (Call A)) (q : FunctionQueue A)
      → length q.queue_buffer ≤ q.max_queue_size
      → Kept q (perform_all cs q)
  unfolding perform_all
  perform_all-Kept [] q h = record { order = append-nil q.queue_buffer; capacity = refl; fits = h }
  perform_all-Kept (c ∷ cs) q h =
      let first = perform c q in
      let k = perform-Kept c q h in
      let ks = perform_all-Kept cs first.queue (omega (arith, k.fits, k.capacity)) in
      record {
        order =
            chained q.queue_buffer first.accepted first.left first.queue.queue_buffer _ _ _ k.order
              ks.order;
        capacity = ks.capacity ∙ k.capacity;
        fits = omega (arith, ks.fits, k.capacity);
      }

  -- First in, first out, through any calls: from a new queue, the items that were accepted, in the
  -- order of the calls, are those that were taken or, at a clear, dropped, in the order in which
  -- they left, followed by those that are still queued; and there are never more than the size
  -- that was asked for, or one if that is zero.
  pub perform_all-new :
      (cs : List (Call A)) (size : ℕ)
      → let t = perform_all cs (new (some size)) in
        (t.accepted ≡ t.left ++ t.queue.queue_buffer) × (length t.queue.queue_buffer ≤ max 1 size)
  unfolding new
  perform_all-new cs size =
      let k = perform_all-Kept cs (new (some size)) (omega arith) in (k.order, k.fits)
