-- ===== src/Memory/Objects.antt =====
-- Message objects, their reference counts and their pools, where `none` is undefined behaviour (an
-- access to an object that was deleted, a deletion of one, a cast to another type) or a loop of the
-- queue that has not ended.
use livio_ark.Prelude.{
  ℕ, zero, suc, ◌+◌, ◌-◌, ◌%◌, ◌^◌, Bool, true, false, Option, none, some, Bytes, ◌==◌,
  if◌then◌else◌, update, [],
}
use livio_ark.Queue.{Queue, new_queue, try_enqueue, try_dequeue}

-- `recycler_` is the type whose `TypedMessagePool::recycle` it points to, and `type` the type of the
-- data. `ref_count_` is an `int`, here below 2 ^ 32.
pub record Object : Type 0 where
  pub ref_count : ℕ
  pub recycler : Option ℕ
  pub on_drop : Option ℕ
  pub topic_sv : Bytes
  pub topic_id : ℕ
  pub type : ℕ
  pub data_ : ℕ

-- `made` is the next number, and `pools` has the pool of each type.
pub record Heap : Type 0 where
  pub objects : ℕ → Object
  pub allocated : ℕ → Bool
  pub made : ℕ
  pub pools : ℕ → Queue ℕ

abbrev pub counts : ℕ
counts = 2 ^ 32

-- `kDefaultPoolCapacity`
abbrev pub default_pool_capacity : ℕ
default_pool_capacity = 8192

-- `TypedMessage<T>(topic_id, data)`
abbrev pub typed_message : ℕ → ℕ → ℕ → Object
typed_message type topic_id data_ = record {
  ref_count = 0;
  recycler = none;
  on_drop = none;
  topic_sv = [];
  topic_id = topic_id;
  type = type;
  data_ = data_;
}

-- The state at the program's start, with what objects would be before they are made.
unfoldable pub new_heap : Heap
unfolding new_queue
new_heap = record {
  objects = λ p. typed_message 0 0 0;
  allocated = λ p. false;
  made = 0;
  pools = λ t. new_queue default_pool_capacity;
}

abbrev pub on_object : ℕ → (Object → Object) → Heap → Option Heap
on_object p f h =
    if h.allocated p
    then some (record h { objects = update p (f (h.objects p)) h.objects })
    else none

abbrev pub add_ref : ℕ → Heap → Option Heap
add_ref p h = on_object p (λ o. record o { ref_count = (o.ref_count + 1) % counts }) h

-- With the result of `fetch_sub(1) == 1`.
unfoldable pub release_ref : ℕ → Heap → Option (Heap × Bool)
release_ref p h =
    elim (on_object p (λ o. record o { ref_count = (o.ref_count + counts - 1) % counts }) h) [
      | none ↦ none
      | some h' ↦ some (h', (h.objects p).ref_count == 1)
    ]

-- `TypedMessage::reset`
abbrev pub reset_message : ℕ → ℕ → Object → Object
reset_message topic_id data_ o = record o {
  ref_count = 0;
  recycler = none;
  on_drop = none;
  topic_id = topic_id;
  data_ = data_;
}

-- `new TypedMessage<T>(topic_id, data)`
abbrev pub allocate : Object → Heap → Heap × ℕ
allocate o h = (
  record h {
    objects = update h.made o h.objects;
    allocated = update h.made true h.allocated;
    made = h.made + 1;
  },
  h.made,
)

-- `delete p`
abbrev pub delete : ℕ → Heap → Option Heap
delete p h =
    if h.allocated p then some (record h { allocated = update p false h.allocated }) else none

-- `ObjectPool::acquire` and `ObjectPool::release` of the pool of type `t`.
unfoldable pub acquire : ℕ → Heap → Option (Heap × Option ℕ)
acquire t h = elim (try_dequeue (h.pools t)) [
  | none ↦ none
  | some (q, p, taken) ↦ some (record h { pools = update t q h.pools }, p)
]

unfoldable pub release : ℕ → ℕ → Heap → Option Heap
release t p h = elim (try_enqueue p (h.pools t)) [
  | none ↦ none
  | some (q, true) ↦ some (record h { pools = update t q h.pools })
  | some (q, false) ↦ delete p (record h { pools = update t q h.pools })
]

-- `~ObjectPool` of the pool of type `t`, on fuel.
unfoldable pub clear_pool : ℕ → ℕ → Heap → Option Heap
clear_pool zero t h = none
clear_pool (suc f) t h = elim (try_dequeue (h.pools t)) [
  | none ↦ none
  | some (q, none, taken) ↦ some (record h { pools = update t q h.pools })
  | some (q, some p, taken) ↦ elim (delete p (record h { pools = update t q h.pools })) [
    | none ↦ none
    | some h' ↦ clear_pool f t h'
  ]
]

-- `TypedMessagePool<T>::recycle`, with its cast to the pool's type.
unfoldable pub recycle : ℕ → ℕ → Heap → Option Heap
unfolding release
recycle t p h = if (h.objects p).type == t then release t p h else none

-- What `MessagePtr::reset` does with the object that it points to.
unfoldable pub drop_ref : ℕ → Heap → Option Heap
unfolding release_ref recycle
drop_ref p h = elim (release_ref p h) [
  | none ↦ none
  | some (h', false) ↦ some h'
  | some (h', true) ↦ elim (h'.objects p).recycler [ none ↦ delete p h' | some t ↦ recycle t p h' ]
]

-- The object that `publish` takes from the pool or makes.
unfoldable pub acquire_or_new : ℕ → ℕ → ℕ → Heap → Option (Heap × ℕ)
acquire_or_new type topic_id data_ h = elim (acquire type h) [
  | none ↦ none
  | some (h', some p) ↦ elim (on_object p (reset_message topic_id data_) h') [
    | none ↦ none
    | some h'' ↦ some (h'', p)
  ]
  | some (h', none) ↦ some (allocate (typed_message type topic_id data_) h')
]

-- What `publish` sets afterwards.
abbrev pub prepared : ℕ → Bytes → Option ℕ → Object → Object
prepared type topic_sv on_drop o = record o {
  recycler = some type;
  topic_sv = topic_sv;
  on_drop = on_drop;
}

-- `publish` up to `enqueueMessage`, with `adopt`'s reference.
unfoldable pub make_message : ℕ → ℕ → Bytes → ℕ → Option ℕ → Heap → Option (Heap × ℕ)
make_message type topic_id topic_sv data_ on_drop h = elim (acquire_or_new type topic_id data_ h) [
  | none ↦ none
  | some (h', p) ↦ elim (on_object p (prepared type topic_sv on_drop) h') [
    | none ↦ none
    | some h'' ↦ elim (add_ref p h'') [ none ↦ none | some h3 ↦ some (h3, p) ]
  ]
]
