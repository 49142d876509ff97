-- ===== src/Memory/Pointers.antt =====
-- The operations of `MessagePtr` (include/livioark/msgbus/message.h) on the variables of that type.
use livio_ark.Prelude.{
  ℕ, zero, suc, Bool, true, false, List, [], ◌∷◌, ◌++◌, Option, none, some, Bytes, ◌==◌,
  if◌then◌else◌, get_elem?,
}
use livio_ark.Memory.Objects.{
  Heap, new_heap, typed_message, allocate, add_ref, drop_ref, make_message,
}

-- `ptrs` has the `ptr_` of each variable, with `none` for `nullptr`. A variable that has been
-- destroyed keeps its place, with `nullptr`.
pub record Memory : Type 0 where
  pub heap : Heap
  pub ptrs : List (Option ℕ)

unfoldable pub new_memory : Memory
unfolding new_heap
new_memory = record { heap = new_heap; ptrs = [] }

abbrev pub same_ptr : Option ℕ → Option ℕ → Bool
same_ptr none none = true
same_ptr none (some q) = false
same_ptr (some p) none = false
same_ptr (some p) (some q) = p == q

abbrev pub ptr_at : ℕ → List (Option ℕ) → Option ℕ
ptr_at i ptrs = elim (get_elem? ptrs i) [ none ↦ none | some p ↦ p ]

abbrev pub set_ptr : ℕ → Option ℕ → List (Option ℕ) → List (Option ℕ)
set_ptr i p [] = []
set_ptr zero p (x ∷ xs) = p ∷ xs
set_ptr (suc i) p (x ∷ xs) = x ∷ set_ptr i p xs

-- `reset`, which is also the destructor.
unfoldable pub reset : ℕ → Memory → Option Memory
reset i m = elim (ptr_at i m.ptrs) [
  | none ↦ some m
  | some p ↦ elim (drop_ref p m.heap) [
    | none ↦ none
    | some h ↦ some (record { heap = h; ptrs = set_ptr i none m.ptrs })
  ]
]

-- `if (p) p->add_ref();`
abbrev pub add_ref_to : Option ℕ → Heap → Option Heap
add_ref_to none h = some h
add_ref_to (some p) h = add_ref p h

-- A new variable by `MessagePtr()` and `adopt(p)`.
abbrev pub adopt : Option ℕ → Memory → Option Memory
adopt p m = elim (add_ref_to p m.heap) [
  | none ↦ none
  | some h ↦ some (record { heap = h; ptrs = m.ptrs ++ p ∷ [] })
]

-- A new variable by `MessagePtr(const MessagePtr&)`, which does to it what `adopt` does.
abbrev pub copy : ℕ → Memory → Option Memory
copy o m = elim (add_ref_to (ptr_at o m.ptrs) m.heap) [
  | none ↦ none
  | some h ↦ some (record { heap = h; ptrs = m.ptrs ++ ptr_at o m.ptrs ∷ [] })
]

-- `ptr_ = o.ptr_; if (ptr_) ptr_->add_ref();`
abbrev pub point_to : ℕ → Option ℕ → Memory → Option Memory
point_to i p m = elim (add_ref_to p m.heap) [
  | none ↦ none
  | some h ↦ some (record { heap = h; ptrs = set_ptr i p m.ptrs })
]

-- `operator=(const MessagePtr&)`
unfoldable pub copy_assign : ℕ → ℕ → Memory → Option Memory
unfolding reset
copy_assign i o m =
    if same_ptr (ptr_at i m.ptrs) (ptr_at o m.ptrs)
    then some m
    else elim (reset i m) [ none ↦ none | some m' ↦ point_to i (ptr_at o m'.ptrs) m' ]

-- A new variable by `MessagePtr(MessagePtr&&)`.
abbrev pub move : ℕ → Memory → Memory
move o m = record m { ptrs = set_ptr o none m.ptrs ++ ptr_at o m.ptrs ∷ [] }

-- `operator=(MessagePtr&&)`
unfoldable pub move_assign : ℕ → ℕ → Memory → Option Memory
unfolding reset
move_assign i o m = if i == o then some m else elim (reset i m) [
  | none ↦ none
  | some m' ↦ some (record m' { ptrs = set_ptr o none (set_ptr i (ptr_at o m'.ptrs) m'.ptrs) })
]

-- A new variable with the message that `publish` adopts.
unfoldable pub make_ptr : ℕ → ℕ → Bytes → ℕ → Option ℕ → Memory → Option Memory
make_ptr type topic_id topic_sv data_ on_drop m =
    elim (make_message type topic_id topic_sv data_ on_drop m.heap) [
      | none ↦ none
      | some (h, p) ↦ some (record { heap = h; ptrs = m.ptrs ++ some p ∷ [] })
    ]

-- A new variable by `MessagePtr::adopt(new TypedMessage<T>(topic_id, data))`, without a pool.
abbrev pub adopt_new : ℕ → ℕ → ℕ → Memory → Option Memory
adopt_new type topic_id data_ m =
    let (h, p) = allocate (typed_message type topic_id data_) m.heap in
    adopt (some p) (record m { heap = h })
