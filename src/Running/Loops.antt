-- ===== src/Running/Loops.antt =====
-- The loop that dispatchLoop and routerLoop of `MessageBus` (include/livioark/msgbus/message_bus.h)
-- share: they differ in what they do with a message.
use livio_ark.Prelude.{
  ℕ, ◌+◌, Bool, true, false, ◌||◌, ◌==◌, ltb, List, [], ◌∷◌, Option, none, some, if◌then◌else◌,
}
use livio_ark.Queue.{Queue, try_dequeue}
use livio_ark.Bus.Dispatching.{Message}

-- `kSpinThreshold` and `kYieldThreshold`
abbrev pub spin_threshold : ℕ
spin_threshold = 64

abbrev pub yield_threshold : ℕ
yield_threshold = 256

-- `idle` after a round without a message: it counts up to the second threshold, from where on the
-- thread sleeps a millisecond each round, or until the bus stops.
abbrev pub backoff : ℕ → ℕ
backoff idle = if ltb idle spin_threshold || ltb idle yield_threshold then idle + 1 else idle

-- Where the thread is: about to load `running_`, about to take a message, with a message in hand, the
-- same in the loop that drains the queue, or at its end. `absent` is no thread.
pub data Place : Type 0 where
  absent : Place
  checking : ℕ → Place
  polling : ℕ → Place
  handling : Message → Place
  draining : Place
  drain_handling : Message → Place
  ended : Place

abbrev pub in_hand : Place → List Message
in_hand absent = []
in_hand (checking idle) = []
in_hand (polling idle) = []
in_hand (handling m) = m ∷ []
in_hand draining = []
in_hand (drain_handling m) = m ∷ []
in_hand ended = []

-- In the loop that tests `running_`.
abbrev pub is_looping : Place → Bool
is_looping absent = false
is_looping (checking idle) = true
is_looping (polling idle) = true
is_looping (handling m) = true
is_looping draining = false
is_looping (drain_handling m) = false
is_looping ended = false

-- No thread, or one that has left its loops.
abbrev pub is_over : Place → Bool
is_over absent = true
is_over (checking idle) = false
is_over (polling idle) = false
is_over (handling m) = false
is_over draining = false
is_over (drain_handling m) = false
is_over ended = true

-- Where the thread is after it has done with its message.
abbrev pub done_with : Place → Place
done_with (handling m) = checking 0
done_with (drain_handling m) = draining
done_with place = place

-- The place for what `mainDequeue` gave.
abbrev pub taken : Option Message → (Message → Place) → Place → Place
taken none got empty = empty
taken (some m) got empty = got m

-- A step that does not have a message in hand: the queue and the place afterwards, where `none` is a
-- call of the queue that has not ended.
unfoldable pub loop_step : Bool → Queue Message → Place → Option (Queue Message × Place)
loop_step running q (checking idle) = some (q, if running then polling idle else draining)
loop_step running q (polling idle) = elim (try_dequeue q) [
  | none ↦ none
  | some (q', m, _) ↦ some (q', taken m handling (checking (backoff idle)))
]
loop_step running q draining = elim (try_dequeue q) [
  | none ↦ none
  | some (q', m, _) ↦ some (q', taken m drain_handling ended)
]
loop_step running q place = some (q, place)

-- Where the thread is when its call of the queue found nothing.
abbrev pub empty_handed : Place → Place
empty_handed absent = absent
empty_handed (checking idle) = checking idle
empty_handed (polling idle) = checking (backoff idle)
empty_handed (handling m) = handling m
empty_handed draining = ended
empty_handed (drain_handling m) = drain_handling m
empty_handed ended = ended

-- The messages that left the main queue, in their order: taken by the thread (true), or discarded by
-- a publisher under DropOldest.
abbrev pub Left : Type 0
Left = List (Bool × Message)

abbrev pub all_of : Left → List Message
all_of [] = []
all_of ((b, m) ∷ l) = m ∷ all_of l

abbrev pub handed : Left → List Message
handed [] = []
handed ((true, m) ∷ l) = m ∷ handed l
handed ((false, m) ∷ l) = handed l

abbrev pub passed : List Message → Left
passed [] = []
passed (m ∷ ms) = (true, m) ∷ passed ms

-- The thread is about to call try_dequeue.
abbrev pub calls_queue : Place → Bool
calls_queue absent = false
calls_queue (checking idle) = false
calls_queue (polling idle) = true
calls_queue (handling m) = false
calls_queue draining = true
calls_queue (drain_handling m) = false
calls_queue ended = false

-- The positions that calls of try_enqueue have taken by their compare-exchange, and whose cells they
-- have not stored.
abbrev pub is_in : ℕ → List ℕ → Bool
is_in pos [] = false
is_in pos (p ∷ ps) = p == pos || is_in pos ps

abbrev pub without : ℕ → List ℕ → List ℕ
without pos [] = []
without pos (p ∷ ps) = let rest = without pos ps in if p == pos then rest else p ∷ rest
