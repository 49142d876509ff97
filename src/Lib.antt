-- ===== src/Lib.antt =====
-- Verification of livio_ark's message bus: topic-based publish and subscribe inside one process.
--
-- The program. `MessageBus` (include/livioark/msgbus/message_bus.h) gives each topic a number by its
-- `TopicRegistry`, keeps one `TopicSlot` with the subscribers of each topic, and indexes subscriptions
-- with wildcards in a `WildcardTrie`. `publish` puts a message into a `LockFreeQueue`; a dispatcher
-- thread takes it out, calls the topic's slot and then the slots that the trie gives for the topic.
--
-- The files, with the code that each models.
--   Levels           `splitLevels` of include/livioark/msgbus/wildcard_trie.h (find_slash, split_loop,
--                    split_levels); Levels/Split relates it to joining, Levels/Matching states the
--                    documented rules by which a pattern selects a topic, level by level.
--   Topic            include/livioark/msgbus/topic_matcher.h: topicMatches (topic_matches), isWildcard
--                    (is_wildcard), isValidTopic (is_valid_topic). The index into a text is the rest of
--                    the text. Topic/Reading, Topic/Matching and Topic/Valid hold their
--                    descriptions by levels.
--   Trie             include/livioark/msgbus/wildcard_trie.h: insert, remove, match, empty (is_empty),
--                    cloneSnapshot, cloneNode, matchNode, removeFrom. A published snapshot is a value.
--                    The children of a node are a list of keys and nodes; their order stands for the
--                    order of iteration of the hash map, and no property depends on it. `remove`
--                    returns the entry that it erases in place of `true`, as `removeFrom` also removes
--                    the subscriber from the entry's slot. Trie/Contents says what a trie holds,
--                    Trie/Refinement and Trie/History relate it to a plain list.
--   Registry         include/livioark/msgbus/topic_registry.h: resolve and to_string. Ids are 32 bits
--                    wide and wrap. `resolve_between` is a call with other threads' calls between its
--                    two critical sections.
--   Slot             include/livioark/msgbus/topic_slot.h and subscriber.h: addSubscriber,
--                    removeSubscriber, dispatch. A message type and a handler are numbers; what a
--                    handler does is a parameter, which may change all there is and may throw.
--   Queue            include/livioark/msgbus/lock_free_queue.h: the constructor (new_queue),
--                    roundUpPowerOf2, try_enqueue, try_dequeue, with `size_t` below 2 ^ 64 and the
--                    signed difference of positions written out.
--   Bus/Subscribing  subscribe, unsubscribe, getOrCreateSlot, checkedSlot of message_bus.h. The slot of
--                    a wildcard subscription is shared by the snapshots of the trie, so it stands in a
--                    store, under the number of the call that made it. An exception is a result.
--   Bus/Dispatching  dispatchMessage of message_bus.h. A cast of a message to another type, which is
--                    undefined behaviour, is `none`.
--   Bus/Publishing   publish and enqueueMessage of message_bus.h with the five policies. The wait of
--                    Block and BlockTimeout is the list of the evaluations of its predicate, between
--                    which other threads do anything to the queue (Wake).
--   Bus/Handles      TopicHandle and topic of message_bus.h.
--   Bus/Waiting      AsyncWaitAwaitable of message_bus.h as steps of threads in any order; a step is one
--                    call of the bus or one access to the shared state.
--   Bus/Draining     the end of dispatchLoop, which dispatches what is left when the bus has stopped.
--   Running          the threads of a bus: start, stop, dispatchLoop (Running/Single), routerLoop,
--                    routeToWorker and workerLoop (Running/Multi) of message_bus.h, as steps in any
--                    order (Running/MultiSteps for several workers). A step is a load of a flag, one
--                    call of a queue, or one half of try_enqueue on the main queue: its
--                    compare-exchange, and its store, before which a try_dequeue of that cell finds
--                    nothing. DropOldest's discards are steps. Running/Loops is the loop that
--                    dispatchLoop and routerLoop share; the other files follow the messages through
--                    each kind of step.
--   Memory           messages as objects: the counts and MessagePtr of include/livioark/msgbus/message.h
--                    (Memory/Pointers), include/livioark/msgbus/object_pool.h and what publish does
--                    with its pool (Memory/Objects). An object is a number in a store; undefined
--                    behaviour is `none`.
--   Log              include/livioark/log/log.hpp (Log/Options, Log/Macros) and src/log/log.cpp
--                    (Log/Loggers). spdlog's loggers are a parameter with what spdlog documents of
--                    them (Log/Spdlog); a `shared_ptr` to a logger is a number in a store.
--   Bus/Live         the live subscriptions as a list, and when the bus represents it; the other files
--                    of Bus are about each operation by that list.
--   Bus/History      the bus after any sequence of subscribe and unsubscribe calls.
--   Prelude          tests, lists with sums over them (tally) and association lists for hash maps.
--
-- How they meet. Topic and Trie share Levels; Trie and Bus share the slots of Slot; Bus/Publishing,
-- Memory (its pools) and Running put their messages into the queue of Queue, each by the theorems of
-- Queue/Fifo, and Bus/Subscribing and Bus/Publishing resolve topics by Registry.
--
-- Bounds and fuel. The loops of the queue run on fuel, one round: one thread at a time finds the
-- position that it loaded, so the first round decides; in Running a call of the main queue takes
-- effect at its compare-exchange, where the positions are those that it loaded. DropOldest gets one
-- retry, since no other thread takes the room that it made. Positions are taken to stay below 2 ^
-- 63: Running starts from the queue of any capacity up to 2 ^ 61 and counts the steps, Memory
-- counts the operations, the other theorems say so. Subscription ids and topic ids are taken not to
-- be used up; each theorem that needs it says so.
--
-- Not modelled: the rounds of the queue's loops that lose a compare-exchange, the interleaving of
-- several threads inside subscribe and unsubscribe, start and stop called at the same time (they
-- share the threads without a lock), a coroutine resumed after it is destroyed, and the macros of
-- include/livioark/comm, which are shims of the language. magic_enum and spdlog are copies of other
-- libraries.
mod Prelude
pub mod Levels
pub mod Topic
pub mod Trie
pub mod Registry
pub mod Slot
pub mod Queue
pub mod Bus
pub mod Log
pub mod Memory
pub mod Running
