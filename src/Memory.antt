-- ===== src/Memory.antt =====
-- Messages as objects: the reference counts and `MessagePtr` of include/livioark/msgbus/message.h, the
-- pool of include/livioark/msgbus/object_pool.h, and `TypedMessagePool` and the first half of `publish`
-- of include/livioark/msgbus/message_bus.h. Objects stand in a store under numbers, which are their
-- addresses; an object that is made gets a number that no object had.
pub mod Objects
pub mod Pointers
pub mod Counted
pub mod Dropping
pub mod Making
pub mod Owners
pub mod Safe
pub mod Assigning
pub mod History
pub mod Clearing
mod Tests
