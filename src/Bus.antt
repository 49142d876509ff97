-- ===== src/Bus.antt =====
-- `MessageBus` of include/livioark/msgbus/message_bus.h: its parts are the child modules.
pub mod Subscribing
pub mod Live
pub mod Slots
pub mod Adding
pub mod Patterns
pub mod Dropping
pub mod Removing
pub mod Unsubscribing
pub mod Dispatching
pub mod Found
pub mod Calls
pub mod Delivery
pub mod Typing
pub mod History
pub mod Publishing
pub mod Handles
pub mod Policies
pub mod Published
pub mod Waiting
pub mod Off
pub mod FiredSteps
pub mod Fired
pub mod Draining
pub mod Kept
pub mod Drained
mod Tests
mod MessageTests
mod WaitTests
