-- ===== src/Running.antt =====
-- The threads of a running `MessageBus` (include/livioark/msgbus/message_bus.h): start, stop,
-- dispatchLoop, routerLoop, routeToWorker and workerLoop, as steps of threads in any order. A step is
-- one access to what the threads share: a load of a flag, one call of a queue, or one half
-- of a try_enqueue; what dispatchMessage does with a message is in Bus/Dispatching, and here a message is delivered when its call begins.
pub mod Loops
pub mod LeftSteps
pub mod Single
pub mod LoopSteps
pub mod SingleSteps
pub mod SingleOffers
pub mod SingleOrder
pub mod Multi
pub mod MultiSteps
pub mod MultiOrder
pub mod Workers
pub mod WorkerSteps
pub mod RouterSteps
pub mod Routing
pub mod Discards
pub mod StopSteps
pub mod StartSteps
pub mod MultiReach
pub mod Stopped
mod Tests
