-- ===== src/Bus/Waiting.antt =====
-- `AsyncWaitAwaitable` of `MessageBus` (include/livioark/msgbus/message_bus.h) as steps of threads in
-- any order: await_suspend, its handler on any number of threads, await_resume, the destructor.
use livio_ark.Prelude.{
  ℕ, suc, ◌≡◌, Bool, true, false, List, [], ◌∷◌, ◌++◌, Option, none, some, Bytes, ◌==◌,
  if◌then◌else◌, length,
}
use livio_ark.Bus.Subscribing.{Subscriptions, Result, ok, threw, subscribe, unsubscribe}
use livio_ark.Bus.History.{Call, step}

-- How far await_suspend is, with the id that `subscribe` returned. It throws what `subscribe` throws.
pub data Suspension : Type 0 where
  not_begun : Suspension
  unassigned assigned : ℕ → Suspension
  failed : Suspension

-- A call of the handler that has won the exchange: before its store, and before its resume.
pub data Firing : Type 0 where
  storing : ℕ → Firing
  resuming : Firing

-- SharedState, and what the threads do with it: the calls of the handler under way, and as records
-- the messages in the order of the exchanges, the number of calls of `resume`, and what await_resume
-- returned.
pub record Wait : Type 0 where
  pub bus : Subscriptions
  pub sub_id : ℕ
  pub result : Option ℕ
  pub fired : Bool
  pub suspension : Suspension
  pub destroyed : Bool
  pub inside : List Firing
  pub calls : List ℕ
  pub resumes : ℕ
  pub returned : List ℕ

unfoldable pub async_wait : Subscriptions → Wait
async_wait bus = record {
  bus = bus;
  sub_id = 0;
  result = none;
  fired = false;
  suspension = not_begun;
  destroyed = false;
  inside = [];
  calls = [];
  resumes = 0;
  returned = [];
}

-- The two parts of await_suspend: the call of `subscribe`, and the assignment of its result.
abbrev pub suspended : Wait → Subscriptions × Result ℕ → Wait
suspended w (bus', ok id) = record w { bus = bus'; suspension = unassigned id }
suspended w (bus', threw e) = record w { bus = bus'; suspension = failed }

abbrev pub await_suspend : Bytes → ℕ → ℕ → Wait → Wait
await_suspend topic type handler w = suspended w (subscribe topic type handler w.bus)

abbrev pub assign_sub_id : ℕ → Wait → Wait
assign_sub_id id w = record w { sub_id = id; suspension = assigned id }

-- The handler, up to and with its compare_exchange_strong.
abbrev pub fire : ℕ → Wait → Wait
fire msg w = record w {
  fired = true;
  inside = if w.fired then w.inside else w.inside ++ storing msg ∷ [];
  calls = w.calls ++ msg ∷ [];
}

-- The rest of it, for the call that stands between `before` and `after`.
abbrev pub proceed : List Firing → Firing → List Firing → Wait → Wait
proceed before (storing msg) after w = record w {
  result = some msg;
  inside = before ++ resuming ∷ after;
}
proceed before resuming after w = record w { inside = before ++ after; resumes = suc w.resumes }

-- The read of an empty result is undefined behaviour.
abbrev pub await_resume : Wait → Option Wait
await_resume w = elim w.result [
  | none ↦ none
  | some msg ↦
      some (record w {
        bus = unsubscribe w.sub_id w.bus;
        sub_id = 0;
        returned = w.returned ++ msg ∷ [];
      })
]

-- `~AsyncWaitAwaitable`
abbrev pub destroy : Wait → Wait
destroy w = record w {
  bus = if w.sub_id == 0 then w.bus else unsubscribe w.sub_id w.bus;
  destroyed = true;
}

-- Each call of `resume` runs await_resume once, where the awaitable is there. It ends when the
-- coroutine goes on, or is destroyed while it waits; calls of the handler under way then go on, and
-- the resume of a coroutine that is destroyed, which is undefined behaviour, is only counted.
pub data Step (w u : Wait) : Type 0 where
  suspends :
      (topic : Bytes) (type handler : ℕ)
      → w.suspension ≡ not_begun
      → u ≡ await_suspend topic type handler w
      → Step w u
  assigns : (id : ℕ) → w.suspension ≡ unassigned id → u ≡ assign_sub_id id w → Step w u
  fires : (msg : ℕ) → u ≡ fire msg w → Step w u
  proceeds :
      (before after : List Firing) (call : Firing)
      → w.inside ≡ before ++ call ∷ after
      → u ≡ proceed before call after w
      → Step w u
  awakes :
      w.destroyed ≡ false → w.resumes ≡ suc (length w.returned) → await_resume w ≡ some u → Step w u
  ends : w.destroyed ≡ false → u ≡ destroy w → Step w u
  others : (call : Call) → u ≡ record w { bus = step w.bus call } → Step w u

pub data Reach (bus : Subscriptions) : Wait → Type 0 where
  here : Reach bus (async_wait bus)
  next : {w u : Wait} → Reach bus w → Step w u → Reach bus u
