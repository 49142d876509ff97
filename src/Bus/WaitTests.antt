-- ===== src/Bus/WaitTests.antt =====
-- A wait for a message on "a", which two messages reach before its coroutine goes on.
use livio_ark.Prelude.{◌≡◌, refl, [], ◌∷◌, Bytes}
use livio_ark.Registry.{resolve, resolve_slow, add_topic}
use livio_ark.Topic.{is_wildcard}
use livio_ark.Bus.Subscribing.{
  subscribe, unsubscribe, subscribe_exact, add_to_slot, get_or_create_slot, create_slot,
}
use livio_ark.Bus.Typing.{new_subscriptions}
use livio_ark.Bus.Waiting.{
  Wait, storing, resuming, async_wait, await_suspend, assign_sub_id, fire, proceed, suspends,
  assigns, fires, proceeds, awakes, Reach, here, next,
}
use livio_ark.Bus.Fired.{IsFiredOnce, awakened, Reach-IsFiredOnce}

abbrev topic : Bytes
topic = 97 ∷ []

abbrev suspended_wait : Wait
suspended_wait = await_suspend topic 7 10 (async_wait new_subscriptions)

abbrev assigned_wait : Wait
assigned_wait = assign_sub_id 1 suspended_wait

abbrev fired_wait : Wait
fired_wait = fire 6 (fire 5 assigned_wait)

abbrev resumed_wait : Wait
resumed_wait = proceed [] resuming [] (proceed [] (storing 5) [] fired_wait)

resumed_wait-Reach : Reach new_subscriptions resumed_wait
unfolding async_wait subscribe is_wildcard subscribe_exact add_to_slot get_or_create_slot
    create_slot resolve resolve_slow add_topic
resumed_wait-Reach =
    next
      (next
        (next
          (next (next (next here (suspends topic 7 10 refl refl)) (assigns 1 refl refl))
            (fires 5 refl))
          (fires 6 refl))
        (proceeds [] [] (storing 5) refl refl))
      (proceeds [] [] resuming refl refl)

resumed_wait-awakes : Reach new_subscriptions (awakened 5 resumed_wait)
unfolding async_wait subscribe is_wildcard subscribe_exact add_to_slot get_or_create_slot
    create_slot resolve resolve_slow add_topic
resumed_wait-awakes = next resumed_wait-Reach (awakes refl refl refl)

Reach-IsFiredOnce_example : IsFiredOnce (awakened 5 resumed_wait)
Reach-IsFiredOnce_example =
    Reach-IsFiredOnce new_subscriptions (awakened 5 resumed_wait) resumed_wait-awakes

-- A message that comes before the id is assigned: await_resume ends nothing, and the id of the
-- subscription is assigned afterwards, with the subscription still there.
early_wait : (awakened 5 (fire 5 suspended_wait)).bus.sub_to_topic ≡ suspended_wait.bus.sub_to_topic
unfolding subscribe unsubscribe is_wildcard subscribe_exact get_or_create_slot async_wait
    create_slot livio_ark.Prelude.ℕ_discrete
early_wait = refl
