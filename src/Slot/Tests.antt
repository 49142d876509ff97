-- ===== src/Slot/Tests.antt =====
-- A slot with two subscribers, the first of which throws, and the properties there.
use livio_ark.Prelude.{
  ℕ, ◌+◌, ◌≡◌, ◌↔◌, refl, false, List, [], ◌∷◌, ◌++◌, map, some, ◌==◌, if◌then◌else◌,
}
use livio_ark.Slot.{
  Subscriber, Slot, remove_subscriber, Outcome, returned, threw, caught, dispatch_to, dispatch,
}
use livio_ark.Slot.Laws.{times, others_than, logged, remove_subscriber_lem, dispatch_to-calls}

abbrev two_subscribers : List Subscriber
two_subscribers = record { id = 1; handler = 10 } ∷ record { id = 2; handler = 20 } ∷ []

abbrev slot : Slot
slot = record { msg_type = some 7; subscribers = two_subscribers }

-- Handler 10 throws after it has counted its data.
abbrev body : ℕ → ℕ → ℕ → Outcome × ℕ
body h payload w = (if h == 10 then threw else returned, w + payload)

dispatch_two : dispatch body slot 7 5 100 ≡ some 110
unfolding dispatch dispatch_to caught
dispatch_two = refl

remove_subscriber_lem_example :
    ((remove_subscriber 1 slot).0 ≡ record slot { subscribers = others_than 1 slot.subscribers })
    × (((remove_subscriber 1 slot).1 ≡ false) ↔ (times 1 slot.subscribers ≡ 0))
remove_subscriber_lem_example = remove_subscriber_lem 1 slot

dispatch_to-calls_example :
    (dispatch_to (logged body) two_subscribers 5 (100, [])).1
    ≡ [] ++ map (λ s. (s.handler, 5)) two_subscribers
dispatch_to-calls_example = dispatch_to-calls body two_subscribers 5 100 []
