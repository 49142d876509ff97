-- ===== src/Bus/Fired.antt =====
-- `AsyncWaitAwaitable` of `MessageBus` (include/livioark/msgbus/message_bus.h): its handler fires once.
use mathlib.Core.Path.{subst}
use livio_ark.Prelude.{ℕ, suc, ◌≡◌, ◌≢◌, sym, ap, ◌∙◌, List, [], ◌∷◌, ◌++◌, none, some, length}
use livio_ark.Bus.Subscribing.{Subscriptions, Result, ok, threw, subscribe, unsubscribe}
use livio_ark.Bus.Off.{IsOff, unsubscribe-IsOff, destroy-IsOff}
use livio_ark.Bus.FiredSteps.{
  unfired, Progressed, fire-Progress, store-Progress, resume-Progress, awake-Progress,
}
use livio_ark.Bus.Waiting.{
  Firing, storing, resuming, Wait, async_wait, suspended, proceed, await_resume, destroy, not_begun,
  unassigned, assigned, failed, Step, suspends, assigns, fires, proceeds, awakes, ends, others,
  Reach, here, next,
}

-- What await_resume leaves when it returns `msg`.
abbrev pub awakened : ℕ → Wait → Wait
awakened msg w = record w { bus = unsubscribe w.sub_id w.bus; sub_id = 0; returned = msg ∷ [] }

-- `awake` is what await_resume does when a call of `resume` runs it, `kept` says which id it and the
-- destructor find, and `ended` what the destructor does.
pub record IsFiredOnce (w : Wait) : Type 0 where
  pub progress : Progressed w
  pub awake :
      w.resumes ≡ suc (length w.returned)
      → (msg : ℕ) × (later : List ℕ) × (w.calls ≡ msg ∷ later)
        × (await_resume w ≡ some (awakened msg w))
        × IsOff w.sub_id (awakened msg w).bus
  pub kept : (id : ℕ) → w.suspension ≡ assigned id → w.returned ≡ [] → w.sub_id ≡ id
  pub ended : w.sub_id ≢ 0 → IsOff w.sub_id (destroy w).bus

await_resume-stored :
    (msg : ℕ) (w : Wait)
    → w.result ≡ some msg
    → w.returned ≡ []
    → await_resume w ≡ some (awakened msg w)
await_resume-stored msg w e t =
    ap
      (λ r. elim r [
        | none ↦ none
        | some m ↦ some (record w {
          bus = unsubscribe w.sub_id w.bus;
          sub_id = 0;
          returned = w.returned ++ m ∷ [];
        })
      ])
      e
    ∙ ap
        (λ l.
          some
            (record w { bus = unsubscribe w.sub_id w.bus; sub_id = 0; returned = l ++ msg ∷ [] }))
        t

suspended-Progress :
    (w : Wait) (r : Subscriptions × Result ℕ) → Progressed w → Progressed (suspended w r)
suspended-Progress w (bus', ok id) p = p
suspended-Progress w (bus', threw e) p = p

proceed-Progress :
    (before : List Firing) (call : Firing) (after : List Firing) (w : Wait)
    → w.inside ≡ before ++ call ∷ after
    → Progressed w
    → Progressed (proceed before call after w)
proceed-Progress before (storing msg) after w e p = store-Progress before after msg e p
proceed-Progress before resuming after w e p = resume-Progress before after e p

Step-Progress : {w u : Wait} → Step w u → Progressed w → Progressed u
Step-Progress {w = w} (suspends topic type handler a e) p =
    subst Progressed (sym e) (suspended-Progress w (subscribe topic type handler w.bus) p)
Step-Progress (assigns id a e) p = subst Progressed (sym e) p
Step-Progress (fires msg e) p = subst Progressed (sym e) (fire-Progress msg p)
Step-Progress {w = w} (proceeds before after call a e) p =
    subst Progressed (sym e) (proceed-Progress before call after w a p)
Step-Progress {w = w} (awakes there a e) p =
    let (msg, later, first, stored_msg, none_yet, p') = awake-Progress a p in
    subst Progressed
      (ap (λ r. elim r [ none ↦ w | some x ↦ x ])
        (sym (await_resume-stored msg w stored_msg none_yet) ∙ e))
      p'
Step-Progress (ends a e) p = subst Progressed (sym e) p
Step-Progress (others call e) p = subst Progressed (sym e) p

async_wait-Progress : (bus : Subscriptions) → Progressed (async_wait bus)
unfolding async_wait
async_wait-Progress bus = unfired

Reach-Progress : (bus : Subscriptions) (w : Wait) → Reach bus w → Progressed w
Reach-Progress bus w here = async_wait-Progress bus
Reach-Progress bus w (next r st) = Step-Progress st (Reach-Progress bus _ r)

abbrev Kept : Wait → Type 0
Kept w = (id : ℕ) → w.suspension ≡ assigned id → w.returned ≡ [] → w.sub_id ≡ id

suspended-Kept : (w : Wait) (r : Subscriptions × Result ℕ) → Kept (suspended w r)
suspended-Kept w (bus', ok id) i e t = absurd (unassigned-assigned e)
  where
    unassigned-assigned : unassigned id ≡ assigned i → ⊥
    unassigned-assigned x = cc
suspended-Kept w (bus', threw f) i e t = absurd (failed-assigned e)
  where
    failed-assigned : failed ≡ assigned i → ⊥
    failed-assigned x = cc

proceed-Kept :
    (before : List Firing) (call : Firing) (after : List Firing) (w : Wait)
    → Kept w
    → Kept (proceed before call after w)
proceed-Kept before (storing msg) after w k = k
proceed-Kept before resuming after w k = k

Step-Kept : {w u : Wait} → Step w u → Progressed w → Kept w → Kept u
Step-Kept {w = w} (suspends topic type handler a e) p k =
    subst Kept (sym e) (suspended-Kept w (subscribe topic type handler w.bus))
Step-Kept {w = w} (assigns id a e) p k = subst Kept (sym e) (λ i b t. assigned-same id i b)
  where
    assigned-same : (id i : ℕ) → assigned id ≡ assigned i → id ≡ i
    assigned-same id i b = cc
Step-Kept (fires msg e) p k = subst Kept (sym e) k
Step-Kept {w = w} (proceeds before after call a e) p k =
    subst Kept (sym e) (proceed-Kept before call after w k)
Step-Kept {w = w} (awakes there a e) p k =
    let (msg, later, first, stored_msg, none_yet, p') = awake-Progress a p in
    subst Kept
      (ap (λ r. elim r [ none ↦ w | some x ↦ x ])
        (sym (await_resume-stored msg w stored_msg none_yet) ∙ e))
      (λ id b t. absurd (returned_one msg t))
  where
    returned_one : (msg : ℕ) → msg ∷ [] ≡ [] → ⊥
    returned_one msg t = cc
Step-Kept (ends a e) p k = subst Kept (sym e) k
Step-Kept (others call e) p k = subst Kept (sym e) k

async_wait-Kept : (bus : Subscriptions) → Kept (async_wait bus)
unfolding async_wait
async_wait-Kept bus id e t = absurd (not_begun-assigned e)
  where
    not_begun-assigned : not_begun ≡ assigned id → ⊥
    not_begun-assigned x = cc

Reach-Kept : (bus : Subscriptions) (w : Wait) → Reach bus w → Kept w
Reach-Kept bus w here = async_wait-Kept bus
Reach-Kept bus w (next r st) = Step-Kept st (Reach-Progress bus _ r) (Reach-Kept bus _ r)

-- After any steps of a wait, in any order, with the handler called on any number of threads, other
-- subscriptions made and ended meanwhile, and the awaitable destroyed at any time, also while its
-- coroutine waits: the handler has resumed the coroutine at most once, after it stored the message
-- of the first call to make the exchange; later calls change neither the result nor the count; when
-- a resume runs await_resume, it finds that message, takes the stored subscription id off the bus
-- and returns the message, the first that is returned; the stored id is the one that subscribe
-- gave, from its assignment on until a message is returned; and the destructor takes the stored id
-- off the bus where it is not 0.
pub Reach-IsFiredOnce : (bus : Subscriptions) (w : Wait) → Reach bus w → IsFiredOnce w
Reach-IsFiredOnce bus w r =
    let p = Reach-Progress bus w r in
    record {
      progress = p;
      awake = λ a.
          let (msg, later, first, stored_msg, none_yet, p') = awake-Progress a p in
          (
            msg,
            later,
            first,
            await_resume-stored msg w stored_msg none_yet,
            unsubscribe-IsOff w.sub_id w.bus,
          );
      kept = Reach-Kept bus w r;
      ended = destroy-IsOff w;
    }
