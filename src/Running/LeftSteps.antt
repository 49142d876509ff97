-- ===== src/Running/LeftSteps.antt =====
-- What leaves the main queue (include/livioark/msgbus/message_bus.h): the lists after one message more.
use mathlib.Core.List.{append_assoc, append-nil}
use livio_ark.Prelude.{◌≡◌, refl, sym, ap, ◌∙◌, true, false, List, [], ◌∷◌, ◌++◌}
use livio_ark.Bus.Dispatching.{Message}
use livio_ark.Running.Loops.{Left, all_of, handed, passed}

all_of-append : (l k : Left) → all_of (l ++ k) ≡ all_of l ++ all_of k
all_of-append [] k = refl
all_of-append ((b, m) ∷ l) k = ap (λ x. m ∷ x) (all_of-append l k)

handed-append : (l k : Left) → handed (l ++ k) ≡ handed l ++ handed k
handed-append [] k = refl
handed-append ((true, m) ∷ l) k = ap (λ x. m ∷ x) (handed-append l k)
handed-append ((false, m) ∷ l) k = handed-append l k

all_of-passed : (ms : List Message) → all_of (passed ms) ≡ ms
all_of-passed [] = refl
all_of-passed (m ∷ ms) = ap (λ x. m ∷ x) (all_of-passed ms)

handed-passed : (ms : List Message) → handed (passed ms) ≡ ms
handed-passed [] = refl
handed-passed (m ∷ ms) = ap (λ x. m ∷ x) (handed-passed ms)

pub handed-more : (l : Left) (ms : List Message) → handed (l ++ passed ms) ≡ handed l ++ ms
handed-more l ms = handed-append l (passed ms) ∙ ap (λ x. handed l ++ x) (handed-passed ms)

pub handed-discard : (l : Left) (m : Message) → handed (l ++ (false, m) ∷ []) ≡ handed l
handed-discard l m = handed-append l ((false, m) ∷ []) ∙ append-nil (handed l)

-- `out` goes from the front of the queue to the messages that left it.
pub history-more :
    (accepted : List Message) (l : Left) (items out rest : List Message)
    → accepted ≡ all_of l ++ items
    → items ≡ out ++ rest
    → accepted ≡ all_of (l ++ passed out) ++ rest
history-more accepted l items out rest e split =
    e
    ∙ ap (λ x. all_of l ++ x) split
    ∙ sym (append_assoc (all_of l) out rest)
    ∙ ap (λ x. x ++ rest)
        (ap (λ x. all_of l ++ x) (sym (all_of-passed out)) ∙ sym (all_of-append l (passed out)))

pub history-discard :
    (accepted : List Message) (l : Left) (m : Message) (rest : List Message)
    → accepted ≡ all_of l ++ m ∷ rest
    → accepted ≡ all_of (l ++ (false, m) ∷ []) ++ rest
history-discard accepted l m rest e =
    e
    ∙ sym (append_assoc (all_of l) (m ∷ []) rest)
    ∙ ap (λ x. x ++ rest) (sym (all_of-append l ((false, m) ∷ [])))

pub history-offer :
    (accepted : List Message) (l : Left) (items out : List Message)
    → accepted ≡ all_of l ++ items
    → accepted ++ out ≡ all_of l ++ (items ++ out)
history-offer accepted l items out e = ap (λ x. x ++ out) e ∙ append_assoc (all_of l) items out
