-- ===== src/Bus/FiredSteps.antt =====
-- The handler of `AsyncWaitAwaitable` of `MessageBus` (include/livioark/msgbus/message_bus.h): how far
-- its calls are, and each part of a call.
use livio_ark.Prelude.{
  ℕ, suc, ◌≡◌, ◌≢◌, refl, sym, Bool, true, false, List, [], ◌∷◌, ◌++◌, Option, none, some,
  if◌then◌else◌, length, arith,
}
use livio_ark.Bus.Waiting.{Firing, storing, resuming, Wait}

-- The flag, the result, the calls that won, the number of resumes, all calls, and the results
-- returned, as they are from the first call of the handler, with `msg`, on.
pub data Progress : Bool → Option ℕ → List Firing → ℕ → List ℕ → List ℕ → Type 0 where
  unfired : Progress false none [] 0 [] []
  won : (msg : ℕ) (later : List ℕ) → Progress true none (storing msg ∷ []) 0 (msg ∷ later) []
  stored : (msg : ℕ) (later : List ℕ) → Progress true (some msg) (resuming ∷ []) 0 (msg ∷ later) []
  resumed : (msg : ℕ) (later : List ℕ) → Progress true (some msg) [] 1 (msg ∷ later) []
  finished : (msg : ℕ) (later : List ℕ) → Progress true (some msg) [] 1 (msg ∷ later) (msg ∷ [])

abbrev pub Progressed : Wait → Type 0
Progressed w = Progress w.fired w.result w.inside w.resumes w.calls w.returned

not_in_none : (before after : List Firing) (x : Firing) → [] ≢ before ++ x ∷ after
not_in_none [] after x e = cc
not_in_none (b ∷ before) after x e = cc

alone :
    (before after : List Firing) (c x : Firing)
    → c ∷ [] ≡ before ++ x ∷ after
    → (before ≡ []) × (after ≡ []) × (c ≡ x)
alone [] after c x e = (refl, cc, cc)
alone (b ∷ before) after c x e = absurd (not_in_none before after x cc)

pub fire-Progress :
    {f : Bool} {r : Option ℕ} {i : List Firing} {n : ℕ} {c t : List ℕ} (msg : ℕ)
    → Progress f r i n c t
    → Progress true r (if f then i else i ++ storing msg ∷ []) n (c ++ msg ∷ []) t
fire-Progress msg unfired = won msg []
fire-Progress msg (won m later) = won m (later ++ msg ∷ [])
fire-Progress msg (stored m later) = stored m (later ++ msg ∷ [])
fire-Progress msg (resumed m later) = resumed m (later ++ msg ∷ [])
fire-Progress msg (finished m later) = finished m (later ++ msg ∷ [])

pub store-Progress :
    {f : Bool} {r : Option ℕ} {i : List Firing} {n : ℕ} {c t : List ℕ} (before after : List Firing)
    (msg : ℕ)
    → i ≡ before ++ storing msg ∷ after
    → Progress f r i n c t
    → Progress f (some msg) (before ++ resuming ∷ after) n c t
store-Progress before after msg e unfired = absurd (not_in_none before after _ e)
store-Progress before after msg e (won m later) =
    let (b, a, same) = alone before after _ _ e in
    let same_msg : m ≡ msg = cc in rw (b, a, sym same_msg) (stored m later)
store-Progress before after msg e (stored m later) =
    let (b, a, same) = alone before after _ _ e in cc
store-Progress before after msg e (resumed m later) = absurd (not_in_none before after _ e)
store-Progress before after msg e (finished m later) = absurd (not_in_none before after _ e)

pub resume-Progress :
    {f : Bool} {r : Option ℕ} {i : List Firing} {n : ℕ} {c t : List ℕ} (before after : List Firing)
    → i ≡ before ++ resuming ∷ after
    → Progress f r i n c t
    → Progress f r (before ++ after) (suc n) c t
resume-Progress before after e unfired = absurd (not_in_none before after _ e)
resume-Progress before after e (won m later) = let (b, a, same) = alone before after _ _ e in cc
resume-Progress before after e (stored m later) =
    let (b, a, same) = alone before after _ _ e in rw (b, a) (resumed m later)
resume-Progress before after e (resumed m later) = absurd (not_in_none before after _ e)
resume-Progress before after e (finished m later) = absurd (not_in_none before after _ e)

pub awake-Progress :
    {f : Bool} {r : Option ℕ} {i : List Firing} {n : ℕ} {c t : List ℕ}
    → n ≡ suc (length t)
    → Progress f r i n c t
    → (msg : ℕ) × (later : List ℕ) × (c ≡ msg ∷ later)
      × (r ≡ some msg)
      × (t ≡ [])
      × Progress f r i n c (msg ∷ [])
awake-Progress e unfired = absurd (omega arith)
awake-Progress e (won m later) = absurd (omega arith)
awake-Progress e (stored m later) = absurd (omega arith)
awake-Progress e (resumed m later) = (m, later, refl, refl, refl, finished m later)
awake-Progress e (finished m later) = absurd (omega arith)
