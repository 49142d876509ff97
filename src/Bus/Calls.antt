-- ===== src/Bus/Calls.antt =====
-- The calls that the parts of `dispatchMessage` make: those of one slot, and those of the slots that the trie gave.
use livio_ark.Prelude.{
  ℕ, ◌+◌, ◌≡◌, ◌≢◌, refl, sym, ap, ◌∙◌, inl, inr, Option-cases, Bool, true, false, not, ◌&&◌, List,
  [], ◌∷◌, map, Option, none, some, ◌==◌, indicator, tally, tally-append, tally-map, ℕ_discrete,
  arith,
}
use mathlib.Core.Path.{subst}
use livio_ark.Slot.{Slot, Subscriber, Outcome, caught, dispatch_to, dispatch}
use livio_ark.Slot.Laws.{caught-snd, logged, dispatch_to-calls}
use livio_ark.Bus.Subscribing.{Subscriptions}
use livio_ark.Bus.Live.{Sub, subscriber, is_wild, find_sub, is_alien, SlotHolds, Represents}
use livio_ark.Bus.Dispatching.{Message, dispatch_exact, dispatch_matched}
use livio_ark.Bus.Found.{exact_share, exact_share-own, exact_share-alien, exact_share-none}

dispatch-typed :
    {W : Type 0} (call : ℕ → ℕ → W → Outcome × W) (slot : Slot) (type payload : ℕ) (w : W)
    → slot.msg_type ≡ some type
    → dispatch call slot type payload w ≡ some (dispatch_to call slot.subscribers payload w)
unfolding dispatch
dispatch-typed call slot type payload w e = rw e (ground arith)

module _ {W : Type 0} (bus : W → Subscriptions) (call : ℕ → ℕ → W → Outcome × W) (slot : Slot)
    (msg : Message) (w : W) where
  dispatch_exact-typed :
      slot.msg_type ≡ some msg.type
      → dispatch_exact bus call (some slot) msg w
        ≡ some (dispatch_to call slot.subscribers msg.data_ w)
  unfolding dispatch_exact
  dispatch_exact-typed e = rw e (ground (arith, dispatch-typed call slot msg.type msg.data_ w e))

  dispatch_exact-alien :
      (t : ℕ)
      → slot.msg_type ≡ some t
      → t ≢ msg.type
      → dispatch_exact bus call (some slot) msg w ≡ some w
  unfolding dispatch_exact
  dispatch_exact-alien t e n = rw e (ground arith)

matched-after :
    {W : Type 0} (bus : W → Subscriptions) (call : ℕ → ℕ → W → Outcome × W) (id : ℕ) (m : List ℕ)
    (msg : Message) (w w' : W)
    → dispatch call ((bus w).wildcard_slots id) msg.type msg.data_ w ≡ some w'
    → dispatch_matched bus call (id ∷ m) msg w ≡ dispatch_matched bus call m msg w'
unfolding dispatch_matched
matched-after bus call id m msg w w' e = rw (dispatch_matched, e)

matched-step :
    {W : Type 0} (bus : W → Subscriptions) (call : ℕ → ℕ → W → Outcome × W) (id : ℕ) (m : List ℕ)
    (msg : Message) (w : W) (ss : List Subscriber)
    → (bus w).wildcard_slots id ≡ record { msg_type = some msg.type; subscribers = ss }
    → dispatch_matched bus call (id ∷ m) msg w
      ≡ dispatch_matched bus call m msg (dispatch_to call ss msg.data_ w)
matched-step bus call id m msg w ss e =
    matched-after bus call id m msg w (dispatch_to call ss msg.data_ w) (
      dispatch-typed call ((bus w).wildcard_slots id) msg.type msg.data_ w
        (ap (λ (t : Slot). t.msg_type) e)
      ∙ ap (λ (t : Slot). some (dispatch_to call t.subscribers msg.data_ w)) e)

-- A live subscription with wildcards, of that type, and the handler of an id.
abbrev pub is_target : List Sub → ℕ → ℕ → Bool
is_target live type id = elim (find_sub id live) [
  | none ↦ false
  | some u ↦ is_wild u && u.type == type
]

abbrev pub handler_of : List Sub → ℕ → ℕ
handler_of live id = elim (find_sub id live) [ none ↦ 0 | some u ↦ u.handler ]

module _ {V : Type 0} (subs : V → Subscriptions) (body : ℕ → ℕ → V → Outcome × V)
    (keeps : (h payload : ℕ) (v : V) → subs (body h payload v).1 ≡ subs v) where
  -- The state with the log of the calls.
  abbrev pub bus : V × List (ℕ × ℕ) → Subscriptions
  bus w = subs w.0

  dispatch_to-keeps :
      (ss : List Subscriber) (payload : ℕ) (w : V × List (ℕ × ℕ))
      → bus (dispatch_to (logged body) ss payload w) ≡ bus w
  unfolding dispatch_to
  dispatch_to-keeps [] payload w = refl
  dispatch_to-keeps (s ∷ ss) payload w =
      dispatch_to-keeps ss payload (caught (logged body s.handler payload w))
      ∙ ap bus (caught-snd (logged body s.handler payload w))
      ∙ keeps s.handler payload w.0

  -- The exact subscriptions, by their slot.
  pub exact-calls :
      (live : List Sub) (slot : Option Slot) (msg : Message) (w : V × List (ℕ × ℕ))
      → SlotHolds msg.topic_sv live slot
      → (w' : V × List (ℕ × ℕ)) × (dispatch_exact bus (logged body) slot msg w ≡ some w')
        × (bus w' ≡ bus w)
        × ((g : ℕ × ℕ → ℕ)
            → tally g w'.1
              ≡ tally g w.1
                + tally (exact_share (λ h. g (h, msg.data_)) msg.topic_sv msg.type) live)
  exact-calls live none msg w h = (
    w,
    unfold dispatch_exact in refl,
    refl,
    λ g. omega (arith, exact_share-none (λ k. g (k, msg.data_)) msg.topic_sv msg.type live h),
  )
  exact-calls live (some slot) msg w (t, typed, same, one_type) = elim (ℕ_discrete t msg.type) [
    | yes own ↦ (
      dispatch_to (logged body) slot.subscribers msg.data_ w,
      dispatch_exact-typed bus (logged body) slot msg w (typed ∙ ap some own),
      dispatch_to-keeps slot.subscribers msg.data_ w,
      λ g.
          let here : Subscriber → ℕ = λ s. g (s.handler, msg.data_) in
          ap (tally g) (dispatch_to-calls body slot.subscribers msg.data_ w.0 w.1)
          ∙ tally-append g w.1 (map (λ s. (s.handler, msg.data_)) slot.subscribers)
          ∙ ap (λ n. tally g w.1 + n)
              (tally-map g (λ (s : Subscriber). (s.handler, msg.data_)) slot.subscribers
                ∙ ap (tally here) same
                ∙ sym (
                    exact_share-own (λ h. g (h, msg.data_)) msg.topic_sv msg.type live
                      (subst (λ k. tally (λ u. indicator (is_alien msg.topic_sv k u)) live ≡ 0) own
                        one_type))),
    )
    | no alien ↦ (
      w,
      dispatch_exact-alien bus (logged body) slot msg w t typed alien,
      refl,
      λ g. omega (
        arith,
        exact_share-alien (λ k. g (k, msg.data_)) msg.topic_sv msg.type t live alien one_type,
      ),
    )
  ]

  -- The subscriptions with wildcards, by the slots that the trie gave.
  pub matched-calls :
      (live : List Sub) (s : Subscriptions) (msg : Message)
      → Represents live s
      → (m : List ℕ) → tally (λ id. indicator (not (is_target live msg.type id))) m ≡ 0
      → (w : V × List (ℕ × ℕ)) → bus w ≡ s
      → (w' : V × List (ℕ × ℕ)) × (dispatch_matched bus (logged body) m msg w ≡ some w')
        × (bus w' ≡ s)
        × ((g : ℕ × ℕ → ℕ)
            → tally g w'.1 ≡ tally g w.1 + tally (λ id. g (handler_of live id, msg.data_)) m)
  matched-calls live s msg r [] e w b = (w, unfold dispatch_matched in refl, b, λ g. omega arith)
  matched-calls live s msg r (id ∷ m) e w b = elim (Option-cases (find_sub id live)) [
    | inl missing ↦ absurd (ground arith)
    | inr (u, here) ↦
        let wild : is_wild u ≡ true = ground arith in
        let typed : some u.type ≡ some msg.type = ground arith in
        let slot_is : (bus w).wildcard_slots id
            ≡ record { msg_type = some msg.type; subscribers = subscriber u ∷ [] } =
          rw (b, r.wild id u here wild, typed) in
        let w1 = dispatch_to (logged body) (subscriber u ∷ []) msg.data_ w in
        let left : tally (λ k. indicator (not (is_target live msg.type k))) m ≡ 0 = omega arith in
        let (w', done, same, calls) =
          matched-calls live s msg r m left w1
            (dispatch_to-keeps (subscriber u ∷ []) msg.data_ w ∙ b) in
        (
          w',
          matched-step bus (logged body) id m msg w (subscriber u ∷ []) slot_is ∙ done,
          same,
          λ g.
              let first : tally g w1.1 ≡ tally g w.1 + g (u.handler, msg.data_) =
                ap (tally g) (dispatch_to-calls body (subscriber u ∷ []) msg.data_ w.0 w.1)
                ∙ tally-append g w.1 ((u.handler, msg.data_) ∷ [])
                ∙ omega arith in
              let one : g (handler_of live id, msg.data_) ≡ g (u.handler, msg.data_) =
                ap (λ k. g (k, msg.data_)) (rw (handler_of, here)) in
              omega (arith, first, calls g, one),
        )
  ]
