-- ===== src/Registry/Sharing.antt =====
-- `resolve` among the calls of other threads: ids are shared by all, and lead back to their topics.
use livio_ark.Prelude.{
  ℕ, ◌+◌, ◌≤◌, ◌≡◌, sym, ◌∙◌, List, none, some, Bytes, ℕ_discrete, find, arith, length, ap,
}
use livio_ark.Registry.{Registry, find_topic, resolve_slow, resolve}
use livio_ark.Registry.Laws.{
  IsValid, HasRoomFor, slow_topics, slow_topics-IsValid, slow_topics-keeps, slow_topics-next_id,
  resolve_slow-IsValid, resolve_slow-keeps, find_topic-resolve_slow, resolve_slow-next_id,
  resolve-eq-resolve_slow,
}

-- A call whose lookup under the shared lock ran in `r`, and whose section under the exclusive lock,
-- if it came to that, ran after other threads had put in `ts`.
pub resolve_between : Bytes → List Bytes → Registry → Registry × ℕ
resolve_between topic ts r =
    let later = slow_topics ts r in
    elim (find_topic topic r) [ some id ↦ (later, id) | none ↦ resolve_slow topic later ]

-- As long as the ids last, two calls of `resolve` on a valid registry, with any calls between them,
-- return the same id only for the same topic.
pub resolve-injective :
    (r : Registry) (a b : Bytes) (ts : List Bytes)
    → HasRoomFor (length ts + 2) r
    → IsValid r
    → (resolve a r).1 ≡ (resolve b (slow_topics ts (resolve a r).0)).1
    → a ≡ b
resolve-injective r a b ts room v e =
    let both : some a ≡ some b =
      sym first_back ∙ ap (λ (i : ℕ). find ℕ_discrete i last.0.id_to_sv) same_id ∙ second_back in
    cc
  where
    r1 : Registry
    r1 = (resolve_slow a r).0

    r2 : Registry
    r2 = slow_topics ts r1

    last : Registry × ℕ
    last = resolve_slow b r2

    r1-next : r1.next_id ≤ r.next_id + 1
    r1-next = resolve_slow-next_id a r (omega arith)

    r1-IsValid : IsValid r1
    r1-IsValid = resolve_slow-IsValid a r (omega arith) v

    last-IsValid : IsValid last.0
    last-IsValid =
        resolve_slow-IsValid b r2
          (omega (arith, r1-next, slow_topics-next_id ts r1 (omega (arith, r1-next))))
          (slow_topics-IsValid ts r1 (omega (arith, r1-next)) r1-IsValid)

    same_id : (resolve_slow a r).1 ≡ last.1
    same_id =
        sym (ap (λ (q : Registry × ℕ). q.1) (resolve-eq-resolve_slow a r))
        ∙ e
        ∙ rw (resolve-eq-resolve_slow a r, resolve-eq-resolve_slow b)

    first_back : find ℕ_discrete (resolve_slow a r).1 last.0.id_to_sv ≡ some a
    first_back =
        last-IsValid.back a _
          (resolve_slow-keeps b a r2 _ (slow_topics-keeps ts a r1 _ (find_topic-resolve_slow a r)))

    second_back : find ℕ_discrete last.1 last.0.id_to_sv ≡ some b
    second_back = last-IsValid.back b _ (find_topic-resolve_slow b r2)
