-- ===== src/Registry/Tests.antt =====
-- The registry's properties at a registry with no topic.
use livio_ark.Prelude.{◌≡◌, refl, List, [], ◌∷◌, Bytes, arith}
use livio_ark.Registry.{empty_registry, add_topic, resolve_slow, resolve}
use livio_ark.Registry.Laws.{empty-IsValid}
use livio_ark.Registry.Sharing.{resolve-injective}

abbrev first_topic : Bytes
first_topic = 97 ∷ []

abbrev second_topic : Bytes
second_topic = 98 ∷ []

resolve_second : (resolve second_topic (resolve first_topic empty_registry).0).1 ≡ 2
unfolding resolve resolve_slow add_topic livio_ark.Prelude.Bytes-discrete
resolve_second = refl

resolve-injective_example : first_topic ≡ first_topic
unfolding resolve resolve_slow add_topic livio_ark.Prelude.Bytes-discrete
resolve-injective_example =
    resolve-injective empty_registry first_topic first_topic (second_topic ∷ []) (omega arith)
      empty-IsValid refl
