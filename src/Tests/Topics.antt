-- ===== src/Tests/Topics.antt =====
-- A tree of broker/topics.rs.
use squillion_mqtt.Prelude.{true, none, some, [], ◌∷◌, ◌≡◌}
use squillion_mqtt.Prelude.Split.{split}
use squillion_mqtt.Sessions.State.{SessionId}
use squillion_mqtt.Broker.Topics.{Topic, topic, no_child, child, get_subscribed}
use squillion_mqtt.Broker.Topics.Matching.{held}
use squillion_mqtt.Broker.Topics.Filters.{IsSubscribed, get_subscribed-IsSubscribed}

abbrev reader : SessionId
reader = record { session = 114 ∷ []; internal_id = 1; session_generation = 1 }

-- The filter `a/+`.
abbrev tree : Topic
tree =
    topic
      (child (97 ∷ [])
        (topic
          (child (43 ∷ [])
            (topic no_child (some 1) ((114 ∷ [], record { session = reader; qos = 1 }) ∷ []) none)
            no_child)
          none [] none)
        no_child)
      none [] none

get_subscribed-IsSubscribed_example :
    (held reader (get_subscribed tree (97 ∷ 47 ∷ 98 ∷ [])) ≡ true
      → IsSubscribed reader tree (split 47 (97 ∷ 47 ∷ 98 ∷ [])))
    × (IsSubscribed reader tree (split 47 (97 ∷ 47 ∷ 98 ∷ []))
        → held reader (get_subscribed tree (97 ∷ 47 ∷ 98 ∷ [])) ≡ true)
get_subscribed-IsSubscribed_example = get_subscribed-IsSubscribed reader tree (97 ∷ 47 ∷ 98 ∷ [])
