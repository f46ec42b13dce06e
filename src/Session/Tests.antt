-- ===== src/Session/Tests.antt =====
-- Runs of a session.
use oxicrab.Base.{[], ◌∷◌, ◌≡◌, map, min}
use oxicrab.Base.Text.{codes}
use oxicrab.Session.{new_session, message_to_map, get_history}
use oxicrab.Session.History.{Added, add_all, message, last_of, history_lem}

abbrev greeting : Added (Unit {0})
greeting = record { now = codes "t1"; role = codes "user"; content = codes "hi"; extra = [] }

abbrev answer : Added (Unit {0})
answer = record { now = codes "t2"; role = codes "assistant"; content = codes "hello"; extra = [] }

history_lem_example :
    ((add_all (greeting ∷ answer ∷ []) (new_session "slack:c1" (codes "t0"))).messages
      ≡ last_of 200 (map message (greeting ∷ answer ∷ [])))
    × (get_history 1 (add_all (greeting ∷ answer ∷ []) (new_session "slack:c1" (codes "t0")))
        ≡ map message_to_map (last_of (min 1 200) (map message (greeting ∷ answer ∷ []))))
history_lem_example = history_lem "slack:c1" (codes "t0") (greeting ∷ answer ∷ []) 1
