-- ===== src/Sessions/TestSession/Tests.antt =====
-- A test session that is started, stepped, taken back and stopped.
use f_chat_backend.Prelude.{ℕ, Text, text, ◌==◌, none, some, [], ◌∷◌, false, ◌≡◌, refl}
use f_chat_backend.Prelude.Map
use f_chat_backend.Prelude.Map.{Map}
use f_chat_backend.Prelude.Redis.{Redis, map_redis}
use f_chat_backend.Sessions.RedisStore.{
  RedisSessionState, Store, find_or_create, find_active_or_waiting, by_id, id_key,
}
use f_chat_backend.Sessions.RedisStore.Agreement
use f_chat_backend.Sessions.RedisStore.Agreement.{Reachable}
use f_chat_backend.Sessions.TestSession.{
  TestStep, TestSession, session_key, flow_of_step, response_of_step, new_session, start,
  get_session, push_step, pop_step, stop, pushed,
}
use f_chat_backend.Sessions.TestSession.Undo.{InStep, pop_step-push_step}
use f_chat_backend.Sessions.TestSession.Lifetime.{
  Sessions, none_yet, next, starts, Sessions-InStep, stop_clears,
}

abbrev server : Redis TestSession
server = map_redis TestSession

abbrev node_server : Redis RedisSessionState
node_server = map_redis RedisSessionState

abbrev begun : TestSession
begun = new_session (text "x") (text "c") (some (text "f")) (text "51") (text "t") (text "main")

abbrev step : TestStep
step = record {
  message = text "hola";
  response = text "buenas";
  node_id = some (text "n");
  flow_id = some (some (text "f"));
  history_snapshot = record { role = text "user"; content = text "hola" } ∷ [];
}

abbrev store_begun : Redis.St server
store_begun = Redis.set server (Redis.empty server) (session_key (text "x")) begun

abbrev store_stepped : Redis.St server
store_stepped = Redis.set server store_begun (session_key (text "x")) (pushed step begun)

begun_found : get_session server (text "x") store_begun ≡ some begun
unfolding get_session session_key Map.get Map.set ◌==◌
begun_found = refl

begun_reached : Sessions server store_begun
unfolding start
begun_reached = next none_yet (
    starts (text "x") (text "c") (some (text "f")) (text "51") (text "t") (some (text "main")) refl)

-- The session was begun with a flow and ends without one.
pop_step-push_step_example :
    (t u : Redis.St server) × (push_step server (text "x") step store_begun ≡ some t)
    × (pop_step server (text "x") t ≡ some ((begun.current_node_id, response_of_step none), u))
    × (get_session server (text "x") u ≡ some (record begun { flow_id = flow_of_step none }))
    × ((other : Text)
        → (text "x" == other) ≡ false
        → get_session server other u ≡ get_session server other store_begun)
unfolding new_session
pop_step-push_step_example =
    pop_step-push_step server (text "x") step begun store_begun begun_found
      (Sessions-InStep server begun_reached (text "x") begun begun_found)

Sessions-InStep_example : InStep begun
Sessions-InStep_example = Sessions-InStep server begun_reached (text "x") begun begun_found

abbrev nodes : Store node_server
nodes = (find_or_create node_server (text "n1") (text "c") none (Redis.empty node_server)).1

nodes_reached : Reachable node_server nodes
unfolding by_id id_key Map.get
nodes_reached = Agreement.next Agreement.start (Agreement.creates (text "n1") (text "c") none refl)

stop_clears_example :
    (s' : Redis.St server) × (ns' : Store node_server) × (results' : Map ℕ) × (stop server
        node_server
        (text "x")
        (store_begun, nodes, (text "c", 7) ∷ [])
      ≡ some (s', ns', results'))
    × (get_session server (text "x") s' ≡ none)
    × (find_active_or_waiting node_server begun.conversation_id ns' ≡ none)
    × (Map.get results' begun.conversation_id ≡ none)
stop_clears_example =
    stop_clears server node_server (text "x") begun store_begun nodes ((text "c", 7) ∷ [])
      nodes_reached begun_found
