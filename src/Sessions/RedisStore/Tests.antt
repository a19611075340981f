-- ===== src/Sessions/RedisStore/Tests.antt =====
-- A run of the store on a server of one map, and the theorems at it.
use f_chat_backend.Prelude.{Text, text, ◌==◌, none, some, false, ◌≡◌, refl}
use f_chat_backend.Prelude.Map
use f_chat_backend.Prelude.Redis.{Redis, map_redis}
use f_chat_backend.Sessions.RedisStore.{
  waiting_queue, RedisSessionState, is_active, is_waiting, Store, conv_key, id_key, save,
  by_conversation, by_id, when, find_active, find_active_or_waiting, new_state, find_or_create,
  existing_or_new, modify, modify_known, update_status, close,
}
use f_chat_backend.Sessions.RedisStore.Agreement.{
  Agrees, Reachable, start, next, creates, marks, Reachable-Agrees,
}
use f_chat_backend.Sessions.RedisStore.Lookup.{close_ends}

abbrev server : Redis RedisSessionState
server = map_redis RedisSessionState

abbrev created : Store server
created = (find_or_create server (text "n1") (text "c1") none (Redis.empty server)).1

abbrev waiting : Store server
waiting = update_status server (text "n1") waiting_queue created

waiting_reached : Reachable server waiting
unfolding by_id id_key Map.get
waiting_reached =
    next (next start (creates (text "n1") (text "c1") none refl)) (marks (text "n1") waiting_queue)

abbrev state : RedisSessionState
state = record {
  id = text "n1";
  conversation_id = text "c1";
  flow_id = none;
  current_node_id = none;
  detected_intent = none;
  flow_summary = none;
  completed_todos = none;
  status = waiting_queue;
}

is_found : find_active_or_waiting server (text "c1") waiting ≡ some state
unfolding find_active_or_waiting update_status modify_known modify find_or_create existing_or_new
    find_active new_state by_id by_conversation save when is_active is_waiting conv_key id_key
    Map.get Map.set ◌==◌
is_found = refl

Reachable-Agrees_example : Agrees server waiting
Reachable-Agrees_example = Reachable-Agrees server waiting_reached

close_ends_example :
    (find_active_or_waiting server (text "c1") (close server (text "n1") waiting) ≡ none)
    × (find_active server (text "c1") (close server (text "n1") waiting) ≡ none)
    × ((d : Text)
        → (text "c1" == d) ≡ false
        → by_conversation server d (close server (text "n1") waiting)
          ≡ by_conversation server d waiting)
close_ends_example = close_ends server waiting (text "c1") state waiting_reached is_found
