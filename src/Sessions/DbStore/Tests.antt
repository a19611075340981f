-- ===== src/Sessions/DbStore/Tests.antt =====
-- A session in both stores, paused in both, and the theorem at it.
use mathlib.Core.List.Memᴰ
use f_chat_backend.Prelude.{
  Text, text, ◌==◌, Option, none, some, [], ◌∷◌, ◌&&◌, any, if◌then◌else◌, ◌≡◌, refl, sym, ap, ◌∙◌,
  inl, inr, Bool-cases,
}
use f_chat_backend.Prelude.Redis.{Redis, map_redis}
use f_chat_backend.Prelude.Table.{Table, list_table, first_where, update_rows, change_rows}
use f_chat_backend.Prelude.Keys.{map_some, find_key, has_key, IsUnique}
use f_chat_backend.Sessions.RedisStore
use f_chat_backend.Sessions.RedisStore.{
  active, RedisSessionState, Store, by_id, by_conversation, id_key,
}
use f_chat_backend.Sessions.RedisStore.Agreement.{by_id-save}
use f_chat_backend.Sessions.DbStore.{
  NodeSession, session_id, find_by_id, change, without_flow, pause_flow,
}
use f_chat_backend.Sessions.DbStore.Steps.{view, pausing, is_saving, call_redis, call_db}
use f_chat_backend.Sessions.DbStore.Refines.{IsSame, stores_step_together}

abbrev server : Redis RedisSessionState
server = map_redis RedisSessionState

abbrev table : Table NodeSession
table = list_table (λ (x y : NodeSession). x.id == y.id)

abbrev session : NodeSession
session = record {
  id = text "s1";
  conversation_id = text "c1";
  flow_id = some (text "f1");
  current_node_id = some (text "n1");
  detected_intent = none;
  flow_summary = none;
  cached_node_data = none;
  completed_todos = none;
  status = active;
}

abbrev stored : Store server
stored = RedisStore.save server (view session) []

abbrev rows : Table.St table
rows = session ∷ []

one_row : (id : Text) → find_by_id table id rows ≡ (if text "s1" == id then some session else none)
unfolding find_by_id find_key has_key session_id first_where
one_row id = refl

one_state :
    (id : Text) → by_id server id stored ≡ (if text "s1" == id then some (view session) else none)
unfolding view by_id
one_state id =
    by_id-save server (view session) [] id
    ∙ ap (λ (o : Option RedisSessionState). if text "s1" == id then some (view session) else o)
        (Redis.get-empty server (id_key id))

start : IsSame server table stored rows
unfolding map_some IsUnique
start = record {
  unique = unique;
  same = λ id. elim (Bool-cases (text "s1" == id)) [
    | inl e ↦ rw (one_row id, one_state id, e) refl
    | inr e ↦ rw (one_row id, one_state id, e) refl
  ];
}
  where
    unique : IsUnique table session_id rows
    unique x y mx my e = Memᴰ.eq_of_singleton mx ∙ sym (Memᴰ.eq_of_singleton my)

abbrev left : Table.St table
left =
    record session {
      flow_id = none;
      current_node_id = none;
      detected_intent = none;
      flow_summary = some (text "luego");
    }
    ∷ []

paused_row : call_db table (pausing (text "luego")) (text "s1") rows ≡ some left
unfolding call_db pause_flow change without_flow update_rows change_rows any ◌==◌
paused_row = refl

stores_step_together_example :
    (r' : Store server) × (call_redis server (pausing (text "luego")) (text "s1") stored ≡ some r')
    × IsSame server table r' left
    × ((k : Text)
        → by_conversation server k r' ≡ (
            if is_saving (pausing (text "luego")) && (text "c1" == k)
            then map_some view (find_by_id table (text "s1") left)
            else by_conversation server k stored))
unfolding ◌==◌
stores_step_together_example =
    stores_step_together server table (pausing (text "luego")) (text "s1") stored rows left session
      start (one_row (text "s1")) paused_row
