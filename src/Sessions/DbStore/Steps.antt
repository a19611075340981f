-- ===== src/Sessions/DbStore/Steps.antt =====
-- The calls of node-session-store.interface.ts that change the session of an id, and what they do to
-- a session in production and in test mode.
use f_chat_backend.Prelude.{Text, Option, none, some, Bool, true, false, ◌≡◌, refl, arith}
use f_chat_backend.Prelude.Map.{Map}
use f_chat_backend.Prelude.Redis.{Redis}
use f_chat_backend.Prelude.Table.{Table}
use f_chat_backend.Sessions.RedisStore
use f_chat_backend.Sessions.RedisStore.{
  NodeSessionStatus, closed, RedisSessionState, Store, by_id, by_conversation, modify, modify_known,
  with_node, paused,
}
use f_chat_backend.Sessions.DbStore.{
  NodeSession, session_id, given, at_node, without_flow, set_cached_node_data, update_current_node,
  update_status, update_completed_todos, pause_flow, close,
}

-- What the store in test mode keeps of a session: all but the cached data.
unfoldable pub view : NodeSession → RedisSessionState
view x = record {
  id = x.id;
  conversation_id = x.conversation_id;
  flow_id = x.flow_id;
  current_node_id = x.current_node_id;
  detected_intent = x.detected_intent;
  flow_summary = x.flow_summary;
  completed_todos = x.completed_todos;
  status = x.status;
}

-- The calls of the interface that change the session of an id.
pub data Call : Type 0 where
  to_node : (target intent flow summary : Option Text) → Call
  to_status : NodeSessionStatus → Call
  caching : Text → Call
  with_todos : Map Bool → Call
  pausing : Text → Call
  closing : Call

module _ (redis : Redis RedisSessionState) where
  unfoldable pub call_redis : Call → Text → Store redis → Option (Store redis)
  call_redis (to_node target intent flow summary) id s =
      RedisStore.update_current_node redis id target intent flow summary s
  call_redis (to_status status) id s = some (RedisStore.update_status redis id status s)
  call_redis (caching cached) id s = some (RedisStore.set_cached_node_data redis id cached s)
  call_redis (with_todos todos) id s = RedisStore.update_completed_todos redis id todos s
  call_redis (pausing summary) id s = some (RedisStore.pause_flow redis id summary s)
  call_redis closing id s = some (RedisStore.close redis id s)

module _ (t : Table NodeSession) where
  unfoldable pub call_db : Call → Text → Table.St t → Option (Table.St t)
  call_db (to_node target intent flow summary) id =
      update_current_node t id target intent flow summary
  call_db (to_status status) id = update_status t id status
  call_db (caching cached) id = set_cached_node_data t id cached
  call_db (with_todos todos) id = update_completed_todos t id todos
  call_db (pausing summary) id = pause_flow t id summary
  call_db closing id = close t id

unfoldable pub db_step : Call → NodeSession → NodeSession
db_step (to_node target intent flow summary) = at_node target intent flow summary
db_step (to_status status) = λ x. record x { status = status }
db_step (caching cached) = λ x. record x { cached_node_data = some cached }
db_step (with_todos todos) = λ x. record x { completed_todos = some todos }
db_step (pausing summary) = without_flow summary
db_step closing = λ x. record x { status = closed }

unfoldable pub redis_step : Call → RedisSessionState → RedisSessionState
redis_step (to_node target intent flow summary) = with_node target intent flow summary
redis_step (to_status status) = λ x. record x { status = status }
redis_step (caching cached) = λ x. x
redis_step (with_todos todos) = λ x. record x { completed_todos = some todos }
redis_step (pausing summary) = paused summary
redis_step closing = λ x. record x { status = closed }

pub given-elim : (o old : Option Text) → given o old ≡ (elim o [ some v ↦ some v | none ↦ old ])
unfolding given
given-elim none old = refl
given-elim (some v) old = refl

-- The two steps are one on what both keep.
pub view-db_step : (c : Call) (x : NodeSession) → view (db_step c x) ≡ redis_step c (view x)
unfolding view db_step redis_step at_node with_node without_flow paused
view-db_step (to_node target intent flow summary) x = ground (
  arith,
  given-elim intent x.detected_intent,
  given-elim flow x.flow_id,
  given-elim summary x.flow_summary,
)
view-db_step (to_status status) x = refl
view-db_step (caching cached) x = refl
view-db_step (with_todos todos) x = refl
view-db_step (pausing summary) x = refl
view-db_step closing x = refl

pub db_step-id : (c : Call) (x : NodeSession) → session_id (db_step c x) ≡ session_id x
unfolding db_step session_id at_node without_flow
db_step-id (to_node target intent flow summary) x = refl
db_step-id (to_status status) x = refl
db_step-id (caching cached) x = refl
db_step-id (with_todos todos) x = refl
db_step-id (pausing summary) x = refl
db_step-id closing x = refl

pub redis_step-id : (c : Call) (x : RedisSessionState) → (redis_step c x).id ≡ x.id
unfolding redis_step with_node paused
redis_step-id (to_node target intent flow summary) x = refl
redis_step-id (to_status status) x = refl
redis_step-id (caching cached) x = refl
redis_step-id (with_todos todos) x = refl
redis_step-id (pausing summary) x = refl
redis_step-id closing x = refl

pub redis_step-conversation :
    (c : Call) (x : RedisSessionState) → (redis_step c x).conversation_id ≡ x.conversation_id
unfolding redis_step with_node paused
redis_step-conversation (to_node target intent flow summary) x = refl
redis_step-conversation (to_status status) x = refl
redis_step-conversation (caching cached) x = refl
redis_step-conversation (with_todos todos) x = refl
redis_step-conversation (pausing summary) x = refl
redis_step-conversation closing x = refl

-- Whether the store in test mode saves the session: all calls but that of the cached data.
unfoldable pub is_saving : Call → Bool
is_saving (caching cached) = false
is_saving _ = true
