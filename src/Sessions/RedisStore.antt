-- ===== src/Sessions/RedisStore.antt =====
-- redis-node-session.store.ts: the store of node sessions in test mode. A state is written under
-- two keys, that of its conversation and that of its id.
pub mod Agreement
pub mod Lookup
mod Tests
use f_chat_backend.Prelude.{
  ℕ, Text, text, ◌==◌, Option, none, some, List, [], ◌∷◌, ◌++◌, Bool, true, false, ◌||◌, or_else,
  ◌>>=◌, if◌then◌else◌, map,
}
use f_chat_backend.Prelude.Redis.{Redis}
use f_chat_backend.Prelude.Map.{Map}

pub data NodeSessionStatus : Type 0 where
  active waiting_queue closed : NodeSessionStatus

pub record RedisSessionState : Type 0 where
  pub id : Text
  pub conversation_id : Text
  pub flow_id : Option Text
  pub current_node_id : Option Text
  pub detected_intent : Option Text
  pub flow_summary : Option Text
  pub completed_todos : Option (Map Bool)
  pub status : NodeSessionStatus

unfoldable pub is_active : NodeSessionStatus → Bool
is_active active = true
is_active _ = false

unfoldable pub is_waiting : NodeSessionStatus → Bool
is_waiting waiting_queue = true
is_waiting _ = false

pub conv_key : Text → Text
conv_key conversation_id = text "test-node-session:conv:" ++ conversation_id

unfoldable pub id_key : Text → Text
id_key id = text "test-node-session:id:" ++ id

pub when : (NodeSessionStatus → Bool) → Option RedisSessionState → Option RedisSessionState
when p none = none
when p (some state) = if p state.status then some state else none

pub new_state : Text → Text → Option Text → RedisSessionState
new_state fresh_id conversation_id flow_id = record {
  id = fresh_id;
  conversation_id = conversation_id;
  flow_id = flow_id;
  current_node_id = none;
  detected_intent = none;
  flow_summary = none;
  completed_todos = none;
  status = active;
}

unfoldable pub with_node :
    Option Text → Option Text → Option Text → Option Text → RedisSessionState → RedisSessionState
with_node target intent flow summary state = record state {
  current_node_id = target;
  detected_intent = elim intent [ some v ↦ some v | none ↦ state.detected_intent ];
  flow_id = elim flow [ some v ↦ some v | none ↦ state.flow_id ];
  flow_summary = elim summary [ some v ↦ some v | none ↦ state.flow_summary ];
}

unfoldable pub paused : Text → RedisSessionState → RedisSessionState
paused summary state = record state {
  current_node_id = none;
  detected_intent = none;
  flow_id = none;
  flow_summary = some summary;
}

module _ (redis : Redis RedisSessionState) where
  abbrev pub Store : Type 0
  Store = Redis.St redis

  pub save : RedisSessionState → Store → Store
  save state s =
      Redis.set redis (Redis.set redis s (conv_key state.conversation_id) state) (id_key state.id)
        state

  pub by_conversation : Text → Store → Option RedisSessionState
  by_conversation conversation_id s = Redis.get redis s (conv_key conversation_id)

  -- findById, before `hydrate`
  unfoldable pub by_id : Text → Store → Option RedisSessionState
  by_id id s = Redis.get redis s (id_key id)

  pub find_active : Text → Store → Option RedisSessionState
  unfolding by_conversation when is_active
  find_active conversation_id s = when is_active (by_conversation conversation_id s)

  pub find_active_or_waiting : Text → Store → Option RedisSessionState
  unfolding by_conversation when is_active is_waiting
  find_active_or_waiting conversation_id s =
      when (λ k. is_active k || is_waiting k) (by_conversation conversation_id s)

  pub existing_or_new :
      Option RedisSessionState → RedisSessionState → Store → RedisSessionState × Store
  unfolding save
  existing_or_new (some existing) state s = (existing, s)
  existing_or_new none state s = (state, save state s)

  pub find_or_create : Text → Text → Option Text → Store → RedisSessionState × Store
  unfolding find_active new_state existing_or_new
  find_or_create fresh_id conversation_id flow_id s =
      existing_or_new (find_active conversation_id s) (new_state fresh_id conversation_id flow_id) s

  -- Reads the state of an id, changes it and saves it; `none` if there is no such session.
  unfoldable pub modify : (RedisSessionState → RedisSessionState) → Text → Store → Option Store
  unfolding by_id save
  modify f id s = by_id id s >>= λ state. some (save (f state) s)

  -- `if (state) { … }`: nothing happens to an unknown id.
  unfoldable pub modify_known : (RedisSessionState → RedisSessionState) → Text → Store → Store
  unfolding modify
  modify_known f id s = or_else (modify f id s) s

  unfoldable pub update_current_node :
      Text → Option Text → Option Text → Option Text → Option Text → Store → Option Store
  unfolding modify with_node
  update_current_node id target intent flow summary s =
      modify (with_node target intent flow summary) id s

  unfoldable pub update_completed_todos : Text → Map Bool → Store → Option Store
  unfolding modify
  update_completed_todos id todos s =
      modify (λ state. record state { completed_todos = some todos }) id s

  -- Nothing: sessions are ephemeral in test mode.
  unfoldable pub set_cached_node_data : Text → Text → Store → Store
  set_cached_node_data id cached s = s

  unfoldable pub pause_flow : Text → Text → Store → Store
  unfolding modify_known paused
  pause_flow id summary s = modify_known (paused summary) id s

  unfoldable pub update_status : Text → NodeSessionStatus → Store → Store
  unfolding modify_known
  update_status id status s = modify_known (λ state. record state { status = status }) id s

  unfoldable pub close : Text → Store → Store
  unfolding modify_known
  close id s = modify_known (λ state. record state { status = closed }) id s
