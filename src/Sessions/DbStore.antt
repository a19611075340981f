-- ===== src/Sessions/DbStore.antt =====
-- node-session.repository.ts and db-node-session.store.ts: the store of node sessions in
-- production, over the table NodeSession of src/prisma/schema.prisma. The store only calls the
-- repository. The node and the flow that a read includes are looked up by their ids, which are
-- here. `cached_node_data` is a JSON document, of which nothing is read here.
pub mod Steps
pub mod Refines
mod Tests
use f_chat_backend.Prelude.{
  ℕ, ◌+◌, Text, ◌==◌, includes, Option, none, some, List, [], ◌∷◌, Bool, true, false, ◌&&◌, ◌||◌,
  or_else, if◌then◌else◌, keep, ◌>>=◌,
}
use f_chat_backend.Prelude.Map
use f_chat_backend.Prelude.Map.{Map}
use f_chat_backend.Prelude.Table.{Table}
use f_chat_backend.Prelude.Keys.{find_key}
use f_chat_backend.Sessions.RedisStore.{
  NodeSessionStatus, active, waiting_queue, closed, is_active, is_waiting,
}

pub record NodeSession : Type 0 where
  pub id : Text
  pub conversation_id : Text
  pub flow_id : Option Text
  pub current_node_id : Option Text
  pub detected_intent : Option Text
  pub flow_summary : Option Text
  pub cached_node_data : Option Text
  pub completed_todos : Option (Map Bool)
  pub status : NodeSessionStatus

pub session_id : NodeSession → Text
session_id x = x.id

pub is_active_of : Text → NodeSession → Bool
is_active_of conversation_id x = x.conversation_id == conversation_id && is_active x.status

pub is_open_of : Text → NodeSession → Bool
is_open_of conversation_id x =
    x.conversation_id == conversation_id && (is_active x.status || is_waiting x.status)

pub new_session : Text → Text → Option Text → NodeSession
new_session id conversation_id flow_id = record {
  id = id;
  conversation_id = conversation_id;
  flow_id = flow_id;
  current_node_id = none;
  detected_intent = none;
  flow_summary = none;
  cached_node_data = none;
  completed_todos = none;
  status = active;
}

-- A member that is `undefined` in `data` is left as it is.
pub given : Option Text → Option Text → Option Text
given none old = old
given (some v) old = some v

-- updateCurrentNode also drops the cached data.
pub at_node : Option Text → Option Text → Option Text → Option Text → NodeSession → NodeSession
unfolding given
at_node target intent flow summary x = record x {
  current_node_id = target;
  detected_intent = given intent x.detected_intent;
  cached_node_data = none;
  flow_id = given flow x.flow_id;
  flow_summary = given summary x.flow_summary;
}

pub without_flow : Text → NodeSession → NodeSession
without_flow summary x = record x {
  current_node_id = none;
  detected_intent = none;
  flow_id = none;
  flow_summary = some summary;
}

-- The sessions that countActiveByNode groups.
pub is_counted : List Text → NodeSession → Bool
is_counted flow_ids x = elim x.flow_id [
  | none ↦ false
  | some flow_id ↦ includes flow_ids flow_id && is_active x.status
]

pub count_node : Option Text → Map ℕ → Map ℕ
count_node none counts = counts
count_node (some node_id) counts = Map.set counts node_id (or_else (Map.get counts node_id) 0 + 1)

pub count_nodes : List NodeSession → Map ℕ
unfolding count_node
count_nodes [] = []
count_nodes (x ∷ xs) = count_node x.current_node_id (count_nodes xs)

module _ (t : Table NodeSession) where
  abbrev pub Rows : Type 0
  Rows = Table.St t

  pub find_by_id : Text → Rows → Option NodeSession
  unfolding session_id
  find_by_id id s = find_key t session_id id s

  pub find_active : Text → Rows → Option NodeSession
  find_active conversation_id s = Table.find_first t s (is_active_of conversation_id)

  unfoldable pub find_active_or_waiting : Text → Rows → Option NodeSession
  find_active_or_waiting conversation_id s = Table.find_first t s (is_open_of conversation_id)

  pub create : Text → Text → Option Text → Rows → Option (NodeSession × Rows)
  create id conversation_id flow_id s =
      Table.create t s (new_session id conversation_id flow_id) >>= λ u.
      some (new_session id conversation_id flow_id, u)

  pub existing_or_new :
      Text → Text → Option Text → Rows → Option NodeSession → Option (NodeSession × Rows)
  existing_or_new id conversation_id flow_id s none = create id conversation_id flow_id s
  existing_or_new id conversation_id flow_id s (some x) = some (x, s)

  pub find_or_create : Text → Text → Option Text → Rows → Option (NodeSession × Rows)
  unfolding existing_or_new
  find_or_create id conversation_id flow_id s =
      existing_or_new id conversation_id flow_id s (find_active conversation_id s)

  -- prisma.nodeSession.update, which throws on an id that is not there
  pub change : (NodeSession → NodeSession) → Text → Rows → Option Rows
  change f id s = Table.update t s (λ x. x.id == id) f

  pub update_current_node :
      Text → Option Text → Option Text → Option Text → Option Text → Rows → Option Rows
  unfolding change at_node
  update_current_node id target intent flow summary = change (at_node target intent flow summary) id

  pub set_cached_node_data : Text → Text → Rows → Option Rows
  unfolding change
  set_cached_node_data id cached = change (λ x. record x { cached_node_data = some cached }) id

  pub update_status : Text → NodeSessionStatus → Rows → Option Rows
  unfolding change
  update_status id status = change (λ x. record x { status = status }) id

  pub update_completed_todos : Text → Map Bool → Rows → Option Rows
  unfolding change
  update_completed_todos id todos = change (λ x. record x { completed_todos = some todos }) id

  pub pause_flow : Text → Text → Rows → Option Rows
  unfolding change without_flow
  pause_flow id summary = change (without_flow summary) id

  pub close : Text → Rows → Option Rows
  unfolding change
  close id = change (λ x. record x { status = closed }) id

  pub count_active_by_node : List Text → Rows → Map ℕ
  count_active_by_node flow_ids s = count_nodes (keep (is_counted flow_ids) (Table.rows t s))
