-- ===== src/Sessions/TestSession.antt =====
-- test-session.service.ts: the sessions in which a flow is tried out, with their steps. A session
-- is stored under a key of its own; the sessions of RedisStore have other keys in the same server,
-- so that the two are kept as two stores here.
pub mod Undo
pub mod Lifetime
mod Tests
use f_chat_backend.Prelude.{
  ℕ, Text, text, ◌==◌, Option, none, some, List, [], ◌∷◌, ◌++◌, Bool, true, false, or_else,
  if◌then◌else◌, get_last?, ◌>>=◌,
}
use f_chat_backend.Prelude.Map
use f_chat_backend.Prelude.Map.{Map}
use f_chat_backend.Prelude.Redis.{Redis}
use f_chat_backend.Sessions.RedisStore.{RedisSessionState, Store, find_active_or_waiting, close}

pub record HistoryEntry : Type 0 where
  pub role : Text
  pub content : Text

-- `flow_id` is `undefined`, `null` or a text.
pub record TestStep : Type 0 where
  pub message : Text
  pub response : Text
  pub node_id : Option Text
  pub flow_id : Option (Option Text)
  pub history_snapshot : List HistoryEntry

pub record TestSession : Type 0 where
  pub test_id : Text
  pub conversation_id : Text
  pub flow_id : Option Text
  pub client_phone : Text
  pub instance_name : Text
  pub tenant_id : Text
  pub current_node_id : Option Text
  pub steps : List TestStep
  pub history : List HistoryEntry

pub session_key : Text → Text
session_key test_id = text "test-session:" ++ test_id

-- session.steps.pop()
unfoldable pub but_last : List TestStep → List TestStep
but_last [] = []
but_last (x ∷ []) = []
but_last (x ∷ y ∷ xs) = x ∷ but_last (y ∷ xs)

pub is_nil : List TestStep → Bool
is_nil [] = true
is_nil (x ∷ xs) = false

pub pushed : TestStep → TestSession → TestSession
pushed step session = record session {
  steps = session.steps ++ step ∷ [];
  current_node_id = step.node_id;
  flow_id = or_else step.flow_id session.flow_id;
  history = step.history_snapshot;
}

-- prevStep?.nodeId ?? null, prevStep?.flowId ?? null, prevStep?.historySnapshot ?? []
pub node_of_step : Option TestStep → Option Text
node_of_step none = none
node_of_step (some step) = step.node_id

pub flow_of_step : Option TestStep → Option Text
flow_of_step none = none
flow_of_step (some step) = or_else step.flow_id none

pub history_of_step : Option TestStep → List HistoryEntry
history_of_step none = []
history_of_step (some step) = step.history_snapshot

pub response_of_step : Option TestStep → Option Text
response_of_step none = none
response_of_step (some step) = some step.response

unfoldable pub popped : TestSession → TestSession
unfolding but_last node_of_step flow_of_step history_of_step
popped session =
    let rest = but_last session.steps in
    let previous = get_last? rest in
    record session {
      steps = rest;
      current_node_id = node_of_step previous;
      flow_id = flow_of_step previous;
      history = history_of_step previous;
    }

pub new_session : Text → Text → Option Text → Text → Text → Text → TestSession
new_session test_id conversation_id flow_id client_phone tenant_id instance_name = record {
  test_id = test_id;
  conversation_id = conversation_id;
  flow_id = flow_id;
  client_phone = client_phone;
  instance_name = instance_name;
  tenant_id = tenant_id;
  current_node_id = none;
  steps = [];
  history = [];
}

pub close_found :
    (nodes : Redis RedisSessionState) → Option RedisSessionState → Store nodes → Store nodes
close_found nodes none ns = ns
close_found nodes (some node_session) ns = close nodes node_session.id ns

module _ (redis : Redis TestSession) where
  -- `instance_name` is that of the tenant's first phone; `none` is the BadRequestException.
  pub start :
      Text
      → Text
      → Option Text
      → Text
      → Text
      → Option Text
      → Redis.St redis
      → Option (Redis.St redis)
  start fresh_id conversation_id flow_id client_phone tenant_id instance_name s =
      instance_name >>= λ instance. some (
        Redis.set redis s (session_key fresh_id)
          (new_session fresh_id conversation_id flow_id client_phone tenant_id instance))

  -- `none` is the NotFoundException, here and in the methods below.
  pub get_session : Text → Redis.St redis → Option TestSession
  unfolding session_key
  get_session test_id s = Redis.get redis s (session_key test_id)

  pub push_step : Text → TestStep → Redis.St redis → Option (Redis.St redis)
  push_step test_id step s = get_session test_id s >>= λ session.
      some (Redis.set redis s (session_key test_id) (pushed step session))

  pub pop_session :
      Text → TestSession → Redis.St redis → (Option Text × Option Text) × Redis.St redis
  pop_session test_id session s =
      let session' = popped session in
      if is_nil session.steps then ((none, none), s) else (
        (session'.current_node_id, response_of_step (get_last? session'.steps)),
        Redis.set redis s (session_key test_id) session',
      )

  -- The node and the last message of the answer, and the store.
  pub pop_step : Text → Redis.St redis → Option ((Option Text × Option Text) × Redis.St redis)
  pop_step test_id s = get_session test_id s >>= λ session. some (pop_session test_id session s)

  pub delete_session : Text → Redis.St redis → Redis.St redis
  unfolding session_key
  delete_session test_id s = Redis.del redis s (session_key test_id)

  -- `results` is the map of testQueueResultStore.
  module _ (nodes : Redis RedisSessionState) {R : Type 0} where
    pub stop :
        Text → Redis.St redis × Store nodes × Map R → Option (Redis.St redis × Store nodes × Map R)
    unfolding get_session close_found delete_session
    stop test_id (s, ns, results) = get_session test_id s >>= λ session. some (
      delete_session test_id s,
      close_found nodes (find_active_or_waiting nodes session.conversation_id ns) ns,
      Map.remove results session.conversation_id,
    )
