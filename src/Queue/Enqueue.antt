-- ===== src/Queue/Enqueue.antt =====
-- queue-request.service.ts, enqueue: a request for the contact behind a label, and its job. The
-- queue that takes the job is a parameter.
mod Address
mod Tests
use f_chat_backend.Jid.{phone_from_jid}
use f_chat_backend.Prelude.{
  Text, text, truthy, Option, none, some, or_else, List, [], ◌∷◌, ◌++◌, Bool, true, false,
}
use f_chat_backend.Prelude.Actions.{
  Action, error, done, reads, stored, written, require, ◌>>=◌, ◌>>◌,
}
use f_chat_backend.Prelude.Table.{Table}
use f_chat_backend.Queue.{QueueRequest, pending}
use f_chat_backend.Queue.Labels.{ResolvedContact, Tables, State, resolve}

pub record EnqueueParams : Type 0 where
  pub user_id : Text
  pub node_session_id : Text
  pub conversation_id : Text
  pub current_node_id : Text
  pub instance_name : Text
  pub label : Text
  pub message : Text
  pub image_url : Option Text
  pub is_test : Option Bool
  pub tool_name : Text

unfoldable pub destination_of : ResolvedContact → Option Text
destination_of r = at r.is_group
  where
    at : Bool → Option Text
    at true = truthy r.client_phone
    at false = some (phone_from_jid r.remote_jid)

unfoldable pub group_of : ResolvedContact → Option Text
group_of r = at r.is_group
  where
    at : Bool → Option Text
    at true = some r.remote_jid
    at false = none

unfoldable pub new_request : Text → EnqueueParams → ResolvedContact → Text → QueueRequest
unfolding group_of
new_request id p r destination = record {
  id = id;
  user_id = p.user_id;
  node_session_id = p.node_session_id;
  conversation_id = p.conversation_id;
  current_node_id = p.current_node_id;
  instance_name = p.instance_name;
  label = p.label;
  destination_phone = destination;
  group_jid = group_of r;
  outgoing_message = p.message;
  image_url = p.image_url;
  is_test = or_else p.is_test false;
  response_message = none;
  tool_name = p.tool_name;
  status = pending;
  sent_whatsapp_message_id = none;
  sent_at = none;
  responded_at = none;
}

module _ (t : Tables) (takes : Text → List (Text × Text) → Bool) where
  unfoldable pub write_request : QueueRequest → Action (State t) Unit
  write_request q = stored (λ s.
      written (λ r. record s { requests = r }) (Table.create (Tables.requests t) s.requests q))

  -- addJob, which throws where the queue does not take the job
  unfoldable pub jobs_after : Text → Text → List (Text × Text) → Bool → Option (List (Text × Text))
  jobs_after user_id id jobs true = some (jobs ++ (user_id, id) ∷ [])
  jobs_after user_id id jobs false = none

  unfoldable pub add_job : Text → Text → Action (State t) Unit
  unfolding jobs_after
  add_job user_id id = stored (λ s.
      written (λ jobs. record s { jobs = jobs })
        (jobs_after user_id id s.jobs (takes user_id s.jobs)))

  unfoldable pub enqueue : Text → EnqueueParams → Action (State t) QueueRequest
  unfolding resolve destination_of new_request write_request add_job
  enqueue id p = do
    resolved ← resolve t p.user_id p.label
    destination ← require (destination_of resolved) (
        error (
          text "ContactLabel \""
          ++ p.label
          ++ text "\" tiene grupo pero no tiene usuario asignado"))
    write_request (new_request id p resolved destination)
    add_job p.user_id id
    done (new_request id p resolved destination)
