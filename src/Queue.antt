-- ===== src/Queue.antt =====
-- src/modules/queue-system: the requests that wait for an answer of an internal contact, from
-- queue-request.repository.ts, queue-request.service.ts and user-queue-manager.service.ts. The
-- table is a parameter, and so is the sending of a message, which is Evolution's. The column
-- `toolContext`, which nothing reads, is left out.
pub mod Final
pub mod Twice
pub mod Labels
pub mod Schedule
pub mod Enqueue
mod Tests
use f_chat_backend.Prelude.{
  ℕ, Text, text, ◌==◌, Option, none, some, List, [], ◌∷◌, ◌++◌, Bool, true, false, ◌&&◌, ◌||◌,
  or_else, if◌then◌else◌,
}
use f_chat_backend.Prelude.Actions.{Action, done, reads, stored, ◌>>=◌, ◌>>◌}
use f_chat_backend.Prelude.Table.{Table}
use f_chat_backend.Jid.{jid_from_phone}

pub data QueueRequestStatus : Type 0 where
  pending sent responded expired cancelled : QueueRequestStatus

pub record QueueRequest : Type 0 where
  pub id : Text
  pub user_id : Text
  pub node_session_id : Text
  pub conversation_id : Text
  pub current_node_id : Text
  pub instance_name : Text
  pub label : Text
  pub destination_phone : Text
  pub group_jid : Option Text
  pub outgoing_message : Text
  pub image_url : Option Text
  pub is_test : Bool
  pub response_message : Option Text
  pub tool_name : Text
  pub status : QueueRequestStatus
  pub sent_whatsapp_message_id : Option Text
  pub sent_at : Option ℕ
  pub responded_at : Option ℕ

pub is_pending : QueueRequestStatus → Bool
is_pending pending = true
is_pending _ = false

pub is_sent : QueueRequestStatus → Bool
is_sent sent = true
is_sent _ = false

pub record Message : Type 0 where
  pub instance_name : Text
  pub remote_jid : Text
  pub image_url : Option Text
  pub content : Text

-- The table, the messages that were sent and the events `queue.response.received`.
pub record State (t : Table QueueRequest) : Type 0 where
  pub requests : Table.St t
  pub messages : List Message
  pub events : List Text

pub has_id : Text → QueueRequest → Bool
has_id id q = q.id == id

-- An `imageUrl` that is not empty is sent as an image.
pub image_of : Option Text → Option Text
image_of none = none
image_of (some []) = none
image_of (some (c ∷ url)) = some (c ∷ url)

pub message_of : QueueRequest → Message
message_of q = record {
  instance_name = q.instance_name;
  remote_jid = or_else q.group_jid (jid_from_phone q.destination_phone);
  image_url = image_of q.image_url;
  content = q.outgoing_message;
}

pub mock_response : QueueRequest → Text
mock_response q = if q.label == text "supervisor" then text "aprobado" else text "confirmado"

pub as_sent : ℕ → Option Text → QueueRequest → QueueRequest
as_sent now message_id q = record q {
  status = sent;
  sent_at = some now;
  sent_whatsapp_message_id = message_id;
}

-- In test mode only the moment is written.
pub as_sent_test : ℕ → QueueRequest → QueueRequest
as_sent_test now q = record q { status = sent; sent_at = some now }

pub as_responded : ℕ → Text → QueueRequest → QueueRequest
as_responded now message q = record q {
  status = responded;
  response_message = some message;
  responded_at = some now;
}

pub is_open_of : Text → QueueRequest → Bool
is_open_of conversation_id q =
    q.conversation_id == conversation_id && (is_pending q.status || is_sent q.status)

unfoldable pub answers_to : Text → QueueRequest → Bool
answers_to message_id q = (if_some q.sent_whatsapp_message_id) && is_sent q.status
  where
    if_some : Option Text → Bool
    if_some none = false
    if_some (some m) = m == message_id

module _ (t : Table QueueRequest) where
  pub find_by_id : Text → State t → Option QueueRequest
  find_by_id id s = Table.find_first t s.requests (has_id id)

  pub set_requests : State t → Option (Table.St t) → Option (State t)
  set_requests s none = none
  set_requests s (some r) = some (record s { requests = r })

  unfoldable pub update_status : Text → (QueueRequest → QueueRequest) → Action (State t) Unit
  update_status id f = stored (λ s. set_requests s (Table.update t s.requests (has_id id) f))

  unfoldable pub find_by_sent_id : Text → State t → Option QueueRequest
  find_by_sent_id message_id s = Table.find_first t s.requests (answers_to message_id)

  pub cancel_by_conversation_id : Text → State t → State t
  cancel_by_conversation_id conversation_id s = record s {
    requests =
        Table.update_many t s.requests (is_open_of conversation_id)
          (λ q. record q { status = cancelled });
  }

  unfoldable pub handle_found :
      ℕ → Text → Option QueueRequest → Action (State t) (Option QueueRequest)
  handle_found now response none = done none
  handle_found now response (some q) =
      update_status q.id (as_responded now response) >> done (some q)

  -- handleResponse, with the quoted message or without one.
  unfoldable pub handle_response : ℕ → Text → Option Text → Action (State t) (Option QueueRequest)
  unfolding handle_found
  handle_response now response none = done none
  handle_response now response (some []) = done none
  handle_response now response (some (c ∷ quoted)) =
      reads (find_by_sent_id (c ∷ quoted)) >>= handle_found now response

  pub emit_response : Text → Action (State t) Unit
  emit_response id = stored (λ s. some (record s { events = s.events ++ id ∷ [] }))

  -- `send` is the client's answer: `none` where it throws, else the id of the message, if any.
  module _ (send : Message → Option (Option Text)) where
    pub sent_state : Message → State t → Option (State t)
    sent_state m s = elim (send m) [
      | none ↦ none
      | some _ ↦ some (record s { messages = s.messages ++ m ∷ [] })
    ]

    pub process_test : ℕ → QueueRequest → Action (State t) Unit
    process_test now q = do
      update_status q.id (as_sent_test now)
      update_status q.id (as_responded now (mock_response q))
      emit_response q.id

    pub process_send : ℕ → QueueRequest → Action (State t) Unit
    process_send now q = do
      stored (sent_state (message_of q))
      update_status q.id (as_sent now (or_else (send (message_of q)) none))

    pub process_found : ℕ → Option QueueRequest → Action (State t) Unit
    process_found now none = done tt
    process_found now (some q) =
        if is_pending q.status
        then (if q.is_test then process_test now q else process_send now q)
        else done tt

    pub process_job : ℕ → Text → Action (State t) Unit
    unfolding process_found
    process_job now id = reads (find_by_id id) >>= process_found now
