-- ===== src/Webhooks/Handlers.antt =====
-- webhooks.service.ts: `handleWebhook`, which puts the heavy events into the queue
-- `phone-webhooks` and handles the light ones at once, with the methods that it calls;
-- phone.repository.ts and `enqueue` of phone-queue.service.ts.
pub mod Frame
pub mod Outcome
pub mod Statuses
pub mod Tenancy
mod Tests
use f_chat_backend.Prelude.{
  ℕ, Text, text, ◌==◌, truthy, Option, none, some, List, [], ◌∷◌, ◌++◌, Bool, true, false, ◌||◌,
  or_else, if◌then◌else◌,
}
use f_chat_backend.Prelude.Actions.{
  written, Action, done, reads, stored, when◌then◌else◌, ◌>>=◌, ◌>>◌,
}
use f_chat_backend.Prelude.Table.{Table}
use f_chat_backend.Jid.{phone_from_jid, is_individual_jid}
use f_chat_backend.Messaging.{Tables, State, set_phones}
use f_chat_backend.Messaging.Rows.{
  PhoneStatus, connected, disconnected, pending, Phone, MessageStatus, sent, delivered, read,
  failed, Message,
}
use f_chat_backend.Messaging.Events.{
  Members, Payload, missing, members, array, message, WebhookEvent, JobType, process_message_job,
  sync_contacts, sync_group, sync_chats, WebhookJob, SocketEvent, qr_updated, status_changed,
  syncing, sync_progress, status_updated, Emission,
}
use f_chat_backend.Messaging.Clients.{update_profile_pic}
use f_chat_backend.Messaging.Messages.{update_status_by_key_id}
use f_chat_backend.Webhooks.Content.{parse_connection_status, parse_qr_code}

unfoldable pub no_members : Members
no_members = record {
  state = none;
  qrcode = none;
  qr = none;
  is_latest = none;
  progress = none;
  key_id = none;
  status = none;
  from_me = none;
  remote_jid = none;
  profile_pic_url = none;
}

-- webhookData?.data?.…: what is no object has none of the members.
pub members_of : Payload → Members
unfolding no_members
members_of (members d) = d
members_of _ = no_members

-- if (!data)
pub is_missing : Payload → Bool
is_missing missing = true
is_missing _ = false

-- Array.isArray(data) ? data : [data]
pub entries : Payload → List Members
unfolding members_of
entries (array ds) = ds
entries missing = members_of missing ∷ []
entries (members d) = d ∷ []
entries (message m) = members_of (message m) ∷ []

pub has_instance : Text → Phone → Bool
has_instance instance_id p = p.evolution_instance_id == instance_id

unfoldable pub has_phone_id : Text → Phone → Bool
has_phone_id id p = p.id == id

pub is_connected : PhoneStatus → Bool
is_connected connected = true
is_connected _ = false

-- updateStatus, with `lastConnected` where it is given
pub with_phone_status : PhoneStatus → Option ℕ → Phone → Phone
with_phone_status status none p = record p { status = status }
with_phone_status status (some at) p = record p { status = status; last_connected = some at }

-- The switch on Evolution's status.
pub mapped_status : Option Text → Option MessageStatus
mapped_status none = none
mapped_status (some status) =
    if status == text "ERROR" || status == text "PENDING"
    then some failed
    else (if status == text "SERVER_ACK"
        then some sent
        else (if status == text "DELIVERY_ACK"
            then some delivered
            else (if status == text "READ" || status == text "PLAYED" then some read else none)))

pub is_queued : Text → Bool
is_queued event =
    event == text "messages.upsert"
    || event == text "send.message"
    || event == text "contacts.upsert"
    || event == text "groups.upsert"
    || event == text "chats.set"

-- The inner switch, after `is_queued`.
pub job_type : Text → JobType
job_type event =
    if event == text "messages.upsert" || event == text "send.message"
    then process_message_job
    else (if event == text "contacts.upsert"
        then sync_contacts
        else (if event == text "groups.upsert" then sync_group else sync_chats))

pub job_of : Phone → WebhookEvent → WebhookJob
unfolding job_type
job_of p e = record {
  type = job_type e.event;
  phone_id = p.id;
  tenant_id = p.tenant_id;
  instance_name = p.instance_name;
  webhook_data = e;
}

module _ (t : Tables) where
  pub find_by_instance : Text → State t → Option Phone
  find_by_instance instance_id s =
      Table.find_first (Tables.phones t) s.phones (has_instance instance_id)

  unfoldable pub find_phone : Text → State t → Option Phone
  find_phone id s = Table.find_first (Tables.phones t) s.phones (has_phone_id id)

  pub update_phone_status : Text → PhoneStatus → Option ℕ → Action (State t) Unit
  update_phone_status id status at = stored (λ s.
      set_phones t s
        (Table.update (Tables.phones t) s.phones (has_phone_id id) (with_phone_status status at)))

  unfoldable pub emit : SocketEvent → Text → Action (State t) Unit
  emit event tenant_id = stored (λ s.
      some
        (record s { emitted = s.emitted ++ record { event = event; tenant_id = tenant_id } ∷ [] }))

  unfoldable pub jobs_with : WebhookJob → List WebhookJob → Option (List WebhookJob)
  jobs_with job jobs = if Tables.takes_job t job jobs then some (jobs ++ job ∷ []) else none

  pub enqueue_job : WebhookJob → Action (State t) Unit
  unfolding jobs_with
  enqueue_job job = stored (λ s. written (λ jobs. record s { jobs = jobs }) (jobs_with job s.jobs))

  -- The event goes to the phone's tenant, if the phone is still there.
  pub emit_for : SocketEvent → Option Phone → Action (State t) Unit
  emit_for event none = done tt
  emit_for event (some p) = emit event p.tenant_id

  pub handle_qr_code_updated : Text → Members → Action (State t) Unit
  unfolding emit_for
  handle_qr_code_updated phone_id d =
      reads (find_phone phone_id) >>= emit_for (qr_updated phone_id (parse_qr_code d))

  pub emit_status : Text → PhoneStatus → Option Phone → Action (State t) Unit
  emit_status phone_id status none = done tt
  emit_status phone_id status (some p) =
      emit (status_changed phone_id status) p.tenant_id
      >> (when is_connected status then emit (syncing phone_id 0) p.tenant_id else done tt)

  pub handle_connection_update : ℕ → Text → Members → Action (State t) Unit
  unfolding emit_status
  handle_connection_update now phone_id d = do
    let status = parse_connection_status d.state
    update_phone_status phone_id status (if is_connected status then some now else none)
    p ← reads (find_phone phone_id)
    emit_status phone_id status p

  pub handle_messages_set : Text → Members → Action (State t) Unit
  unfolding emit_for
  handle_messages_set phone_id d =
      reads (find_phone phone_id)
      >>= emit_for (sync_progress phone_id (or_else d.progress 0) (or_else d.is_latest false))

  pub emit_message_status : Text → MessageStatus → Option Message → Action (State t) Unit
  emit_message_status phone_id status none = done tt
  emit_message_status phone_id status (some m) =
      reads (find_phone phone_id) >>= emit_for (status_updated m.id m.conversation_id status)

  pub update_messages : Text → Option Text → Option MessageStatus → Action (State t) Unit
  unfolding emit_message_status
  update_messages phone_id key_id none = done tt
  update_messages phone_id key_id (some status) =
      update_status_by_key_id t key_id status >>= emit_message_status phone_id status

  pub handle_messages_update : Text → Payload → Action (State t) Unit
  unfolding update_messages
  handle_messages_update phone_id payload =
      when is_missing payload
      then done tt
      else (when or_else (members_of payload).from_me false
          then update_messages phone_id (members_of payload).key_id
              (mapped_status (members_of payload).status)
          else done tt)

  pub update_contact : Text → Option Text → Action (State t) Unit
  update_contact jid none = done tt
  update_contact jid (some url) =
      when is_individual_jid (some jid)
      then stored (λ s. some (update_profile_pic t (phone_from_jid jid) url s))
      else done tt

  pub contact_found : Option Text → Option Text → Action (State t) Unit
  unfolding update_contact
  contact_found none url = done tt
  contact_found (some jid) url = update_contact jid url

  pub update_contacts : List Members → Action (State t) Unit
  unfolding contact_found
  update_contacts [] = done tt
  update_contacts (d ∷ ds) =
      contact_found (truthy d.remote_jid) (truthy d.profile_pic_url) >> update_contacts ds

  pub handle_contacts_update : Payload → Action (State t) Unit
  unfolding update_contacts
  handle_contacts_update payload = update_contacts (entries payload)

  -- The outer switch, after the events of the queue.
  pub handle_direct : ℕ → Phone → WebhookEvent → Action (State t) Unit
  handle_direct now p e =
      when e.event == text "qrcode.updated"
      then handle_qr_code_updated p.id (members_of e.payload)
      else (when e.event == text "connection.update"
          then handle_connection_update now p.id (members_of e.payload)
          else (when e.event == text "messages.update"
              then handle_messages_update p.id e.payload
              else (when e.event == text "messages.set"
                  then handle_messages_set p.id (members_of e.payload)
                  else (when e.event == text "contacts.update"
                      then handle_contacts_update e.payload
                      else done tt))))

  pub handle_for : ℕ → WebhookEvent → Option Phone → Action (State t) Text
  unfolding handle_direct job_of
  handle_for now e none = done (text "Phone not found, ignoring webhook")
  handle_for now e (some p) =
      when is_queued e.event
      then (enqueue_job (job_of p e) >> done (text "Webhook enqueued"))
      else (handle_direct now p e >> done (text "Webhook processed"))

  pub handle_webhook : ℕ → WebhookEvent → Action (State t) Text
  unfolding handle_for
  handle_webhook now e = reads (find_by_instance e.instance_id) >>= handle_for now e
