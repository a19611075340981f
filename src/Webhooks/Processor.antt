-- ===== src/Webhooks/Processor.antt =====
-- message-processor.service.ts: `processMessage`, one function for each part of it, and
-- `tryMatchQueueResponse`; isLabeledContact of contact-label.service.ts. The picture of a sender and
-- the media of a message come from Evolution, by functions that are parameters: `none` where they
-- throw. The pause of 300 ms has no effect on the state.
pub mod Frame
pub mod Opening
pub mod Unread
pub mod Delivery
pub mod Quiet
pub mod Labeled
mod Tests
use f_chat_backend.Prelude.{
  ℕ, Text, text, ◌==◌, truthy, trim, Option, none, some, List, [], ◌∷◌, ◌++◌, Bool, true, false,
  not, ◌&&◌, ◌||◌, or_else, is_some, if◌then◌else◌, any, nat_eq,
}
use f_chat_backend.Prelude.Actions.{
  Action, Result, ok, failed, remote, done, reads, stored, when◌then◌else◌, ◌>>=◌, ◌>>◌,
}
use f_chat_backend.Prelude.Table.{Table}
use f_chat_backend.Jid.{ends_with, phone_from_jid}
use f_chat_backend.Queue
use f_chat_backend.Queue.{QueueRequest}
use f_chat_backend.Messaging.{Tables, State}
use f_chat_backend.Messaging.Rows.{
  ConversationMode, ai, hitl, LabelStatus, active, draft, Phone, Client, Conversation, Metadata,
  Message, ContactLabel,
}
use f_chat_backend.Messaging.Events.{
  MessageContent, MessageKey, EvolutionMessage, SocketEvent, message_sent, message_incoming,
  AppEvent, ai_incoming_message, queue_response_received, IncomingMessage, Bootstrap,
}
use f_chat_backend.Messaging.Clients.{ClientData, upsert_client, update_profile_pic, has_client_id}
use f_chat_backend.Messaging.Conversations.{
  inbound, outbound, upsert_participant, upsert_individual, upsert_group, update_last_message,
  count_closed, upsert_stats,
}
use f_chat_backend.Messaging.Messages.{
  MessageData, create_message, count_by_conversation_id, find_by_key_id,
}
use f_chat_backend.Webhooks.Content.{
  remote_jid_of, build_client_data, content_of, has_media, MediaData, GroupMeta,
  build_incoming_message_data, build_outgoing_message_data, build_conversation_update, path_of,
}
use f_chat_backend.Webhooks.Handlers.{find_phone, emit}

pub from_me_of : Option MessageKey → Bool
from_me_of none = false
from_me_of (some key) = key.from_me

pub is_group : EvolutionMessage → Bool
is_group m = ends_with (remote_jid_of m.key) (text "@g.us")

pub is_ignored : MessageContent → Bool
is_ignored c = c.has_reaction_message || c.has_protocol_message || c.has_poll_update_message

pub sender_of_key : Option MessageKey → Text
sender_of_key none = []
sender_of_key (some key) =
    let raw = or_else key.participant [] in
    if ends_with raw (text "@lid") then or_else (truthy key.participant_alt) raw else raw

pub sender_phone_of : EvolutionMessage → Text
unfolding sender_of_key
sender_phone_of m = phone_from_jid (sender_of_key m.key)

pub sender_name_of : EvolutionMessage → Text
unfolding sender_phone_of
sender_name_of m = or_else (truthy m.push_name) (sender_phone_of m)

-- The values of the enum are texts.
pub mode_text : ConversationMode → Text
mode_text ai = text "AI"
mode_text hitl = text "HITL"

pub is_active_label : LabelStatus → Bool
is_active_label active = true
is_active_label draft = false

-- The ids of the rows that may be made.
pub record Fresh : Type 0 where
  pub client_id : Text
  pub conversation_id : Text
  pub message_id : Text

-- What the first half of `processMessage` leaves in its variables.
pub record Opened : Type 0 where
  pub conversation : Conversation
  pub client_phone : Option Text
  pub client_name : Option Text
  pub sender_name : Text
  pub sender_profile_pic_url : Option Text

pub record Sender : Type 0 where
  pub name : Text
  pub picture : Option Text

pub group_meta : EvolutionMessage → Opened → Option GroupMeta
group_meta m o =
    if is_group m && not (from_me_of m.key)
    then some (record {
      sender_jid = some (sender_of_key m.key);
      sender_name = some o.sender_name;
      sender_profile_pic_url = o.sender_profile_pic_url;
    })
    else none

pub data_of : EvolutionMessage → Opened → Option MediaData → MessageData
data_of m o media =
    if from_me_of m.key
    then build_outgoing_message_data m o.conversation.id media
    else build_incoming_message_data m o.conversation.id media (group_meta m o)

-- direction === 'inbound' && conversation.mode === 'hitl'
pub increments_unread : EvolutionMessage → Opened → Bool
increments_unread m o = not (from_me_of m.key) && (mode_text o.conversation.mode == text "hitl")

pub socket_event : EvolutionMessage → Opened → Message → SocketEvent
socket_event m o saved =
    if from_me_of m.key
    then message_sent saved true
    else message_incoming saved
        (if is_group m
          then o.conversation.group_name
          else some (or_else o.client_name o.sender_name))
        (if is_group m then some o.sender_name else none)

pub quoted_of : Option Metadata → Option Text
quoted_of none = none
quoted_of (some d) = d.quoted_message_id

pub in_quotes : Text → Text
in_quotes s = text "\"" ++ s ++ text "\""

-- quotedDesc
pub describe : Message → Text
describe q =
    (if is_some (truthy q.media_url)
      then text "imagen" ++ or_else (in_some (truthy (some q.content))) []
      else in_quotes q.content)
    ++ text " [messageId:"
    ++ q.id
    ++ text "]"
  where
    in_some : Option Text → Option Text
    in_some none = none
    in_some (some c) = some (text ": " ++ in_quotes c)

pub with_quote : Text → Option Message → Text
with_quote content none = content
with_quote content (some q) =
    trim (content ++ text "\n[El cliente está citando el mensaje: " ++ describe q ++ text "]")

pub media_metadata_of : Option MediaData → Option (Text × Text)
media_metadata_of none = none
media_metadata_of (some d) = some (d.file_name, d.mime_type)

-- if (quotedKeyId), with the message that has this key
pub quoted_key : Message → Option Text
unfolding quoted_of
quoted_key m = truthy (quoted_of m.metadata)

-- messageKey.id, as it is
pub raw_key_id : Option MessageKey → Option Text
raw_key_id none = none
raw_key_id (some key) = some key.id

module _ (t : Tables) where
  pub on_queue : {A : Type 0} → Action (Queue.State (Tables.requests t)) A → Action (State t) A
  on_queue a s = ((a s.queue).0, record s { queue = (a s.queue).1 })

  pub publish : AppEvent → Action (State t) Unit
  publish e = stored (λ s. some (record s { events = s.events ++ e ∷ [] }))

  pub bootstrap : Bootstrap → Action (State t) Unit
  bootstrap b = stored (λ s. some (record s { bootstraps = s.bootstraps ++ b ∷ [] }))

  pub belongs_to : State t → Text → ContactLabel → Bool
  belongs_to s number l = elim l.client_id [
    | none ↦ false
    | some id ↦
        any (λ (c : Client). has_client_id id c && c.phone_number == number)
          (Table.rows (Tables.clients t) s.clients)
  ]

  -- isLabeledContact: findByClientPhone finds a label
  pub is_labeled : Text → State t → Bool
  is_labeled number s =
      any (λ l. belongs_to s number l && not (is_some l.group_jid) && is_active_label l.status)
        (Table.rows (Tables.labels t) s.labels)

  pub matched : Message → Option QueueRequest → Action (State t) Bool
  matched m none = done false
  matched m (some q) = publish (queue_response_received q.id m.id) >> done true

  pub try_match_queue_response : ℕ → Message → Action (State t) Bool
  unfolding matched
  try_match_queue_response now m =
      on_queue (Queue.handle_response (Tables.requests t) now m.content (quoted_of m.metadata))
      >>= matched m

  -- What follows the saving of a message.
  module _ (now : ℕ) (p : Phone) (instance_name : Text) (media : Option MediaData) where
    pub incoming_message : Text → Opened → Message → State t → IncomingMessage
    incoming_message number o m s = record {
      message_id = m.id;
      conversation_id = o.conversation.id;
      instance_name = instance_name;
      client_phone = number;
      tenant_id = p.tenant_id;
      message_type = m.type;
      content = with_quote m.content (find_by_key_id t (quoted_key m) s);
      media_path = path_of media;
      media_metadata = media_metadata_of media;
    }

    pub ask_agent : Text → Opened → Message → Action (State t) Unit
    ask_agent number o m =
        when mode_text o.conversation.mode == text "AI"
        then (reads (incoming_message number o m) >>= λ i. publish (ai_incoming_message i))
        else done tt

    pub dispatch_individual : Opened → Message → Option Text → Action (State t) Unit
    unfolding ask_agent
    dispatch_individual o m none = done tt
    dispatch_individual o m (some number) = do
      labeled ← reads (is_labeled number)
      (when labeled then (try_match_queue_response now m >> done tt) else ask_agent number o m)

    pub dispatch : EvolutionMessage → Opened → Message → Action (State t) Unit
    unfolding dispatch_individual
    dispatch e o m =
        when from_me_of e.key
        then done tt
        else (when is_group e
            then (try_match_queue_response now m >> done tt)
            else dispatch_individual o m (truthy o.client_phone))

    pub after_saved : EvolutionMessage → Opened → Message → Action (State t) Unit
    after_saved e o m = do
      update_last_message t o.conversation.id (build_conversation_update m.content m.created_at)
      upsert_stats t o.conversation.id (if from_me_of e.key then outbound else inbound)
          (increments_unread e o)
      emit t (socket_event e o m) p.tenant_id
      dispatch e o m

  -- What Evolution answers: `none` where it throws.
  pub fetched_picture : Text → Option (Option Text) → Action (State t) (Option Text)
  fetched_picture jid none s = (failed remote, s)
  fetched_picture jid (some none) s = (ok none, s)
  fetched_picture jid (some (some url)) s =
      (ok (some url), update_profile_pic t (phone_from_jid jid) url s)

  module _ (fetch_picture : Text → Text → Option (Option Text))
      (download : Text → Text → Text → Text → Option MediaData) where
    pub picture_of : Text → Text → Option Text → Action (State t) (Option Text)
    unfolding fetched_picture
    picture_of instance_name jid (some url) = done (some url)
    picture_of instance_name jid none = fetched_picture jid (fetch_picture instance_name jid)

    -- The sender of a group's message.
    pub group_sender : ℕ → Fresh → Text → Conversation → EvolutionMessage → Action (State t) Sender
    unfolding picture_of
    group_sender now ids instance_name c m = do
      sender ← upsert_client t now ids.client_id (record {
        phone_number = sender_phone_of m;
        name = sender_name_of m;
        profile_pic_url = none;
      })
      upsert_participant t c.id sender.id
      picture ← picture_of instance_name (sender_of_key m.key) (truthy sender.profile_pic_url)
      done (record { name = or_else (truthy sender.name) (sender_name_of m); picture = picture })

    pub open_group : ℕ → Fresh → Phone → Text → EvolutionMessage → Action (State t) Opened
    unfolding group_sender
    open_group now ids p instance_name m = do
      c ← upsert_group t now ids.conversation_id p.id (remote_jid_of m.key)
      sender ←
          (when from_me_of m.key
            then done (record { name = sender_name_of m; picture = none })
            else group_sender now ids instance_name c m)
      n ← reads (count_by_conversation_id t c.id)
      (when nat_eq n 0
          then bootstrap (record {
            conversation_id = c.id;
            instance_name = instance_name;
            remote_jid = remote_jid_of m.key;
            tenant_id = p.tenant_id;
          })
          else done tt)
      done (record {
        conversation = c;
        client_phone = none;
        client_name = none;
        sender_name = sender.name;
        sender_profile_pic_url = sender.picture;
      })

    pub bootstrap_client : Phone → Text → Conversation → Text → Text → Action (State t) Unit
    bootstrap_client p instance_name c client_id number = do
      n ← reads (count_by_conversation_id t c.id)
      closed ← reads (count_closed t p.id client_id)
      (when nat_eq n 0 && nat_eq closed 0
          then bootstrap (record {
            conversation_id = c.id;
            instance_name = instance_name;
            remote_jid = number ++ text "@s.whatsapp.net";
            tenant_id = p.tenant_id;
          })
          else done tt)

    pub open_individual : ℕ → Fresh → Phone → Text → EvolutionMessage → Action (State t) Opened
    unfolding bootstrap_client
    open_individual now ids p instance_name m = do
      let d = build_client_data m (from_me_of m.key)
      client ← upsert_client t now ids.client_id d
      c ← upsert_individual t now ids.conversation_id p.id client.id true
      bootstrap_client p instance_name c client.id d.phone_number
      done (record {
        conversation = c;
        client_phone = some d.phone_number;
        client_name = client.name;
        sender_name = sender_name_of m;
        sender_profile_pic_url = none;
      })

    -- A download that throws is logged, and the message is saved with no media.
    pub media_of : Phone → Text → Opened → EvolutionMessage → Option MediaData
    media_of p instance_name o m = elim m.key [
      | none ↦ none
      | some key ↦
          if has_media (content_of m)
          then download instance_name p.tenant_id o.conversation.id key.id
          else none
    ]

    pub save_message : ℕ → Fresh → Phone → Text → EvolutionMessage → Opened → Action (State t) Unit
    save_message now ids p instance_name e o = do
      let media = media_of p instance_name o e
      m ← create_message t now ids.message_id (data_of e o media)
      after_saved now p instance_name media e o m

    pub process_new : ℕ → Fresh → Text → EvolutionMessage → Phone → Action (State t) Unit
    unfolding open_group open_individual save_message
    process_new now ids instance_name m p =
        (when is_group m
          then open_group now ids p instance_name m
          else open_individual now ids p instance_name m)
        >>= save_message now ids p instance_name m

    pub echo_found :
        ℕ → Fresh → Text → EvolutionMessage → Phone → Option Message → Action (State t) Unit
    unfolding process_new
    echo_found now ids instance_name m p none = process_new now ids instance_name m p
    echo_found now ids instance_name m p (some saved) =
        emit t (message_sent saved false) p.tenant_id
        >> upsert_stats t saved.conversation_id outbound false

    pub process_for : ℕ → Fresh → Text → EvolutionMessage → Option Phone → Action (State t) Unit
    unfolding echo_found raw_key_id
    process_for now ids instance_name m none = done tt
    process_for now ids instance_name m (some p) =
        when from_me_of m.key
        then (reads (find_by_key_id t (raw_key_id m.key)) >>= echo_found now ids instance_name m p)
        else process_new now ids instance_name m p

    pub process_message : ℕ → Fresh → Text → Text → EvolutionMessage → Action (State t) Unit
    unfolding process_for
    process_message now ids phone_id instance_name m =
        when is_ignored (content_of m)
        then done tt
        else (reads (find_phone t phone_id) >>= process_for now ids instance_name m)
