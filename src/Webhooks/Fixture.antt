-- ===== src/Webhooks/Fixture.antt =====
-- A phone, a contact with a label, and a message that was sent to it, for the tests.
use f_chat_backend.Prelude.{Text, text, ◌==◌, Option, none, some, [], ◌∷◌, true, false, ◌&&◌, ◌||◌}
use f_chat_backend.Prelude.Table.{list_table}
use f_chat_backend.Queue.{QueueRequest}
use f_chat_backend.Messaging.{Tables, State}
use f_chat_backend.Messaging.Rows.{
  connected, hitl, individual, text_type, outgoing, agent, read, active, Phone, Client,
  Conversation, Participant, Stats, Message, ContactLabel,
}
use f_chat_backend.Messaging.Events.{EvolutionMessage, members, message, WebhookEvent}
use f_chat_backend.Webhooks.Content.{MediaData, no_content}
use f_chat_backend.Webhooks.Handlers.{no_members}
use f_chat_backend.Webhooks.Processor.{Fresh}

abbrev pub tables : Tables
tables = record {
  phones =
      list_table
        (λ (x y : Phone). x.id == y.id || x.evolution_instance_id == y.evolution_instance_id);
  clients = list_table (λ (x y : Client). x.id == y.id || x.phone_number == y.phone_number);
  conversations = list_table (λ (x y : Conversation). x.id == y.id);
  participants =
      list_table (λ (x y : Participant).
        x.conversation_id == y.conversation_id && x.client_id == y.client_id);
  stats = list_table (λ (x y : Stats). x.conversation_id == y.conversation_id);
  messages = list_table (λ (x y : Message). x.id == y.id);
  labels = list_table (λ (x y : ContactLabel). x.id == y.id);
  requests = list_table (λ (x y : QueueRequest). x.id == y.id);
  takes_job = λ job jobs. true;
}

abbrev pub phone : Phone
phone = record {
  id = text "p1";
  tenant_id = text "t1";
  phone_number = text "51";
  instance_name = text "main";
  evolution_instance_id = text "i1";
  status = connected;
  qr_code = none;
  last_connected = none;
}

abbrev pub contact : Client
contact = record {
  id = text "k1";
  phone_number = text "52";
  name = some (text "Ana");
  profile_pic_url = none;
  last_contact_at = 1;
}

abbrev pub talk : Conversation
talk = record {
  id = text "c1";
  phone_id = text "p1";
  type = individual;
  group_jid = none;
  group_name = none;
  mode = hitl;
  last_message_at = 1;
  last_message_preview = none;
  is_active = true;
  summary = none;
}

abbrev pub answer : Message
answer = record {
  id = text "m1";
  conversation_id = text "c1";
  type = text_type;
  content = text "hola";
  media_url = none;
  file_name = none;
  file_size = none;
  mime_type = none;
  direction = outgoing;
  sender_type = agent;
  status = read;
  metadata = some (record {
    key_id = some (text "w1");
    quoted_message_id = none;
    sender_jid = none;
    sender_name = none;
    sender_profile_pic_url = none;
  });
  transcription = none;
  analyzed_at = none;
  created_at = 1;
}

abbrev pub counted : Stats
counted = record { conversation_id = text "c1"; last_message_direction = none; unread_count = 2 }

abbrev pub supervisor : ContactLabel
supervisor = record {
  id = text "l1";
  tenant_id = text "t1";
  label = text "supervisor";
  client_id = some (text "k1");
  group_jid = none;
  status = active;
}

abbrev pub state : State tables
state = record {
  phones = phone ∷ [];
  clients = contact ∷ [];
  conversations = talk ∷ [];
  participants = record { conversation_id = text "c1"; client_id = text "k1" } ∷ [];
  stats = counted ∷ [];
  messages = answer ∷ [];
  labels = supervisor ∷ [];
  queue = record { requests = []; messages = []; events = [] };
  jobs = [];
  emitted = [];
  events = [];
  bootstraps = [];
}

-- The answer was read, and then the notice that it was delivered arrives.
abbrev pub late_notice : WebhookEvent
late_notice = record {
  event = text "messages.update";
  instance_id = text "i1";
  payload = members (record no_members {
    key_id = some (text "w1");
    status = some (text "DELIVERY_ACK");
    from_me = some true;
  });
}

abbrev pub greeting : EvolutionMessage
greeting = record {
  key = some (record {
    remote_jid = text "52@s.whatsapp.net";
    from_me = false;
    id = text "w2";
    participant = none;
    participant_alt = none;
  });
  message = some (record no_content { conversation = some (text "buenas") });
  push_name = some (text "Ana");
  context_info = none;
  profile_pic_url = none;
}

abbrev pub upsert : WebhookEvent
upsert = record {
  event = text "messages.upsert";
  instance_id = text "i1";
  payload = message greeting;
}

abbrev pub fresh : Fresh
fresh = record { client_id = text "k2"; conversation_id = text "c2"; message_id = text "m2" }

abbrev pub fetch_picture : Text → Text → Option (Option Text)
fetch_picture instance_name jid = none

abbrev pub download : Text → Text → Text → Text → Option MediaData
download instance_name tenant_id conversation_id key_id = none
