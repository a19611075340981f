-- ===== src/Messaging/Events.antt =====
-- The shapes of Evolution's webhooks (src/modules/webhooks/types/evolution-webhook.types.ts and
-- EvolutionMessage of src/common/evolution/evolution.service.ts), the job of phone-queue.service.ts,
-- and what the services emit. An absent member is `none`; of the kinds of message that are ignored
-- only their presence is read.
use f_chat_backend.Prelude.{ℕ, Text, Option, List, Bool}
use f_chat_backend.Messaging.Rows.{PhoneStatus, MessageStatus, MessageType, Message}

pub record ContextInfo : Type 0 where
  pub stanza_id : Option Text

pub record ExtendedTextMessage : Type 0 where
  pub text_of : Option Text
  pub context_info : Option ContextInfo

-- imageMessage and videoMessage
pub record CaptionedMessage : Type 0 where
  pub caption : Option Text
  pub context_info : Option ContextInfo

pub record AudioMessage : Type 0 where
  pub context_info : Option ContextInfo

pub record DocumentMessage : Type 0 where
  pub caption : Option Text
  pub file_name : Option Text
  pub context_info : Option ContextInfo

pub record MessageContent : Type 0 where
  pub conversation : Option Text
  pub extended_text_message : Option ExtendedTextMessage
  pub image_message : Option CaptionedMessage
  pub video_message : Option CaptionedMessage
  pub audio_message : Option AudioMessage
  pub document_message : Option DocumentMessage
  pub has_reaction_message : Bool
  pub has_protocol_message : Bool
  pub has_poll_update_message : Bool

pub record MessageKey : Type 0 where
  pub remote_jid : Text
  pub from_me : Bool
  pub id : Text
  pub participant : Option Text
  pub participant_alt : Option Text

pub record EvolutionMessage : Type 0 where
  pub key : Option MessageKey
  pub message : Option MessageContent
  pub push_name : Option Text
  pub context_info : Option ContextInfo
  pub profile_pic_url : Option Text

-- The members of the objects that the direct events carry: those of ConnectionUpdateData,
-- QrCodeUpdateData, MessagesSetData, MessagesUpdateData and ContactUpdateEntry.
pub record Members : Type 0 where
  pub state : Option Text
  pub qrcode : Option Text
  pub qr : Option Text
  pub is_latest : Option Bool
  pub progress : Option ℕ
  pub key_id : Option Text
  pub status : Option Text
  pub from_me : Option Bool
  pub remote_jid : Option Text
  pub profile_pic_url : Option Text

-- `data` of an event: nothing, an object, an array of objects, or a message.
pub data Payload : Type 0 where
  missing : Payload
  members : Members → Payload
  array : List Members → Payload
  message : EvolutionMessage → Payload

pub record WebhookEvent : Type 0 where
  pub event : Text
  pub instance_id : Text
  pub payload : Payload

pub data JobType : Type 0 where
  process_message_job sync_contacts sync_group sync_chats : JobType

pub record WebhookJob : Type 0 where
  pub type : JobType
  pub phone_id : Text
  pub tenant_id : Text
  pub instance_name : Text
  pub webhook_data : WebhookEvent

pub data SocketEvent : Type 0 where
  qr_updated : (phone_id qr_code : Text) → SocketEvent
  status_changed : (phone_id : Text) (status : PhoneStatus) → SocketEvent
  syncing : (phone_id : Text) (contacts_count : ℕ) → SocketEvent
  sync_progress : (phone_id : Text) (progress : ℕ) (is_latest : Bool) → SocketEvent
  status_updated : (message_id conversation_id : Text) (status : MessageStatus) → SocketEvent
  message_sent : (sent : Message) (from_external : Bool) → SocketEvent
  message_incoming :
      (received : Message) (conversation_name sender_name : Option Text) → SocketEvent

-- websocketGateway.emit(event, payload, tenantId)
pub record Emission : Type 0 where
  pub event : SocketEvent
  pub tenant_id : Text

pub record IncomingMessage : Type 0 where
  pub message_id : Text
  pub conversation_id : Text
  pub instance_name : Text
  pub client_phone : Text
  pub tenant_id : Text
  pub message_type : MessageType
  pub content : Text
  pub media_path : Option Text
  pub media_metadata : Option (Text × Text)

-- eventEmitter.emit
pub data AppEvent : Type 0 where
  ai_incoming_message : IncomingMessage → AppEvent
  queue_response_received : (request_id message_id : Text) → AppEvent

-- bootstrapMessagesInBackground
pub record Bootstrap : Type 0 where
  pub conversation_id : Text
  pub instance_name : Text
  pub remote_jid : Text
  pub tenant_id : Text
