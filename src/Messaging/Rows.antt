-- ===== src/Messaging/Rows.antt =====
-- The models Phone, Client, Conversation, ConversationParticipant, ConversationStats, Message and
-- ContactLabel of src/prisma/schema.prisma, with the enums that they use. `metadata` of a message
-- has the members of message-metadata.ts.
use f_chat_backend.Prelude.{ℕ, Text, ◌==◌, Option, none, some, Bool, false}

pub data PhoneStatus : Type 0 where
  connected disconnected pending : PhoneStatus

pub data ConversationMode : Type 0 where
  ai hitl : ConversationMode

pub data ConversationType : Type 0 where
  individual group : ConversationType

pub data MessageType : Type 0 where
  text_type voice image video audio document : MessageType

pub data MessageDirection : Type 0 where
  incoming outgoing : MessageDirection

pub data MessageSenderType : Type 0 where
  client agent bot system : MessageSenderType

pub data MessageStatus : Type 0 where
  pending sent delivered read failed : MessageStatus

pub data LabelStatus : Type 0 where
  active draft : LabelStatus

pub record Phone : Type 0 where
  pub id : Text
  pub tenant_id : Text
  pub phone_number : Text
  pub instance_name : Text
  pub evolution_instance_id : Text
  pub status : PhoneStatus
  pub qr_code : Option Text
  pub last_connected : Option ℕ

pub record Client : Type 0 where
  pub id : Text
  pub phone_number : Text
  pub name : Option Text
  pub profile_pic_url : Option Text
  pub last_contact_at : ℕ

pub record Conversation : Type 0 where
  pub id : Text
  pub phone_id : Text
  pub type : ConversationType
  pub group_jid : Option Text
  pub group_name : Option Text
  pub mode : ConversationMode
  pub last_message_at : ℕ
  pub last_message_preview : Option Text
  pub is_active : Bool
  pub summary : Option Text

pub record Participant : Type 0 where
  pub conversation_id : Text
  pub client_id : Text

-- The direction is the text that `upsertStats` writes.
pub record Stats : Type 0 where
  pub conversation_id : Text
  pub last_message_direction : Option Text
  pub unread_count : ℕ

pub record Metadata : Type 0 where
  pub key_id : Option Text
  pub quoted_message_id : Option Text
  pub sender_jid : Option Text
  pub sender_name : Option Text
  pub sender_profile_pic_url : Option Text

pub record Message : Type 0 where
  pub id : Text
  pub conversation_id : Text
  pub type : MessageType
  pub content : Text
  pub media_url : Option Text
  pub file_name : Option Text
  pub file_size : Option ℕ
  pub mime_type : Option Text
  pub direction : MessageDirection
  pub sender_type : MessageSenderType
  pub status : MessageStatus
  pub metadata : Option Metadata
  pub transcription : Option Text
  pub analyzed_at : Option ℕ
  pub created_at : ℕ

pub record ContactLabel : Type 0 where
  pub id : Text
  pub tenant_id : Text
  pub label : Text
  pub client_id : Option Text
  pub group_jid : Option Text
  pub status : LabelStatus

-- A nullable column that is compared with a text.
unfoldable pub equals : Option Text → Text → Bool
equals none x = false
equals (some y) x = y == x
