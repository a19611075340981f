-- ===== src/Messaging/Messages.antt =====
-- src/common/messaging/repositories/message.repository.ts: the methods on single messages, and
-- those that change many. `metadata->>'keyId' = …` on a key that is absent finds nothing.
use f_chat_backend.Prelude.{
  ℕ, Text, ◌==◌, includes, Option, none, some, List, [], ◌∷◌, Bool, true, false, ◌&&◌, not, any,
  keep, length, is_some,
}
use f_chat_backend.Prelude.Actions.{Action, done, reads, stored, transaction, ◌>>=◌, ◌>>◌}
use f_chat_backend.Prelude.Table.{Table}
use f_chat_backend.Messaging.{Tables, State, set_messages}
use f_chat_backend.Messaging.Rows.{
  MessageType, MessageDirection, incoming, outgoing, MessageSenderType, MessageStatus, pending,
  Metadata, Conversation, Message, equals,
}
use f_chat_backend.Messaging.Conversations.{ConversationUpdate, update_last_message}

-- What `create` and `sendMessageTransaction` are given.
pub record MessageData : Type 0 where
  pub conversation_id : Text
  pub type : MessageType
  pub content : Text
  pub media_url : Option Text
  pub file_name : Option Text
  pub file_size : Option ℕ
  pub mime_type : Option Text
  pub direction : MessageDirection
  pub sender_type : MessageSenderType
  pub status : MessageStatus
  pub metadata : Option Metadata

unfoldable pub message_row : ℕ → Text → MessageData → Message
message_row now id d = record {
  id = id;
  conversation_id = d.conversation_id;
  type = d.type;
  content = d.content;
  media_url = d.media_url;
  file_name = d.file_name;
  file_size = d.file_size;
  mime_type = d.mime_type;
  direction = d.direction;
  sender_type = d.sender_type;
  status = d.status;
  metadata = d.metadata;
  transcription = none;
  analyzed_at = none;
  created_at = now;
}

unfoldable pub has_message_id : Text → Message → Bool
has_message_id id m = m.id == id

unfoldable pub key_of : Option Metadata → Option Text
key_of none = none
key_of (some d) = d.key_id

unfoldable pub has_key_id : Text → Message → Bool
unfolding key_of
has_key_id key_id m = equals (key_of m.metadata) key_id

pub is_outgoing : MessageDirection → Bool
is_outgoing outgoing = true
is_outgoing incoming = false

pub is_pending : MessageStatus → Bool
is_pending pending = true
is_pending _ = false

unfoldable pub with_status : MessageStatus → Message → Message
with_status status m = record m { status = status }

pub is_unanalyzed_of : Text → Message → Bool
is_unanalyzed_of conversation_id m =
    m.conversation_id == conversation_id && not (is_some m.analyzed_at)

module _ (t : Tables) where
  unfoldable pub message_rows : State t → List Message
  message_rows s = Table.rows (Tables.messages t) s.messages

  unfoldable pub find_message : (Message → Bool) → State t → Option Message
  find_message p s = Table.find_first (Tables.messages t) s.messages p

  unfoldable pub create_message : ℕ → Text → MessageData → Action (State t) Message
  create_message now id d =
      stored
        (λ s. set_messages t s (Table.create (Tables.messages t) s.messages (message_row now id d)))
      >> done (message_row now id d)

  -- sendMessageTransaction
  pub send_message_transaction :
      ℕ → Text → MessageData → ConversationUpdate → Action (State t) Message
  send_message_transaction now id d u =
      transaction do m ← create_message now id d; update_last_message t d.conversation_id u; done m

  unfoldable pub update_message : Text → (Message → Message) → Action (State t) Unit
  update_message id f =
      stored
        (λ s. set_messages t s (Table.update (Tables.messages t) s.messages (has_message_id id) f))

  -- updateStatus
  pub update_message_status : Text → MessageStatus → Action (State t) Unit
  update_message_status id status = update_message id (with_status status)

  unfoldable pub count_by_conversation_id : Text → State t → ℕ
  count_by_conversation_id id s = length (keep (λ m. m.conversation_id == id) (message_rows s))

  pub key_ids_of : List Message → List Text
  key_ids_of [] = []
  key_ids_of (m ∷ ms) = elim (key_of m.metadata) [
    | none ↦ key_ids_of ms
    | some k ↦ k ∷ key_ids_of ms
  ]

  -- findKeyIdsByConversationId; the list is read by `has` only.
  pub find_key_ids : Text → State t → List Text
  find_key_ids id s = key_ids_of (keep (λ m. m.conversation_id == id) (message_rows s))

  -- findByMetadataKeyId
  unfoldable pub find_by_key_id : Option Text → State t → Option Message
  find_by_key_id none s = none
  find_by_key_id (some key_id) s = elim (find_message (has_key_id key_id) s) [
    | none ↦ none
    | some m ↦ find_message (has_message_id m.id) s
  ]

  unfoldable pub status_found : MessageStatus → Option Message → Action (State t) (Option Message)
  status_found status none = done none
  status_found status (some m) =
      update_message m.id (with_status status) >> done (some (with_status status m))

  unfoldable pub find_by_key : Option Text → State t → Option Message
  find_by_key none s = none
  find_by_key (some key_id) s = find_message (has_key_id key_id) s

  -- updateStatusByKeyId
  unfoldable pub update_status_by_key_id :
      Option Text → MessageStatus → Action (State t) (Option Message)
  unfolding status_found find_by_key
  update_status_by_key_id key_id status = reads (find_by_key key_id) >>= status_found status

  pub mark_as_analyzed : ℕ → List Text → State t → State t
  mark_as_analyzed now ids s = record s {
    messages =
        Table.update_many (Tables.messages t) s.messages (λ m. includes ids m.id)
          (λ m. record m { analyzed_at = some now });
  }

  pub count_unanalyzed : Text → State t → ℕ
  count_unanalyzed id s = length (keep (is_unanalyzed_of id) (message_rows s))

  pub update_transcription : Text → Text → Action (State t) Unit
  update_transcription id transcription =
      update_message id (λ m. record m { transcription = some transcription })

  pub update_conversation_id : List Text → Text → State t → State t
  update_conversation_id ids conversation_id s = record s {
    messages =
        Table.update_many (Tables.messages t) s.messages (λ m. includes ids m.id)
          (λ m. record m { conversation_id = conversation_id });
  }

  pub is_pending_of_phone : State t → Text → Message → Bool
  is_pending_of_phone s phone_id m =
      any (λ (c : Conversation). c.id == m.conversation_id && c.phone_id == phone_id)
        (Table.rows (Tables.conversations t) s.conversations)
      && is_outgoing m.direction
      && is_pending m.status

  -- updateLatestPendingOutgoingMessage
  pub update_latest_pending : Text → MessageStatus → Action (State t) (Option Message)
  unfolding status_found
  update_latest_pending phone_id status =
      reads (λ s. find_message (is_pending_of_phone s phone_id) s) >>= status_found status
