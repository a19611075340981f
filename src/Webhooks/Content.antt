-- ===== src/Webhooks/Content.antt =====
-- The functions of webhooks.service.ts that only read an event: parseConnectionStatus,
-- parseQrCode, buildClientData, hasMedia, the builders of messages, extractQuotedStanzaId and
-- buildConversationUpdate; and parseMessageContent of src/common/evolution/evolution.service.ts.
pub mod Laws
mod Tests
use f_chat_backend.Prelude.{
  ℕ, Text, text, ◌==◌, truthy, Option, none, some, List, [], ◌∷◌, Bool, true, false, ◌||◌, or_else,
  is_some, if◌then◌else◌, take,
}
use f_chat_backend.Jid.{phone_from_jid}
use f_chat_backend.Messaging.Rows.{
  PhoneStatus, connected, disconnected, MessageType, text_type, voice, image, video, document,
  incoming, outgoing, client, agent, delivered, sent, Metadata,
}
use f_chat_backend.Messaging.Events.{
  ContextInfo, ExtendedTextMessage, CaptionedMessage, AudioMessage, DocumentMessage, MessageContent,
  MessageKey, EvolutionMessage, Members,
}
use f_chat_backend.Messaging.Clients.{ClientData}
use f_chat_backend.Messaging.Conversations.{ConversationUpdate}
use f_chat_backend.Messaging.Messages.{MessageData}

pub parse_connection_status : Option Text → PhoneStatus
parse_connection_status none = disconnected
parse_connection_status (some state) = if state == text "open" then connected else disconnected

-- The first that is not empty, of `a || b || ''`.
pub parse_qr_code : Members → Text
parse_qr_code d = or_else (truthy d.qrcode) (or_else (truthy d.qr) [])

unfoldable pub remote_jid_of : Option MessageKey → Text
remote_jid_of none = []
remote_jid_of (some key) = key.remote_jid

unfoldable pub build_client_data : EvolutionMessage → Bool → ClientData
unfolding remote_jid_of
build_client_data m from_me = record {
  phone_number = phone_from_jid (remote_jid_of m.key);
  name = if from_me then text "Unknown" else or_else (truthy m.push_name) (text "Unknown");
  profile_pic_url = truthy m.profile_pic_url;
}

-- webhookData.data.message || {}
unfoldable pub no_content : MessageContent
no_content = record {
  conversation = none;
  extended_text_message = none;
  image_message = none;
  video_message = none;
  audio_message = none;
  document_message = none;
  has_reaction_message = false;
  has_protocol_message = false;
  has_poll_update_message = false;
}

unfoldable pub content_of : EvolutionMessage → MessageContent
unfolding no_content
content_of m = or_else m.message no_content

unfoldable pub has_media : MessageContent → Bool
has_media c =
    is_some c.image_message
    || is_some c.video_message
    || is_some c.audio_message
    || is_some c.document_message

pub record ParsedMessageContent : Type 0 where
  pub type : MessageType
  pub content : Text
  pub has_media_file : Bool

unfoldable pub parsed : MessageType → Text → Bool → ParsedMessageContent
parsed type content media = record { type = type; content = content; has_media_file = media }

unfoldable pub parse_document : Option DocumentMessage → ParsedMessageContent
unfolding parsed
parse_document none = parsed text_type [] false
parse_document (some d) = parsed document (or_else d.caption (or_else d.file_name [])) true

unfoldable pub parse_audio : Option AudioMessage → ParsedMessageContent → ParsedMessageContent
unfolding parsed
parse_audio none rest = rest
parse_audio (some a) rest = parsed voice [] true

unfoldable pub parse_captioned :
    MessageType → Option CaptionedMessage → ParsedMessageContent → ParsedMessageContent
unfolding parsed
parse_captioned type none rest = rest
parse_captioned type (some i) rest = parsed type (or_else i.caption []) true

unfoldable pub parse_extended :
    Option ExtendedTextMessage → ParsedMessageContent → ParsedMessageContent
unfolding parsed
parse_extended none rest = rest
parse_extended (some e) rest = parsed text_type (or_else e.text_of []) false

unfoldable pub parse_conversation : Option Text → ParsedMessageContent → ParsedMessageContent
unfolding parsed
parse_conversation none rest = rest
parse_conversation (some c) rest = parsed text_type c false

-- The chain of `else if`, from the last test up to the first.
unfoldable pub parse_message_content : MessageContent → ParsedMessageContent
unfolding parse_conversation parse_extended parse_captioned parse_audio parse_document
parse_message_content c = parse_conversation (truthy c.conversation) (
    parse_extended c.extended_text_message (
      parse_captioned image c.image_message (
        parse_captioned video c.video_message
          (parse_audio c.audio_message (parse_document c.document_message)))))

-- contextInfo?.stanzaId, where the empty id counts as absent
unfoldable pub stanza_of : Option ContextInfo → Option Text
stanza_of none = none
stanza_of (some i) = truthy i.stanza_id

unfoldable pub context_of_text : Option ExtendedTextMessage → Option ContextInfo
context_of_text none = none
context_of_text (some e) = e.context_info

unfoldable pub context_of_captioned : Option CaptionedMessage → Option ContextInfo
context_of_captioned none = none
context_of_captioned (some i) = i.context_info

unfoldable pub context_of_audio : Option AudioMessage → Option ContextInfo
context_of_audio none = none
context_of_audio (some a) = a.context_info

unfoldable pub context_of_document : Option DocumentMessage → Option ContextInfo
context_of_document none = none
context_of_document (some d) = d.context_info

unfoldable pub contexts : MessageContent → List (Option ContextInfo)
unfolding context_of_text context_of_captioned context_of_audio context_of_document
contexts c =
    context_of_text c.extended_text_message
    ∷ context_of_captioned c.image_message
    ∷ context_of_captioned c.video_message
    ∷ context_of_audio c.audio_message
    ∷ context_of_document c.document_message
    ∷ []

-- The loop over the kinds, and what follows it.
unfoldable pub first_stanza : List (Option ContextInfo) → Option ContextInfo → Option Text
unfolding stanza_of
first_stanza [] top = stanza_of top
first_stanza (c ∷ cs) top = elim (stanza_of c) [ none ↦ first_stanza cs top | some id ↦ some id ]

unfoldable pub extract_quoted_stanza_id : MessageContent → Option ContextInfo → Option Text
unfolding contexts first_stanza
extract_quoted_stanza_id c top = first_stanza (contexts c) top

pub record MediaData : Type 0 where
  pub relative_path : Text
  pub file_name : Text
  pub file_size : ℕ
  pub mime_type : Text

pub record GroupMeta : Type 0 where
  pub sender_jid : Option Text
  pub sender_name : Option Text
  pub sender_profile_pic_url : Option Text

-- Object.keys(metadata).length > 0 ? metadata : null
unfoldable pub metadata_or_null : Metadata → Option Metadata
metadata_or_null d =
    if is_some d.key_id
      || is_some d.quoted_message_id
      || is_some d.sender_jid
      || is_some d.sender_name
      || is_some d.sender_profile_pic_url
    then some d
    else none

unfoldable pub key_id_of : Option MessageKey → Option Text
key_id_of none = none
key_id_of (some key) = truthy (some key.id)

unfoldable pub metadata_of : EvolutionMessage → Metadata
unfolding key_id_of content_of extract_quoted_stanza_id
metadata_of m = record {
  key_id = key_id_of m.key;
  quoted_message_id = extract_quoted_stanza_id (content_of m) m.context_info;
  sender_jid = none;
  sender_name = none;
  sender_profile_pic_url = none;
}

unfoldable pub with_group : Option GroupMeta → Metadata → Metadata
with_group none d = d
with_group (some g) d = record d {
  sender_jid = truthy g.sender_jid;
  sender_name = truthy g.sender_name;
  sender_profile_pic_url = truthy g.sender_profile_pic_url;
}

-- x || null on the members of `mediaData`
unfoldable pub path_of : Option MediaData → Option Text
path_of none = none
path_of (some d) = truthy (some d.relative_path)

unfoldable pub file_name_of : Option MediaData → Option Text
file_name_of none = none
file_name_of (some d) = truthy (some d.file_name)

pub nonzero : ℕ → Option ℕ
nonzero ℕ.zero = none
nonzero (ℕ.suc n) = some (ℕ.suc n)

unfoldable pub file_size_of : Option MediaData → Option ℕ
unfolding nonzero
file_size_of none = none
file_size_of (some d) = nonzero d.file_size

unfoldable pub mime_type_of : Option MediaData → Option Text
mime_type_of none = none
mime_type_of (some d) = truthy (some d.mime_type)

unfoldable pub build_incoming_message_data :
    EvolutionMessage → Text → Option MediaData → Option GroupMeta → MessageData
unfolding content_of metadata_of with_group metadata_or_null path_of file_name_of file_size_of
    mime_type_of
build_incoming_message_data m conversation_id media group = record {
  conversation_id = conversation_id;
  type = (parse_message_content (content_of m)).type;
  content = (parse_message_content (content_of m)).content;
  media_url = path_of media;
  file_name = file_name_of media;
  file_size = file_size_of media;
  mime_type = mime_type_of media;
  direction = incoming;
  sender_type = client;
  status = delivered;
  metadata = metadata_or_null (with_group group (metadata_of m));
}

pub build_outgoing_message_data : EvolutionMessage → Text → Option MediaData → MessageData
unfolding content_of metadata_of metadata_or_null path_of file_name_of file_size_of mime_type_of
build_outgoing_message_data m conversation_id media = record {
  conversation_id = conversation_id;
  type = (parse_message_content (content_of m)).type;
  content = (parse_message_content (content_of m)).content;
  media_url = path_of media;
  file_name = file_name_of media;
  file_size = file_size_of media;
  mime_type = mime_type_of media;
  direction = outgoing;
  sender_type = agent;
  status = sent;
  metadata = metadata_or_null (metadata_of m);
}

-- substring counts UTF-16 code units.
unfoldable pub build_conversation_update : Text → ℕ → ConversationUpdate
build_conversation_update content created_at = record {
  last_message_at = created_at;
  last_message_preview = take 100 content;
}
