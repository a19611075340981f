-- ===== src/Webhooks/Processor/Tests.antt =====
-- A message from a contact with a label, processed, and the theorems about it.
use f_chat_backend.Prelude.{
  ◌≤◌, text, ◌==◌, truthy, none, some, [], ◌∷◌, ◌≡◌, refl, sym, subst, ◌⊎◌, Memᴰ, any, keep,
  starts_with,
}
use f_chat_backend.Prelude.Actions.{
  Result, ok, done, reads, stored, written, result_of, continue, when◌then◌else◌, ◌>>=◌, ◌>>◌,
}
use f_chat_backend.Prelude.Table.{first_where, insert_row, update_rows, change_rows}
use f_chat_backend.Messaging.{State}
use f_chat_backend.Webhooks.Fixture.{
  tables, contact, answer, counted, talk, state, greeting, fresh, fetch_picture, download,
}
use f_chat_backend.Messaging.Rows.{incoming, client, delivered, Stats, Message}
use f_chat_backend.Messaging.Events.{message_incoming}
use f_chat_backend.Jid.{ends_with, remove_first, phone_from_jid}
use f_chat_backend.Queue
use f_chat_backend.Messaging.Clients.{
  upsert_client, find_client, has_phone_number, write_client, seen_client, has_client_id,
}
use f_chat_backend.Messaging.Conversations.{
  upsert_individual, find_individual, has_participant, is_member, is_individual, individual_found,
  upsert_participant, add_participant, update_conversation, has_conversation_id, count_closed,
  update_last_message, with_last_message, upsert_stats, stats_found, of_conversation, seen_stats,
  next_unread, direction_text,
}
use f_chat_backend.Messaging.Messages.{
  message_row, message_rows, create_message, count_by_conversation_id,
}
use f_chat_backend.Webhooks.Content.{
  content_of, no_content, remote_jid_of, build_client_data, has_media, build_incoming_message_data,
  metadata_of, metadata_or_null, with_group, key_id_of, extract_quoted_stanza_id, contexts,
  context_of_text, context_of_captioned, context_of_audio, context_of_document, first_stanza,
  stanza_of, path_of, file_name_of, file_size_of, mime_type_of, parse_message_content,
  parse_conversation, parsed, build_conversation_update,
}
use f_chat_backend.Webhooks.Handlers.{find_phone, has_phone_id, emit}
use f_chat_backend.Webhooks.Processor.{
  from_me_of, is_ignored, is_labeled, data_of, media_of, dispatch, process_message, process_for,
  process_new, is_group, open_individual, bootstrap_client, save_message, group_meta, after_saved,
  increments_unread, mode_text, socket_event, dispatch_individual, belongs_to, is_active_label,
  try_match_queue_response, on_queue, quoted_of, matched, sender_name_of, sender_phone_of,
  sender_of_key,
}
use f_chat_backend.Webhooks.Processor.Unread.{HasStats, unread_never_grows}

abbrev stored_message : Message
stored_message = record answer {
  id = text "m2";
  content = text "buenas";
  direction = incoming;
  sender_type = client;
  status = delivered;
  metadata = some (record {
    key_id = some (text "w2");
    quoted_message_id = none;
    sender_jid = none;
    sender_name = none;
    sender_profile_pic_url = none;
  });
  created_at = 5;
}

abbrev counted_later : Stats
counted_later = record counted { last_message_direction = some (text "inbound") }

abbrev final : State tables
final = record state {
  clients = record contact { last_contact_at = 5 } ∷ [];
  conversations =
      record talk { last_message_at = 5; last_message_preview = some (text "buenas") } ∷ [];
  stats = counted_later ∷ [];
  messages = answer ∷ stored_message ∷ [];
  emitted =
      record {
        event = message_incoming stored_message (some (text "Ana")) none;
        tenant_id = text "t1";
      }
      ∷ [];
}

-- The conversation is in the hands of an agent, and the message is not counted as unread.
processed_ok :
    process_message tables fetch_picture download 5 fresh (text "p1") (text "main") greeting state
    ≡ (ok tt, final)
unfolding process_message is_ignored content_of no_content ◌>>=◌ ◌>>◌ reads continue done stored
    result_of written when◌then◌else◌ find_phone has_phone_id first_where ◌==◌ truthy process_for
    from_me_of process_new is_group remote_jid_of ends_with open_individual build_client_data
    phone_from_jid remove_first starts_with upsert_client find_client has_phone_number write_client
    seen_client upsert_individual find_individual has_participant is_member is_individual
    individual_found upsert_participant add_participant update_conversation has_conversation_id
    bootstrap_client count_by_conversation_id count_closed keep any save_message media_of has_media
    create_message message_row message_rows insert_row data_of group_meta
    build_incoming_message_data metadata_of metadata_or_null with_group key_id_of
    extract_quoted_stanza_id contexts context_of_text context_of_captioned context_of_audio
    context_of_document first_stanza stanza_of path_of file_name_of file_size_of mime_type_of
    parse_message_content parse_conversation parsed after_saved update_last_message
    with_last_message build_conversation_update upsert_stats stats_found of_conversation seen_stats
    next_unread direction_text increments_unread mode_text emit socket_event dispatch
    dispatch_individual is_labeled belongs_to has_client_id is_active_label try_match_queue_response
    on_queue Queue.handle_response quoted_of matched update_rows change_rows sender_name_of
    sender_phone_of sender_of_key
processed_ok = refl

counted_there :
    HasStats tables
      (process_message tables fetch_picture download 5 fresh
        (text "p1")
        (text "main")
        greeting
        state).1
      counted_later
unfolding HasStats
counted_there =
    subst (λ (r : Result Unit × State tables). Memᴰ counted_later r.1.stats) (sym processed_ok)
      (Memᴰ.head refl)

unread_never_grows_example :
    (counted_later.unread_count ≡ 0)
    ⊎ ((y : Stats) × HasStats tables state y
        × (y.conversation_id ≡ text "c1")
        × (counted_later.unread_count ≤ y.unread_count))
unread_never_grows_example =
    unread_never_grows tables fetch_picture download 5 fresh (text "p1") (text "main") greeting
      state counted_later counted_there
