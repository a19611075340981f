-- ===== src/Webhooks/Content/Tests.antt =====
-- An image, and the theorems about the contents of messages at it.
use f_chat_backend.Prelude.{text, truthy, none, some, [], not, ◌&&◌, is_some, ◌≡◌}
use f_chat_backend.Messaging.Events.{MessageContent}
use f_chat_backend.Webhooks.Content.{no_content, has_media, parse_message_content}
use f_chat_backend.Webhooks.Content.Laws.{parse_message_content-has_media}

abbrev picture : MessageContent
picture = record no_content {
  conversation = some [];
  image_message = some (record { caption = some (text "casa"); context_info = none });
}

parse_message_content-has_media_example : (parse_message_content picture).has_media_file ≡ (
    not (is_some (truthy picture.conversation))
    && not (is_some picture.extended_text_message)
    && has_media picture)
parse_message_content-has_media_example = parse_message_content-has_media picture
