-- ===== src/Webhooks/Content/Laws.antt =====
-- The type, the media and the preview of a message.
use f_chat_backend.Prelude.{
  ℕ, zero, suc, ◌≤◌, Text, truthy, Option, none, some, [], ◌∷◌, ◌++◌, not, ◌&&◌, ◌||◌, is_some, ◌≡◌,
  refl, ap, ◌⊎◌, inl, inr, length, take, drop, arith,
}
use f_chat_backend.Messaging.Rows.{image, video}
use f_chat_backend.Messaging.Events.{
  MessageContent, ExtendedTextMessage, CaptionedMessage, AudioMessage, DocumentMessage,
}
use f_chat_backend.Webhooks.Content.{
  has_media, parsed, parse_document, parse_audio, parse_captioned, parse_extended,
  parse_conversation, parse_message_content, build_conversation_update,
}

media_chain :
    (c : Option Text) (e : Option ExtendedTextMessage) (i v : Option CaptionedMessage)
    → (a : Option AudioMessage) (d : Option DocumentMessage)
    → (parse_conversation c (
        parse_extended e (
          parse_captioned image i
            (parse_captioned video v (parse_audio a (parse_document d)))))).has_media_file
      ≡ (not (is_some c) && not (is_some e) && (is_some i || is_some v || is_some a || is_some d))
unfolding parse_conversation parse_extended parse_captioned parse_audio parse_document parsed
media_chain (some c) e i v a d = refl
media_chain none (some e) i v a d = refl
media_chain none none (some i) v a d = ground arith
media_chain none none none (some v) a d = ground arith
media_chain none none none none (some a) d = ground arith
media_chain none none none none none (some d) = refl
media_chain none none none none none none = refl

-- The parser of Evolution's messages and the test of the webhooks agree on what has media, but for
-- a message that also has a text of its own or a link: there the parser sees a text, while the
-- webhooks download the media.
pub parse_message_content-has_media :
    (c : MessageContent)
    → (parse_message_content c).has_media_file ≡ (
        not (is_some (truthy c.conversation))
        && not (is_some c.extended_text_message)
        && has_media c)
unfolding parse_message_content has_media
parse_message_content-has_media c =
    media_chain (truthy c.conversation) c.extended_text_message c.image_message c.video_message
      c.audio_message c.document_message

take_bounded :
    (n : ℕ) (xs : Text)
    → (take n xs ≡ xs) ⊎ ((length (take n xs) ≡ n) × (take n xs ++ drop n xs ≡ xs))
take_bounded zero xs = inr (refl, refl)
take_bounded (suc n) [] = inl refl
take_bounded (suc n) (x ∷ xs) = elim (take_bounded n xs) [
  | inl whole ↦ inl (ap (λ l. x ∷ l) whole)
  | inr (full, joined) ↦ inr (ap suc full, ap (λ l. x ∷ l) joined)
]

take-le : (n : ℕ) (xs : Text) → length (take n xs) ≤ n
take-le zero xs = omega arith
take-le (suc n) [] = omega arith
take-le (suc n) (x ∷ xs) = omega (arith, take-le n xs)

-- The preview of a conversation has at most 100 units; it is the whole text of the message, or it
-- has 100 units with which the text begins.
pub preview_bounds :
    (content : Text) (at : ℕ)
    → (length (build_conversation_update content at).last_message_preview ≤ 100)
      × (((build_conversation_update content at).last_message_preview ≡ content)
          ⊎ ((length (build_conversation_update content at).last_message_preview ≡ 100)
              × ((rest : Text) × ((build_conversation_update content at).last_message_preview
                      ++ rest
                    ≡ content))))
unfolding build_conversation_update
preview_bounds content at = (
  take-le 100 content,
  elim (take_bounded 100 content) [
    | inl whole ↦ inl whole
    | inr (full, joined) ↦ inr (full, (drop 100 content, joined))
  ],
)
