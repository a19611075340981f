-- ===== src/Webhooks/Handlers/Frame.antt =====
-- What every method that `handleWebhook` calls at once keeps, from what its writes keep.
use f_chat_backend.Prelude.{
  ℕ, Text, Option, none, some, List, [], ◌∷◌, truthy, true, false, or_else, text, ◌==◌, ◌≡◌, refl,
}
use f_chat_backend.Prelude.Actions.{reads, ◌>>=◌}
use f_chat_backend.Prelude.Invariants.{
  Preserves, bind-Preserves, then-Preserves, done-Preserves, reads-Preserves, when-Preserves,
  guarded-Preserves,
}
use f_chat_backend.Messaging.{Tables, State}
use f_chat_backend.Messaging.Rows.{PhoneStatus, Phone, MessageStatus, Message}
use f_chat_backend.Messaging.Events.{Members, WebhookEvent, SocketEvent}
use f_chat_backend.Messaging.Messages.{update_status_by_key_id}
use f_chat_backend.Webhooks.Handlers.{
  update_phone_status, emit, emit_for, find_phone, emit_status, emit_message_status,
  update_messages, update_contact, contact_found, update_contacts, handle_qr_code_updated,
  handle_connection_update, handle_messages_set, handle_messages_update, handle_contacts_update,
  handle_direct, members_of, mapped_status,
}

module _ {κ} (t : Tables) (P : State t → Type κ)
    (emits : (event : SocketEvent) (tenant_id : Text) → Preserves P (emit t event tenant_id))
    (phones : (id : Text) (status : PhoneStatus) (at : Option ℕ)
      → Preserves P (update_phone_status t id status at))
    (contacts : (jid : Text) (url : Option Text) → Preserves P (update_contact t jid url)) where
  emit_for-Preserves : (event : SocketEvent) (o : Option Phone) → Preserves P (emit_for t event o)
  unfolding emit_for
  emit_for-Preserves event none = done-Preserves P tt
  emit_for-Preserves event (some p) = emits event p.tenant_id

  reading_phone-Preserves :
      (event : SocketEvent) (id : Text) → Preserves P (reads (find_phone t id) >>= emit_for t event)
  reading_phone-Preserves event id =
      bind-Preserves P _ _ (reads-Preserves P _) (emit_for-Preserves event)

  emit_status-Preserves :
      (id : Text) (status : PhoneStatus) (o : Option Phone)
      → Preserves P (emit_status t id status o)
  unfolding emit_status
  emit_status-Preserves id status none = done-Preserves P tt
  emit_status-Preserves id status (some p) =
      then-Preserves P _ _ (emits _ _) (when-Preserves P _ _ _ (emits _ _) (done-Preserves P tt))

  emit_message_status-Preserves :
      (id : Text) (status : MessageStatus) (o : Option Message)
      → Preserves P (emit_message_status t id status o)
  unfolding emit_message_status
  emit_message_status-Preserves id status none = done-Preserves P tt
  emit_message_status-Preserves id status (some m) = reading_phone-Preserves _ id

  update_contacts-Preserves : (ds : List Members) → Preserves P (update_contacts t ds)
  unfolding update_contacts contact_found
  update_contacts-Preserves [] = done-Preserves P tt
  update_contacts-Preserves (d ∷ ds) =
      then-Preserves P _ _ (one (truthy d.remote_jid) (truthy d.profile_pic_url))
        (update_contacts-Preserves ds)
    where
      one : (jid url : Option Text) → Preserves P (contact_found t jid url)
      one none url = done-Preserves P tt
      one (some jid) url = contacts jid url

  module _ (p : Phone) (e : WebhookEvent)
      (statuses : (status : MessageStatus)
        → (e.event == text "messages.update") ≡ true
        → or_else (members_of e.payload).from_me false ≡ true
        → mapped_status (members_of e.payload).status ≡ some status
        → Preserves P (update_status_by_key_id t (members_of e.payload).key_id status)) where
    update_messages-Preserves :
        (o : Option MessageStatus)
        → ((status : MessageStatus)
            → o ≡ some status
            → Preserves P (update_status_by_key_id t (members_of e.payload).key_id status))
        → Preserves P (update_messages t p.id (members_of e.payload).key_id o)
    unfolding update_messages
    update_messages-Preserves none k = done-Preserves P tt
    update_messages-Preserves (some status) k =
        bind-Preserves P _ _ (k status refl) (emit_message_status-Preserves p.id status)

    pub direct-Preserves : (now : ℕ) → Preserves P (handle_direct t now p e)
    unfolding handle_direct handle_qr_code_updated handle_messages_set handle_messages_update
        handle_contacts_update handle_connection_update
    direct-Preserves now = when-Preserves P _ _ _ (reading_phone-Preserves _ p.id) (
        when-Preserves P _ _ _
          (then-Preserves P _ _ (phones _ _ _)
            (bind-Preserves P _ _ (reads-Preserves P _) (emit_status-Preserves p.id _)))
          (guarded-Preserves P _ _ _
            (λ update. when-Preserves P _ _ _ (done-Preserves P tt) (
              guarded-Preserves P _ _ _
                (λ mine.
                  update_messages-Preserves _ (λ status mapped. statuses status update mine mapped))
                (done-Preserves P tt)))
            (when-Preserves P _ _ _ (reading_phone-Preserves _ p.id)
              (when-Preserves P _ _ _ (update_contacts-Preserves _) (done-Preserves P tt)))))
