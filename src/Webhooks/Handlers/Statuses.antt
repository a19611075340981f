-- ===== src/Webhooks/Handlers/Statuses.antt =====
-- What an event does to the rows of the messages.
use f_chat_backend.Prelude.{Text, text, some, true, false, or_else, ◌≡◌, ◌⊎◌, Memᴰ}
use f_chat_backend.Prelude.Table.{Table}
use f_chat_backend.Messaging.{Tables, State}
use f_chat_backend.Messaging.Rows.{MessageStatus, Message}
use f_chat_backend.Messaging.Events.{WebhookEvent}
use f_chat_backend.Messaging.Messages.{has_key_id, with_status, message_rows}
use f_chat_backend.Webhooks.Handlers.{members_of, mapped_status}

-- An acknowledgement of a message that was sent from the phone.
unfoldable pub IsAcknowledgement : WebhookEvent → Type 0
IsAcknowledgement e =
    (e.event ≡ text "messages.update") × (or_else (members_of e.payload).from_me false ≡ true)

module _ (t : Tables) where
  unfoldable pub HasMessage : State t → Message → Type 0
  HasMessage s m = Memᴰ m (message_rows t s)

  -- The row with this id is one that has the key of the event.
  unfoldable pub IsNamed : State t → WebhookEvent → Text → Type 0
  IsNamed s e id =
      (m : Message) × HasMessage s m
      × (m.id ≡ id)
      × ((key : Text) × ((members_of e.payload).key_id ≡ some key) × (has_key_id key m ≡ true))

  unfoldable pub IsAcknowledged : State t → WebhookEvent → Message → Message → Type 0
  IsAcknowledged s e y x =
      IsAcknowledgement e
      × IsNamed s e y.id
      × ((status : MessageStatus) × (mapped_status (members_of e.payload).status ≡ some status)
          × (x ≡ with_status status y))

  module _ (old : State t) (e : WebhookEvent) where
    Derived : Message → Type 0
    Derived x = (y : Message) × HasMessage old y × ((x ≡ y) ⊎ IsAcknowledged old e y x)

    Rows : State t → Type 0
    Rows s = (x : Message) → HasMessage s x → Derived x
