-- ===== src/Webhooks/Processor/Delivery.antt =====
-- Where a message goes: into the table, in the conversation that was opened for it.
use f_chat_backend.Prelude.{Text, Option, none, some, Bool, true, false, ◌≡◌, Memᴰ}
use f_chat_backend.Prelude.Table.{Table}
use f_chat_backend.Prelude.Invariants.{Preserves, bind-Preserves, reads-Preserves, part-Preserves}
use f_chat_backend.Messaging.{Tables, State}
use f_chat_backend.Messaging.Rows.{Phone, Stats, Message, equals}
use f_chat_backend.Messaging.Events.{EvolutionMessage}
use f_chat_backend.Messaging.Conversations.{Direction, stats_found, upsert_stats}
use f_chat_backend.Messaging.Messages.{message_rows}
use f_chat_backend.Webhooks.Content.{remote_jid_of}
use f_chat_backend.Webhooks.Processor.{Opened}
use f_chat_backend.Webhooks.Processor.Opening.{IsContactTalk}
use f_chat_backend.Jid.{phone_from_jid}

module _ (t : Tables) (P : State t → Type 0)
    (stats : (s : State t) (r : Table.St (Tables.stats t)) → P s → P (record s { stats = r })) where
  pub upsert_stats-Preserves :
      (id : Text) (d : Direction) (b : Bool) → Preserves P (upsert_stats t id d b)
  unfolding upsert_stats stats_found
  upsert_stats-Preserves id d b = bind-Preserves P _ _ (reads-Preserves P _) found
    where
      found : (o : Option Stats) → Preserves P (stats_found t id d b o)
      found none = part-Preserves P _ _ (λ s r h e. stats s r h)
      found (some q) = part-Preserves P _ _ (λ s r h e. stats s r h)

module _ (t : Tables) where
  module _ (row : Message) where
    HasRow : State t → Type 0
    HasRow s = Memᴰ row (message_rows t s)

  -- The conversation that a message is put into: that of its group, or one of the contact with its
  -- number on the phone.
  unfoldable pub IsOpenedFor : Bool → Phone → EvolutionMessage → Opened → State t → Type 0
  unfolding IsContactTalk
  IsOpenedFor true p m o s = equals o.conversation.group_jid (remote_jid_of m.key) ≡ true
  IsOpenedFor false p m o s = IsContactTalk t p (phone_from_jid (remote_jid_of m.key)) o s
