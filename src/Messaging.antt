-- ===== src/Messaging.antt =====
-- src/common/messaging and src/modules/conversations/repositories: the state that the repositories
-- of the children and the webhooks read and write. It is a table for each kind of row, the
-- requests of the queue, the jobs of `phone-webhooks`, and what was emitted. A repository's method
-- that writes is an action on it; `now` is the clock, `id` the default of a new row.
pub mod Rows
pub mod Events
pub mod Clients
pub mod Conversations
pub mod Messages
use f_chat_backend.Prelude.{Option, List, Bool}
use f_chat_backend.Prelude.Actions.{written}
use f_chat_backend.Prelude.Table.{Table}
use f_chat_backend.Queue
use f_chat_backend.Queue.{QueueRequest}
use f_chat_backend.Messaging.Rows.{
  Phone, Client, Conversation, Participant, Stats, Message, ContactLabel,
}
use f_chat_backend.Messaging.Events.{WebhookJob, Emission, AppEvent, Bootstrap}

pub record Tables : Type 1 where
  pub phones : Table Phone
  pub clients : Table Client
  pub conversations : Table Conversation
  pub participants : Table Participant
  pub stats : Table Stats
  pub messages : Table Message
  pub labels : Table ContactLabel
  pub requests : Table QueueRequest
  -- Whether the queue of BullMQ takes one more job, or throws.
  pub takes_job : WebhookJob → List WebhookJob → Bool

pub record State (t : Tables) : Type 0 where
  pub phones : Table.St (Tables.phones t)
  pub clients : Table.St (Tables.clients t)
  pub conversations : Table.St (Tables.conversations t)
  pub participants : Table.St (Tables.participants t)
  pub stats : Table.St (Tables.stats t)
  pub messages : Table.St (Tables.messages t)
  pub labels : Table.St (Tables.labels t)
  pub queue : Queue.State (Tables.requests t)
  pub jobs : List WebhookJob
  pub emitted : List Emission
  pub events : List AppEvent
  pub bootstraps : List Bootstrap

-- The state after a write to one table, which may throw.
module _ (t : Tables) where
  abbrev pub set_phones : State t → Option (Table.St (Tables.phones t)) → Option (State t)
  set_phones s = written (λ r. record s { phones = r })

  abbrev pub set_clients : State t → Option (Table.St (Tables.clients t)) → Option (State t)
  set_clients s = written (λ r. record s { clients = r })

  abbrev pub set_conversations :
      State t → Option (Table.St (Tables.conversations t)) → Option (State t)
  set_conversations s = written (λ r. record s { conversations = r })

  abbrev pub set_participants :
      State t → Option (Table.St (Tables.participants t)) → Option (State t)
  set_participants s = written (λ r. record s { participants = r })

  abbrev pub set_stats : State t → Option (Table.St (Tables.stats t)) → Option (State t)
  set_stats s = written (λ r. record s { stats = r })

  abbrev pub set_messages : State t → Option (Table.St (Tables.messages t)) → Option (State t)
  set_messages s = written (λ r. record s { messages = r })
