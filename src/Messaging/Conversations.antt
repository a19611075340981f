-- ===== src/Messaging/Conversations.antt =====
-- src/modules/conversations/repositories/conversation.repository.ts and
-- src/modules/webhooks/repositories/group-conversation.repository.ts: the methods that the webhooks
-- and the sending of messages call. A filter on `participants` looks into their table.
use f_chat_backend.Prelude.{
  ℕ, ◌+◌, Text, text, ◌==◌, includes, Option, none, some, List, Bool, true, false, not, ◌&&◌,
  if◌then◌else◌, any, keep, length,
}
use f_chat_backend.Prelude.Actions.{Action, done, reads, stored, transaction, ◌>>=◌, ◌>>◌}
use f_chat_backend.Prelude.Table.{Table}
use f_chat_backend.Messaging.{Tables, State, set_conversations, set_participants, set_stats}
use f_chat_backend.Messaging.Rows.{
  ConversationMode, ai, ConversationType, individual, group, Conversation, Participant, Stats,
  equals,
}

unfoldable pub has_conversation_id : Text → Conversation → Bool
has_conversation_id id c = c.id == id

unfoldable pub has_group_jid : Text → Conversation → Bool
has_group_jid jid c = equals c.group_jid jid

unfoldable pub is_member : Text → Text → Participant → Bool
is_member conversation_id client_id p =
    p.conversation_id == conversation_id && p.client_id == client_id

unfoldable pub is_individual : ConversationType → Bool
is_individual individual = true
is_individual group = false

unfoldable pub new_conversation : ℕ → Text → Text → Bool → Option Text → Conversation
new_conversation now id phone_id is_active summary = record {
  id = id;
  phone_id = phone_id;
  type = individual;
  group_jid = none;
  group_name = none;
  mode = ai;
  last_message_at = now;
  last_message_preview = none;
  is_active = is_active;
  summary = summary;
}

unfoldable pub new_group : ℕ → Text → Text → Text → Conversation
new_group now id phone_id jid = record {
  id = id;
  phone_id = phone_id;
  type = group;
  group_jid = some jid;
  group_name = none;
  mode = ai;
  last_message_at = now;
  last_message_preview = none;
  is_active = true;
  summary = none;
}

unfoldable pub of_conversation : Text → Stats → Bool
of_conversation id x = x.conversation_id == id

pub data Direction : Type 0 where
  inbound outbound : Direction

unfoldable pub direction_text : Direction → Text
direction_text inbound = text "inbound"
direction_text outbound = text "outbound"

unfoldable pub new_stats : Text → Direction → Bool → Stats
new_stats id d increment = record {
  conversation_id = id;
  last_message_direction = some (direction_text d);
  unread_count = if increment then 1 else 0;
}

-- The spread for `outbound` stands last, so it overrides the increment.
unfoldable pub next_unread : Direction → Bool → ℕ → ℕ
next_unread outbound increment n = 0
next_unread inbound true n = n + 1
next_unread inbound false n = n

unfoldable pub seen_stats : Direction → Bool → Stats → Stats
seen_stats d increment x = record x {
  last_message_direction = some (direction_text d);
  unread_count = next_unread d increment x.unread_count;
}

pub record ConversationUpdate : Type 0 where
  pub last_message_at : ℕ
  pub last_message_preview : Text

unfoldable pub with_last_message : ConversationUpdate → Conversation → Conversation
with_last_message u c = record c {
  last_message_at = u.last_message_at;
  last_message_preview = some u.last_message_preview;
}

module _ (t : Tables) where
  unfoldable pub find_conversation : Text → State t → Option Conversation
  find_conversation id s =
      Table.find_first (Tables.conversations t) s.conversations (has_conversation_id id)

  unfoldable pub has_participant : State t → Text → Conversation → Bool
  has_participant s client_id c =
      any (is_member c.id client_id) (Table.rows (Tables.participants t) s.participants)

  unfoldable pub create_conversation : Conversation → Action (State t) Unit
  create_conversation c =
      stored (λ s. set_conversations t s (Table.create (Tables.conversations t) s.conversations c))

  unfoldable pub update_conversation : Text → (Conversation → Conversation) → Action (State t) Unit
  update_conversation id f = stored (λ s.
      set_conversations t s
        (Table.update (Tables.conversations t) s.conversations (has_conversation_id id) f))

  unfoldable pub create_participant : Text → Text → Action (State t) Unit
  create_participant conversation_id client_id = stored (λ s. set_participants t s (
      Table.create (Tables.participants t) s.participants
        (record { conversation_id = conversation_id; client_id = client_id })))

  unfoldable pub add_participant : Text → Text → Option Participant → Action (State t) Unit
  add_participant conversation_id client_id none = create_participant conversation_id client_id
  add_participant conversation_id client_id (some p) = done tt

  unfoldable pub upsert_participant : Text → Text → Action (State t) Unit
  unfolding add_participant
  upsert_participant conversation_id client_id =
      reads (λ s.
        Table.find_first (Tables.participants t) s.participants
          (is_member conversation_id client_id))
      >>= add_participant conversation_id client_id

  unfoldable pub find_individual : Text → Text → State t → Option Conversation
  find_individual phone_id client_id s =
      Table.find_first (Tables.conversations t) s.conversations
        (λ c. c.phone_id == phone_id && is_individual c.type && has_participant s client_id c)

  unfoldable pub individual_found :
      ℕ → Text → Text → Text → Bool → Option Conversation → Action (State t) Conversation
  individual_found now id phone_id client_id is_active none = do
    create_conversation (new_conversation now id phone_id is_active none)
    create_participant id client_id
    done (new_conversation now id phone_id is_active none)
  individual_found now id phone_id client_id is_active (some c) = do
    upsert_participant c.id client_id
    update_conversation c.id (λ x. record x { is_active = is_active })
    done (record c { is_active = is_active })

  -- upsertIndividual
  unfoldable pub upsert_individual : ℕ → Text → Text → Text → Bool → Action (State t) Conversation
  unfolding individual_found
  upsert_individual now id phone_id client_id is_active =
      reads (find_individual phone_id client_id)
      >>= individual_found now id phone_id client_id is_active

  unfoldable pub group_found :
      ℕ → Text → Text → Text → Option Conversation → Action (State t) Conversation
  group_found now id phone_id jid none =
      create_conversation (new_group now id phone_id jid) >> done (new_group now id phone_id jid)
  group_found now id phone_id jid (some c) = done c

  -- GroupConversationRepository.upsert, called with no name: an old row is left as it is.
  unfoldable pub upsert_group : ℕ → Text → Text → Text → Action (State t) Conversation
  unfolding group_found
  upsert_group now id phone_id jid =
      reads (λ s. Table.find_first (Tables.conversations t) s.conversations (has_group_jid jid))
      >>= group_found now id phone_id jid

  pub update_mode : Text → ConversationMode → Action (State t) Unit
  update_mode id mode = update_conversation id (λ c. record c { mode = mode })

  unfoldable pub update_last_message : Text → ConversationUpdate → Action (State t) Unit
  update_last_message id u = update_conversation id (with_last_message u)

  pub update_summary : Text → Text → Action (State t) Unit
  update_summary id summary = update_conversation id (λ c. record c { summary = some summary })

  unfoldable pub count_closed : Text → Text → State t → ℕ
  count_closed phone_id client_id s = length (
      keep (λ c. c.phone_id == phone_id && not c.is_active && has_participant s client_id c)
        (Table.rows (Tables.conversations t) s.conversations))

  unfoldable pub stats_found : Text → Direction → Bool → Option Stats → Action (State t) Unit
  stats_found id d increment none =
      stored (λ s. set_stats t s (Table.create (Tables.stats t) s.stats (new_stats id d increment)))
  stats_found id d increment (some x) = stored (λ s.
      set_stats t s
        (Table.update (Tables.stats t) s.stats (of_conversation id) (seen_stats d increment)))

  unfoldable pub upsert_stats : Text → Direction → Bool → Action (State t) Unit
  unfolding stats_found
  upsert_stats id d increment =
      reads (λ s. Table.find_first (Tables.stats t) s.stats (of_conversation id))
      >>= stats_found id d increment

  pub reset_unread : Text → State t → State t
  reset_unread id s = record s {
    stats =
        Table.update_many (Tables.stats t) s.stats (of_conversation id)
          (λ x. record x { unread_count = 0 });
  }

  -- createWithParticipant
  pub create_with_participant :
      ℕ → Text → Text → Text → Option Text → Bool → Action (State t) Conversation
  create_with_participant now id phone_id client_id summary is_active = transaction do
    create_conversation (new_conversation now id phone_id is_active summary)
    create_participant id client_id
    done (new_conversation now id phone_id is_active summary)

  pub move_messages : ℕ → Text → List Text → State t → State t
  move_messages now id message_ids s = record s {
    messages =
        Table.update_many (Tables.messages t) s.messages (λ m. includes message_ids m.id)
          (λ m. record m { conversation_id = id; analyzed_at = some now });
  }

  -- archiveMessages
  pub archive_messages :
      ℕ → Text → Text → Text → List Text → Option Text → Action (State t) (Text × ℕ)
  archive_messages now id phone_id client_id message_ids summary = do
    c ← create_with_participant now id phone_id client_id summary false
    stored (λ s. some (move_messages now c.id message_ids s))
    done (c.id, length message_ids)
