-- ===== src/Sessions/Lifecycle.antt =====
-- session.repository.ts, session-lifecycle.service.ts and hitl.service.ts with
-- check-tenant-owns-conversation.ts: the passing of a conversation from the agent to a person and
-- back. A request of internal-api.client.ts goes over the network to this backend, where
-- `updateConversationMode` ends in `updateMode` of the repository of conversations; `reaches` says
-- which requests come through, and one that does not throws.
mod Tests
pub mod Handover
use f_chat_backend.Prelude.{
  ℕ, Text, text, ◌==◌, truthy, Option, none, some, List, [], ◌∷◌, ◌++◌, Bool, true, false, not,
  ◌&&◌, or_else, is_some, length, get_last?, if◌then◌else◌, leb, keep,
}
use f_chat_backend.Prelude.Actions.{
  Action, not_found, forbidden, bad_request, remote, done, reads, stored, written, refuse, require,
  when◌then◌else◌, ◌>>=◌, ◌>>◌,
}
use f_chat_backend.Prelude.Table.{Table}
use f_chat_backend.Messaging
use f_chat_backend.Messaging.{Tables}
use f_chat_backend.Messaging.Rows.{
  ConversationMode, ai, hitl, MessageDirection, incoming, outgoing, Phone, Conversation, Message,
}
use f_chat_backend.Messaging.Conversations.{find_conversation, has_conversation_id}
use f_chat_backend.Messaging.Messages.{message_rows}
use f_chat_backend.Sessions.DbStore
use f_chat_backend.Sessions.DbStore.{NodeSession}

pub data SessionType : Type 0 where
  ai_session hitl_session : SessionType

pub record Session : Type 0 where
  pub id : Text
  pub conversation_id : Text
  pub type : SessionType
  pub started_at : ℕ
  pub ended_at : Option ℕ
  pub ended_by : Option Text
  pub taken_by : Option Text
  pub reason : Option Text

pub data Reason : Type 0 where
  api_error credits_exhausted client_request manual_takeover hacking config_error : Reason

pub reason_text : Reason → Text
reason_text api_error = text "api_error"
reason_text credits_exhausted = text "credits_exhausted"
reason_text client_request = text "client_request"
reason_text manual_takeover = text "manual_takeover"
reason_text hacking = text "hacking"
reason_text config_error = text "config_error"

pub record Extras : Type 0 where
  pub api_name : Option Text
  pub error_message : Option Text
  pub user_name : Option Text
  pub credits_used : Option ℕ
  pub credits_limit : Option ℕ

pub record SwitchToHitlParams : Type 0 where
  pub conversation_id : Text
  pub reason : Reason
  pub tenant_id : Text
  pub client_phone : Option Text
  pub extras : Extras

pub data Notice : Type 0 where
  api_down : (name error : Text) → Notice
  conversation_hitl :
      (conversation_id : Text) (client_phone reason api_name error : Option Text) → Notice
  credits_are_exhausted : (conversation_id : Text) (used limit : ℕ) → Notice
  conversation_taken : (conversation_id : Text) (user_name : Option Text) → Notice
  conversation_returned : (conversation_id : Text) → Notice

pub data Request : Type 0 where
  set_mode : Text → ConversationMode → Request
  mark_down : (name error : Text) → Request

-- 'ai.hitl.return'
pub record HitlReturn : Type 0 where
  pub conversation_id : Text
  pub tenant_id : Text
  pub message_count : ℕ
  pub last_message : Option Message

pub record State (t : Tables) (ss : Table Session) (ns : Table NodeSession) : Type 0 where
  pub store : Messaging.State t
  pub sessions : Table.St ss
  pub node_sessions : Table.St ns
  pub downs : List (Text × Text)
  pub notices : List (Notice × Text)
  pub returns : List HitlReturn

pub same_type : SessionType → SessionType → Bool
same_type ai_session ai_session = true
same_type hitl_session hitl_session = true
same_type _ _ = false

-- endedAt: null
pub is_open_of : SessionType → Text → Session → Bool
unfolding same_type
is_open_of k conversation_id x =
    x.conversation_id == conversation_id && same_type x.type k && not (is_some x.ended_at)

pub new_session : SessionType → ℕ → Text → Text → Option Text → Session
new_session k now id conversation_id taken_by = record {
  id = id;
  conversation_id = conversation_id;
  type = k;
  started_at = now;
  ended_at = none;
  ended_by = none;
  taken_by = taken_by;
  reason = none;
}

-- `endedBy: undefined` leaves the column.
pub or_old : Option Text → Option Text → Option Text
or_old none old = old
or_old (some v) old = some v

pub ended : ℕ → Text → Option Text → Session → Session
ended now reason ended_by x = record x {
  ended_at = some now;
  reason = some reason;
  ended_by = or_old ended_by x.ended_by;
}

-- reason === 'manual_takeover' ? tenantId : undefined
pub taker : SwitchToHitlParams → Option Text
taker p = by_reason p.reason p.tenant_id
  where
    by_reason : Reason → Text → Option Text
    by_reason manual_takeover tenant_id = some tenant_id
    by_reason _ tenant_id = none

pub notices_of : SwitchToHitlParams → List Notice
notices_of p = by_reason p.reason p
  where
    exhausted : Option ℕ → Option ℕ → Text → List Notice
    exhausted (some used) (some limit) c = credits_are_exhausted c used limit ∷ []
    exhausted _ _ c = []

    by_reason : Reason → SwitchToHitlParams → List Notice
    by_reason api_error p =
        api_down (or_else (truthy p.extras.api_name) (text "unknown"))
          (or_else (truthy p.extras.error_message) (text "Unknown error"))
        ∷ conversation_hitl p.conversation_id p.client_phone (some (text "api_error"))
            p.extras.api_name none
        ∷ []
    by_reason credits_exhausted p =
        exhausted p.extras.credits_used p.extras.credits_limit p.conversation_id
    by_reason client_request p =
        conversation_hitl p.conversation_id p.client_phone none none none ∷ []
    by_reason manual_takeover p = conversation_taken p.conversation_id p.extras.user_name ∷ []
    by_reason hacking p =
        conversation_hitl p.conversation_id p.client_phone (some (text "hacking")) none
          p.extras.error_message
        ∷ []
    by_reason config_error p = []

-- The API to mark as down, if there is one.
pub down_of : SwitchToHitlParams → Option (Text × Text)
down_of p = by_reason p.reason (truthy p.extras.api_name) p.extras.error_message
  where
    by_reason : Reason → Option Text → Option Text → Option (Text × Text)
    by_reason api_error (some name) error =
        some (name, or_else (truthy error) (text "Unknown error"))
    by_reason _ name error = none

pub with_tenant : Text → List Notice → List (Notice × Text)
with_tenant tenant_id [] = []
with_tenant tenant_id (n ∷ ns) = (n, tenant_id) ∷ with_tenant tenant_id ns

-- messageCount <= 1 ? the last message came in : true
pub dispatches : List Message → Bool
dispatches messages =
    if leb (length messages) 1 then last_is_incoming (get_last? messages) else true
  where
    last_is_incoming : Option Message → Bool
    last_is_incoming none = false
    last_is_incoming (some m) = is_incoming m.direction
      where
        is_incoming : MessageDirection → Bool
        is_incoming incoming = true
        is_incoming outgoing = false

module _ (t : Tables) (ss : Table Session) (ns : Table NodeSession) where
  abbrev S : Type 0
  S = State t ss ns

  pub find_open : SessionType → Text → S → Option Session
  find_open k conversation_id s = Table.find_first ss s.sessions (is_open_of k conversation_id)

  pub create_session : Session → Action S Unit
  create_session x =
      stored (λ s. written (λ r. record s { sessions = r }) (Table.create ss s.sessions x))

  -- SessionRepository.close
  pub close_session : ℕ → Text → Option Text → Option Session → Action S Unit
  close_session now reason ended_by none = done tt
  close_session now reason ended_by (some x) = stored (λ s.
      written (λ r. record s { sessions = r })
        (Table.update ss s.sessions (λ y. y.id == x.id) (ended now reason ended_by)))

  pub notify : List Notice → Text → Action S Unit
  notify ns tenant_id =
      stored (λ s. some (record s { notices = s.notices ++ with_tenant tenant_id ns }))

  pub close_node_session : Option NodeSession → Action S Unit
  close_node_session none = done tt
  close_node_session (some x) =
      stored
        (λ s. written (λ r. record s { node_sessions = r }) (DbStore.close ns x.id s.node_sessions))

  pub announce : HitlReturn → Action S Unit
  announce r = stored (λ s. some (record s { returns = s.returns ++ r ∷ [] }))

  module _ (reaches : Request → Bool) where
    pub mode_written : Text → ConversationMode → S → Option S
    mode_written conversation_id mode s =
        written (λ r. record s { store = record s.store { conversations = r } })
          (Table.update (Tables.conversations t) s.store.conversations
            (has_conversation_id conversation_id) (λ c. record c { mode = mode }))

    pub update_conversation_mode : Text → ConversationMode → Action S Unit
    unfolding mode_written
    update_conversation_mode conversation_id mode =
        refuse (not (reaches (set_mode conversation_id mode))) remote
        >> stored (mode_written conversation_id mode)

    pub mark_api_down : Option (Text × Text) → Action S Unit
    mark_api_down none = done tt
    mark_api_down (some (name, error)) =
        refuse (not (reaches (mark_down name error))) remote
        >> stored (λ s. some (record s { downs = s.downs ++ (name, error) ∷ [] }))

    pub switch_to_hitl : ℕ → Text → SwitchToHitlParams → Action S Unit
    switch_to_hitl now id p = do
      mark_api_down (down_of p)
      update_conversation_mode p.conversation_id hitl
      active ← reads (find_open ai_session p.conversation_id)
      close_session now (reason_text p.reason) (taker p) active
      create_session (new_session hitl_session now id p.conversation_id (taker p))
      notify (notices_of p) p.tenant_id

    pub return_to_ai : ℕ → Text → Text → Text → List Message → Action S Unit
    return_to_ai now id conversation_id tenant_id messages = do
      update_conversation_mode conversation_id ai
      active ← reads (find_open hitl_session conversation_id)
      close_session now (text "returned_to_ai") (some tenant_id) active
      node ← reads (λ s. DbStore.find_active_or_waiting ns conversation_id s.node_sessions)
      close_node_session node
      create_session (new_session ai_session now id conversation_id none)
      notify (conversation_returned conversation_id ∷ []) tenant_id
      (when dispatches messages
          then announce (record {
            conversation_id = conversation_id;
            tenant_id = tenant_id;
            message_count = length messages;
            last_message = get_last? messages;
          })
          else done tt)

    -- hitl.service.ts; `ordered` is the database's order by `createdAt`.
    module _ (ordered : List Message → List Message) where
      pub find_phone_of : Conversation → S → Option Phone
      find_phone_of c s =
          Table.find_first (Tables.phones t) s.store.phones (λ p. p.id == c.phone_id)

      -- checkTenantOwnsConversation, on the phone of the conversation
      pub check_owner : Conversation → Text → Action S Unit
      check_owner c tenant_id = do
        p ← reads (find_phone_of c)
        found ← require p (not_found (text "Phone not found"))
        refuse (not (found.tenant_id == tenant_id))
            (forbidden (text "You do not have permission to access this conversation"))

      pub find_owned : Text → Text → Action S Conversation
      find_owned conversation_id tenant_id = do
        found ← reads (λ s. find_conversation t conversation_id s.store)
        c ← require found (not_found (text "Conversation not found"))
        check_owner c tenant_id
        done c

      pub is_hitl : ConversationMode → Bool
      is_hitl hitl = true
      is_hitl ai = false

      pub take_control : ℕ → Text → Text → Text → Text → Action S Unit
      take_control now id conversation_id tenant_id user_name = do
        c ← find_owned conversation_id tenant_id
        refuse (is_hitl c.mode) (bad_request (text "Conversation is already in HITL mode"))
        switch_to_hitl now id (record {
          conversation_id = conversation_id;
          reason = manual_takeover;
          tenant_id = tenant_id;
          client_phone = none;
          extras = record {
            api_name = none;
            error_message = none;
            user_name = some user_name;
            credits_used = none;
            credits_limit = none;
          };
        })

      pub messages_of : Text → S → List Message
      messages_of conversation_id s =
          ordered (keep (λ m. m.conversation_id == conversation_id) (message_rows t s.store))

      pub give_back_control : ℕ → Text → Text → Text → Action S Unit
      give_back_control now id conversation_id tenant_id = do
        c ← find_owned conversation_id tenant_id
        refuse (not (is_hitl c.mode)) (bad_request (text "Conversation is already in AI mode"))
        messages ← reads (messages_of conversation_id)
        return_to_ai now id conversation_id tenant_id messages
