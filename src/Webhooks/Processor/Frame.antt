-- ===== src/Webhooks/Processor/Frame.antt =====
-- What `processMessage` keeps, from what its writes keep.
use f_chat_backend.Prelude.{
  ℕ, Text, text, ◌==◌, truthy, Option, none, some, List, Bool, true, false, not, ◌&&◌, ◌≡◌, refl,
}
use f_chat_backend.Prelude.Table.{Table}
use f_chat_backend.Prelude.Invariants.{
  Preserves, bind-Preserves, then-Preserves, done-Preserves, reads-Preserves, when-Preserves,
  part-Preserves, stored-some-Preserves,
}
use f_chat_backend.Queue
use f_chat_backend.Queue.{QueueRequest}
use f_chat_backend.Messaging.{Tables, State}
use f_chat_backend.Messaging.Rows.{
  ConversationMode, ai, hitl, Phone, Client, Conversation, Participant, Message,
}
use f_chat_backend.Messaging.Events.{EvolutionMessage, SocketEvent, Emission, AppEvent, Bootstrap}
use f_chat_backend.Messaging.Clients.{ClientData, upsert_client, write_client, update_profile_pic}
use f_chat_backend.Messaging.Conversations.{
  Direction, create_conversation, update_conversation, create_participant, add_participant,
  upsert_participant, individual_found, upsert_individual, group_found, upsert_group,
  update_last_message, upsert_stats,
}
use f_chat_backend.Messaging.Messages.{MessageData, create_message}
use f_chat_backend.Webhooks.Content.{MediaData}
use f_chat_backend.Webhooks.Handlers.{emit}
use f_chat_backend.Webhooks.Processor.{
  from_me_of, mode_text, increments_unread, Fresh, Opened, bootstrap, fetched_picture, picture_of,
  group_sender, open_group, bootstrap_client, open_individual, save_message, on_queue, publish,
  matched, try_match_queue_response, ask_agent, dispatch_individual, dispatch, after_saved,
  process_new, echo_found, process_for, process_message,
}

-- No mode is spelled as the test for the unread messages spells it.
pub increments_unread-never : (m : EvolutionMessage) (o : Opened) → increments_unread m o ≡ false
unfolding increments_unread mode_text ◌==◌
increments_unread-never m o = never (not (from_me_of m.key)) o.conversation.mode
  where
    never : (b : Bool) (mode : ConversationMode) → (b && (mode_text mode == text "hitl")) ≡ false
    never true ai = refl
    never true hitl = refl
    never false mode = refl

module _ {κ} (t : Tables) (P : State t → Type κ)
    (conversations : (s : State t) (r : Table.St (Tables.conversations t))
      → P s
      → P (record s { conversations = r }))
    (emitted : (s : State t) (r : List Emission) → P s → P (record s { emitted = r }))
    (bootstraps : (s : State t) (r : List Bootstrap) → P s → P (record s { bootstraps = r })) where
  create_conversation-Preserves : (c : Conversation) → Preserves P (create_conversation t c)
  unfolding create_conversation
  create_conversation-Preserves c = part-Preserves P _ _ (λ s r h e. conversations s r h)

  update_conversation-Preserves :
      (id : Text) (f : Conversation → Conversation) → Preserves P (update_conversation t id f)
  unfolding update_conversation
  update_conversation-Preserves id f = part-Preserves P _ _ (λ s r h e. conversations s r h)

  upsert_group-Preserves :
      (now : ℕ) (id phone_id jid : Text) → Preserves P (upsert_group t now id phone_id jid)
  unfolding upsert_group group_found
  upsert_group-Preserves now id phone_id jid = bind-Preserves P _ _ (reads-Preserves P _) found
    where
      found : (o : Option Conversation) → Preserves P (group_found t now id phone_id jid o)
      found none = then-Preserves P _ _ (create_conversation-Preserves _) (done-Preserves P _)
      found (some c) = done-Preserves P c

  emit-Preserves : (event : SocketEvent) (tenant_id : Text) → Preserves P (emit t event tenant_id)
  unfolding emit
  emit-Preserves event tenant_id = stored-some-Preserves P _ (λ s h. emitted s _ h)

  bootstrap-Preserves : (b : Bootstrap) → Preserves P (bootstrap t b)
  unfolding bootstrap
  bootstrap-Preserves b = stored-some-Preserves P _ (λ s h. bootstraps s _ h)

  pub bootstrap_client-Preserves :
      (fetch_picture : Text → Text → Option (Option Text))
      (download : Text → Text → Text → Text → Option MediaData) (p : Phone) (instance_name : Text)
      (c : Conversation) (client_id number : Text)
      → Preserves P (bootstrap_client t fetch_picture download p instance_name c client_id number)
  unfolding bootstrap_client
  bootstrap_client-Preserves fetch_picture download p instance_name c client_id number =
      bind-Preserves P _ _ (reads-Preserves P _) λ n.
        bind-Preserves P _ _ (reads-Preserves P _)
          λ closed. when-Preserves P _ _ _ (bootstrap-Preserves _) (done-Preserves P tt)

  -- What follows the saving of a message.
  module _ (stats : (id : Text) (d : Direction) → Preserves P (upsert_stats t id d false))
      (queue : (s : State t) (r : Queue.State (Tables.requests t))
        → P s
        → P (record s { queue = r }))
      (events : (s : State t) (r : List AppEvent) → P s → P (record s { events = r })) (now : ℕ)
      (p : Phone) (instance_name : Text) (media : Option MediaData) where
    match-Preserves : (m : Message) → Preserves P (try_match_queue_response t now m)
    unfolding try_match_queue_response matched publish on_queue Preserves
    match-Preserves m = bind-Preserves P _ _ (λ s h. queue s _ h) found
      where
        found : (o : Option QueueRequest) → Preserves P (matched t m o)
        found none = done-Preserves P false
        found (some q) =
            then-Preserves P _ _ (stored-some-Preserves P _ (λ s h. events s _ h))
              (done-Preserves P true)

    individual-Preserves :
        (o : Opened) (m : Message) (number : Option Text)
        → Preserves P (dispatch_individual t now p instance_name media o m number)
    unfolding dispatch_individual ask_agent publish
    individual-Preserves o m none = done-Preserves P tt
    individual-Preserves o m (some number) = bind-Preserves P _ _ (reads-Preserves P _) λ labeled.
        when-Preserves P _ _ _ (then-Preserves P _ _ (match-Preserves m) (done-Preserves P tt)) (
          when-Preserves P _ _ _
            (bind-Preserves P _ _ (reads-Preserves P _)
              λ i. stored-some-Preserves P _ (λ s h. events s _ h))
            (done-Preserves P tt))

    pub after_saved-Preserves :
        (e : EvolutionMessage) (o : Opened) (m : Message)
        → Preserves P (after_saved t now p instance_name media e o m)
    unfolding after_saved update_last_message dispatch
    after_saved-Preserves e o m = rw (increments_unread-never e o) (
        then-Preserves P _ _ (update_conversation-Preserves _ _) (
          then-Preserves P _ _ (stats _ _) (
            then-Preserves P _ _ (emit-Preserves _ _) (
              when-Preserves P _ _ _ (done-Preserves P tt) (
                when-Preserves P _ _ _
                  (then-Preserves P _ _ (match-Preserves m) (done-Preserves P tt))
                  (individual-Preserves o m (truthy o.client_phone)))))))

  module _
      (participants : (s : State t) (r : Table.St (Tables.participants t))
        → P s
        → P (record s { participants = r })) where
    upsert_participant-Preserves :
        (id client_id : Text) → Preserves P (upsert_participant t id client_id)
    unfolding upsert_participant add_participant create_participant
    upsert_participant-Preserves id client_id = bind-Preserves P _ _ (reads-Preserves P _) add
      where
        add : (o : Option Participant) → Preserves P (add_participant t id client_id o)
        add none = part-Preserves P _ _ (λ s r h e. participants s r h)
        add (some p) = done-Preserves P tt

    create_participant-Preserves :
        (id client_id : Text) → Preserves P (create_participant t id client_id)
    unfolding create_participant
    create_participant-Preserves id client_id = part-Preserves P _ _ (λ s r h e. participants s r h)

    pub upsert_individual-Preserves :
        (now : ℕ) (id phone_id client_id : Text) (b : Bool)
        → Preserves P (upsert_individual t now id phone_id client_id b)
    unfolding upsert_individual individual_found
    upsert_individual-Preserves now id phone_id client_id b =
        bind-Preserves P _ _ (reads-Preserves P _) found
      where
        found :
            (o : Option Conversation)
            → Preserves P (individual_found t now id phone_id client_id b o)
        found none =
            then-Preserves P _ _ (create_conversation-Preserves _) (
              then-Preserves P _ _ (create_participant-Preserves id client_id) (done-Preserves P _))
        found (some c) =
            then-Preserves P _ _ (upsert_participant-Preserves c.id client_id)
              (then-Preserves P _ _ (update_conversation-Preserves c.id _) (done-Preserves P _))

    module _
        (clients : (s : State t) (r : Table.St (Tables.clients t))
          → P s
          → P (record s { clients = r })) where
      upsert_client-Preserves :
          (now : ℕ) (id : Text) (d : ClientData) → Preserves P (upsert_client t now id d)
      unfolding upsert_client write_client
      upsert_client-Preserves now id d = bind-Preserves P _ _ (reads-Preserves P _) write
        where
          write : (o : Option Client) → Preserves P (write_client t now id d o)
          write none =
              then-Preserves P _ _ (part-Preserves P _ _ (λ s r h e. clients s r h))
                (done-Preserves P _)
          write (some c) =
              then-Preserves P _ _ (part-Preserves P _ _ (λ s r h e. clients s r h))
                (done-Preserves P _)

      fetched_picture-Preserves :
          (jid : Text) (o : Option (Option Text)) → Preserves P (fetched_picture t jid o)
      unfolding fetched_picture update_profile_pic Preserves
      fetched_picture-Preserves jid none s h = h
      fetched_picture-Preserves jid (some none) s h = h
      fetched_picture-Preserves jid (some (some url)) s h = clients s _ h

      module _ (fetch_picture : Text → Text → Option (Option Text))
          (download : Text → Text → Text → Text → Option MediaData) where
        picture_of-Preserves :
            (instance_name jid : Text) (o : Option Text)
            → Preserves P (picture_of t fetch_picture download instance_name jid o)
        unfolding picture_of
        picture_of-Preserves instance_name jid (some url) = done-Preserves P _
        picture_of-Preserves instance_name jid none =
            fetched_picture-Preserves jid (fetch_picture instance_name jid)

        group_sender-Preserves :
            (now : ℕ) (ids : Fresh) (instance_name : Text) (c : Conversation) (m : EvolutionMessage)
            → Preserves P (group_sender t fetch_picture download now ids instance_name c m)
        unfolding group_sender
        group_sender-Preserves now ids instance_name c m =
            bind-Preserves P _ _ (upsert_client-Preserves _ _ _) λ sender.
              then-Preserves P _ _ (upsert_participant-Preserves _ _)
                (bind-Preserves P _ _ (picture_of-Preserves _ _ _) (λ picture. done-Preserves P _))

        open_group-Preserves :
            (now : ℕ) (ids : Fresh) (p : Phone) (instance_name : Text) (m : EvolutionMessage)
            → Preserves P (open_group t fetch_picture download now ids p instance_name m)
        unfolding open_group
        open_group-Preserves now ids p instance_name m =
            bind-Preserves P _ _ (upsert_group-Preserves _ _ _ _) λ c.
              bind-Preserves P _ _
                (when-Preserves P _ _ _ (done-Preserves P _)
                  (group_sender-Preserves now ids instance_name c m))
                λ sender. bind-Preserves P _ _ (reads-Preserves P _) λ n.
                  then-Preserves P _ _
                    (when-Preserves P _ _ _ (bootstrap-Preserves _) (done-Preserves P tt))
                    (done-Preserves P _)

        open_individual-Preserves :
            (now : ℕ) (ids : Fresh) (p : Phone) (instance_name : Text) (m : EvolutionMessage)
            → Preserves P (open_individual t fetch_picture download now ids p instance_name m)
        unfolding open_individual
        open_individual-Preserves now ids p instance_name m =
            bind-Preserves P _ _ (upsert_client-Preserves _ _ _) λ client.
              bind-Preserves P _ _ (upsert_individual-Preserves _ _ _ _ _) λ c.
                then-Preserves P _ _
                  (bootstrap_client-Preserves fetch_picture download p instance_name c _ _)
                  (done-Preserves P _)

        module _
            (messages : (now : ℕ) (id : Text) (d : MessageData)
              → Preserves P (create_message t now id d))
            (stats : (id : Text) (d : Direction) → Preserves P (upsert_stats t id d false))
            (queue : (s : State t) (r : Queue.State (Tables.requests t))
              → P s
              → P (record s { queue = r }))
            (events : (s : State t) (r : List AppEvent) → P s → P (record s { events = r })) where
          save_message-Preserves :
              (now : ℕ) (ids : Fresh) (p : Phone) (instance_name : Text) (e : EvolutionMessage)
              → (o : Opened)
              → Preserves P (save_message t fetch_picture download now ids p instance_name e o)
          unfolding save_message
          save_message-Preserves now ids p instance_name e o =
              bind-Preserves P _ _ (messages _ _ _)
                λ m. after_saved-Preserves stats queue events now p instance_name _ e o m

          process_new-Preserves :
              (now : ℕ) (ids : Fresh) (instance_name : Text) (m : EvolutionMessage) (p : Phone)
              → Preserves P (process_new t fetch_picture download now ids instance_name m p)
          unfolding process_new
          process_new-Preserves now ids instance_name m p =
              bind-Preserves P _ _
                (when-Preserves P _ _ _ (open_group-Preserves now ids p instance_name m)
                  (open_individual-Preserves now ids p instance_name m))
                (save_message-Preserves now ids p instance_name m)

          echo_found-Preserves :
              (now : ℕ) (ids : Fresh) (instance_name : Text) (m : EvolutionMessage) (p : Phone)
              → (o : Option Message)
              → Preserves P (echo_found t fetch_picture download now ids instance_name m p o)
          unfolding echo_found
          echo_found-Preserves now ids instance_name m p none =
              process_new-Preserves now ids instance_name m p
          echo_found-Preserves now ids instance_name m p (some saved) =
              then-Preserves P _ _ (emit-Preserves _ _) (stats _ _)

          process_for-Preserves :
              (now : ℕ) (ids : Fresh) (instance_name : Text) (m : EvolutionMessage)
              (o : Option Phone)
              → Preserves P (process_for t fetch_picture download now ids instance_name m o)
          unfolding process_for
          process_for-Preserves now ids instance_name m none = done-Preserves P tt
          process_for-Preserves now ids instance_name m (some p) =
              when-Preserves P _ _ _
                (bind-Preserves P _ _ (reads-Preserves P _)
                  (echo_found-Preserves now ids instance_name m p))
                (process_new-Preserves now ids instance_name m p)

          pub process_message-Preserves :
              (now : ℕ) (ids : Fresh) (phone_id instance_name : Text) (m : EvolutionMessage)
              → Preserves P
                  (process_message t fetch_picture download now ids phone_id instance_name m)
          unfolding process_message
          process_message-Preserves now ids phone_id instance_name m =
              when-Preserves P _ _ _ (done-Preserves P tt) (
                bind-Preserves P _ _ (reads-Preserves P _)
                  (process_for-Preserves now ids instance_name m))
