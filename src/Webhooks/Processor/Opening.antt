-- ===== src/Webhooks/Processor/Opening.antt =====
-- What the opening of a conversation gives: `processMessage` up to the saving of the message.
use f_chat_backend.Prelude.{
  ℕ, Text, ◌==◌, ==_sound, ==_refl, Option, none, some, Bool, true, ◌&&◌, ◌≡◌, refl, ◌∙◌, subst,
  inr, Memᴰ, arith,
}
use f_chat_backend.Prelude.Actions.{
  ok, done, written-some, bind-ok, then-ok, after_reads, after_stored, stored-ok, done-ok,
}
use f_chat_backend.Prelude.Table.{Table}
use f_chat_backend.Prelude.Invariants.{ok-Preserves}
use f_chat_backend.Jid.{phone_from_jid}
use f_chat_backend.Messaging.{Tables, State}
use f_chat_backend.Messaging.Rows.{Phone, Client, Conversation, Participant, equals}
use f_chat_backend.Messaging.Events.{EvolutionMessage}
use f_chat_backend.Messaging.Clients.{
  ClientData, has_phone_number, new_client, seen_client, find_client, write_client, upsert_client,
}
use f_chat_backend.Messaging.Conversations.{
  new_conversation, new_group, has_group_jid, is_individual, has_participant, is_member,
  find_individual, individual_found, upsert_individual, create_participant, add_participant,
  upsert_participant, update_conversation, group_found, upsert_group,
}
use f_chat_backend.Webhooks.Content.{MediaData, remote_jid_of, build_client_data}
use f_chat_backend.Webhooks.Processor.{
  Fresh, Opened, open_group, open_individual, bootstrap_client, from_me_of, sender_name_of,
}
use f_chat_backend.Webhooks.Processor.Frame.{
  bootstrap_client-Preserves, upsert_individual-Preserves,
}

module _ (t : Tables) where
  -- The contact has a number.
  unfoldable pub HasClient : Text → Client → State t → Type 0
  HasClient number c s =
      Memᴰ c (Table.rows (Tables.clients t) s.clients) × (c.phone_number ≡ number)

  -- The contact takes part in a conversation.
  unfoldable pub HasMember : Text → Text → State t → Type 0
  HasMember conversation_id client_id s =
      (x : Participant) × Memᴰ x (Table.rows (Tables.participants t) s.participants)
      × (is_member conversation_id client_id x ≡ true)

  write_client-HasClient :
      (now : ℕ) (id : Text) (d : ClientData) (o : Option Client) (s u : State t) (c : Client)
      → find_client t d.phone_number s ≡ o
      → write_client t now id d o s ≡ (ok c, u)
      → HasClient d.phone_number c u
  unfolding write_client HasClient find_client new_client seen_client has_phone_number
  write_client-HasClient now id d none s u c e h =
      let (v, w, k) = after_stored _ (done (new_client now id d)) h in
      let (made, end) = done-ok (new_client now id d) v u c k in
      let (r, wrote, put) = written-some _ _ v w in
      subst (λ x. HasClient d.phone_number x u) made
        (subst (HasClient d.phone_number (new_client now id d)) (put ∙ end) (
          (Table.created (Tables.clients t) s.clients r (new_client now id d) wrote _).1 (inr refl),
          refl,
        ))
  write_client-HasClient now id d (some old) s u c e h =
      let (v, w, k) = after_stored _ (done (seen_client now d old)) h in
      let (made, end) = done-ok (seen_client now d old) v u c k in
      let (r, wrote, put) = written-some _ _ v w in
      let (there, fits) =
        Table.found_row (Tables.clients t) s.clients (has_phone_number d.phone_number) old e in
      let here : Memᴰ (seen_client now d old) (Table.rows (Tables.clients t) r) =
        (Table.updated (Tables.clients t) s.clients r (has_phone_number d.phone_number)
            (seen_client now d) wrote (seen_client now d old)).1
          (old, there, rw fits refl) in
      subst (λ x. HasClient d.phone_number x u) made
        (subst (HasClient d.phone_number (seen_client now d old)) (put ∙ end)
          (here, ==_sound old.phone_number d.phone_number fits))

  pub upsert_client-HasClient :
      (now : ℕ) (id : Text) (d : ClientData) (s u : State t) (c : Client)
      → upsert_client t now id d s ≡ (ok c, u)
      → HasClient d.phone_number c u
  unfolding upsert_client
  upsert_client-HasClient now id d s u c h =
      write_client-HasClient now id d (find_client t d.phone_number s) s u c refl
        (after_reads _ (write_client t now id d) h)

  create_participant-HasMember :
      (conversation_id client_id : Text) (s u : State t) (x : Unit)
      → create_participant t conversation_id client_id s ≡ (ok x, u)
      → HasMember conversation_id client_id u
  unfolding create_participant HasMember is_member
  create_participant-HasMember conversation_id client_id s u x h =
      let (r, wrote, put) = written-some _ _ u (stored-ok _ s u x h) in
      let row : Participant = record { conversation_id = conversation_id; client_id = client_id } in
      subst (HasMember conversation_id client_id) put (
        row,
        (Table.created (Tables.participants t) s.participants r row wrote row).1 (inr refl),
        rw (==_refl conversation_id, ==_refl client_id) refl,
      )

  add_participant-HasMember :
      (conversation_id client_id : Text) (o : Option Participant) (s u : State t) (x : Unit)
      → Table.find_first
          (Tables.participants t)
          s.participants
          (is_member conversation_id client_id)
        ≡ o
      → add_participant t conversation_id client_id o s ≡ (ok x, u)
      → HasMember conversation_id client_id u
  unfolding add_participant HasMember
  add_participant-HasMember conversation_id client_id none s u x e h =
      create_participant-HasMember conversation_id client_id s u x h
  add_participant-HasMember conversation_id client_id (some p) s u x e h =
      let (same, end) = done-ok tt s u x h in
      let found =
        Table.found_row (Tables.participants t) s.participants (is_member conversation_id client_id)
          p e in
      subst (HasMember conversation_id client_id) end (p, found.0, found.1)

  upsert_participant-HasMember :
      (conversation_id client_id : Text) (s u : State t) (x : Unit)
      → upsert_participant t conversation_id client_id s ≡ (ok x, u)
      → HasMember conversation_id client_id u
  unfolding upsert_participant
  upsert_participant-HasMember conversation_id client_id s u x h =
      add_participant-HasMember conversation_id client_id _ s u x refl
        (after_reads _ (add_participant t conversation_id client_id) h)

  -- The conversation that is found or made is the phone's, and the contact takes part in it.
  unfoldable pub IsTalkOf : Text → Text → Conversation → State t → Type 0
  IsTalkOf phone_id client_id c s = (c.phone_id ≡ phone_id) × HasMember c.id client_id s

  individual_found-IsTalkOf :
      (now : ℕ) (id phone_id client_id : Text) (b : Bool) (o : Option Conversation) (s u : State t)
      (c : Conversation)
      → find_individual t phone_id client_id s ≡ o
      → individual_found t now id phone_id client_id b o s ≡ (ok c, u)
      → IsTalkOf phone_id client_id c u
  unfolding individual_found IsTalkOf new_conversation find_individual HasMember update_conversation
  individual_found-IsTalkOf now id phone_id client_id b none s u c e h =
      let (x, s1, e1, h1) = then-ok _ _ s u c h in
      let (y, s2, e2, h2) = then-ok _ _ s1 u c h1 in
      let (made, end) = done-ok _ s2 u c h2 in
      subst (λ z. IsTalkOf phone_id client_id z u) made
        (
          refl,
          subst (HasMember id client_id) end (create_participant-HasMember id client_id s1 s2 y e2),
        )
  individual_found-IsTalkOf now id phone_id client_id b (some old) s u c e h =
      let (x, s1, e1, h1) = then-ok (upsert_participant t old.id client_id) _ s u c h in
      let (y, s2, e2, h2) = then-ok _ _ s1 u c h1 in
      let (made, end) = done-ok _ s2 u c h2 in
      let (r, wrote, put) = written-some _ _ s2 (stored-ok _ s1 s2 y e2) in
      let fits =
        (Table.found_row (Tables.conversations t) s.conversations
          (λ z. z.phone_id == phone_id && is_individual z.type && has_participant t s client_id z)
          old e).1 in
      subst (λ z. IsTalkOf phone_id client_id z u) made
        (
          ==_sound old.phone_id phone_id (ground arith),
          subst (HasMember old.id client_id) (put ∙ end)
              (upsert_participant-HasMember old.id client_id s s1 x e1),
        )

  pub upsert_individual-IsTalkOf :
      (now : ℕ) (id phone_id client_id : Text) (b : Bool) (s u : State t) (c : Conversation)
      → upsert_individual t now id phone_id client_id b s ≡ (ok c, u)
      → IsTalkOf phone_id client_id c u
  unfolding upsert_individual
  upsert_individual-IsTalkOf now id phone_id client_id b s u c h =
      individual_found-IsTalkOf now id phone_id client_id b (find_individual t phone_id client_id s)
        s u c refl (after_reads _ (individual_found t now id phone_id client_id b) h)

  group_found-jid :
      (now : ℕ) (id phone_id jid : Text) (o : Option Conversation) (s u : State t)
      (c : Conversation)
      → Table.find_first (Tables.conversations t) s.conversations (has_group_jid jid) ≡ o
      → group_found t now id phone_id jid o s ≡ (ok c, u)
      → equals c.group_jid jid ≡ true
  unfolding group_found new_group has_group_jid equals
  group_found-jid now id phone_id jid none s u c e h =
      let (x, s1, e1, h1) = then-ok _ _ s u c h in
      let (made, end) = done-ok _ s1 u c h1 in
      subst (λ (z : Conversation). equals z.group_jid jid ≡ true) made (==_refl jid)
  group_found-jid now id phone_id jid (some old) s u c e h =
      let (made, end) = done-ok old s u c h in
      subst (λ (z : Conversation). equals z.group_jid jid ≡ true) made
        (Table.found_row (Tables.conversations t) s.conversations (has_group_jid jid) old e).1

  upsert_group-jid :
      (now : ℕ) (id phone_id jid : Text) (s u : State t) (c : Conversation)
      → upsert_group t now id phone_id jid s ≡ (ok c, u)
      → equals c.group_jid jid ≡ true
  unfolding upsert_group
  upsert_group-jid now id phone_id jid s u c h =
      group_found-jid now id phone_id jid _ s u c refl
        (after_reads _ (group_found t now id phone_id jid) h)

  -- The conversation belongs to the contact of a number on a phone.
  unfoldable pub IsContactTalk : Phone → Text → Opened → State t → Type 0
  IsContactTalk p number o s =
      (o.conversation.phone_id ≡ p.id)
      × (o.client_phone ≡ some number)
      × ((c : Client) × HasClient number c s × HasMember o.conversation.id c.id s)

  module _ (fetch_picture : Text → Text → Option (Option Text))
      (download : Text → Text → Text → Text → Option MediaData) where
    pub open_group-jid :
        (now : ℕ) (ids : Fresh) (p : Phone) (instance_name : Text) (m : EvolutionMessage)
        (s u : State t) (o : Opened)
        → open_group t fetch_picture download now ids p instance_name m s ≡ (ok o, u)
        → equals o.conversation.group_jid (remote_jid_of m.key) ≡ true
    unfolding open_group
    open_group-jid now ids p instance_name m s u o h =
        let (c, s1, e1, h1) =
          bind-ok (upsert_group t now ids.conversation_id p.id (remote_jid_of m.key)) _ s u o h in
        let (sender, s2, e2, h2) = bind-ok _ _ s1 u o h1 in
        let h3 = after_reads _ _ h2 in
        let (x, s3, e3, h4) = then-ok _ _ s2 u o h3 in
        let (made, end) = done-ok _ s3 u o h4 in
        subst (λ (z : Opened). equals z.conversation.group_jid (remote_jid_of m.key) ≡ true) made
          (upsert_group-jid now ids.conversation_id p.id (remote_jid_of m.key) s s1 c e1)

    -- The contact and the conversation that were found are still there once the opening is done.
    bootstrap_client-IsContactTalk :
        (p : Phone) (instance_name number name : Text) (k : Client) (c : Conversation)
        (s u : State t) (x : Unit)
        → HasClient number k s
        → IsTalkOf p.id k.id c s
        → bootstrap_client t fetch_picture download p instance_name c k.id number s ≡ (ok x, u)
        → IsContactTalk p number
            (record {
              conversation = c;
              client_phone = some number;
              client_name = k.name;
              sender_name = name;
              sender_profile_pic_url = none;
            })
            u
    unfolding IsContactTalk IsTalkOf HasClient HasMember
    bootstrap_client-IsContactTalk p instance_name number name k c s u x known talk h =
        let P : State t → Type 0 = λ z. HasClient number k z × HasMember c.id k.id z in
        let kept =
          ok-Preserves P (bootstrap_client t fetch_picture download p instance_name c k.id number) s
            u x
            (bootstrap_client-Preserves t P (λ z r q. q) (λ z r q. q) (λ z r q. q) fetch_picture
              download p instance_name c k.id number)
            (known, talk.1) h in
        (talk.0, refl, (k, kept.0, kept.1))

    pub open_individual-IsContactTalk :
        (now : ℕ) (ids : Fresh) (p : Phone) (instance_name : Text) (m : EvolutionMessage)
        (s u : State t) (o : Opened)
        → open_individual t fetch_picture download now ids p instance_name m s ≡ (ok o, u)
        → IsContactTalk p (phone_from_jid (remote_jid_of m.key)) o u
    unfolding open_individual build_client_data HasClient
    open_individual-IsContactTalk now ids p instance_name m s u o h =
        let d = build_client_data m (from_me_of m.key) in
        let number = phone_from_jid (remote_jid_of m.key) in
        let (k, s1, e1, h1) = bind-ok (upsert_client t now ids.client_id d) _ s u o h in
        let (c, s2, e2, h2) =
          bind-ok (upsert_individual t now ids.conversation_id p.id k.id true) _ s1 u o h1 in
        let (x, s3, e3, h3) = then-ok _ _ s2 u o h2 in
        let (made, end) = done-ok _ s3 u o h3 in
        let known = upsert_client-HasClient now ids.client_id d s s1 k e1 in
        let talk = upsert_individual-IsTalkOf now ids.conversation_id p.id k.id true s1 s2 c e2 in
        let same =
          ok-Preserves (HasClient number k)
            (upsert_individual t now ids.conversation_id p.id k.id true) s1 s2 c
            (upsert_individual-Preserves t (HasClient number k) (λ z r q. q) (λ z r q. q)
              (λ z r q. q) (λ z r q. q) now ids.conversation_id p.id k.id true)
            known e2 in
        subst (λ (z : Opened). IsContactTalk p number z u) made
          (subst (IsContactTalk p number _) end (
            bootstrap_client-IsContactTalk p instance_name number (sender_name_of m) k c s2 s3 x
              same talk e3))
