-- ===== src/Sessions/Lifecycle/Handover.antt =====
-- Whose a conversation is after it was passed on.
use f_chat_backend.Prelude.{
  ℕ, Text, text, ◌==◌, ==_iff, ==_refl, ==_sound, Option, none, some, List, Bool, true, false,
  is_some, if◌then◌else◌, ◌≡◌, refl, sym, ap, ◌∙◌, subst, ◌⊎◌, inl, inr, Memᴰ, Bool-cases, not_both,
  arith,
}
use f_chat_backend.Prelude.Actions.{
  Result, remote, forbidden, failed, continue, require, refuse, ok, done, reads, stored,
  when◌then◌else◌, then-ok, stored-ok, written-some, after_reads, after_refuse, ◌>>=◌, ◌>>◌,
}
use f_chat_backend.Prelude.Table.{Table}
use f_chat_backend.Prelude.Invariants.{
  Preserves, ok-Preserves, then-Preserves, done-Preserves, refuse-Preserves, when-Preserves,
  part-Preserves, stored-some-Preserves,
}
use f_chat_backend.Messaging.{Tables}
use f_chat_backend.Messaging.Rows.{ConversationMode, ai, hitl, Phone, Conversation, Message}
use f_chat_backend.Messaging.Conversations.{has_conversation_id, find_conversation}
use f_chat_backend.Sessions.DbStore.{NodeSession}
use f_chat_backend.Sessions.Lifecycle.{
  SessionType, ai_session, hitl_session, Session, SwitchToHitlParams, Request, State, same_type,
  is_open_of, new_session, ended, find_open, create_session, close_session, notify, mode_written,
  update_conversation_mode, mark_api_down, HitlReturn, Notice, close_node_session, announce,
  switch_to_hitl, return_to_ai, find_phone_of, check_owner, find_owned, take_control,
  give_back_control,
}

module _ (ss : Table Session) where
  unfoldable pub HasRow : Table.St ss → Session → Type 0
  HasRow r x = Memᴰ x (Table.rows ss r)

  unfoldable pub IsOpen : Text → Session → Type 0
  IsOpen c x = (x.conversation_id ≡ c) × (is_some x.ended_at ≡ false)

  -- The open sessions of a conversation are of one kind, and there is one at most.
  pub record HasOnly (k : SessionType) (c : Text) (r : Table.St ss) : Type 0 where
    pub kind : (x : Session) → HasRow r x → IsOpen c x → x.type ≡ k
    pub one : (x y : Session) → HasRow r x → HasRow r y → IsOpen c x → IsOpen c y → x ≡ y

  IsIdle : Text → Table.St ss → Type 0
  IsIdle c r = (x : Session) → HasRow r x → ¬ (IsOpen c x)

  same_type_refl : (k : SessionType) → same_type k k ≡ true
  unfolding same_type
  same_type_refl ai_session = refl
  same_type_refl hitl_session = refl

  is_open_of_if :
      (k : SessionType) (c : Text) (x : Session) → x.type ≡ k → IsOpen c x → is_open_of k c x ≡ true
  unfolding is_open_of IsOpen
  is_open_of_if k c x kind (conv, running) =
      rw (kind, conv, running, ==_refl c, same_type_refl k) refl

  is_open_of-IsOpen :
      (k : SessionType) (c : Text) (x : Session) → is_open_of k c x ≡ true → IsOpen c x
  unfolding is_open_of IsOpen
  is_open_of-IsOpen k c x e =
      (==_sound x.conversation_id c (ground arith), ground (arith, Bool-cases (is_some x.ended_at)))

  -- Nothing is open where no session of the only kind is found.
  none-IsIdle :
      (k : SessionType) (c : Text) (r : Table.St ss)
      → HasOnly k c r
      → Table.find_first ss r (is_open_of k c) ≡ none
      → IsIdle c r
  unfolding IsIdle HasRow
  none-IsIdle k c r only e x there open_now =
      not_both (is_open_of k c x) (is_open_of_if k c x (only.kind x there open_now) open_now)
        (Table.no_row ss r (is_open_of k c) e x there)

  ended-shut :
      (now : ℕ) (reason : Text) (by : Option Text) (c : Text) (x : Session)
      → ¬ (IsOpen c (ended now reason by x))
  unfolding ended IsOpen
  ended-shut now reason by c x (conv, running) = cc

  closed-IsIdle :
      (k : SessionType) (c : Text) (now : ℕ) (reason : Text) (by : Option Text)
      → (r u : Table.St ss) (q : Session) → HasOnly k c r
      → Table.find_first ss r (is_open_of k c) ≡ some q
      → Table.update ss r (λ y. y.id == q.id) (ended now reason by) ≡ some u
      → IsIdle c u
  unfolding IsIdle HasRow
  closed-IsIdle k c now reason by r u q only found wrote x there open_now =
      let (q_there, q_open) = Table.found_row ss r (is_open_of k c) q found in
      let (y, before, e) =
        (Table.updated ss r u (λ y. y.id == q.id) (ended now reason by) wrote x).0 there in
      elim (Bool-cases (y.id == q.id)) [
        | inl hit ↦ ended-shut now reason by c y (subst (IsOpen c) (rw hit at e) open_now)
        | inr miss ↦
            let y_open : IsOpen c y = subst (IsOpen c) (rw miss at e) open_now in
            let same : y ≡ q =
              only.one y q before q_there y_open (is_open_of-IsOpen k c q q_open) in
            not_both (y.id == q.id) (ap (λ (z : Session). z.id == q.id) same ∙ ==_refl q.id) miss
      ]

  -- The new session is the only open one.
  created-HasOnly :
      (k : SessionType) (c : Text) (now : ℕ) (id : Text) (by : Option Text) (r u : Table.St ss)
      → IsIdle c r
      → Table.create ss r (new_session k now id c by) ≡ some u
      → HasOnly k c u × HasRow u (new_session k now id c by)
  unfolding IsIdle HasRow new_session
  created-HasOnly k c now id by r u idle made =
      let new = new_session k now id c by in
      let is_new = λ (x : Session) (m : Memᴰ x (Table.rows ss u)) (o : IsOpen c x).
        fresh_of x o ((Table.created ss r u new made x).0 m) in
      (
        record {
          kind = λ x m o. ap (λ (z : Session). z.type) (is_new x m o);
          one = λ x y mx my ox oy. is_new x mx ox ∙ sym (is_new y my oy);
        },
        (Table.created ss r u new made new).1 (inr refl),
      )
    where
      fresh_of :
          (x : Session)
          → IsOpen c x
          → Memᴰ x (Table.rows ss r) ⊎ (x ≡ new_session k now id c by)
          → x ≡ new_session k now id c by
      fresh_of x o (inl m) = absurd (idle x m o)
      fresh_of x o (inr e) = e

module _ (t : Tables) (ss : Table Session) (ns : Table NodeSession) where
  -- Each row of the conversation has the mode.
  unfoldable pub HasMode : Text → ConversationMode → State t ss ns → Type 0
  HasMode id mode s =
      (c : Conversation)
      → Memᴰ c (Table.rows (Tables.conversations t) s.store.conversations)
      → c.id ≡ id
      → c.mode ≡ mode

  -- The conversation is in a mode, and one session of the mode's kind is open, and no other.
  unfoldable pub IsHeld : SessionType → ConversationMode → Text → State t ss ns → Type 0
  IsHeld k mode c s =
      HasOnly ss k c s.sessions
      × ((x : Session) × HasRow ss s.sessions x × IsOpen ss c x)
      × HasMode c mode s

  Only : SessionType → Text → State t ss ns → Type 0
  Only k c s = HasOnly ss k c s.sessions

  close_session-IsIdle :
      (k : SessionType) (c : Text) (now : ℕ) (reason : Text) (by : Option Text)
      → (s u : State t ss ns) (x : Unit) → HasOnly ss k c s.sessions
      → (o : Option Session) → find_open t ss ns k c s ≡ o
      → close_session t ss ns now reason by o s ≡ (ok x, u)
      → IsIdle ss c u.sessions
  unfolding close_session find_open done
  close_session-IsIdle k c now reason by s u x only none e h =
      subst (λ (r : Result Unit × State t ss ns). IsIdle ss c r.1.sessions) h
        (none-IsIdle ss k c s.sessions only e)
  close_session-IsIdle k c now reason by s u x only (some q) e h =
      let (r, wrote, put) = written-some _ _ u (stored-ok _ s u x h) in
      subst (λ (z : State t ss ns). IsIdle ss c z.sessions) put
        (closed-IsIdle ss k c now reason by s.sessions r q only e wrote)

  create_session-HasOnly :
      (k : SessionType) (c : Text) (now : ℕ) (id : Text) (by : Option Text)
      → (s u : State t ss ns) (x : Unit) → IsIdle ss c s.sessions
      → create_session t ss ns (new_session k now id c by) s ≡ (ok x, u)
      → HasOnly ss k c u.sessions × HasRow ss u.sessions (new_session k now id c by)
  unfolding create_session
  create_session-HasOnly k c now id by s u x idle h =
      let (r, made, put) = written-some _ _ u (stored-ok _ s u x h) in
      subst
        (λ (z : State t ss ns).
          HasOnly ss k c z.sessions × HasRow ss z.sessions (new_session k now id c by))
        put (created-HasOnly ss k c now id by s.sessions r idle made)

  module _ (reaches : Request → Bool) where
    mark-Only :
        (k : SessionType) (c : Text) (o : Option (Text × Text))
        → Preserves (Only k c) (mark_api_down t ss ns reaches o)
    unfolding mark_api_down Only
    mark-Only k c none = done-Preserves (Only k c) tt
    mark-Only k c (some (name, error)) =
        then-Preserves (Only k c) _ _ (refuse-Preserves (Only k c) _ _)
          (stored-some-Preserves (Only k c) _ (λ s h. h))

    mode-Only :
        (k : SessionType) (c id : Text) (mode : ConversationMode)
        → Preserves (Only k c) (update_conversation_mode t ss ns reaches id mode)
    unfolding update_conversation_mode mode_written Only
    mode-Only k c id mode =
        then-Preserves (Only k c) _ _ (refuse-Preserves (Only k c) _ _)
          (part-Preserves (Only k c) _ _ (λ s r h e. h))

    mode_set :
        (id : Text) (mode : ConversationMode) (s u : State t ss ns) (x : Unit)
        → update_conversation_mode t ss ns reaches id mode s ≡ (ok x, u)
        → HasMode id mode u
    unfolding update_conversation_mode mode_written HasMode has_conversation_id
    mode_set id mode s u x h =
        let (_, rest) = after_refuse remote (stored (mode_written t ss ns reaches id mode)) h in
        let (r, wrote, put) = written-some _ _ u (stored-ok _ s u x rest) in
        subst (HasMode id mode) put (λ c there same.
          let (y, before, e) =
            (Table.updated (Tables.conversations t) s.store.conversations r (has_conversation_id id)
                (λ d. record d { mode = mode }) wrote c).0
              there in
          of_row c y (Bool-cases (has_conversation_id id y)) e same)
      where
        of_row :
            (c y : Conversation)
            → (has_conversation_id id y ≡ true) ⊎ (has_conversation_id id y ≡ false)
            → c ≡ (if has_conversation_id id y then record y { mode = mode } else y)
            → c.id ≡ id
            → c.mode ≡ mode
        of_row c y (inl hit) e same = ap (λ (d : Conversation). d.mode) (rw hit at e)
        of_row c y (inr miss) e same = absurd (
            not_both (y.id == id)
              ((==_iff y.id id).1 (sym (ap (λ (d : Conversation). d.id) (rw miss at e)) ∙ same))
              miss)

  -- What follows the writing of the mode keeps it.
  close_session-HasMode :
      (id : Text) (mode : ConversationMode) (now : ℕ) (reason : Text) (by : Option Text)
      → (o : Option Session) → Preserves (HasMode id mode) (close_session t ss ns now reason by o)
  unfolding close_session HasMode
  close_session-HasMode id mode now reason by none = done-Preserves (HasMode id mode) tt
  close_session-HasMode id mode now reason by (some x) =
      part-Preserves (HasMode id mode) _ _ (λ s r h e. h)

  create_session-HasMode :
      (id : Text) (mode : ConversationMode) (x : Session)
      → Preserves (HasMode id mode) (create_session t ss ns x)
  unfolding create_session HasMode
  create_session-HasMode id mode x = part-Preserves (HasMode id mode) _ _ (λ s r h e. h)

  close_node_session-HasMode :
      (id : Text) (mode : ConversationMode) (o : Option NodeSession)
      → Preserves (HasMode id mode) (close_node_session t ss ns o)
  unfolding close_node_session HasMode
  close_node_session-HasMode id mode none = done-Preserves (HasMode id mode) tt
  close_node_session-HasMode id mode (some x) = part-Preserves (HasMode id mode) _ _ (λ s r h e. h)

  Idle : Text → State t ss ns → Type 0
  Idle c s = IsIdle ss c s.sessions

  close_node_session-Idle :
      (c : Text) (o : Option NodeSession) → Preserves (Idle c) (close_node_session t ss ns o)
  unfolding close_node_session Idle
  close_node_session-Idle c none = done-Preserves (Idle c) tt
  close_node_session-Idle c (some x) = part-Preserves (Idle c) _ _ (λ s r h e. h)

  notify-IsHeld :
      (k : SessionType) (mode : ConversationMode) (c : Text) (news : List Notice) (tenant_id : Text)
      → Preserves (IsHeld k mode c) (notify t ss ns news tenant_id)
  unfolding notify IsHeld HasMode
  notify-IsHeld k mode c news tenant_id = stored-some-Preserves (IsHeld k mode c) _ (λ s h. h)

  announce-IsHeld :
      (k : SessionType) (mode : ConversationMode) (c : Text) (r : HitlReturn)
      → Preserves (IsHeld k mode c) (announce t ss ns r)
  unfolding announce IsHeld HasMode
  announce-IsHeld k mode c r = stored-some-Preserves (IsHeld k mode c) _ (λ s h. h)

  -- The new session is created in an idle conversation that has its mode.
  create_session-IsHeld :
      (k : SessionType) (mode : ConversationMode) (c : Text) (now : ℕ) (id : Text)
      → (by : Option Text) (s u : State t ss ns) (x : Unit) → IsIdle ss c s.sessions
      → HasMode c mode s
      → create_session t ss ns (new_session k now id c by) s ≡ (ok x, u)
      → IsHeld k mode c u
  unfolding IsHeld IsOpen new_session
  create_session-IsHeld k mode c now id by s u x idle has h =
      let (only, there) = create_session-HasOnly k c now id by s u x idle h in
      (
        only,
        (new_session k now id c by, there, (refl, refl)),
        ok-Preserves (HasMode c mode) _ s u x (create_session-HasMode c mode _) has h,
      )

  module _ (reaches : Request → Bool) where
    -- Where the agent's session is the only one that is open, or none is: if the passing of the
    -- conversation to a person returns, for whatever reason it was passed, the conversation is in
    -- the mode HITL, one session of a person is open and no other session is.
    pub switch_to_hitl-IsHeld :
        (now : ℕ) (id : Text) (p : SwitchToHitlParams) (s u : State t ss ns)
        → HasOnly ss ai_session p.conversation_id s.sessions
        → switch_to_hitl t ss ns reaches now id p s ≡ (ok tt, u)
        → IsHeld hitl_session hitl p.conversation_id u
    unfolding switch_to_hitl Only
    switch_to_hitl-IsHeld now id p s u only h =
        let c = p.conversation_id in
        let (x1, s1, marked, h1) = then-ok _ _ s u tt h in
        let (x2, s2, moded, h2) = then-ok _ _ s1 u tt h1 in
        let h3 = after_reads _ _ h2 in
        let (x4, s4, closed, h4) = then-ok _ _ s2 u tt h3 in
        let (x5, s5, made, h5) = then-ok _ _ s4 u tt h4 in
        let only1 =
          ok-Preserves (Only ai_session c) _ s s1 x1 (mark-Only reaches ai_session c _) only
            marked in
        let only2 =
          ok-Preserves (Only ai_session c) _ s1 s2 x2 (mode-Only reaches ai_session c _ _) only1
            moded in
        let idle = close_session-IsIdle ai_session c now _ _ s2 s4 x4 only2 _ refl closed in
        let has =
          ok-Preserves (HasMode c hitl) _ s2 s4 x4 (close_session-HasMode c hitl _ _ _ _)
            (mode_set reaches c hitl s1 s2 x2 moded) closed in
        ok-Preserves (IsHeld hitl_session hitl c) _ s5 u tt (notify-IsHeld hitl_session hitl c _ _)
          (create_session-IsHeld hitl_session hitl c now id _ s4 s5 x5 idle has made) h5

    -- Where a person's session is the only one that is open, or none is: if the giving back of the
    -- conversation to the agent returns, the conversation is in the mode AI, one session of the
    -- agent is open and no other session is.
    pub return_to_ai-IsHeld :
        (now : ℕ) (id c tenant_id : Text) (messages : List Message) (s u : State t ss ns)
        → HasOnly ss hitl_session c s.sessions
        → return_to_ai t ss ns reaches now id c tenant_id messages s ≡ (ok tt, u)
        → IsHeld ai_session ai c u
    unfolding return_to_ai Only Idle
    return_to_ai-IsHeld now id c tenant_id messages s u only h =
        let (x1, s1, moded, h1) = then-ok _ _ s u tt h in
        let h2 = after_reads _ _ h1 in
        let (x3, s3, closed, h3) = then-ok _ _ s1 u tt h2 in
        let h4 = after_reads _ _ h3 in
        let (x5, s5, shut, h5) = then-ok _ _ s3 u tt h4 in
        let (x6, s6, made, h6) = then-ok _ _ s5 u tt h5 in
        let only1 =
          ok-Preserves (Only hitl_session c) _ s s1 x1 (mode-Only reaches hitl_session c _ _) only
            moded in
        let idle3 = close_session-IsIdle hitl_session c now _ _ s1 s3 x3 only1 _ refl closed in
        let idle5 = ok-Preserves (Idle c) _ s3 s5 x5 (close_node_session-Idle c _) idle3 shut in
        let has3 =
          ok-Preserves (HasMode c ai) _ s1 s3 x3 (close_session-HasMode c ai _ _ _ _)
            (mode_set reaches c ai s s1 x1 moded) closed in
        let has5 =
          ok-Preserves (HasMode c ai) _ s3 s5 x5 (close_node_session-HasMode c ai _) has3 shut in
        ok-Preserves (IsHeld ai_session ai c) _ s6 u tt
          (then-Preserves (IsHeld ai_session ai c) _ _ (notify-IsHeld ai_session ai c _ _) (
            when-Preserves (IsHeld ai_session ai c) _ _ _ (announce-IsHeld ai_session ai c _)
              (done-Preserves (IsHeld ai_session ai c) tt)))
          (create_session-IsHeld ai_session ai c now id _ s5 s6 x6 idle5 has5 made) h6

    -- A person of another tenant than the phone's can neither take the conversation nor give it
    -- back: both throw `forbidden` and leave everything as it is.
    pub stranger_refused :
        (ordered : List Message → List Message)
        → (now : ℕ) (id conversation_id tenant_id user_name : Text)
        → (s : State t ss ns) (c : Conversation) (p : Phone)
        → find_conversation t conversation_id s.store ≡ some c
        → find_phone_of t ss ns reaches ordered c s ≡ some p
        → (p.tenant_id == tenant_id) ≡ false
        → (take_control t ss ns reaches ordered now id conversation_id tenant_id user_name s ≡ (
          failed (forbidden (text "You do not have permission to access this conversation")),
          s,
        ))
          × (give_back_control t ss ns reaches ordered now id conversation_id tenant_id s ≡ (
            failed (forbidden (text "You do not have permission to access this conversation")),
            s,
          ))
    unfolding take_control give_back_control find_owned check_owner ◌>>=◌ ◌>>◌ reads continue
        require refuse
    stranger_refused ordered now id conversation_id tenant_id user_name s c p found phone other =
        (rw (found, phone, other) refl, rw (found, phone, other) refl)
