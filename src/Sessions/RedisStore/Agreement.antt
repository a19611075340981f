-- ===== src/Sessions/RedisStore/Agreement.antt =====
-- The two keys under which redis-node-session.store.ts keeps a state, in the stores that its
-- operations reach. An id of `uuidv4` is taken to be new.
use f_chat_backend.Prelude.{
  Text, ◌==◌, ==_iff, Option, none, some, Bool, false, or_else, if◌then◌else◌, ◌≡◌, refl, ap, subst,
  inl, inr, Option-cases, arith,
}
use f_chat_backend.Prelude.Redis.{Redis}
use f_chat_backend.Prelude.Map.{Map}
use f_chat_backend.Sessions.RedisStore.{
  NodeSessionStatus, RedisSessionState, conv_key, id_key, Store, save, by_conversation, by_id,
  find_active, new_state, find_or_create, existing_or_new, modify, modify_known, with_node, paused,
  update_current_node, update_completed_todos, pause_flow, update_status, close,
}

conv_key_eq : (a b : Text) → (conv_key a == conv_key b) ≡ (a == b)
unfolding conv_key ◌==◌
conv_key_eq a b = refl

id_key_eq : (a b : Text) → (id_key a == id_key b) ≡ (a == b)
unfolding id_key ◌==◌
id_key_eq a b = refl

conv_id_apart : (a b : Text) → (conv_key a == id_key b) ≡ false
unfolding conv_key id_key ◌==◌
conv_id_apart a b = refl

id_conv_apart : (a b : Text) → (id_key a == conv_key b) ≡ false
unfolding conv_key id_key ◌==◌
id_conv_apart a b = refl

module _ (redis : Redis RedisSessionState) where
  pub by_conversation-save :
      (state : RedisSessionState) (s : Store redis) (c : Text)
      → by_conversation redis c (save redis state s)
        ≡ (if state.conversation_id == c then some state else by_conversation redis c s)
  unfolding by_conversation save
  by_conversation-save state s c =
      rw
        (
          Redis.get-set redis (Redis.set redis s (conv_key state.conversation_id) state)
              (id_key state.id) (conv_key c) state,
          id_conv_apart state.id c,
          Redis.get-set redis s (conv_key state.conversation_id) (conv_key c) state,
          conv_key_eq state.conversation_id c,
        )
        refl

  pub by_id-save :
      (state : RedisSessionState) (s : Store redis) (id : Text)
      → by_id redis id (save redis state s)
        ≡ (if state.id == id then some state else by_id redis id s)
  unfolding by_id save
  by_id-save state s id =
      rw
        (
          Redis.get-set redis (Redis.set redis s (conv_key state.conversation_id) state)
              (id_key state.id) (id_key id) state,
          id_key_eq state.id id,
          Redis.get-set redis s (conv_key state.conversation_id) (id_key id) state,
          conv_id_apart state.conversation_id id,
        )
        refl

  pub record Agrees (s : Store redis) : Type 0 where
    pub conv_named :
        (c : Text) (x : RedisSessionState)
        → by_conversation redis c s ≡ some x
        → x.conversation_id ≡ c
    pub id_named : (id : Text) (x : RedisSessionState) → by_id redis id s ≡ some x → x.id ≡ id
    pub conv_stored :
        (c : Text) (x : RedisSessionState)
        → by_conversation redis c s ≡ some x
        → by_id redis x.id s ≡ some x

  empty-Agrees : Agrees (Redis.empty redis)
  unfolding by_conversation by_id
  empty-Agrees = record {
    conv_named = λ c x e. absurd (nothing (conv_key c) x e);
    id_named = λ id x e. absurd (nothing (id_key id) x e);
    conv_stored = λ c x e. absurd (nothing (conv_key c) x e);
  }
    where
      nothing :
          (k : Text) (x : RedisSessionState) → ¬ (Redis.get redis (Redis.empty redis) k ≡ some x)
      nothing k x e = cc (Redis.get-empty redis k, e)

  -- A state is saved whose id is new, or was that of a state of the same conversation.
  save-Agrees :
      (state : RedisSessionState) (s : Store redis)
      → Agrees s
      → ((old : RedisSessionState)
          → by_id redis state.id s ≡ some old
          → old.conversation_id ≡ state.conversation_id)
      → Agrees (save redis state s)
  save-Agrees state s h same = record {
    conv_named = λ c x e.
        ground
          (arith, by_conversation-save state s c, ==_iff state.conversation_id c, h.conv_named c x);
    id_named = λ id x e. ground (arith, by_id-save state s id, ==_iff state.id id, h.id_named id x);
    conv_stored = stored;
  }
    where
      stored :
          (c : Text) (x : RedisSessionState)
          → by_conversation redis c (save redis state s) ≡ some x
          → by_id redis x.id (save redis state s) ≡ some x
      stored c x e = ground (
        arith,
        by_conversation-save state s c,
        by_id-save state s x.id,
        h.conv_named c x,
        h.conv_stored c x,
        same x,
        ==_iff state.conversation_id c,
        ==_iff state.id x.id,
      )

  -- A change that keeps the id and the conversation.
  Keeps : (RedisSessionState → RedisSessionState) → Type 0
  Keeps f =
      (x : RedisSessionState) → ((f x).id ≡ x.id) × ((f x).conversation_id ≡ x.conversation_id)

  modify-Agrees :
      (f : RedisSessionState → RedisSessionState) (id : Text) (s t : Store redis)
      → Keeps f
      → Agrees s
      → modify redis f id s ≡ some t
      → Agrees t
  unfolding modify Keeps
  modify-Agrees f id s t keeps h e = elim (Option-cases (by_id redis id s)) [
    | inl q ↦ cc (rw q at e)
    | inr (x, q) ↦
        let (same_id, same_conv) = keeps x in
        let named = h.id_named id x q in
        subst Agrees (ap (λ o. or_else o s) (rw q at e))
          (save-Agrees (f x) s h (λ old found. ground (arith)))
  ]

  modify_known-Agrees :
      (f : RedisSessionState → RedisSessionState) (id : Text) (s : Store redis)
      → Keeps f
      → Agrees s
      → Agrees (modify_known redis f id s)
  unfolding modify_known
  modify_known-Agrees f id s keeps h = elim (Option-cases (modify redis f id s)) [
    | inl q ↦ rw q h
    | inr (t, q) ↦ rw q (modify-Agrees f id s t keeps h q)
  ]

  -- The operations of the store. A new id is one under which nothing is stored.
  pub data Step (s : Store redis) : Store redis → Type 0 where
    creates :
        (fresh_id c : Text) (flow : Option Text)
        → by_id redis fresh_id s ≡ none
        → Step s (find_or_create redis fresh_id c flow s).1
    moves :
        {t : Store redis} (id : Text) (target intent flow summary : Option Text)
        → update_current_node redis id target intent flow summary s ≡ some t
        → Step s t
    checks :
        {t : Store redis} (id : Text) (todos : Map Bool)
        → update_completed_todos redis id todos s ≡ some t
        → Step s t
    pauses : (id summary : Text) → Step s (pause_flow redis id summary s)
    marks : (id : Text) (status : NodeSessionStatus) → Step s (update_status redis id status s)
    closes : (id : Text) → Step s (close redis id s)

  pub data Reachable : Store redis → Type 0 where
    start : Reachable (Redis.empty redis)
    next : {s t : Store redis} → Reachable s → Step s t → Reachable t

  find_or_create-Agrees :
      (fresh_id c : Text) (flow : Option Text) (s : Store redis)
      → by_id redis fresh_id s ≡ none
      → Agrees s
      → Agrees (find_or_create redis fresh_id c flow s).1
  unfolding find_or_create new_state existing_or_new
  find_or_create-Agrees fresh_id c flow s free h = elim (Option-cases (find_active redis c s)) [
    | inl q ↦ rw q (save-Agrees (new_state fresh_id c flow) s h (λ old found. cc))
    | inr (x, q) ↦ rw q h
  ]

  Step-Agrees : {s t : Store redis} → Step s t → Agrees s → Agrees t
  unfolding update_current_node update_completed_todos pause_flow update_status close Keeps
      with_node paused
  Step-Agrees {s = s} (creates fresh_id c flow free) h =
      find_or_create-Agrees fresh_id c flow s free h
  Step-Agrees {s = s} {t = t} (moves id target intent flow summary e) h =
      modify-Agrees _ id s t (λ x. (refl, refl)) h e
  Step-Agrees {s = s} {t = t} (checks id todos e) h = modify-Agrees _ id s t (λ x. (refl, refl)) h e
  Step-Agrees {s = s} (pauses id summary) h = modify_known-Agrees _ id s (λ x. (refl, refl)) h
  Step-Agrees {s = s} (marks id status) h = modify_known-Agrees _ id s (λ x. (refl, refl)) h
  Step-Agrees {s = s} (closes id) h = modify_known-Agrees _ id s (λ x. (refl, refl)) h

  -- In every store that the operations reach from an empty one, what is stored under a
  -- conversation is a session of that conversation and is stored under its own id too, and what is
  -- stored under an id has that id.
  pub Reachable-Agrees : {s : Store redis} → Reachable s → Agrees s
  Reachable-Agrees start = empty-Agrees
  Reachable-Agrees (next r step) = Step-Agrees step (Reachable-Agrees r)
