-- ===== src/Sessions/DbStore/Refines.antt =====
-- The store in production beside the store in test mode, two implementations of the one interface
-- of node-session-store.interface.ts.
use f_chat_backend.Prelude.{
  Text, ◌==◌, ==_comm, ==_iff, ==_sound, Option, none, some, Bool, true, false, ◌&&◌, or_else,
  if◌then◌else◌, ◌≡◌, refl, sym, ap, ◌∙◌, subst, inl, inr, Memᴰ, Bool-cases, arith,
}
use f_chat_backend.Prelude.Redis.{Redis}
use f_chat_backend.Prelude.Table.{Table}
use f_chat_backend.Prelude.Keys.{
  map_some, find_key-row, find_key-changed, IsUnique, changed-IsUnique,
}
use f_chat_backend.Sessions.RedisStore
use f_chat_backend.Sessions.RedisStore.{
  NodeSessionStatus, closed, RedisSessionState, Store, by_id, by_conversation, modify, modify_known,
  with_node, paused,
}
use f_chat_backend.Sessions.RedisStore.Agreement.{by_id-save, by_conversation-save}
use f_chat_backend.Sessions.DbStore.{
  NodeSession, session_id, find_by_id, change, set_cached_node_data, update_current_node,
  update_status, update_completed_todos, pause_flow, close,
}
use f_chat_backend.Sessions.DbStore.Steps.{
  view, Call, call_redis, call_db, db_step, redis_step, view-db_step, db_step-id, redis_step-id,
  redis_step-conversation, is_saving, to_node, to_status, caching, with_todos, pausing, closing,
}

module _ (redis : Redis RedisSessionState) (t : Table NodeSession) where
  after_redis : Call → RedisSessionState → Store redis → Store redis
  after_redis c x r = if is_saving c then RedisStore.save redis (redis_step c x) r else r

  call_redis-known :
      (c : Call) (id : Text) (r : Store redis) (x : RedisSessionState)
      → by_id redis id r ≡ some x
      → call_redis redis c id r ≡ some (after_redis c x r)
  unfolding after_redis is_saving RedisStore.set_cached_node_data call_redis redis_step
      RedisStore.update_current_node RedisStore.update_status RedisStore.update_completed_todos
      RedisStore.pause_flow RedisStore.close modify modify_known
  call_redis-known (to_node target intent flow summary) id r x e = rw e refl
  call_redis-known (to_status status) id r x e = rw e refl
  call_redis-known (caching cached) id r x e = refl
  call_redis-known (with_todos todos) id r x e = rw e refl
  call_redis-known (pausing summary) id r x e = rw e refl
  call_redis-known closing id r x e = rw e refl

  call_db-change :
      (c : Call) (id : Text) (d : Table.St t) → call_db t c id d ≡ change t (db_step c) id d
  unfolding set_cached_node_data call_db db_step update_current_node update_status
      update_completed_todos pause_flow close
  call_db-change (to_node target intent flow summary) id d = refl
  call_db-change (to_status status) id d = refl
  call_db-change (caching cached) id d = refl
  call_db-change (with_todos todos) id d = refl
  call_db-change (pausing summary) id d = refl
  call_db-change closing id d = refl

  -- The two stores hold the same sessions, and the table's ids are unique.
  pub record IsSame (r : Store redis) (d : Table.St t) : Type 0 where
    pub unique : IsUnique t session_id d
    pub same : (id : Text) → by_id redis id r ≡ map_some view (find_by_id t id d)

  row_id : (id : Text) (d : Table.St t) (x : NodeSession) → find_by_id t id d ≡ some x → x.id ≡ id
  unfolding find_by_id session_id
  row_id id d x e = (find_key-row t session_id id d x e).1

  -- What a session is after a call, read in either store.
  changed_views :
      (c : Call) (id j : Text) (r : Store redis) (d : Table.St t) (x : NodeSession)
      → IsSame r d
      → find_by_id t id d ≡ some x
      → (o : Option NodeSession) → find_by_id t j d ≡ o
      → (if id == j then some (redis_step c (view x)) else by_id redis j r)
        ≡ map_some view (map_some (λ y. if y.id == id then db_step c y else y) o)
  unfolding map_some
  changed_views c id j r d x s e none q = elim (Bool-cases (id == j)) [
    | inl eq ↦
        absurd (some_none (sym e ∙ subst (λ z. find_by_id t z d ≡ none) (sym (==_sound id j eq)) q))
    | inr ne ↦ rw ne (s.same j ∙ ap (map_some view) q)
  ]
    where
      some_none : {A : Type 0} {a : A} → ¬ (some a ≡ none)
      some_none h = cc
  changed_views c id j r d x s e (some y) q = elim (Bool-cases (id == j)) [
    | inl eq ↦
        let here : (y.id == id) ≡ true = ap (λ z. z == id) (row_id j d y q) ∙ ==_comm j id ∙ eq in
        let one : x ≡ y =
          ap (λ o. or_else o x) (sym e ∙ ap (λ z. find_by_id t z d) (==_sound id j eq) ∙ q) in
        rw (eq, here) (ap some (ap (λ z. redis_step c (view z)) one ∙ sym (view-db_step c y)))
    | inr ne ↦
        let there : (y.id == id) ≡ false = ap (λ z. z == id) (row_id j d y q) ∙ ==_comm j id ∙ ne in
        rw (ne, there) (s.same j ∙ ap (map_some view) q)
  ]

  known_view :
      (id : Text) (r : Store redis) (d : Table.St t) (x : NodeSession)
      → IsSame r d
      → find_by_id t id d ≡ some x
      → by_id redis id r ≡ some (view x)
  unfolding map_some
  known_view id r d x s e = s.same id ∙ ap (map_some view) e

  changed-IsSame :
      (c : Call) (id : Text) (r : Store redis) (d u : Table.St t) (x : NodeSession)
      → IsSame r d
      → find_by_id t id d ≡ some x
      → Table.update t d (λ y. y.id == id) (db_step c) ≡ some u
      → IsSame (RedisStore.save redis (redis_step c (view x)) r) u
  unfolding find_by_id view redis_step
  changed-IsSame c id r d u x s e w =
      let rows = Table.updated t d u (λ y. y.id == id) (db_step c) w in
      let kept = λ (y : NodeSession) (m : Memᴰ y (Table.rows t d)).
        (rows (if y.id == id then db_step c y else y)).1 (y, m, refl) in
      let named : (redis_step c (view x)).id ≡ id = redis_step-id c (view x) ∙ row_id id d x e in
      record {
        unique =
            changed-IsUnique t session_id (λ y. y.id == id) (db_step c) (db_step-id c) d u s.unique
              (λ z m. (rows z).0 m) kept;
        same = λ j.
            by_id-save redis (redis_step c (view x)) r j
            ∙ rw named (changed_views c id j r d x s e (find_by_id t j d) refl)
            ∙ ap (map_some view) (
                sym (
                  find_key-changed t session_id (λ y. y.id == id) (db_step c) (db_step-id c) d u
                    s.unique (λ z m. (rows z).0 m) kept j));
      }

  view_id :
      (id : Text) (d : Table.St t) (x : NodeSession) → find_by_id t id d ≡ some x → (view x).id ≡ id
  unfolding view
  view_id id d x e = row_id id d x e

  -- Saving a session as it is changes nothing that is read by an id.
  resaved :
      (id : Text) (r : Store redis) (x : RedisSessionState)
      → by_id redis id r ≡ some x
      → x.id ≡ id
      → (j : Text) → by_id redis j (RedisStore.save redis x r) ≡ by_id redis j r
  resaved id r x e named j = elim (Bool-cases (x.id == j)) [
    | inl here ↦
        by_id-save redis x r j
        ∙ rw here (sym (subst (λ k. by_id redis k r ≡ some x) (sym named ∙ ==_sound x.id j here) e))
    | inr there ↦ rw (by_id-save redis x r j, there) refl
  ]

  after_redis-IsSame :
      (c : Call) (id : Text) (r : Store redis) (d u : Table.St t) (x : NodeSession)
      → IsSame r d
      → find_by_id t id d ≡ some x
      → Table.update t d (λ y. y.id == id) (db_step c) ≡ some u
      → IsSame (after_redis c (view x) r) u
  unfolding after_redis is_saving redis_step
  after_redis-IsSame (to_node target intent flow summary) id r d u x s e w =
      changed-IsSame (to_node target intent flow summary) id r d u x s e w
  after_redis-IsSame (to_status status) id r d u x s e w =
      changed-IsSame (to_status status) id r d u x s e w
  after_redis-IsSame (with_todos todos) id r d u x s e w =
      changed-IsSame (with_todos todos) id r d u x s e w
  after_redis-IsSame (pausing summary) id r d u x s e w =
      changed-IsSame (pausing summary) id r d u x s e w
  after_redis-IsSame closing id r d u x s e w = changed-IsSame closing id r d u x s e w
  after_redis-IsSame (caching cached) id r d u x s e w =
      let k = changed-IsSame (caching cached) id r d u x s e w in
      record {
        unique = k.unique;
        same = λ j.
            sym (resaved id r (view x) (known_view id r d x s e) (view_id id d x e) j) ∙ k.same j;
      }

  -- What the store in test mode then has under a conversation.
  by_conversation-after_redis :
      (c : Call) (x : RedisSessionState) (r : Store redis) (k : Text)
      → by_conversation redis k (after_redis c x r) ≡ (
          if is_saving c && (x.conversation_id == k)
          then some (redis_step c x)
          else by_conversation redis k r)
  unfolding after_redis
  by_conversation-after_redis c x r k = elim (Bool-cases (is_saving c)) [
    | inl saves ↦
        rw (saves, by_conversation-save redis (redis_step c x) r k, redis_step-conversation c x)
          refl
    | inr leaves ↦ rw leaves refl
  ]

  saved_by_id :
      (c : Call) (id : Text) (x : RedisSessionState) (r : Store redis)
      → is_saving c ≡ true
      → x.id ≡ id
      → by_id redis id (after_redis c x r) ≡ some (redis_step c x)
  unfolding after_redis
  saved_by_id c id x r saves named =
      let here : ((redis_step c x).id == id) ≡ true =
        (==_iff (redis_step c x).id id).1 (redis_step-id c x ∙ named) in
      rw saves (by_id-save redis (redis_step c x) r id ∙ rw here refl)

  same_branch :
      (b : Bool) (o p q : Option RedisSessionState)
      → (b ≡ true → o ≡ p)
      → (if b then o else q) ≡ (if b then p else q)
  same_branch true o p q h = h refl
  same_branch false o p q h = refl

  -- Where the two stores hold the same sessions, and a call that changes the session of an id, which
  -- is there, succeeds in production: it succeeds in test mode too, and they hold the same sessions
  -- again. In test mode the changed session is then the one of its conversation, unless the call is
  -- that of the cached data, and no other conversation has another session than before.
  pub stores_step_together :
      (c : Call) (id : Text) (r : Store redis) (d d' : Table.St t) (x : NodeSession)
      → IsSame r d
      → find_by_id t id d ≡ some x
      → call_db t c id d ≡ some d'
      → (r' : Store redis) × (call_redis redis c id r ≡ some r')
        × IsSame r' d'
        × ((k : Text)
            → by_conversation redis k r' ≡ (
                if is_saving c && (x.conversation_id == k)
                then map_some view (find_by_id t id d')
                else by_conversation redis k r))
  unfolding change view
  stores_step_together c id r d d' x s e w =
      let after = after_redis c (view x) r in
      let held = after_redis-IsSame c id r d d' x s e (sym (call_db-change c id d) ∙ w) in
      (
        after,
        call_redis-known c id r (view x) (known_view id r d x s e),
        held,
        λ k.
            by_conversation-after_redis c (view x) r k
            ∙ same_branch (is_saving c && (x.conversation_id == k)) (some (redis_step c (view x)))
                (map_some view (find_by_id t id d')) (by_conversation redis k r)
                (λ h.
                  sym (saved_by_id c id (view x) r (ground arith) (view_id id d x e))
                  ∙ held.same id),
      )
