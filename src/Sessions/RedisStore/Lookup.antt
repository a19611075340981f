-- ===== src/Sessions/RedisStore/Lookup.antt =====
-- What the lookups of redis-node-session.store.ts find after its writes.
use f_chat_backend.Prelude.{
  Text, ◌==◌, ==_refl, Option, none, some, Bool, true, false, ◌||◌, or_else, ◌≡◌, refl, sym, ap,
  subst, ◌∙◌, ◌⊎◌, inl, inr, Bool-cases,
}
use f_chat_backend.Prelude.Redis.{Redis}
use f_chat_backend.Sessions.RedisStore.{
  NodeSessionStatus, closed, RedisSessionState, is_active, is_waiting, Store, by_conversation,
  by_id, when, find_active, find_active_or_waiting, new_state, modify, modify_known, close,
}
use f_chat_backend.Sessions.RedisStore.Agreement.{
  Agrees, by_conversation-save, Reachable, Reachable-Agrees,
}

module _ (redis : Redis RedisSessionState) where
  when-some :
      (p : NodeSessionStatus → Bool) (o : Option RedisSessionState) (x : RedisSessionState)
      → when p o ≡ some x
      → (o ≡ some x) × (p x.status ≡ true)
  unfolding when
  when-some p none x e = cc
  when-some p (some y) x e = elim (Bool-cases (p y.status)) [
    | inl q ↦
        let same : some y ≡ some x = rw q at e in
        (same, subst (λ (z : RedisSessionState). p z.status ≡ true) (ap (λ o. or_else o y) same) q)
    | inr q ↦ cc (rw q at e)
  ]

  -- The current session of a conversation, changed by its id, is what the conversation then has.
  current-modify_known :
      (f : RedisSessionState → RedisSessionState) (c : Text) (x : RedisSessionState)
      (s : Store redis)
      → Agrees redis s
      → (f x).conversation_id ≡ x.conversation_id
      → by_conversation redis c s ≡ some x
      → by_conversation redis c (modify_known redis f x.id s) ≡ some (f x)
  unfolding modify_known modify
  current-modify_known f c x s h keeps e =
      let stored = h.conv_stored c x e in
      let named = h.conv_named c x e in
      let own : ((f x).conversation_id == c) ≡ true =
        subst (λ z. (z == c) ≡ true) (sym (keeps ∙ named)) (==_refl c) in
      rw (stored, by_conversation-save redis (f x) s c, own) refl

  -- In a store that the operations reach: the session that a conversation has, active or waiting,
  -- is gone after it is closed; no other conversation notices.
  pub close_ends :
      (s : Store redis) (c : Text) (x : RedisSessionState)
      → Reachable redis s
      → find_active_or_waiting redis c s ≡ some x
      → (find_active_or_waiting redis c (close redis x.id s) ≡ none)
        × (find_active redis c (close redis x.id s) ≡ none)
        × ((d : Text)
            → (c == d) ≡ false
            → by_conversation redis d (close redis x.id s) ≡ by_conversation redis d s)
  unfolding close find_active_or_waiting find_active when is_active is_waiting modify_known modify
  close_ends s c x reached e =
      let h = Reachable-Agrees redis reached in
      let (current, _) =
        when-some (λ k. is_active k || is_waiting k) (by_conversation redis c s) x e in
      let after = current-modify_known (λ y. record y { status = closed }) c x s h refl current in
      (
        rw after refl,
        rw after refl,
        λ d other.
            rw
              (
                h.conv_stored c x current,
                by_conversation-save redis (record x { status = closed }) s d,
                h.conv_named c x current,
                other,
              )
              refl,
      )

  -- What `findOrCreate` gives for a conversation, and the store that it leaves.
  pub record Finds (s : Store redis) (fresh_id c : Text) (flow : Option Text)
      (x : RedisSessionState) (t : Store redis) : Type 0 where
    pub old_or_new :
        ((find_active redis c s ≡ some x) × (t ≡ s))
        ⊎ ((find_active redis c s ≡ none) × (x ≡ new_state fresh_id c flow))
    pub found : find_active redis c t ≡ some x
    pub found_by_id : by_id redis x.id t ≡ some x
