-- ===== src/Sessions/TestSession/Lifetime.antt =====
-- test-session.service.ts: the sessions that its operations store, and what `stop` leaves.
use f_chat_backend.Prelude.{
  Text, ==_refl, Option, none, some, or_else, ◌≡◌, refl, ap, subst, inl, inr, Bool-cases,
  Option-cases,
}
use f_chat_backend.Prelude.Map
use f_chat_backend.Prelude.Map.{Map, get-remove}
use f_chat_backend.Prelude.Redis.{Redis}
use f_chat_backend.Sessions.RedisStore.{RedisSessionState, Store, find_active_or_waiting}
use f_chat_backend.Sessions.RedisStore.Agreement.{Reachable}
use f_chat_backend.Sessions.RedisStore.Lookup.{close_ends}
use f_chat_backend.Sessions.TestSession.{
  new_session, TestStep, TestSession, session_key, is_nil, pushed, popped, node_of_step,
  history_of_step, start, get_session, push_step, pop_session, pop_step, delete_session,
  close_found, stop,
}
use f_chat_backend.Sessions.TestSession.Undo.{
  InStep, AllInStep, set-AllInStep, pushed-InStep, popped-InStep, get_session-delete_session,
  delete_session-AllInStep,
}

new_session-InStep :
    (id c : Text) (flow : Option Text) (phone tenant instance_name : Text)
    → InStep (new_session id c flow phone tenant instance_name)
unfolding new_session node_of_step history_of_step
new_session-InStep id c flow phone tenant instance_name = record { node = refl; history = refl }

closed_node :
    (nodes : Redis RedisSessionState) (c : Text) (ns : Store nodes)
    → Reachable nodes ns
    → find_active_or_waiting nodes c (close_found nodes (find_active_or_waiting nodes c ns) ns)
      ≡ none
unfolding close_found
closed_node nodes c ns reached = elim (Option-cases (find_active_or_waiting nodes c ns)) [
  | inl q ↦ rw q q
  | inr (y, q) ↦ rw q (close_ends nodes ns c y reached q).0
]

module _ (redis : Redis TestSession) where
  -- The operations on the stored sessions.
  pub data Step (s : Redis.St redis) : Redis.St redis → Type 0 where
    starts :
        {t : Redis.St redis} (fresh_id c : Text) (flow : Option Text) (phone tenant : Text)
        (instance_name : Option Text)
        → start redis fresh_id c flow phone tenant instance_name s ≡ some t
        → Step s t
    pushes :
        {t : Redis.St redis} (id : Text) (step : TestStep)
        → push_step redis id step s ≡ some t
        → Step s t
    pops :
        {t : Redis.St redis} (id : Text) (answer : Option Text × Option Text)
        → pop_step redis id s ≡ some (answer, t)
        → Step s t
    deletes : (id : Text) → Step s (delete_session redis id s)

  pub data Sessions : Redis.St redis → Type 0 where
    none_yet : Sessions (Redis.empty redis)
    next : {s t : Redis.St redis} → Sessions s → Step s t → Sessions t

  pop_session-AllInStep :
      (id : Text) (x : TestSession) (s : Redis.St redis)
      → AllInStep redis s
      → AllInStep redis (pop_session redis id x s).1
  unfolding pop_session
  pop_session-AllInStep id x s all = elim (Bool-cases (is_nil x.steps)) [
    | inl q ↦ rw q all
    | inr q ↦ rw q (set-AllInStep redis id (popped x) s (popped-InStep x) all)
  ]

  Step-AllInStep : {s t : Redis.St redis} → Step s t → AllInStep redis s → AllInStep redis t
  unfolding start push_step pop_step
  Step-AllInStep {s = s} {t = t} (starts fresh_id c flow phone tenant none e) all = cc
  Step-AllInStep {s = s} {t = t} (starts fresh_id c flow phone tenant (some instance_name) e) all =
      subst (AllInStep redis) (ap (λ o. or_else o s) e) (
        set-AllInStep redis fresh_id _ s
          (new_session-InStep fresh_id c flow phone tenant instance_name) all)
  Step-AllInStep {s = s} {t = t} (pushes id step e) all =
      elim (Option-cases (get_session redis id s)) [
        | inl q ↦ cc (rw q at e)
        | inr (x, q) ↦
            subst (AllInStep redis) (ap (λ o. or_else o s) (rw q at e))
              (set-AllInStep redis id (pushed step x) s (pushed-InStep step x) all)
      ]
  Step-AllInStep {s = s} {t = t} (pops id answer e) all =
      elim (Option-cases (get_session redis id s)) [
        | inl q ↦ cc (rw q at e)
        | inr (x, q) ↦
            subst (AllInStep redis)
              (ap
                (λ (o : Option ((Option Text × Option Text) × Redis.St redis)).
                  (or_else o (answer, s)).1)
                (rw q at e))
              (pop_session-AllInStep id x s all)
      ]
  Step-AllInStep {s = s} (deletes id) all = delete_session-AllInStep redis id s all

  -- Every session that the operations store has the node and the history of its last step.
  pub Sessions-InStep :
      {s : Redis.St redis}
      → Sessions s
      → (id : Text) (x : TestSession) → get_session redis id s ≡ some x
      → InStep x
  unfolding AllInStep get_session
  Sessions-InStep none_yet id x e = cc (Redis.get-empty redis (session_key id))
  Sessions-InStep (next r step) id x e = Step-AllInStep step (Sessions-InStep r) id x e

  module _ (nodes : Redis RedisSessionState) {R : Type 0} where
    -- `stop` of a stored session returns; then the session is gone, its conversation has no
    -- active or waiting node session and no queue result.
    pub stop_clears :
        (id : Text) (x : TestSession) (s : Redis.St redis) (ns : Store nodes) (results : Map R)
        → Reachable nodes ns
        → get_session redis id s ≡ some x
        → (s' : Redis.St redis) × (ns' : Store nodes) × (results' : Map R) × (stop redis nodes id
              (s, ns, results)
            ≡ some (s', ns', results'))
          × (get_session redis id s' ≡ none)
          × (find_active_or_waiting nodes x.conversation_id ns' ≡ none)
          × (Map.get results' x.conversation_id ≡ none)
    unfolding stop
    stop_clears id x s ns results reached e = (
      delete_session redis id s,
      close_found nodes (find_active_or_waiting nodes x.conversation_id ns) ns,
      Map.remove results x.conversation_id,
      rw e refl,
      rw (get_session-delete_session redis id id s, ==_refl id) refl,
      closed_node nodes x.conversation_id ns reached,
      rw (get-remove results x.conversation_id x.conversation_id, ==_refl x.conversation_id) refl,
    )
