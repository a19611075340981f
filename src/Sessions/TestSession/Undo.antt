-- ===== src/Sessions/TestSession/Undo.antt =====
-- test-session.service.ts: `pushStep` and `popStep` on one session.
use f_chat_backend.Prelude.{
  Text, ◌==◌, ==_refl, none, some, List, [], ◌∷◌, ◌++◌, false, or_else, get_last?, get_last?-append,
  if◌then◌else◌, ◌≡◌, refl, sym, ap, subst, inl, inr, Bool-cases, arith,
}
use f_chat_backend.Prelude.Redis.{Redis}
use f_chat_backend.Sessions.TestSession.{
  TestStep, TestSession, session_key, but_last, is_nil, pushed, popped, node_of_step, flow_of_step,
  history_of_step, response_of_step, get_session, push_step, pop_session, pop_step, delete_session,
}

-- The node and the history are those of the last step.
pub record InStep (x : TestSession) : Type 0 where
  pub node : x.current_node_id ≡ node_of_step (get_last? x.steps)
  pub history : x.history ≡ history_of_step (get_last? x.steps)

but_last-append : (xs : List TestStep) (step : TestStep) → but_last (xs ++ step ∷ []) ≡ xs
unfolding but_last
but_last-append [] step = refl
but_last-append (x ∷ []) step = refl
but_last-append (x ∷ y ∷ xs) step = ap (λ z. x ∷ z) (but_last-append (y ∷ xs) step)

is_nil-append : (xs : List TestStep) (step : TestStep) → is_nil (xs ++ step ∷ []) ≡ false
unfolding is_nil
is_nil-append [] step = refl
is_nil-append (x ∷ xs) step = refl

pub pushed-InStep : (step : TestStep) (x : TestSession) → InStep (pushed step x)
unfolding pushed node_of_step history_of_step
pushed-InStep step x = record {
  node = rw (get_last?-append x.steps step) refl;
  history = rw (get_last?-append x.steps step) refl;
}

pub popped-InStep : (x : TestSession) → InStep (popped x)
unfolding popped
popped-InStep x = record { node = refl; history = refl }

-- A session after a push and a pop: only its flow may differ.
popped-pushed :
    (step : TestStep) (x : TestSession)
    → InStep x
    → popped (pushed step x) ≡ record x { flow_id = flow_of_step (get_last? x.steps) }
unfolding popped pushed
popped-pushed step x h = rw (but_last-append x.steps step, sym h.node, sym h.history) refl

session_key_eq : (a b : Text) → (session_key a == session_key b) ≡ (a == b)
unfolding session_key ◌==◌
session_key_eq a b = refl

module _ (redis : Redis TestSession) where
  get_session-set :
      (id other : Text) (x : TestSession) (s : Redis.St redis)
      → get_session redis other (Redis.set redis s (session_key id) x)
        ≡ (if id == other then some x else get_session redis other s)
  unfolding get_session
  get_session-set id other x s =
      rw (Redis.get-set redis s (session_key id) (session_key other) x, session_key_eq id other)
        refl

  pop_session-pushed :
      (id : Text) (step : TestStep) (x : TestSession) (s : Redis.St redis)
      → InStep x
      → pop_session redis id (pushed step x) s ≡ (
        (node_of_step (get_last? x.steps), response_of_step (get_last? x.steps)),
        Redis.set redis s
            (session_key id)
            (record x { flow_id = flow_of_step (get_last? x.steps) }),
      )
  unfolding pop_session pushed
  pop_session-pushed id step x s h =
      rw (is_nil-append x.steps step, popped-pushed step x h, sym h.node) refl

  -- Every session of the store is in step.
  unfoldable pub AllInStep : Redis.St redis → Type 0
  AllInStep s = (id : Text) (x : TestSession) → get_session redis id s ≡ some x → InStep x

  pub set-AllInStep :
      (id : Text) (x : TestSession) (s : Redis.St redis)
      → InStep x
      → AllInStep s
      → AllInStep (Redis.set redis s (session_key id) x)
  unfolding AllInStep
  set-AllInStep id x s h all other y e = elim (Bool-cases (id == other)) [
    | inl q ↦
        let same : some x ≡ some y = rw (get_session-set id other x s, q) at e in
        subst InStep (ap (λ o. or_else o x) same) h
    | inr q ↦ all other y (rw (get_session-set id other x s, q) at e)
  ]

  -- A push, and then a pop of the same session, for a session in step: both return; the answer and
  -- the stored session have the node, the history and the steps from before the push, but the flow
  -- becomes that of the last step that is left, or `null`; other sessions are untouched.
  pub pop_step-push_step :
      (id : Text) (step : TestStep) (x : TestSession) (s : Redis.St redis)
      → get_session redis id s ≡ some x
      → InStep x
      → (t u : Redis.St redis) × (push_step redis id step s ≡ some t)
        × (pop_step redis id t
            ≡ some ((x.current_node_id, response_of_step (get_last? x.steps)), u))
        × (get_session redis id u ≡ some (record x { flow_id = flow_of_step (get_last? x.steps) }))
        × ((other : Text)
            → (id == other) ≡ false
            → get_session redis other u ≡ get_session redis other s)
  unfolding push_step pop_step
  pop_step-push_step id step x s e h =
      let y = record x { flow_id = flow_of_step (get_last? x.steps) } in
      let t = Redis.set redis s (session_key id) (pushed step x) in
      let here : get_session redis id t ≡ some (pushed step x) =
        rw (get_session-set id id (pushed step x) s, ==_refl id) refl in
      (
        t,
        Redis.set redis t (session_key id) y,
        rw e refl,
        rw (here, pop_session-pushed id step x t h, sym h.node) refl,
        rw (get_session-set id id y t, ==_refl id) refl,
        λ other apart.
            rw
              (
                get_session-set id other y t,
                apart,
                get_session-set id other (pushed step x) s,
                apart,
              )
              refl,
      )

  pub get_session-delete_session :
      (id other : Text) (s : Redis.St redis)
      → get_session redis other (delete_session redis id s)
        ≡ (if id == other then none else get_session redis other s)
  unfolding get_session delete_session
  get_session-delete_session id other s =
      rw (Redis.get-del redis s (session_key id) (session_key other), session_key_eq id other) refl

  pub delete_session-AllInStep :
      (id : Text) (s : Redis.St redis) → AllInStep s → AllInStep (delete_session redis id s)
  unfolding AllInStep
  delete_session-AllInStep id s all other y e =
      ground (arith, get_session-delete_session id other s, all other y)
