-- ===== src/Queue/Final.antt =====
-- The requests with a final status, under the operations of Queue.antt.
use f_chat_backend.Prelude.{
  ℕ, Text, ◌==◌, ==_sound, Option, none, some, [], ◌∷◌, Bool, true, false, or_else, ◌≡◌, refl, ap,
  subst, inl, inr, Memᴰ, Bool-cases, Option-cases, arith,
}
use f_chat_backend.Prelude.Actions.{
  Action, Result, ok, failed, done, reads, stored, result_of, continue, ◌>>=◌, ◌>>◌,
}
use f_chat_backend.Prelude.Table.{Table}
use f_chat_backend.Queue.{
  QueueRequestStatus, pending, sent, responded, expired, cancelled, QueueRequest, State, Message,
  is_pending, is_sent, has_id, is_open_of, answers_to, find_by_id, find_by_sent_id, set_requests,
  update_status, cancel_by_conversation_id, handle_found, handle_response, emit_response,
  sent_state, process_test, process_send, process_found, process_job,
}

unfoldable pub is_final : QueueRequestStatus → Bool
is_final pending = false
is_final sent = false
is_final _ = true

final_closed :
    (k : QueueRequestStatus) → is_final k ≡ true → (is_pending k ≡ false) × (is_sent k ≡ false)
unfolding is_final is_pending is_sent
final_closed pending h = cc
final_closed sent h = cc
final_closed responded h = (refl, refl)
final_closed expired h = (refl, refl)
final_closed cancelled h = (refl, refl)

answers-sent : (m : Text) (q : QueueRequest) → answers_to m q ≡ true → is_sent q.status ≡ true
unfolding answers_to
answers-sent m q h = ground (arith, Bool-cases (is_sent q.status))

module _ (t : Table QueueRequest) where
  unfoldable pub Has : QueueRequest → State t → Type 0
  Has x s = Memᴰ x (Table.rows t s.requests)

  -- The primary key of the table.
  unfoldable pub HasUniqueIds : State t → Type 0
  HasUniqueIds s = (x y : QueueRequest) → Has x s → Has y s → x.id ≡ y.id → x ≡ y

  -- An action that keeps a row, whatever it returns.
  Keeps : {A : Type 0} → QueueRequest → Action (State t) A → Type 0
  Keeps x a = (s : State t) → Has x s → Has x (a s).1

  continue-Keeps :
      {A B : Type 0} (x : QueueRequest) (r : Result A × State t) (f : A → Action (State t) B)
      → Has x r.1
      → ((v : A) → Keeps x (f v))
      → Has x (continue r f).1
  unfolding continue Keeps
  continue-Keeps x (ok v, s) f h k = k v s h
  continue-Keeps x (failed e, s) f h k = h

  then-Keeps :
      {A B : Type 0} (x : QueueRequest) (a : Action (State t) A) (b : Action (State t) B)
      → Keeps x a
      → Keeps x b
      → Keeps x (a >> b)
  unfolding Keeps ◌>>◌ ◌>>=◌
  then-Keeps x a b ka kb s h = continue-Keeps x (a s) (λ _. b) (ka s h) (λ _. kb)

  stored-Keeps :
      (x : QueueRequest) (w : State t → Option (State t))
      → ((s u : State t) → Has x s → w s ≡ some u → Has x u)
      → Keeps x (stored w)
  unfolding Keeps stored
  stored-Keeps x w k s h = elim (Option-cases (w s)) [
    | inl q ↦ rw (q, result_of) h
    | inr (u, q) ↦ rw (q, result_of) (k s u h q)
  ]

  pub set_requests-some :
      (s u : State t) (o : Option (Table.St t))
      → set_requests t s o ≡ some u
      → (r : Table.St t) × (o ≡ some r) × (record s { requests = r } ≡ u)
  unfolding set_requests
  set_requests-some s u none e = cc
  set_requests-some s u (some r) e = (r, refl, ap (λ o. or_else o s) e)

  update-Has :
      (id : Text) (f : QueueRequest → QueueRequest) (x : QueueRequest) (s u : State t)
      → has_id id x ≡ false
      → Has x s
      → set_requests t s (Table.update t s.requests (has_id id) f) ≡ some u
      → Has x u
  unfolding Has
  update-Has id f x s u other h e =
      let (r, q, same) = set_requests-some s u _ e in
      subst (λ (z : State t). Memᴰ x (Table.rows t z.requests)) same
        ((Table.updated t s.requests r (has_id id) f q x).1 (x, h, rw other refl))

  update_status-Keeps :
      (id : Text) (f : QueueRequest → QueueRequest) (x : QueueRequest)
      → has_id id x ≡ false
      → Keeps x (update_status t id f)
  unfolding update_status
  update_status-Keeps id f x other = stored-Keeps x _ (λ s u h e. update-Has id f x s u other h e)

  emit_response-Keeps : (id : Text) (x : QueueRequest) → Keeps x (emit_response t id)
  unfolding emit_response Has
  emit_response-Keeps id x = stored-Keeps x _ (λ s u h e.
      subst (λ (z : State t). Memᴰ x (Table.rows t z.requests)) (ap (λ o. or_else o s) e) h)

  -- A row that is final is not the open row of an id.
  other_row :
      (p : QueueRequestStatus → Bool) (x q : QueueRequest) (s : State t)
      → HasUniqueIds s
      → Has x s
      → Has q s
      → p x.status ≡ false
      → p q.status ≡ true
      → has_id q.id x ≡ false
  unfolding HasUniqueIds has_id
  other_row p x q s unique hx hq shut fits = elim (Bool-cases (x.id == q.id)) [
    | inl e ↦
        let same = unique x q hx hq (==_sound x.id q.id e) in
        let wrong : p q.status ≡ false =
          subst (λ (z : QueueRequest). p z.status ≡ false) same shut in
        cc
    | inr e ↦ e
  ]

  sent_state-Keeps :
      (send : Message → Option (Option Text)) (m : Message) (x : QueueRequest)
      → Keeps x (stored (sent_state t send m))
  unfolding sent_state Has
  sent_state-Keeps send m x = stored-Keeps x _ (λ s u h e. elim (Option-cases (send m)) [
    | inl q ↦ cc (rw (q, sent_state) at e)
    | inr (k, q) ↦
        subst (λ (z : State t). Memᴰ x (Table.rows t z.requests))
          (ap (λ o. or_else o s) (rw (q, sent_state) at e)) h
  ])

  process_open-Keeps :
      (send : Message → Option (Option Text)) (now : ℕ) (q x : QueueRequest)
      → has_id q.id x ≡ false
      → Keeps x (process_found t send now (some q))
  unfolding process_found process_test process_send Keeps done
  process_open-Keeps send now q x other s h = elim (Bool-cases (is_pending q.status)) [
    | inl e ↦ elim (Bool-cases q.is_test) [
      | inl test ↦
          rw (e, test)
            (then-Keeps x _ _ (update_status-Keeps q.id _ x other)
              (then-Keeps x _ _ (update_status-Keeps q.id _ x other) (emit_response-Keeps q.id x)) s
              h)
      | inr real ↦
          rw (e, real)
            (then-Keeps x _ _ (sent_state-Keeps send _ x) (update_status-Keeps q.id _ x other) s h)
    ]
    | inr e ↦ rw e h
  ]

  process_job-Has :
      (send : Message → Option (Option Text)) (now : ℕ) (id : Text) (x : QueueRequest) (s : State t)
      → HasUniqueIds s
      → Has x s
      → is_final x.status ≡ true
      → Has x (process_job t send now id s).1
  unfolding process_job ◌>>=◌ reads continue done find_by_id Has Keeps
  process_job-Has send now id x s unique h final = elim (Option-cases (find_by_id t id s)) [
    | inl e ↦ rw (e, process_found) h
    | inr (q, e) ↦ elim (Bool-cases (is_pending q.status)) [
      | inl p ↦ rw e (
          process_open-Keeps send now q x
            (other_row is_pending x q s unique h (Table.found_row t s.requests (has_id id) q e).0
              (final_closed x.status final).0 p)
            s h)
      | inr p ↦ rw (e, process_found, p) h
    ]
  ]

  handle_response-Has :
      (now : ℕ) (response : Text) (quoted : Option Text) (x : QueueRequest) (s : State t)
      → HasUniqueIds s
      → Has x s
      → is_final x.status ≡ true
      → Has x (handle_response t now response quoted s).1
  unfolding handle_response ◌>>=◌ reads continue find_by_sent_id done Has Keeps
  handle_response-Has now response none x s unique h final = h
  handle_response-Has now response (some []) x s unique h final = h
  handle_response-Has now response (some (c ∷ quoted)) x s unique h final =
      elim (Option-cases (find_by_sent_id t (c ∷ quoted) s)) [
        | inl e ↦ rw (e, handle_found) h
        | inr (q, e) ↦
            let (there, fits) = Table.found_row t s.requests (answers_to (c ∷ quoted)) q e in
            rw (e, handle_found)
              (then-Keeps x _ _
                (update_status-Keeps q.id _ x (
                  other_row is_sent x q s unique h there (final_closed x.status final).1
                    (answers-sent (c ∷ quoted) q fits)))
                (λ u k. k) s h)
      ]

  cancel-Has :
      (c : Text) (x : QueueRequest) (s : State t)
      → Has x s
      → is_final x.status ≡ true
      → Has x (cancel_by_conversation_id t c s)
  unfolding cancel_by_conversation_id Has is_open_of
  cancel-Has c x s h final =
      let (not_pending, not_sent) = final_closed x.status final in
      (Table.updated_many t s.requests (is_open_of c) (λ q. record q { status = cancelled }) x).1
        (x, h, ground (arith, Bool-cases (x.conversation_id == c)))

  -- A request that was answered, that expired or that was cancelled stays in the table as it is,
  -- whatever job is processed, whatever answer comes in and whatever conversation is cancelled,
  -- and whatever these return; the table's ids are unique.
  pub final_stays :
      (send : Message → Option (Option Text)) (x : QueueRequest) (s : State t)
      → HasUniqueIds s
      → Has x s
      → is_final x.status ≡ true
      → ((now : ℕ) (id : Text) → Has x (process_job t send now id s).1)
        × ((now : ℕ) (response : Text) (quoted : Option Text)
            → Has x (handle_response t now response quoted s).1)
        × ((c : Text) → Has x (cancel_by_conversation_id t c s))
  final_stays send x s unique h final = (
    λ now id. process_job-Has send now id x s unique h final,
    λ now response quoted. handle_response-Has now response quoted x s unique h final,
    λ c. cancel-Has c x s h final,
  )
