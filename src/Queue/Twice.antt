-- ===== src/Queue/Twice.antt =====
-- A job of user-queue-manager.service.ts that is processed again.
use f_chat_backend.Prelude.{
  ℕ, Text, ==_sound, Option, none, some, true, false, or_else, if◌then◌else◌, ◌≡◌, refl, sym, ap,
  subst, ◌∙◌, inl, inr, Memᴰ, Bool-cases, Option-cases,
}
use f_chat_backend.Prelude.Actions.{
  Result, ok, done, reads, continue, ◌>>=◌, after_stored, stored-ok,
}
use f_chat_backend.Prelude.Table.{Table}
use f_chat_backend.Queue.{
  QueueRequest, State, Message, is_pending, has_id, as_responded, as_sent, mock_response,
  message_of, find_by_id, set_requests, update_status, emit_response, process_test, process_send,
  process_found, process_job,
}
use f_chat_backend.Queue.Final.{set_requests-some}

module _ (t : Table QueueRequest) where
  NoPending : Text → State t → Type 0
  NoPending id s =
      (x : QueueRequest)
      → Memᴰ x (Table.rows t s.requests)
      → has_id id x ≡ true
      → is_pending x.status ≡ false

  moved :
      (f : QueueRequest → QueueRequest) (id : Text) (x y : QueueRequest)
      → is_pending (f y).status ≡ false
      → x ≡ (if has_id id y then f y else y)
      → has_id id x ≡ true
      → is_pending x.status ≡ false
  moved f id x y moves from h = elim (Bool-cases (has_id id y)) [
    | inl q ↦ subst (λ (z : QueueRequest). is_pending z.status ≡ false) (sym (rw q at from)) moves
    | inr q ↦
        let other : x ≡ y = rw q at from in
        let wrong : has_id id y ≡ true = subst (λ z. has_id id z ≡ true) other h in cc
  ]

  update-NoPending :
      (id : Text) (f : QueueRequest → QueueRequest) (s u : State t)
      → ((y : QueueRequest) → is_pending (f y).status ≡ false)
      → set_requests t s (Table.update t s.requests (has_id id) f) ≡ some u
      → NoPending id u
  unfolding NoPending
  update-NoPending id f s u moves e =
      let (r, q, same) = set_requests-some t s u _ e in
      subst
        (λ (z : State t).
          (x : QueueRequest)
          → Memᴰ x (Table.rows t z.requests)
          → has_id id x ≡ true
          → is_pending x.status ≡ false)
        same
        (λ x m h.
          let (y, _, from) = (Table.updated t s.requests r (has_id id) f q x).0 m in
          moved f id x y (moves y) from h)

  module _ (send : Message → Option (Option Text)) where
    idle :
        (now : ℕ) (id : Text) (s : State t)
        → NoPending id s
        → process_job t send now id s ≡ (ok tt, s)
    unfolding NoPending process_job ◌>>=◌ reads continue done find_by_id
    idle now id s settled = elim (Option-cases (find_by_id t id s)) [
      | inl e ↦ rw (e, process_found) refl
      | inr (q, e) ↦
          let (m, h) = Table.found_row t s.requests (has_id id) q e in
          rw (e, process_found, settled q m h) refl
    ]

    test-NoPending :
        (now : ℕ) (q : QueueRequest) (s u : State t)
        → process_test t send now q s ≡ (ok tt, u)
        → NoPending q.id u
    unfolding process_test update_status emit_response NoPending is_pending as_responded
    test-NoPending now q s u e =
        let (v, _, e1) = after_stored _ _ e in
        let (w, answered, e2) = after_stored _ _ e1 in
        let told = stored-ok _ w u tt e2 in
        subst
          (λ (z : State t).
            (x : QueueRequest)
            → Memᴰ x (Table.rows t z.requests)
            → has_id q.id x ≡ true
            → is_pending x.status ≡ false)
          (ap (λ o. or_else o w) told)
          (update-NoPending q.id (as_responded now (mock_response q)) v w (λ y. refl) answered)

    send-NoPending :
        (now : ℕ) (q : QueueRequest) (s u : State t)
        → process_send t send now q s ≡ (ok tt, u)
        → NoPending q.id u
    unfolding process_send update_status is_pending as_sent
    send-NoPending now q s u e =
        let (v, _, e1) = after_stored _ _ e in
        update-NoPending q.id (as_sent now (or_else (send (message_of q)) none)) v u (λ y. refl)
          (stored-ok _ v u tt e1)

    -- What a job leaves if it did not find a request that waits.
    skipped :
        (now later : ℕ) (id : Text) (s u : State t)
        → process_job t send now id s ≡ (ok tt, s)
        → process_job t send later id s ≡ (ok tt, s)
        → process_job t send now id s ≡ (ok tt, u)
        → process_job t send later id u ≡ (ok tt, u)
    skipped now later id s u first second e =
        subst (λ z. process_job t send later id z ≡ (ok tt, z))
          (ap (λ (p : Result Unit × State t). p.1) (sym first ∙ e)) second

    shut :
        (now : ℕ) (id : Text) (s : State t) (q : QueueRequest)
        → find_by_id t id s ≡ some q
        → is_pending q.status ≡ false
        → process_job t send now id s ≡ (ok tt, s)
    unfolding process_job ◌>>=◌ reads continue done
    shut now id s q e p = rw (e, process_found, p) refl

    absent :
        (now : ℕ) (id : Text) (s : State t)
        → find_by_id t id s ≡ none
        → process_job t send now id s ≡ (ok tt, s)
    unfolding process_job ◌>>=◌ reads continue done
    absent now id s e = rw (e, process_found) refl

    opened :
        (now : ℕ) (id : Text) (s u : State t) (q : QueueRequest)
        → find_by_id t id s ≡ some q
        → is_pending q.status ≡ true
        → process_job t send now id s ≡ (ok tt, u)
        → NoPending q.id u
    unfolding process_job ◌>>=◌ reads continue process_test mock_response process_send message_of
    opened now id s u q e p run = elim (Bool-cases q.is_test) [
      | inl test ↦ test-NoPending now q s u (rw (e, process_found, p, test) at run)
      | inr real ↦ send-NoPending now q s u (rw (e, process_found, p, real) at run)
    ]

    -- After a job was processed without a throw, processing it again, as the queue may do, returns
    -- and changes nothing: no second message, no second answer, no second event.
    pub process_job_twice :
        (now later : ℕ) (id : Text) (s u : State t)
        → process_job t send now id s ≡ (ok tt, u)
        → process_job t send later id u ≡ (ok tt, u)
    unfolding find_by_id has_id
    process_job_twice now later id s u e = elim (Option-cases (find_by_id t id s)) [
      | inl q ↦ skipped now later id s u (absent now id s q) (absent later id s q) e
      | inr (r, q) ↦ elim (Bool-cases (is_pending r.status)) [
        | inl p ↦
            let named = ==_sound r.id id (Table.found_row t s.requests (has_id id) r q).1 in
            idle later id u (subst (λ k. NoPending k u) named (opened now id s u r q p e))
        | inr p ↦ skipped now later id s u (shut now id s r q p) (shut later id s r q p) e
      ]
    ]
