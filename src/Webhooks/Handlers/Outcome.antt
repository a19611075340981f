-- ===== src/Webhooks/Handlers/Outcome.antt =====
-- What an event does to the queue of jobs (webhooks.service.ts, phone-queue.service.ts).
use mathlib.Core.List.{append-nil}
use f_chat_backend.Prelude.{
  ℕ, Text, text, ◌==◌, ==_comm, Option, none, some, List, [], ◌∷◌, ◌++◌, ◌||◌, if◌then◌else◌, keep,
  ◌≡◌, refl, sym, ◌∙◌, inl, inr, Bool-cases, Option-cases, arith,
}
use f_chat_backend.Prelude.Actions.{
  done, reads, stored, result_of, written, continue, when◌then◌else◌, ◌>>=◌, ◌>>◌,
}
use f_chat_backend.Prelude.Invariants.{
  Preserves, bind-Preserves, then-Preserves, done-Preserves, reads-Preserves, when-Preserves,
  part-Preserves, stored-some-Preserves,
}
use f_chat_backend.Messaging.{Tables, State}
use f_chat_backend.Messaging.Rows.{Phone, MessageStatus, Message}
use f_chat_backend.Prelude.Map.{Map, get}
use f_chat_backend.Messaging.Events.{
  WebhookEvent, WebhookJob, JobType, process_message_job, sync_contacts, sync_group, sync_chats,
}
use f_chat_backend.Messaging.Clients.{update_profile_pic}
use f_chat_backend.Messaging.Messages.{update_status_by_key_id, status_found, update_message}
use f_chat_backend.Webhooks.Handlers.{
  is_queued, job_type, job_of, jobs_with, find_by_instance, update_phone_status, emit, enqueue_job,
  update_contact, handle_direct, handle_for, handle_webhook,
}
use f_chat_backend.Webhooks.Handlers.Frame.{direct-Preserves}

-- The heavy events, and what is to be done for each.
abbrev pub heavy_events : Map JobType
heavy_events =
    (text "messages.upsert", process_message_job)
    ∷ (text "send.message", process_message_job)
    ∷ (text "contacts.upsert", sync_contacts)
    ∷ (text "groups.upsert", sync_group)
    ∷ (text "chats.set", sync_chats)
    ∷ []

-- The job for an event of a kind of work.
unfoldable pub wait_for : WebhookEvent → Phone → Option JobType → List WebhookJob
wait_for e p none = []
wait_for e p (some work) =
    record {
      type = work;
      phone_id = p.id;
      tenant_id = p.tenant_id;
      instance_name = p.instance_name;
      webhook_data = e;
    }
    ∷ []

-- The job that waits for an event, if its phone is known and it is a heavy one.
unfoldable pub wait_list : WebhookEvent → Option Phone → List WebhookJob
unfolding wait_for
wait_list e none = []
wait_list e (some p) = wait_for e p (get heavy_events e.event)

-- What the two switches of the handler say of an event.
switches :
    (event : Text)
    → get heavy_events event ≡ (if is_queued event then some (job_type event) else none)
unfolding get is_queued job_type
switches event =
    five (text "messages.upsert") (text "send.message") (text "contacts.upsert")
      (text "groups.upsert") (text "chats.set") event
  where
    five :
        (a b c d f x : Text)
        → (if a == x
            then some process_message_job
            else (if b == x
                then some process_message_job
                else (if c == x
                    then some sync_contacts
                    else (if d == x
                        then some sync_group
                        else (if f == x then some sync_chats else none)))))
          ≡ (if x == a || x == b || x == c || x == d || x == f
              then some (
                  if x == a || x == b
                  then process_message_job
                  else (if x == c
                      then sync_contacts
                      else (if x == d then sync_group else sync_chats)))
              else none)
    five a b c d f x =
        ground (arith, ==_comm x a, ==_comm x b, ==_comm x c, ==_comm x d, ==_comm x f)

module _ (t : Tables) where
  module _ (js : List WebhookJob) where
    HasJobs : State t → Type 0
    HasJobs s = s.jobs ≡ js

    direct-HasJobs :
        (now : ℕ) (p : Phone) (e : WebhookEvent) → Preserves HasJobs (handle_direct t now p e)
    unfolding HasJobs emit update_phone_status update_contact update_profile_pic
        update_status_by_key_id status_found update_message
    direct-HasJobs now p e =
        direct-Preserves t HasJobs (λ event tenant. stored-some-Preserves HasJobs _ (λ s h. h))
          (λ id status at. part-Preserves HasJobs _ _ (λ s r h e. h)) (λ jid url. contact jid url) p
          e (λ status _ _ _. bind-Preserves HasJobs _ _ (reads-Preserves HasJobs _) (found status))
          now
      where
        contact : (jid : Text) (url : Option Text) → Preserves HasJobs (update_contact t jid url)
        contact jid none = done-Preserves HasJobs tt
        contact jid (some url) =
            when-Preserves HasJobs _ _ _ (stored-some-Preserves HasJobs _ (λ s h. h))
              (done-Preserves HasJobs tt)

        found :
            (status : MessageStatus) (o : Option Message)
            → Preserves HasJobs (status_found t status o)
        found status none = done-Preserves HasJobs none
        found status (some m) =
            then-Preserves HasJobs _ _ (part-Preserves HasJobs _ _ (λ s r h e. h))
              (done-Preserves HasJobs _)

  light-HasJobs :
      (now : ℕ) (p : Phone) (e : WebhookEvent) (s : State t)
      → ((handle_direct t now p e >> done (text "Webhook processed")) s).1.jobs ≡ s.jobs
  unfolding HasJobs Preserves
  light-HasJobs now p e s =
      then-Preserves (HasJobs s.jobs) (handle_direct t now p e) (done (text "Webhook processed"))
        (direct-HasJobs s.jobs now p e) (done-Preserves (HasJobs s.jobs) (text "Webhook processed"))
        s refl

  -- A job is put at the end of the queue, where the queue takes it.
  enqueued :
      (job : WebhookJob) (s : State t)
      → ((enqueue_job t job >> done (text "Webhook enqueued")) s).1.jobs
        ≡ s.jobs ++ keep (λ j. Tables.takes_job t j s.jobs) (job ∷ [])
  unfolding enqueue_job jobs_with ◌>>◌ ◌>>=◌ stored result_of continue written keep done
  enqueued job s = elim (Bool-cases (Tables.takes_job t job s.jobs)) [
    | inl taken ↦ rw taken refl
    | inr full ↦ rw full (sym (append-nil s.jobs))
  ]

  -- Whatever happens to an event, the queue of jobs grows by exactly the job for it if it is a
  -- heavy event of a known phone and the queue takes the job, and by nothing else. The job names
  -- the phone and its tenant, and its kind is the one that belongs to the event.
  pub jobs-handle_webhook :
      (now : ℕ) (e : WebhookEvent) (s : State t)
      → (handle_webhook t now e s).1.jobs
        ≡ s.jobs
          ++ keep
              (λ j. Tables.takes_job t j s.jobs)
              (wait_list e (find_by_instance t e.instance_id s))
  unfolding handle_webhook handle_for wait_list wait_for job_of keep ◌>>=◌ reads continue done
      when◌then◌else◌
  jobs-handle_webhook now e s = elim (Option-cases (find_by_instance t e.instance_id s)) [
    | inl absent ↦ rw absent (sym (append-nil s.jobs))
    | inr (p, found) ↦ elim (Bool-cases (is_queued e.event)) [
      | inl heavy ↦ rw (found, switches e.event, heavy) (enqueued (job_of p e) s)
      | inr light ↦
          rw (found, switches e.event, light) (light-HasJobs now p e s ∙ sym (append-nil s.jobs))
    ]
  ]
