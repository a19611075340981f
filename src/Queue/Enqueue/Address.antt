-- ===== src/Queue/Enqueue/Address.antt =====
-- Where the message of a request goes that `enqueue` makes, by message_of of its job.
use f_chat_backend.Jid.{jid_from_phone}
use f_chat_backend.Jid.RoundTrip.{not_at, phone_from_jid-jid_from_phone}
use f_chat_backend.Messaging.Rows.{Client}
use f_chat_backend.Prelude.{
  Text, ◌==◌, truthy, Option, none, some, or_else, List, [], ◌∷◌, ◌++◌, Bool, true, false, every,
  ◌≡◌, refl, sym, ap, ◌∙◌, subst, Memᴰ, inr,
}
use f_chat_backend.Prelude.Actions.{
  ok, done, ◌>>◌, written-some, bind-ok, after_require, after_reads, after_stored, done-ok,
  require-ok,
}
use f_chat_backend.Prelude.Table.{Table}
use f_chat_backend.Queue.{QueueRequest, pending, message_of}
use f_chat_backend.Queue.Labels.{ResolvedContact, Tables, State, resolve, client_of, contact_of}
use f_chat_backend.Queue.Enqueue.{
  EnqueueParams, destination_of, group_of, new_request, write_request, add_job, jobs_after, enqueue,
}

module _ (t : Tables) where
  -- No phone number of a client has an `@` in it.
  unfoldable pub HasPlainPhones : State t → Type 0
  HasPlainPhones s =
      (c : Client)
      → Memᴰ c (Table.rows (Tables.clients t) s.clients)
      → every not_at c.phone_number ≡ true

  client_of-plain :
      (s : State t) (id : Option Text) (c : Client)
      → HasPlainPhones s
      → client_of t s id ≡ some c
      → every not_at c.phone_number ≡ true
  unfolding client_of HasPlainPhones
  client_of-plain s none c plain e = cc
  client_of-plain s (some id) c plain e =
      plain c (Table.found_row (Tables.clients t) s.clients (λ x. x.id == id) c e).0

  -- The request for a contact, once it has a destination, is sent to the contact's id.
  unfoldable IsSentTo : Text → EnqueueParams → Text → ResolvedContact → Type 0
  unfolding destination_of new_request
  IsSentTo id p destination r =
      destination_of r ≡ some destination
      → (message_of (new_request id p r destination)).remote_jid ≡ r.remote_jid

  contact_of-IsSentTo :
      (id : Text) (p : EnqueueParams) (label destination : Text) (group : Option Text)
      (client : Option Client) (r : ResolvedContact)
      → ((c : Client) → client ≡ some c → every not_at c.phone_number ≡ true)
      → contact_of label group client ≡ some r
      → IsSentTo id p destination r
  unfolding contact_of IsSentTo group_of message_of
  contact_of-IsSentTo id p label destination (some g) (some c) r plain e =
      subst (IsSentTo id p destination) (ap (λ o. or_else o r) e) (λ h. refl)
  contact_of-IsSentTo id p label destination (some g) none r plain e =
      subst (IsSentTo id p destination) (ap (λ o. or_else o r) e) (λ h. refl)
  contact_of-IsSentTo id p label destination none (some c) r plain e =
      subst (IsSentTo id p destination) (ap (λ o. or_else o r) e) (λ h. ap jid_from_phone (
        sym (ap (λ o. or_else o destination) h)
        ∙ (phone_from_jid-jid_from_phone c.phone_number (plain c refl)).0))
  contact_of-IsSentTo id p label destination none none r plain e = cc

  -- What a resolved label says, and that resolving it changes nothing.
  resolve-ok :
      (id : Text) (p : EnqueueParams) (tenant_id label destination : Text) (s u : State t)
      (r : ResolvedContact)
      → HasPlainPhones s
      → resolve t tenant_id label s ≡ (ok r, u)
      → (s ≡ u) × IsSentTo id p destination r
  unfolding resolve
  resolve-ok id p tenant_id label destination s u r plain h =
      let (l, e, h1) = after_require _ _ (after_reads _ _ h) in
      let (made, same) = require-ok _ _ s u r (after_reads _ _ h1) in
      (
        same,
        contact_of-IsSentTo id p label destination (truthy l.group_jid) (client_of t s l.client_id)
            r (λ c k. client_of-plain s l.client_id c plain k) made,
      )

  module _ (takes : Text → List (Text × Text) → Bool) where
    jobs_after-some :
        (user_id id : Text) (jobs after : List (Text × Text)) (b : Bool)
        → jobs_after t takes user_id id jobs b ≡ some after
        → jobs ++ (user_id, id) ∷ [] ≡ after
    unfolding jobs_after
    jobs_after-some user_id id jobs after true e = ap (λ o. or_else o after) e
    jobs_after-some user_id id jobs after false e = cc

    -- What is there once a request and its job were written.
    written_request :
        (x q : QueueRequest) (user_id id : Text) (s u : State t)
        → (write_request t takes x >> (add_job t takes user_id id >> done x)) s ≡ (ok q, u)
        → (x ≡ q)
          × Memᴰ x (Table.rows (Tables.requests t) u.requests)
          × (u.jobs ≡ s.jobs ++ (user_id, id) ∷ [])
    unfolding write_request add_job
    written_request x q user_id id s u h =
        let (s2, w2, h3) = after_stored _ _ h in
        let (s3, w3, h4) = after_stored _ _ h3 in
        let (made, end_state) = done-ok _ s3 u q h4 in
        let (rs, c2, k2) = written-some _ _ s2 w2 in
        let (js, c3, k3) = written-some _ _ s3 w3 in
        let there : Memᴰ x (Table.rows (Tables.requests t) rs) =
          (Table.created (Tables.requests t) s.requests rs x c2 x).1 (inr refl) in
        let final : record s { requests = rs; jobs = js } ≡ u =
          ap {B = State t} (λ (z : State t). record z { jobs = js }) k2 ∙ k3 ∙ end_state in
        (
          made,
          subst (λ z. Memᴰ x (Table.rows (Tables.requests t) z))
              (ap (λ (z : State t). z.requests) final) there,
          sym (ap (λ (z : State t). z.jobs) final)
              ∙ sym (
                  jobs_after-some user_id id s.jobs js (takes user_id s.jobs) (
                    subst
                      (λ (z : State t).
                        jobs_after t takes user_id id z.jobs (takes user_id z.jobs) ≡ some js)
                      (sym k2) c3)),
        )

    sent_to :
        (id : Text) (p : EnqueueParams) (destination : Text) (r : ResolvedContact)
        → IsSentTo id p destination r
        → destination_of r ≡ some destination
        → (message_of (new_request id p r destination)).remote_jid ≡ r.remote_jid
    unfolding IsSentTo
    sent_to id p destination r h e = h e

    after_resolving :
        (id : Text) (p : EnqueueParams) (s s1 u : State t) (q : QueueRequest) (r : ResolvedContact)
        (destination : Text)
        → s ≡ s1
        → resolve t p.user_id p.label s ≡ (ok r, s1)
        → (message_of (new_request id p r destination)).remote_jid ≡ r.remote_jid
        → (write_request t takes (new_request id p r destination)
              >> (add_job t takes p.user_id id >> done (new_request id p r destination)))
            s1
          ≡ (ok q, u)
        → (x : ResolvedContact) × (resolve t p.user_id p.label s ≡ (ok x, s))
          × ((message_of q).remote_jid ≡ x.remote_jid)
          × Memᴰ q (Table.rows (Tables.requests t) u.requests)
          × (q.status ≡ pending)
          × (u.jobs ≡ s.jobs ++ (p.user_id, q.id) ∷ [])
    unfolding new_request
    after_resolving id p s s1 u q r destination same e sent h =
        let x = new_request id p r destination in
        let (made, there, jobs) = written_request x q p.user_id id s1 u h in
        (
          r,
          subst (λ z. resolve t p.user_id p.label s ≡ (ok r, z)) (sym same) e,
          subst (λ z. (message_of z).remote_jid ≡ r.remote_jid) made sent,
          subst (λ z. Memᴰ z (Table.rows (Tables.requests t) u.requests)) made there,
          ap (λ (z : QueueRequest). z.status) (sym made),
          subst (λ (z : QueueRequest). u.jobs ≡ s.jobs ++ (p.user_id, z.id) ∷ []) made
              (subst (λ (z : State t). u.jobs ≡ z.jobs ++ (p.user_id, id) ∷ []) (sym same) jobs),
        )

    -- If the enqueueing of a request returns, and no phone number of a client has an `@` in it: the
    -- label resolves to a contact, the request is in the table, it waits, it has a job under its
    -- user, and the message that the job sends for it goes to the contact.
    pub enqueue-message_of :
        (id : Text) (p : EnqueueParams) (s u : State t) (q : QueueRequest)
        → HasPlainPhones s
        → enqueue t takes id p s ≡ (ok q, u)
        → (r : ResolvedContact) × (resolve t p.user_id p.label s ≡ (ok r, s))
          × ((message_of q).remote_jid ≡ r.remote_jid)
          × Memᴰ q (Table.rows (Tables.requests t) u.requests)
          × (q.status ≡ pending)
          × (u.jobs ≡ s.jobs ++ (p.user_id, q.id) ∷ [])
    unfolding enqueue
    enqueue-message_of id p s u q plain h =
        let (r, s1, e1, h1) = bind-ok (resolve t p.user_id p.label) _ s u q h in
        let (destination, e2, h2) = after_require _ _ h1 in
        let (same, sent) = resolve-ok id p p.user_id p.label destination s s1 r plain e1 in
        after_resolving id p s s1 u q r destination same e1 (sent_to id p destination r sent e2) h2
