-- ===== src/Webhooks/Handlers/Tenancy.antt =====
-- The tenants of what webhooks.service.ts emits.
use mathlib.Core.List.Memᴰ
use f_chat_backend.Prelude.{
  ℕ, Text, ==_sound, Option, none, some, List, [], ◌∷◌, Bool, true, false, if◌then◌else◌, ◌≡◌, refl,
  sym, ap, ◌∙◌, subst, ◌⊎◌, inl, inr, Memᴰ, Option-cases, truthy,
}
use f_chat_backend.Prelude.Actions.{done, reads, continue, when◌then◌else◌, ◌>>=◌}
use f_chat_backend.Prelude.Table.{Table}
use f_chat_backend.Prelude.Invariants.{
  Preserves, bind-Preserves, then-Preserves, done-Preserves, reads-Preserves, reading-Preserves,
  when-Preserves, part-Preserves, stored-some-Preserves,
}
use f_chat_backend.Messaging.{Tables, State}
use f_chat_backend.Messaging.Rows.{PhoneStatus, Phone, MessageStatus, Message}
use f_chat_backend.Messaging.Events.{Members, WebhookEvent, SocketEvent, Emission}
use f_chat_backend.Messaging.Clients.{update_profile_pic}
use f_chat_backend.Messaging.Messages.{update_status_by_key_id, status_found, update_message}
use f_chat_backend.Webhooks.Handlers.{
  has_instance, has_phone_id, find_by_instance, find_phone, with_phone_status, update_phone_status,
  emit, enqueue_job, emit_for, emit_status, emit_message_status, update_messages, update_contact,
  contact_found, update_contacts, handle_qr_code_updated, handle_connection_update,
  handle_messages_set, handle_messages_update, handle_contacts_update, handle_direct, handle_for,
  handle_webhook,
}

module _ (t : Tables) where
  unfoldable pub HasPhone : State t → Phone → Type 0
  HasPhone s p = Memᴰ p (Table.rows (Tables.phones t) s.phones)

  -- The primary key of the table of phones.
  unfoldable pub HasUniquePhones : State t → Type 0
  HasUniquePhones s = (x y : Phone) → HasPhone s x → HasPhone s y → x.id ≡ y.id → x ≡ y

  module _ (old : List Emission) (id tenant_id : Text) where
    -- The phone with this id is the tenant's, and so is what was emitted since.
    record Scoped (s : State t) : Type 0 where
      owner : (p : Phone) → HasPhone s p → p.id ≡ id → p.tenant_id ≡ tenant_id
      recent : (e : Emission) → Memᴰ e s.emitted → Memᴰ e old ⊎ (e.tenant_id ≡ tenant_id)

    with_phone_status-same :
        (status : PhoneStatus) (at : Option ℕ) (p : Phone)
        → ((with_phone_status status at p).id ≡ p.id)
          × ((with_phone_status status at p).tenant_id ≡ p.tenant_id)
    unfolding with_phone_status
    with_phone_status-same status none p = (refl, refl)
    with_phone_status-same status (some n) p = (refl, refl)

    emit-Scoped : (event : SocketEvent) → Preserves Scoped (emit t event tenant_id)
    unfolding emit HasPhone
    emit-Scoped event = stored-some-Preserves Scoped _ λ s h. record {
      owner = h.owner;
      recent = λ e m. elim (Memᴰ.append_cases s.emitted m) [
        | inl l ↦ h.recent e l
        | inr r ↦ inr (ap (λ (x : Emission). x.tenant_id) (Memᴰ.eq_of_singleton r))
      ];
    }

    update_phone_status-Scoped :
        (status : PhoneStatus) (at : Option ℕ)
        → Preserves Scoped (update_phone_status t id status at)
    unfolding update_phone_status HasPhone
    update_phone_status-Scoped status at = part-Preserves Scoped _ _ λ s r h e. record {
      owner = λ p m same.
          let (y, there, q) =
            (Table.updated (Tables.phones t) s.phones r (has_phone_id id)
                (with_phone_status status at) e p).0
              m in
          owner_of status at p y (has_phone_id id y) q (h.owner y there) same;
      recent = h.recent;
    }
      where
        owner_of :
            (status : PhoneStatus) (at : Option ℕ) (p y : Phone) (b : Bool)
            → p ≡ (if b then with_phone_status status at y else y)
            → (y.id ≡ id → y.tenant_id ≡ tenant_id)
            → p.id ≡ id
            → p.tenant_id ≡ tenant_id
        owner_of status at p y true q k same =
            let (ids, tenants) = with_phone_status-same status at y in
            ap (λ (x : Phone). x.tenant_id) q
            ∙ tenants
            ∙ k (sym ids ∙ sym (ap (λ (x : Phone). x.id) q) ∙ same)
        owner_of status at p y false q k same =
            ap (λ (x : Phone). x.tenant_id) q ∙ k (sym (ap (λ (x : Phone). x.id) q) ∙ same)

    -- What is sent to the phone's tenant.
    emit_for-Scoped :
        (event : SocketEvent) (s : State t)
        → Scoped s
        → Scoped (emit_for t event (find_phone t id s) s).1
    unfolding emit_for find_phone has_phone_id Preserves done HasPhone
    emit_for-Scoped event s h = elim (Option-cases (find_phone t id s)) [
      | inl e ↦ rw (e, emit_for) h
      | inr (p, e) ↦
          let (there, fits) = Table.found_row (Tables.phones t) s.phones (has_phone_id id) p e in
          rw (e, emit_for)
            (subst (λ tenant. Scoped (emit t event tenant s).1)
              (sym (h.owner p there (==_sound p.id id fits))) (emit-Scoped event s h))
    ]

    reading_phone-Scoped :
        (event : SocketEvent) → Preserves Scoped (reads (find_phone t id) >>= emit_for t event)
    reading_phone-Scoped event = reading-Preserves Scoped _ _ (emit_for-Scoped event)

    emit_status-Scoped :
        (status : PhoneStatus)
        → Preserves Scoped (reads (find_phone t id) >>= emit_status t id status)
    unfolding emit_status find_phone has_phone_id Preserves done HasPhone
    emit_status-Scoped status = reading-Preserves Scoped _ _ λ s h.
        elim (Option-cases (find_phone t id s)) [
          | inl e ↦ rw e h
          | inr (p, e) ↦
              let (there, fits) =
                Table.found_row (Tables.phones t) s.phones (has_phone_id id) p e in
              rw (e, h.owner p there (==_sound p.id id fits))
                (then-Preserves Scoped _ _ (emit-Scoped _)
                  (when-Preserves Scoped _ _ _ (emit-Scoped _) (done-Preserves Scoped tt)) s h)
        ]

    connection-Scoped :
        (now : ℕ) (d : Members) → Preserves Scoped (handle_connection_update t now id d)
    unfolding handle_connection_update
    connection-Scoped now d =
        then-Preserves Scoped _ _ (update_phone_status-Scoped _ _) (emit_status-Scoped _)

    status_found-Scoped :
        (status : MessageStatus) (o : Option Message) → Preserves Scoped (status_found t status o)
    unfolding status_found update_message HasPhone
    status_found-Scoped status none = done-Preserves Scoped none
    status_found-Scoped status (some m) =
        then-Preserves Scoped _ _
          (part-Preserves Scoped _ _ (λ s r h e. record { owner = h.owner; recent = h.recent }))
          (done-Preserves Scoped _)

    emit_message_status-Scoped :
        (status : MessageStatus) (o : Option Message)
        → Preserves Scoped (emit_message_status t id status o)
    unfolding emit_message_status
    emit_message_status-Scoped status none = done-Preserves Scoped tt
    emit_message_status-Scoped status (some m) = reading_phone-Scoped _

    update_messages-Scoped :
        (key : Option Text) (o : Option MessageStatus)
        → Preserves Scoped (update_messages t id key o)
    unfolding update_messages update_status_by_key_id
    update_messages-Scoped key none = done-Preserves Scoped tt
    update_messages-Scoped key (some status) =
        bind-Preserves Scoped _ _
          (bind-Preserves Scoped _ _ (reads-Preserves Scoped _) (status_found-Scoped status))
          (emit_message_status-Scoped status)

    contact_found-Scoped : (jid url : Option Text) → Preserves Scoped (contact_found t jid url)
    unfolding contact_found update_contact update_profile_pic HasPhone
    contact_found-Scoped none url = done-Preserves Scoped tt
    contact_found-Scoped (some jid) none = done-Preserves Scoped tt
    contact_found-Scoped (some jid) (some url) =
        when-Preserves Scoped _ _ _
          (stored-some-Preserves Scoped _ (λ s h. record { owner = h.owner; recent = h.recent }))
          (done-Preserves Scoped tt)

    update_contacts-Scoped : (ds : List Members) → Preserves Scoped (update_contacts t ds)
    unfolding update_contacts
    update_contacts-Scoped [] = done-Preserves Scoped tt
    update_contacts-Scoped (d ∷ ds) =
        then-Preserves Scoped _ _ (contact_found-Scoped (truthy d.remote_jid) _)
          (update_contacts-Scoped ds)

    direct-Scoped :
        (now : ℕ) (p : Phone) (e : WebhookEvent)
        → p.id ≡ id
        → Preserves Scoped (handle_direct t now p e)
    unfolding handle_direct handle_qr_code_updated handle_messages_set handle_messages_update
        handle_contacts_update
    direct-Scoped now p e same = rw same (
        when-Preserves Scoped _ _ _ (reading_phone-Scoped _) (
          when-Preserves Scoped _ _ _ (connection-Scoped now _) (
            when-Preserves Scoped _ _ _
              (when-Preserves Scoped _ _ _ (done-Preserves Scoped tt) (
                when-Preserves Scoped _ _ _ (update_messages-Scoped _ _)
                  (done-Preserves Scoped tt)))
              (when-Preserves Scoped _ _ _ (reading_phone-Scoped _) (
                when-Preserves Scoped _ _ _ (update_contacts-Scoped _)
                  (done-Preserves Scoped tt))))))

    handle_for-Scoped :
        (now : ℕ) (p : Phone) (e : WebhookEvent)
        → p.id ≡ id
        → Preserves Scoped (handle_for t now e (some p))
    unfolding handle_for enqueue_job HasPhone
    handle_for-Scoped now p e same =
        when-Preserves Scoped _ _ _
          (then-Preserves Scoped _ _
            (part-Preserves Scoped _ _ (λ s r h e. record { owner = h.owner; recent = h.recent }))
            (done-Preserves Scoped _))
          (then-Preserves Scoped _ _ (direct-Scoped now p e same) (done-Preserves Scoped _))

  -- Whatever an event holds, and whether or not its handling throws: each thing that is emitted
  -- for it goes to the tenant of a phone that has the event's instance. The ids of the phones are
  -- unique.
  pub emissions_stay_in_tenant :
      (now : ℕ) (e : WebhookEvent) (s : State t)
      → HasUniquePhones s
      → (x : Emission) → Memᴰ x (handle_webhook t now e s).1.emitted
      → Memᴰ x s.emitted
        ⊎ ((p : Phone) × HasPhone s p
            × (p.evolution_instance_id ≡ e.instance_id)
            × (x.tenant_id ≡ p.tenant_id))
  unfolding handle_webhook handle_for find_by_instance has_instance HasPhone HasUniquePhones ◌>>=◌
      reads continue done Preserves
  emissions_stay_in_tenant now e s unique x m =
      elim (Option-cases (find_by_instance t e.instance_id s)) [
        | inl absent ↦ inl (rw absent at m)
        | inr (p, found) ↦
            let (there, fits) =
              Table.found_row (Tables.phones t) s.phones (has_instance e.instance_id) p found in
            let start : Scoped s.emitted p.id p.tenant_id s = record {
              owner = λ q here same. ap (λ (z : Phone). z.tenant_id) (unique q p here there same);
              recent = λ y k. inl k;
            } in
            elim ((handle_for-Scoped s.emitted p.id p.tenant_id now p e refl s start).recent x
              (rw found at m)) [
                | inl before ↦ inl before
                | inr same ↦ inr (p, there, ==_sound _ _ fits, same)
              ]
      ]
