-- ===== src/Webhooks/Handlers/Tests.antt =====
-- The events of webhooks.service.ts at a small state, and the theorems about them.
use mathlib.Core.List.Memᴰ
use f_chat_backend.Prelude.{
  true, keep, Text, text, ◌==◌, [], ◌∷◌, ◌++◌, ◌≡◌, refl, ◌∙◌, sym, subst, ◌⊎◌, Memᴰ, any,
}
use f_chat_backend.Prelude.Actions.{
  Result, ok, done, reads, stored, written, result_of, continue, when◌then◌else◌, ◌>>=◌, ◌>>◌,
}
use f_chat_backend.Prelude.Table.{first_where, update_rows, change_rows}
use f_chat_backend.Messaging.{State}
use f_chat_backend.Webhooks.Fixture.{tables, answer, state, late_notice, upsert}
use f_chat_backend.Messaging.Rows.{equals, delivered, Phone, Message}
use f_chat_backend.Messaging.Events.{WebhookJob, status_updated, Emission}
use f_chat_backend.Messaging.Messages.{
  has_message_id, has_key_id, key_of, with_status, update_status_by_key_id, find_by_key,
  find_message, status_found, update_message,
}
use f_chat_backend.Webhooks.Handlers.{
  has_instance, has_phone_id, members_of, is_missing, mapped_status, is_queued, find_by_instance,
  find_phone, emit, emit_for, emit_message_status, update_messages, handle_messages_update,
  handle_direct, handle_for, handle_webhook,
}
use f_chat_backend.Webhooks.Handlers.Tenancy.{HasPhone, HasUniquePhones, emissions_stay_in_tenant}
use f_chat_backend.Webhooks.Handlers.Outcome.{wait_list, jobs-handle_webhook}

unique : HasUniquePhones tables state
unfolding HasUniquePhones HasPhone
unique x y mx my e = Memᴰ.eq_of_singleton mx ∙ sym (Memᴰ.eq_of_singleton my)

abbrev downgraded : Message
downgraded = record answer { status = delivered }

abbrev notice : Emission
notice = record { event = status_updated (text "m1") (text "c1") delivered; tenant_id = text "t1" }

-- The late notice turns a message that was read into one that was delivered.
noticed : handle_webhook tables 5 late_notice state ≡ (
  ok (text "Webhook processed"),
  record state { messages = downgraded ∷ []; emitted = notice ∷ [] },
)
unfolding handle_webhook ◌>>=◌ ◌>>◌ reads continue done stored result_of written when◌then◌else◌
    find_by_instance has_instance first_where ◌==◌ is_queued handle_for handle_direct
    handle_messages_update is_missing members_of mapped_status update_messages
    update_status_by_key_id find_by_key find_message has_key_id key_of equals status_found
    update_message update_rows change_rows any has_message_id with_status emit_message_status
    find_phone has_phone_id emit_for emit
noticed = refl

notice_there : Memᴰ notice (handle_webhook tables 5 late_notice state).1.emitted
notice_there =
    subst (λ (r : Result Text × State tables). Memᴰ notice r.1.emitted) (sym noticed)
      (Memᴰ.head refl)

emissions_stay_in_tenant_example :
    Memᴰ notice state.emitted
    ⊎ ((p : Phone) × HasPhone tables state p
        × (p.evolution_instance_id ≡ text "i1")
        × (text "t1" ≡ p.tenant_id))
emissions_stay_in_tenant_example =
    emissions_stay_in_tenant tables 5 late_notice state unique notice notice_there

jobs-handle_webhook_example :
    (handle_webhook tables 5 upsert state).1.jobs
    ≡ []
      ++ keep
          (λ (j : WebhookJob). true)
          (wait_list upsert (find_by_instance tables (text "i1") state))
jobs-handle_webhook_example = jobs-handle_webhook tables 5 upsert state
