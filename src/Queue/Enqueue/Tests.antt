-- ===== src/Queue/Enqueue/Tests.antt =====
-- Requests for a contact with a phone number and for one without anything, on concrete tables.
use f_chat_backend.Jid.{remove_first, phone_from_jid, jid_from_phone}
use f_chat_backend.Jid.RoundTrip.{not_at}
use f_chat_backend.Messaging.Rows.{Client, ContactLabel, active}
use f_chat_backend.Prelude.{
  Text, text, ◌==◌, truthy, starts_with, none, some, List, [], ◌∷◌, ◌++◌, Bool, true, false, every,
  ◌≡◌, refl, sym, subst, Memᴰ, any,
}
use f_chat_backend.Prelude.Actions.{
  ok, failed, error, done, reads, stored, written, result_of, continue, require, ◌>>=◌, ◌>>◌,
}
use f_chat_backend.Prelude.Table.{list_table, first_where, insert_row}
use f_chat_backend.Queue.{QueueRequest, pending, message_of}
use f_chat_backend.Queue.Enqueue.{
  EnqueueParams, destination_of, group_of, new_request, write_request, add_job, jobs_after, enqueue,
}
use f_chat_backend.Queue.Enqueue.Address.{HasPlainPhones, enqueue-message_of}
use f_chat_backend.Queue.Labels.{
  ResolvedContact, Tables, State, resolve, client_of, contact_of, find_label, is_label,
}
use mathlib.Core.List.Memᴰ

abbrev tables : Tables
tables = record {
  labels = list_table (λ (x y : ContactLabel). x.id == y.id);
  clients = list_table (λ (x y : Client). x.id == y.id);
  requests = list_table (λ (x y : QueueRequest). x.id == y.id);
}

abbrev boss : Client
boss = record {
  id = text "b";
  phone_number = text "51";
  name = none;
  profile_pic_url = none;
  last_contact_at = 0;
}

abbrev supervisor : ContactLabel
supervisor = record {
  id = text "l";
  tenant_id = text "t";
  label = text "boss";
  client_id = some (text "b");
  group_jid = none;
  status = active;
}

-- A group with nobody in it who would be asked.
abbrev nobody : ContactLabel
nobody = record supervisor {
  id = text "m";
  label = text "team";
  client_id = none;
  group_jid = some (text "g@g.us");
}

abbrev state : State tables
state = record { labels = supervisor ∷ nobody ∷ []; clients = boss ∷ []; requests = []; jobs = [] }

abbrev takes : Text → List (Text × Text) → Bool
takes user_id jobs = true

abbrev asked : EnqueueParams
asked = record {
  user_id = text "t";
  node_session_id = text "n";
  conversation_id = text "c";
  current_node_id = text "k";
  instance_name = text "main";
  label = text "boss";
  message = text "hola";
  image_url = none;
  is_test = none;
  tool_name = text "ask";
}

abbrev made : QueueRequest
made = record {
  id = text "q";
  user_id = text "t";
  node_session_id = text "n";
  conversation_id = text "c";
  current_node_id = text "k";
  instance_name = text "main";
  label = text "boss";
  destination_phone = text "51";
  group_jid = none;
  outgoing_message = text "hola";
  image_url = none;
  is_test = false;
  response_message = none;
  tool_name = text "ask";
  status = pending;
  sent_whatsapp_message_id = none;
  sent_at = none;
  responded_at = none;
}

abbrev after : State tables
after = record state { requests = made ∷ []; jobs = (text "t", text "q") ∷ [] }

enqueued : enqueue tables takes (text "q") asked state ≡ (ok made, after)
unfolding enqueue resolve find_label is_label first_where client_of contact_of truthy destination_of
    group_of new_request write_request add_job jobs_after written stored result_of continue reads
    require done ◌>>=◌ ◌>>◌ ◌==◌ phone_from_jid remove_first starts_with insert_row any
    jid_from_phone
enqueued = refl

refused : enqueue tables takes (text "q") (record asked { label = text "team" }) state ≡ (
  failed (error (text "ContactLabel \"team\" tiene grupo pero no tiene usuario asignado")),
  state,
)
unfolding enqueue resolve find_label is_label first_where client_of contact_of truthy destination_of
    continue reads require ◌>>=◌ ◌>>◌ ◌==◌
refused = refl

state-HasPlainPhones : HasPlainPhones tables state
unfolding HasPlainPhones every
state-HasPlainPhones c m =
    subst (λ (x : Client). every not_at x.phone_number ≡ true) (sym (Memᴰ.eq_of_singleton m)) refl

enqueue-message_of_example :
    (r : ResolvedContact) × (resolve tables (text "t") (text "boss") state ≡ (ok r, state))
    × ((message_of made).remote_jid ≡ r.remote_jid)
    × Memᴰ made (made ∷ [])
    × (made.status ≡ pending)
    × (after.jobs ≡ [] ++ (text "t", text "q") ∷ [])
enqueue-message_of_example =
    enqueue-message_of tables takes (text "q") asked state after made state-HasPlainPhones enqueued
