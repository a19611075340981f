-- ===== src/Queue/Tests.antt =====
-- A table with a request that waits and one that was cancelled, and the theorems at it.
use mathlib.Core.List.Memᴰ
use f_chat_backend.Prelude.{
  ℕ, Text, text, ◌==◌, Option, none, some, [], ◌∷◌, true, false, ◌≡◌, ◌≢◌, ◌∙◌, inl, inr, refl, sym,
  ap, Memᴰ, any,
}
use f_chat_backend.Prelude.Actions.{ok, done, reads, stored, result_of, continue, ◌>>=◌, ◌>>◌}
use f_chat_backend.Prelude.Table.{Table, list_table, first_where, change_rows, update_rows}
use f_chat_backend.Queue.{
  pending, cancelled, QueueRequest, State, Message, is_pending, has_id, find_by_id, set_requests,
  update_status, cancel_by_conversation_id, handle_response, sent_state, process_send,
  process_found, process_job,
}
use f_chat_backend.Queue.Final.{is_final, Has, HasUniqueIds, final_stays}
use f_chat_backend.Queue.Twice.{process_job_twice}

abbrev table : Table QueueRequest
table = list_table (λ (x y : QueueRequest). x.id == y.id)

abbrev waits : QueueRequest
waits = record {
  id = text "q1";
  user_id = text "u";
  node_session_id = text "n";
  conversation_id = text "c";
  current_node_id = text "n1";
  instance_name = text "main";
  label = text "supervisor";
  destination_phone = text "51";
  group_jid = none;
  outgoing_message = text "hola";
  image_url = none;
  is_test = false;
  response_message = none;
  tool_name = text "ask";
  status = pending;
  sent_whatsapp_message_id = none;
  sent_at = none;
  responded_at = none;
}

abbrev gone : QueueRequest
gone = record waits { id = text "q2"; status = cancelled }

abbrev state : State table
state = record { requests = waits ∷ gone ∷ []; messages = []; events = [] }

abbrev send : Message → Option (Option Text)
send m = some (some (text "wa1"))

abbrev after : State table
after = (process_job table send 5 (text "q1") state).1

processed : process_job table send 5 (text "q1") state ≡ (ok tt, after)
unfolding process_job process_found process_send find_by_id has_id is_pending first_where
    update_status sent_state set_requests update_rows change_rows any stored result_of done reads
    continue ◌>>=◌ ◌>>◌ ◌==◌
processed = refl

process_job_twice_example : process_job table send 9 (text "q1") after ≡ (ok tt, after)
process_job_twice_example = process_job_twice table send 5 9 (text "q1") state after processed

ids_apart : text "q1" ≢ text "q2"
unfolding ◌==◌
ids_apart e = bool_apart (ap (λ x. x == text "q1") e)
  where
    bool_apart : ¬ (true ≡ false)
    bool_apart q = cc

unique : HasUniqueIds table state
unfolding HasUniqueIds Has
unique x y mx my e = elim (Memᴰ.cases_cons mx) [
  | inl p ↦ elim (Memᴰ.cases_cons my) [
    | inl q ↦ p ∙ sym q
    | inr q ↦ absurd (
        ids_apart (
          sym (ap (λ (z : QueueRequest). z.id) p)
          ∙ e
          ∙ ap (λ (z : QueueRequest). z.id) (Memᴰ.eq_of_singleton q)))
  ]
  | inr p ↦ elim (Memᴰ.cases_cons my) [
    | inl q ↦ absurd (
        ids_apart (
          sym (ap (λ (z : QueueRequest). z.id) q)
          ∙ sym e
          ∙ ap (λ (z : QueueRequest). z.id) (Memᴰ.eq_of_singleton p)))
    | inr q ↦ Memᴰ.eq_of_singleton p ∙ sym (Memᴰ.eq_of_singleton q)
  ]
]

gone_there : Has table gone state
unfolding Has
gone_there = Memᴰ.tail (Memᴰ.head refl)

final_stays_example :
    ((now : ℕ) (id : Text) → Has table gone (process_job table send now id state).1)
    × ((now : ℕ) (response : Text) (quoted : Option Text)
        → Has table gone (handle_response table now response quoted state).1)
    × ((c : Text) → Has table gone (cancel_by_conversation_id table c state))
unfolding is_final
final_stays_example = final_stays table send gone state unique gone_there refl
