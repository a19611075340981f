-- ===== src/Sessions/Lifecycle/Tests.antt =====
-- A conversation that a person takes and gives back, and the theorems at it.
use mathlib.Core.List.Memᴰ
use f_chat_backend.Prelude.{
  text, ◌==◌, none, some, [], ◌∷◌, Bool, true, false, ◌≡◌, refl, sym, ap, ◌∙◌, any, truthy,
}
use f_chat_backend.Prelude.Actions.{
  forbidden, ok, failed, done, reads, stored, written, result_of, continue, refuse, when◌then◌else◌,
  ◌>>=◌, ◌>>◌,
}
use f_chat_backend.Prelude.Table.{
  Table, list_table, first_where, insert_row, update_rows, change_rows,
}
use f_chat_backend.Messaging.Rows.{ai, hitl}
use f_chat_backend.Messaging.Conversations.{find_conversation, has_conversation_id}
use f_chat_backend.Webhooks.Fixture.{tables, phone, talk, answer}
use f_chat_backend.Webhooks.Fixture
use f_chat_backend.Sessions.DbStore.{NodeSession, find_active_or_waiting}
use f_chat_backend.Sessions.Lifecycle.{
  ai_session, hitl_session, Session, manual_takeover, SwitchToHitlParams, conversation_taken,
  Request, State, same_type, is_open_of, new_session, or_old, ended, reason_text, taker, notices_of,
  down_of, with_tenant, dispatches, find_open, create_session, close_session, notify,
  close_node_session, announce, mode_written, update_conversation_mode, mark_api_down,
  switch_to_hitl, return_to_ai, find_phone_of, take_control, give_back_control,
}
use f_chat_backend.Sessions.Lifecycle.Handover.{
  HasRow, HasOnly, IsHeld, switch_to_hitl-IsHeld, return_to_ai-IsHeld, stranger_refused,
}

abbrev sessions : Table Session
sessions = list_table (λ (x y : Session). x.id == y.id)

abbrev node_sessions : Table NodeSession
node_sessions = list_table (λ (x y : NodeSession). x.id == y.id)

abbrev reaches : Request → Bool
reaches r = true

abbrev agent_turn : Session
agent_turn = record {
  id = text "s1";
  conversation_id = text "c1";
  type = ai_session;
  started_at = 1;
  ended_at = none;
  ended_by = none;
  taken_by = none;
  reason = none;
}

abbrev begun : State tables sessions node_sessions
begun = record {
  store = record Fixture.state { conversations = record talk { mode = ai } ∷ [] };
  sessions = agent_turn ∷ [];
  node_sessions = [];
  downs = [];
  notices = [];
  returns = [];
}

abbrev takeover : SwitchToHitlParams
takeover = record {
  conversation_id = text "c1";
  reason = manual_takeover;
  tenant_id = text "t1";
  client_phone = none;
  extras = record {
    api_name = none;
    error_message = none;
    user_name = some (text "Eva");
    credits_used = none;
    credits_limit = none;
  };
}

abbrev person_turn : Session
person_turn = record agent_turn {
  id = text "s2";
  type = hitl_session;
  started_at = 5;
  taken_by = some (text "t1");
}

abbrev taken : State tables sessions node_sessions
taken = record begun {
  store = record begun.store { conversations = record talk { mode = hitl } ∷ [] };
  sessions =
      record agent_turn {
        ended_at = some 5;
        ended_by = some (text "t1");
        reason = some (text "manual_takeover");
      }
      ∷ person_turn
      ∷ [];
  notices = (conversation_taken (text "c1") (some (text "Eva")), text "t1") ∷ [];
}

takes :
    switch_to_hitl tables sessions node_sessions reaches 5 (text "s2") takeover begun
    ≡ (ok tt, taken)
unfolding switch_to_hitl mark_api_down down_of truthy update_conversation_mode mode_written
    find_open is_open_of same_type close_session create_session new_session ended or_old reason_text
    taker notify notices_of with_tenant has_conversation_id ◌==◌ ◌>>=◌ ◌>>◌ reads continue done
    stored result_of written refuse first_where update_rows change_rows insert_row any
takes = refl

only_agent : HasOnly sessions ai_session (text "c1") begun.sessions
unfolding HasRow
only_agent = record {
  kind = λ x m o. ap (λ (z : Session). z.type) (Memᴰ.eq_of_singleton m);
  one = λ x y mx my ox oy. Memᴰ.eq_of_singleton mx ∙ sym (Memᴰ.eq_of_singleton my);
}

switch_to_hitl-IsHeld_example :
    IsHeld tables sessions node_sessions hitl_session hitl (text "c1") taken
switch_to_hitl-IsHeld_example =
    switch_to_hitl-IsHeld tables sessions node_sessions reaches 5 (text "s2") takeover begun taken
      only_agent takes

abbrev returned : State tables sessions node_sessions
returned =
    (return_to_ai tables sessions node_sessions reaches 9 (text "s3") (text "c1") (text "t1")
      (answer ∷ []) taken).1

gives_back :
    return_to_ai tables sessions node_sessions reaches 9
      (text "s3")
      (text "c1")
      (text "t1")
      (answer ∷ [])
      taken
    ≡ (ok tt, returned)
unfolding return_to_ai update_conversation_mode mode_written find_open is_open_of same_type
    close_session create_session new_session ended or_old notify with_tenant close_node_session
    find_active_or_waiting dispatches announce has_conversation_id ◌==◌ ◌>>=◌ ◌>>◌ reads continue
    done stored result_of written refuse first_where update_rows change_rows insert_row any
    when◌then◌else◌
gives_back = refl

return_to_ai-IsHeld_example :
    IsHeld tables sessions node_sessions ai_session ai (text "c1") returned
unfolding IsHeld
return_to_ai-IsHeld_example =
    return_to_ai-IsHeld tables sessions node_sessions reaches 9 (text "s3") (text "c1") (text "t1")
      (answer ∷ []) taken returned switch_to_hitl-IsHeld_example.0 gives_back

conversation_found :
    find_conversation tables (text "c1") begun.store ≡ some (record talk { mode = ai })
unfolding find_conversation has_conversation_id first_where ◌==◌
conversation_found = refl

phone_found :
    find_phone_of tables sessions node_sessions reaches (λ ms. ms) (record talk { mode = ai }) begun
    ≡ some phone
unfolding find_phone_of first_where ◌==◌
phone_found = refl

other_tenant : (text "t1" == text "t2") ≡ false
unfolding ◌==◌
other_tenant = refl

stranger_refused_example :
    (take_control tables sessions node_sessions reaches
        (λ ms. ms)
        5
        (text "s2")
        (text "c1")
        (text "t2")
        (text "Eva")
        begun
      ≡ (failed (forbidden (text "You do not have permission to access this conversation")), begun))
    × (give_back_control tables sessions node_sessions reaches
          (λ ms. ms)
          5
          (text "s2")
          (text "c1")
          (text "t2")
          begun
        ≡ (
          failed (forbidden (text "You do not have permission to access this conversation")),
          begun,
        ))
stranger_refused_example =
    stranger_refused tables sessions node_sessions reaches (λ ms. ms) 5 (text "s2") (text "c1")
      (text "t2") (text "Eva") begun (record talk { mode = ai }) phone conversation_found
      phone_found other_tenant
