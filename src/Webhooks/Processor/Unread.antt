-- ===== src/Webhooks/Processor/Unread.antt =====
-- The unread messages under `processMessage`.
use f_chat_backend.Prelude.{
  ℕ, ◌≤◌, Text, Option, none, some, Bool, true, false, if◌then◌else◌, ◌≡◌, refl, sym, ap, ◌∙◌, ◌⊎◌,
  inl, inr, Memᴰ, arith,
}
use f_chat_backend.Prelude.Actions.{when◌then◌else◌}
use f_chat_backend.Prelude.Table.{Table}
use f_chat_backend.Prelude.Invariants.{
  Preserves, bind-Preserves, then-Preserves, done-Preserves, reads-Preserves, part-Preserves,
}
use f_chat_backend.Messaging.{Tables, State}
use f_chat_backend.Messaging.Rows.{Stats}
use f_chat_backend.Messaging.Events.{EvolutionMessage}
use f_chat_backend.Messaging.Conversations.{
  Direction, inbound, outbound, new_stats, next_unread, seen_stats, of_conversation, stats_found,
  upsert_stats,
}
use f_chat_backend.Messaging.Messages.{create_message}
use f_chat_backend.Webhooks.Content.{MediaData}
use f_chat_backend.Webhooks.Processor.{Fresh, process_message}
use f_chat_backend.Webhooks.Processor.Frame.{process_message-Preserves}

next_unread-le : (d : Direction) (n : ℕ) → next_unread d false n ≤ n
unfolding next_unread
next_unread-le inbound n = omega arith
next_unread-le outbound n = omega arith

seen_stats-same :
    (d : Direction) (x : Stats)
    → ((seen_stats d false x).conversation_id ≡ x.conversation_id)
      × ((seen_stats d false x).unread_count ≤ x.unread_count)
unfolding seen_stats
seen_stats-same d x = (refl, next_unread-le d x.unread_count)

seen-le :
    (d : Direction) (b : Bool) (x y : Stats)
    → x ≡ (if b then seen_stats d false y else y)
    → (x.conversation_id ≡ y.conversation_id) × (x.unread_count ≤ y.unread_count)
seen-le d true x y e =
    let (ids, less) = seen_stats-same d y in
    (
      ap (λ (z : Stats). z.conversation_id) e ∙ ids,
      omega (arith, ap (λ (z : Stats). z.unread_count) e, less),
    )
seen-le d false x y e =
    (ap (λ (z : Stats). z.conversation_id) e, omega (arith, ap (λ (z : Stats). z.unread_count) e))

new-unread : (id : Text) (d : Direction) → (new_stats id d false).unread_count ≡ 0
unfolding new_stats
new-unread id d = refl

module _ (t : Tables) where
  unfoldable pub HasStats : State t → Stats → Type 0
  HasStats s x = Memᴰ x (Table.rows (Tables.stats t) s.stats)

  module _ (old : State t) where
    -- No count is above the one that its conversation had.
    IsBounded : Stats → Type 0
    IsBounded x =
        (x.unread_count ≡ 0)
        ⊎ ((y : Stats) × HasStats old y
            × (y.conversation_id ≡ x.conversation_id)
            × (x.unread_count ≤ y.unread_count))

    AllBounded : State t → Type 0
    AllBounded s = (x : Stats) → HasStats s x → IsBounded x

    less-IsBounded :
        (x y : Stats)
        → (x.conversation_id ≡ y.conversation_id) × (x.unread_count ≤ y.unread_count)
        → IsBounded y
        → IsBounded x
    unfolding IsBounded
    less-IsBounded x y (ids, less) (inl zero_there) = inl (omega arith)
    less-IsBounded x y (ids, less) (inr (z, there, same, bound)) =
        inr (z, there, same ∙ sym ids, omega arith)

    upsert_stats-AllBounded :
        (id : Text) (d : Direction) → Preserves AllBounded (upsert_stats t id d false)
    unfolding upsert_stats stats_found AllBounded HasStats IsBounded
    upsert_stats-AllBounded id d =
        bind-Preserves AllBounded _ _ (reads-Preserves AllBounded _) found
      where
        found : (o : Option Stats) → Preserves AllBounded (stats_found t id d false o)
        found none = part-Preserves AllBounded _ _ λ s r h e x m.
            elim ((Table.created (Tables.stats t) s.stats r (new_stats id d false) e x).0 m) [
              | inl before ↦ h x before
              | inr same ↦ inl (ap (λ (z : Stats). z.unread_count) same ∙ new-unread id d)
            ]
        found (some q) = part-Preserves AllBounded _ _ λ s r h e x m.
            let (y, before, same) =
              (Table.updated (Tables.stats t) s.stats r (of_conversation id) (seen_stats d false) e
                  x).0
                m in
            less-IsBounded x y (seen-le d (of_conversation id y) x y same) (h y before)

  -- Whatever message is processed and whatever comes of it, the count of unread messages of each
  -- conversation is afterwards zero or at most what it was before: no incoming message is ever
  -- counted as unread, also where an agent has the conversation.
  pub unread_never_grows :
      (fetch_picture : Text → Text → Option (Option Text))
      → (download : Text → Text → Text → Text → Option MediaData)
      → (now : ℕ) (ids : Fresh) (phone_id instance_name : Text) (m : EvolutionMessage)
      → (s : State t) (x : Stats)
      → HasStats (process_message t fetch_picture download now ids phone_id instance_name m s).1 x
      → (x.unread_count ≡ 0)
        ⊎ ((y : Stats) × HasStats s y
            × (y.conversation_id ≡ x.conversation_id)
            × (x.unread_count ≤ y.unread_count))
  unfolding AllBounded IsBounded HasStats Preserves create_message
  unread_never_grows fetch_picture download now ids phone_id instance_name m s x there =
      process_message-Preserves t (AllBounded s) (λ u r h. h) (λ u r h. h) (λ u r h. h) (λ u r h. h)
        (λ u r h. h) fetch_picture download
        (λ clock id d.
          then-Preserves (AllBounded s) _ _ (part-Preserves (AllBounded s) _ _ (λ u r h e. h))
            (done-Preserves (AllBounded s) _))
        (upsert_stats-AllBounded s) (λ u r h. h) (λ u r h. h) now ids phone_id instance_name m s
        (λ y here. inr (y, here, refl, omega arith)) x there
