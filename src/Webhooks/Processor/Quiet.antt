-- ===== src/Webhooks/Processor/Quiet.antt =====
-- A contact with a label stays one when clients are written (client.repository.ts, isLabeledContact).
use f_chat_backend.Prelude.{
  ℕ, Text, ◌==◌, Option, none, some, List, [], ◌∷◌, any, Bool, true, false, not, is_some, ◌&&◌,
  Option-cases, if◌then◌else◌, ◌≡◌, refl, ap, ◌∙◌, subst, inl, inr, Memᴰ, Bool-cases, keep, arith,
}
use mathlib.Core.List.Memᴰ
use f_chat_backend.Prelude.Actions.{when◌then◌else◌}
use f_chat_backend.Prelude.Table.{Table}
use f_chat_backend.Prelude.Invariants.{
  Preserves, bind-Preserves, then-Preserves, done-Preserves, reads-Preserves, part-Preserves,
}
use f_chat_backend.Messaging.{Tables, State}
use f_chat_backend.Messaging.Rows.{Client, ContactLabel}
use f_chat_backend.Messaging.Clients.{
  ClientData, has_client_id, has_phone_number, seen_client, write_client, upsert_client,
}
use f_chat_backend.Messaging.Events.{AppEvent, ai_incoming_message, queue_response_received}
use f_chat_backend.Webhooks.Processor.{is_labeled, belongs_to, is_active_label}

unfoldable pub is_ai : AppEvent → Bool
is_ai (ai_incoming_message i) = true
is_ai (queue_response_received r m) = false

any-found :
    {A : Type 0} (p : A → Bool) (xs : List A) → any p xs ≡ true → (x : A) × Memᴰ x xs × (p x ≡ true)
unfolding any
any-found p [] h = cc
any-found p (x ∷ xs) h = elim (Bool-cases (p x)) [
  | inl e ↦ (x, Memᴰ.head refl, e)
  | inr e ↦ let (y, m, q) = any-found p xs (rw e at h) in (y, Memᴰ.tail m, q)
]

found-any :
    {A : Type 0} (p : A → Bool) (xs : List A) (x : A) → Memᴰ x xs → p x ≡ true → any p xs ≡ true
unfolding any
found-any p [] x m h = absurd (Memᴰ.not-nil m)
found-any p (y ∷ xs) x m h = elim (Memᴰ.cases_cons m) [
  | inl e ↦ let here : p y ≡ true = subst (λ z. p z ≡ true) e h in rw here refl
  | inr there ↦ ground (arith, found-any p xs x there h)
]

any-monotone :
    {A : Type 0} (p q : A → Bool) (xs : List A)
    → ((x : A) → p x ≡ true → q x ≡ true)
    → any p xs ≡ true
    → any q xs ≡ true
any-monotone p q xs k h = let (x, m, e) = any-found p xs h in found-any q xs x m (k x e)

module _ (t : Tables) (number : Text) (old : List AppEvent) where
  -- The number has an active label, and no message was passed to the agent since.
  unfoldable pub IsQuiet : State t → Type 0
  IsQuiet s = (is_labeled t number s ≡ true) × (keep is_ai s.events ≡ keep is_ai old)

  -- A write of clients that keeps each of them, with its id and number, keeps the label.
  clients-IsQuiet :
      (s : State t) (r : Table.St (Tables.clients t))
      → ((c : Client)
          → Memᴰ c (Table.rows (Tables.clients t) s.clients)
          → (x : Client) × Memᴰ x (Table.rows (Tables.clients t) r)
            × (x.id ≡ c.id)
            × (x.phone_number ≡ c.phone_number))
      → IsQuiet s
      → IsQuiet (record s { clients = r })
  unfolding IsQuiet is_labeled belongs_to has_client_id
  clients-IsQuiet s r keeps h =
      (any-monotone _ _ (Table.rows (Tables.labels t) s.labels) still h.0, h.1)
    where
      known : (id : Text) → Client → Bool
      known id c = c.id == id && c.phone_number == number

      client :
          (id : Text)
          → any (known id) (Table.rows (Tables.clients t) s.clients) ≡ true
          → any (known id) (Table.rows (Tables.clients t) r) ≡ true
      client id e =
          let (c, m, q) = any-found (known id) (Table.rows (Tables.clients t) s.clients) e in
          let (x, there, same_id, same_number) = keeps c m in
          found-any (known id) (Table.rows (Tables.clients t) r) x there (
            ap (λ z. z == id && x.phone_number == number) same_id
            ∙ ap (λ z. c.id == id && z == number) same_number
            ∙ q)

      belongs :
          (l : ContactLabel)
          → belongs_to t s number l ≡ true
          → belongs_to t (record s { clients = r }) number l ≡ true
      belongs l e = elim (Option-cases l.client_id) [
        | inl none_there ↦ cc (rw none_there at e)
        | inr (id, there) ↦ rw there (client id (rw there at e))
      ]

      still :
          (l : ContactLabel)
          → (belongs_to t s number l && not (is_some l.group_jid) && is_active_label l.status)
            ≡ true
          → (belongs_to t (record s { clients = r }) number l
              && not (is_some l.group_jid)
              && is_active_label l.status)
            ≡ true
      still l e = ground (arith, belongs l)

  write_client-IsQuiet :
      (now : ℕ) (id : Text) (d : ClientData) (o : Option Client)
      → Preserves IsQuiet (write_client t now id d o)
  unfolding write_client seen_client
  write_client-IsQuiet now id d none =
      then-Preserves IsQuiet _ _
        (part-Preserves IsQuiet _ _ (λ s r h e.
          clients-IsQuiet s r
            (λ c m. (c, (Table.created (Tables.clients t) s.clients r _ e c).1 (inl m), refl, refl))
            h))
        (done-Preserves IsQuiet _)
  write_client-IsQuiet now id d (some old) =
      then-Preserves IsQuiet _ _
        (part-Preserves IsQuiet _ _ (λ s r h e.
          clients-IsQuiet s r
            (λ c m. (
              (if has_phone_number d.phone_number c then seen_client now d c else c),
              (Table.updated (Tables.clients t) s.clients r (has_phone_number d.phone_number)
                    (seen_client now d) e _).1
                  (c, m, refl),
              (seen_same now d (has_phone_number d.phone_number c) c).0,
              (seen_same now d (has_phone_number d.phone_number c) c).1,
            ))
            h))
        (done-Preserves IsQuiet _)
    where
      seen_same :
          (now : ℕ) (d : ClientData) (b : Bool) (c : Client)
          → ((if b then seen_client now d c else c).id ≡ c.id)
            × ((if b then seen_client now d c else c).phone_number ≡ c.phone_number)
      seen_same now d true c = (refl, refl)
      seen_same now d false c = (refl, refl)

  pub upsert_client-IsQuiet :
      (now : ℕ) (id : Text) (d : ClientData) → Preserves IsQuiet (upsert_client t now id d)
  unfolding upsert_client
  upsert_client-IsQuiet now id d =
      bind-Preserves IsQuiet _ _ (reads-Preserves IsQuiet _) (write_client-IsQuiet now id d)
