-- ===== src/Messaging/Clients.antt =====
-- src/common/messaging/repositories/client.repository.ts.
use f_chat_backend.Prelude.{ℕ, Text, ◌==◌, truthy, Option, none, some, Bool}
use f_chat_backend.Prelude.Actions.{Action, done, reads, stored, ◌>>=◌, ◌>>◌}
use f_chat_backend.Prelude.Table.{Table}
use f_chat_backend.Messaging.{Tables, State, set_clients}
use f_chat_backend.Messaging.Rows.{Client}

pub record ClientData : Type 0 where
  pub phone_number : Text
  pub name : Text
  pub profile_pic_url : Option Text

unfoldable pub has_phone_number : Text → Client → Bool
has_phone_number number c = c.phone_number == number

unfoldable pub has_client_id : Text → Client → Bool
has_client_id id c = c.id == id

unfoldable pub new_client : ℕ → Text → ClientData → Client
new_client now id d = record {
  id = id;
  phone_number = d.phone_number;
  name = some d.name;
  profile_pic_url = d.profile_pic_url;
  last_contact_at = now;
}

-- The name is written whatever it is, the picture only if there is one.
unfoldable pub seen_client : ℕ → ClientData → Client → Client
seen_client now d c = record c {
  name = some d.name;
  profile_pic_url = or_picture (truthy d.profile_pic_url) c.profile_pic_url;
  last_contact_at = now;
}
  where
    or_picture : Option Text → Option Text → Option Text
    or_picture none old = old
    or_picture (some url) old = some url

module _ (t : Tables) where
  unfoldable pub find_client : Text → State t → Option Client
  find_client number s = Table.find_first (Tables.clients t) s.clients (has_phone_number number)

  pub find_client_by_id : Text → State t → Option Client
  find_client_by_id id s = Table.find_first (Tables.clients t) s.clients (has_client_id id)

  unfoldable pub write_client : ℕ → Text → ClientData → Option Client → Action (State t) Client
  write_client now id d none =
      stored
        (λ s. set_clients t s (Table.create (Tables.clients t) s.clients (new_client now id d)))
      >> done (new_client now id d)
  write_client now id d (some c) =
      stored (λ s. set_clients t s (
        Table.update (Tables.clients t) s.clients (has_phone_number d.phone_number)
          (seen_client now d)))
      >> done (seen_client now d c)

  -- upsert
  unfoldable pub upsert_client : ℕ → Text → ClientData → Action (State t) Client
  unfolding write_client
  upsert_client now id d = reads (find_client d.phone_number) >>= write_client now id d

  -- updateProfilePicIfExists
  unfoldable pub update_profile_pic : Text → Text → State t → State t
  update_profile_pic number url s = record s {
    clients =
        Table.update_many (Tables.clients t) s.clients (has_phone_number number)
          (λ c. record c { profile_pic_url = some url });
  }

  pub update_name : Text → Text → Action (State t) Unit
  update_name id name = stored (λ s. set_clients t s (
      Table.update (Tables.clients t) s.clients (has_client_id id)
        (λ c. record c { name = some name })))
