-- ===== src/Queue/Labels.antt =====
-- contact-label.service.ts over contact-label.repository.ts: the internal contacts that a tenant
-- names by labels. The tables of labels and of clients are parameters.
use f_chat_backend.Jid.{jid_from_phone}
use f_chat_backend.Messaging.Rows.{Client, ContactLabel, active}
use f_chat_backend.Prelude.{
  Text, text, ◌==◌, truthy, Option, none, some, or_else, is_some, List, ◌++◌, keep, map, Bool, true,
  false, not, ◌&&◌,
}
use f_chat_backend.Prelude.Actions.{
  Action, Failure, not_found, bad_request, conflict, reads, stored, written, refuse, require, ◌>>=◌,
  ◌>>◌,
}
use f_chat_backend.Prelude.Table.{Table}
use f_chat_backend.Queue.{QueueRequest}

pub record ResolvedContact : Type 0 where
  pub remote_jid : Text
  pub is_group : Bool
  pub client_id : Option Text
  pub client_phone : Option Text

-- CreateLabelDto and UpdateLabelDto: in the second nothing need be there.
pub record LabelData : Type 0 where
  pub label : Option Text
  pub client_id : Option Text
  pub group_jid : Option Text

-- The tables of labels, clients and requests, and the jobs that were added, each under its user.
pub record Tables : Type 1 where
  pub labels : Table ContactLabel
  pub clients : Table Client
  pub requests : Table QueueRequest

pub record State (t : Tables) : Type 0 where
  pub labels : Table.St (Tables.labels t)
  pub clients : Table.St (Tables.clients t)
  pub requests : Table.St (Tables.requests t)
  pub jobs : List (Text × Text)

unfoldable pub label_missing : Text → Text → Failure
label_missing tenant_id label =
    not_found (text "ContactLabel \"" ++ label ++ text "\" not found for user " ++ tenant_id)

unfoldable pub is_label : Text → Text → ContactLabel → Bool
is_label tenant_id label l = l.tenant_id == tenant_id && l.label == label

-- A column that the data names, else as it is.
unfoldable pub new_or_old : Option Text → Option Text → Option Text
new_or_old none old = old
new_or_old (some x) old = some x

unfoldable pub relabelled : LabelData → ContactLabel → ContactLabel
unfolding new_or_old
relabelled d l = record l {
  label = or_else d.label l.label;
  client_id = new_or_old d.client_id l.client_id;
  group_jid = new_or_old d.group_jid l.group_jid;
}

unfoldable pub is_owned : Text → Text → ContactLabel → Bool
is_owned id tenant_id l = l.id == id && l.tenant_id == tenant_id

-- The branches of `resolve` on a label that is there, with its group and its client.
unfoldable pub contact_of : Text → Option Text → Option Client → Option ResolvedContact
contact_of label (some group) (some c) = some (record {
  remote_jid = group;
  is_group = true;
  client_id = some c.id;
  client_phone = some c.phone_number;
})
contact_of label (some group) none =
    some (record { remote_jid = group; is_group = true; client_id = none; client_phone = none })
contact_of label none (some c) = some (record {
  remote_jid = jid_from_phone c.phone_number;
  is_group = false;
  client_id = some c.id;
  client_phone = none;
})
contact_of label none none = none

module _ (t : Tables) where
  -- include: { client: true }
  unfoldable pub client_of : State t → Option Text → Option Client
  client_of s none = none
  client_of s (some id) = Table.find_first (Tables.clients t) s.clients (λ c. c.id == id)

  unfoldable pub find_label : Text → Text → State t → Option ContactLabel
  unfolding is_label
  find_label tenant_id label s =
      Table.find_first (Tables.labels t) s.labels (is_label tenant_id label)

  -- findByTenantId, getLabels
  unfoldable pub get_labels : Text → State t → List (ContactLabel × Option Client)
  unfolding client_of
  get_labels tenant_id s =
      map (λ l. (l, client_of s l.client_id))
        (keep (λ l. l.tenant_id == tenant_id) (Table.rows (Tables.labels t) s.labels))

  unfoldable pub resolve : Text → Text → Action (State t) ResolvedContact
  unfolding find_label label_missing contact_of client_of
  resolve tenant_id label = do
    found ← reads (find_label tenant_id label)
    l ← require found (label_missing tenant_id label)
    client ← reads (λ s. client_of s l.client_id)
    require (contact_of label (truthy l.group_jid) client) (
        bad_request
          (text "ContactLabel \"" ++ label ++ text "\" has neither clientId nor groupJid"))

  unfoldable pub new_label : Text → Text → Text → LabelData → ContactLabel
  new_label id tenant_id label d = record {
    id = id;
    tenant_id = tenant_id;
    label = label;
    client_id = d.client_id;
    group_jid = d.group_jid;
    status = active;
  }

  unfoldable pub write_labels :
      (Table.St (Tables.labels t) → Option (Table.St (Tables.labels t))) → Action (State t) Unit
  write_labels w = stored (λ s. written (λ r. record s { labels = r }) (w s.labels))

  unfoldable pub create_label : Text → Text → Text → LabelData → Action (State t) Unit
  unfolding find_label new_label write_labels
  create_label id tenant_id label d = do
    existing ← reads (find_label tenant_id label)
    refuse (is_some existing)
        (conflict (text "Label \"" ++ label ++ text "\" already exists for this tenant"))
    write_labels (λ r. Table.create (Tables.labels t) r (new_label id tenant_id label d))

  -- updateById, deleteById: a count of zero throws.
  unfoldable pub find_own_label : Text → Text → State t → Option ContactLabel
  unfolding is_owned
  find_own_label id tenant_id s =
      Table.find_first (Tables.labels t) s.labels (is_owned id tenant_id)

  unfoldable pub update_label : Text → Text → LabelData → Action (State t) Unit
  unfolding find_own_label relabelled write_labels
  update_label id tenant_id d = do
    found ← reads (find_own_label id tenant_id)
    refuse (not (is_some found)) (not_found (text "Label not found"))
    write_labels (λ r. Table.update (Tables.labels t) r (is_owned id tenant_id) (relabelled d))

  unfoldable pub delete_label : Text → Text → Action (State t) Unit
  unfolding find_own_label write_labels
  delete_label id tenant_id = do
    found ← reads (find_own_label id tenant_id)
    refuse (not (is_some found)) (not_found (text "Label not found"))
    write_labels (λ r. Table.delete (Tables.labels t) r (is_owned id tenant_id))

  unfoldable pub write_label :
      Text → Text → Text → LabelData → Option ContactLabel → Action (State t) Unit
  unfolding new_label relabelled write_labels
  write_label id tenant_id label d none =
      write_labels (λ r. Table.create (Tables.labels t) r (new_label id tenant_id label d))
  write_label id tenant_id label d (some l) =
      write_labels (λ r. Table.update (Tables.labels t) r (is_label tenant_id label) (relabelled d))

  unfoldable pub upsert_label : Text → Text → Text → LabelData → Action (State t) Unit
  unfolding find_label write_label
  upsert_label id tenant_id label d =
      reads (find_label tenant_id label) >>= write_label id tenant_id label d
