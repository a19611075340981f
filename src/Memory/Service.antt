-- ===== src/Memory/Service.antt =====
-- tenant-memory.service.ts and tenant-memory.repository.ts: the memories of the tenants as a
-- table, whose operations are a parameter. The column `data` is the field `fields`.
mod Laws
mod Tests
use f_chat_backend.Memory.{
  Value, null, Fields, end, get_field, put_field, remove_field, set_nested_value, segments,
}
use f_chat_backend.Prelude.{
  ℕ, Text, text, ◌==◌, Option, none, some, List, [], ◌∷◌, ◌++◌, length, Bool, true, false, nat_eq,
  ltb,
}
use f_chat_backend.Prelude.Actions.{
  Action, Failure, not_found, bad_request, done, reads, stored, refuse, require, ◌>>=◌, ◌>>◌,
}
use f_chat_backend.Prelude.Keys.{find_key}
use f_chat_backend.Prelude.Table.{Table}

pub record Memory : Type 0 where
  pub tenant_id : Text
  pub fields : Fields

-- record?.data ?? {}
unfoldable pub data_of : Option Memory → Fields
data_of none = end
data_of (some r) = r.fields

-- data[key] ?? null
unfoldable pub or_null : Option Value → Value
or_null none = null
or_null (some v) = v

-- value === null
unfoldable pub is_null : Value → Bool
is_null null = true
is_null v = false

unfoldable pub with_data : Fields → Memory → Memory
with_data fs r = record r { fields = fs }

-- The keys of the list that the memory has, in a new object.
unfoldable pub pick : Fields → Fields → List Text → Fields
unfolding get_field put_field
pick from result [] = result
pick from result (k ∷ ks) = pick from (picked (get_field from k)) ks
  where
    picked : Option Value → Fields
    picked none = result
    picked (some v) = put_field result k v

abbrev pub max_path_depth : ℕ
max_path_depth = 5

abbrev pub key_missing : Text → Failure
key_missing k = not_found (text "Key \"" ++ k ++ text "\" not found")

module _ (t : Table Memory) where
  -- The repository.
  unfoldable pub find_by_tenant_id : Text → Table.St t → Option Memory
  unfolding find_key
  find_by_tenant_id tenant_id s = find_key t (λ r. r.tenant_id) tenant_id s

  unfoldable pub key_value : Text → Option Memory → Value
  unfolding or_null get_field
  key_value key none = null
  key_value key (some r) = or_null (get_field r.fields key)

  unfoldable pub get_keys : Text → List Text → Action (Table.St t) Fields
  unfolding find_by_tenant_id pick data_of
  get_keys tenant_id keys = reads (λ s. pick (data_of (find_by_tenant_id tenant_id s)) end keys)

  -- prisma.tenantMemory.upsert, with the row that the where finds
  unfoldable pub write_memory : Text → Fields → Option Memory → Action (Table.St t) Fields
  unfolding with_data
  write_memory tenant_id fs none =
      stored (λ s. Table.create t s (record { tenant_id = tenant_id; fields = fs })) >> done fs
  write_memory tenant_id fs (some r) =
      stored (λ s. Table.update t s (λ x. x.tenant_id == tenant_id) (with_data fs)) >> done fs

  unfoldable pub upsert_key : Text → Text → Value → Action (Table.St t) Fields
  unfolding find_by_tenant_id write_memory data_of put_field
  upsert_key tenant_id key value = do
    existing ← reads (find_by_tenant_id tenant_id)
    write_memory tenant_id (put_field (data_of existing) key value) existing

  unfoldable pub upsert_at : Text → List Text → Value → Action (Table.St t) Fields
  unfolding find_by_tenant_id write_memory data_of set_nested_value
  upsert_at tenant_id path value = do
    existing ← reads (find_by_tenant_id tenant_id)
    write_memory tenant_id (set_nested_value (data_of existing) path value) existing

  -- The service.
  unfoldable pub get_all : Text → Action (Table.St t) Fields
  unfolding find_by_tenant_id data_of
  get_all tenant_id = reads (λ s. data_of (find_by_tenant_id tenant_id s))

  unfoldable pub get_key : Text → Text → Action (Table.St t) Value
  unfolding find_by_tenant_id key_value is_null
  get_key tenant_id key = do
    value ← reads (λ s. key_value key (find_by_tenant_id tenant_id s))
    refuse (is_null value) (key_missing key)
    done value

  unfoldable pub upsert_path : Text → Text → Value → Action (Table.St t) Fields
  unfolding upsert_at segments
  upsert_path tenant_id raw value = do
    refuse (nat_eq (length (segments raw)) 0) (bad_request (text "Path cannot be empty"))
    refuse (ltb max_path_depth (length (segments raw)))
        (bad_request (text "Path depth cannot exceed 5 levels"))
    upsert_at tenant_id (segments raw) value

  -- deleteKey of the repository, whose null the service throws on
  unfoldable pub delete_key : Text → Text → Action (Table.St t) Fields
  unfolding find_by_tenant_id remove_field with_data
  delete_key tenant_id key = do
    existing ← reads (find_by_tenant_id tenant_id)
    found ← require existing (key_missing key)
    stored (λ s.
        Table.update t s (λ x. x.tenant_id == tenant_id)
          (with_data (remove_field found.fields key)))
    done (remove_field found.fields key)
