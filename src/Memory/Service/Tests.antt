-- ===== src/Memory/Service/Tests.antt =====
-- Runs of the memory of a tenant on concrete memories.
use f_chat_backend.Memory.{
  Value, null, string, array, object, nil, item, Fields, end, field, get_field, put_field,
  remove_field, set_nested_value, spread, items_from, next_index, segments, split_slash, add_unit,
  filled,
}
use f_chat_backend.Memory.Paths.{read_path, apart}
use f_chat_backend.Memory.Service.{
  Memory, data_of, with_data, find_by_tenant_id, write_memory, upsert_at, upsert_path, delete_key,
  get_key, max_path_depth, key_missing, pick,
}
use f_chat_backend.Memory.Service.Laws.{
  HasOneEach, memory_of, upsert_path-read_path, delete_key-get_key, upsert_path-outcome,
}
use f_chat_backend.Prelude.{
  suc, Text, text, ◌==◌, some, List, [], ◌∷◌, length, true, false, ◌≡◌, refl, sym, ◌∙◌, ◌≤◌, ◌⊎◌,
  inl, inr, any,
}
use f_chat_backend.Prelude.Actions.{
  ok, failed, bad_request, ◌>>=◌, ◌>>◌, reads, refuse, require, stored, result_of, continue, done,
}
use f_chat_backend.Prelude.Keys.{find_key, has_key, IsUnique}
use f_chat_backend.Prelude.Table.{Table, list_table, first_where, update_rows, change_rows}
use mathlib.Core.List.Memᴰ

abbrev table : Table Memory
table = list_table (λ (x y : Memory). x.tenant_id == y.tenant_id)

abbrev prices : Fields
prices = field (text "sale") (string (text "no")) end

abbrev before : Fields
before = field (text "prices") (object prices) (field (text "days") (array (item null nil)) end)

abbrev rows : Table.St table
rows = record { tenant_id = text "t"; fields = before } ∷ []

abbrev today : Value
today = string (text "today")

abbrev changed : Fields
changed =
    field (text "prices") (object (field (text "sale") today end))
      (field (text "days") (array (item null nil)) end)

abbrev rows_changed : Table.St table
rows_changed = record { tenant_id = text "t"; fields = changed } ∷ []

rows-HasOneEach : HasOneEach table rows
unfolding HasOneEach IsUnique
rows-HasOneEach x y mx my e = elim (Memᴰ.cases_cons mx) [
  | inl p ↦ elim (Memᴰ.cases_cons my) [ inl q ↦ p ∙ sym q | inr m ↦ absurd (Memᴰ.not-nil m) ]
  | inr m ↦ absurd (Memᴰ.not-nil m)
]

upserted :
    upsert_path table (text "t") (text "/prices//sale") today rows ≡ (ok changed, rows_changed)
unfolding upsert_path upsert_at ◌>>=◌ ◌>>◌ reads refuse stored result_of continue done data_of
    write_memory find_by_tenant_id find_key has_key first_where update_rows change_rows any
    with_data segments split_slash add_unit filled set_nested_value put_field get_field spread ◌==◌
upserted = refl

-- An array is written as an object with its indices as keys.
array_spread :
    set_nested_value before (text "days" ∷ text "first" ∷ []) today
    ≡ field
        (text "prices")
        (object prices)
        (field (text "days") (object (field (text "0") null (field (text "first") today end))) end)
unfolding set_nested_value put_field get_field spread items_from next_index ◌==◌
array_spread = refl

picked :
    pick before end (text "days" ∷ text "none" ∷ [])
    ≡ field (text "days") (array (item null nil)) end
unfolding pick put_field get_field ◌==◌
picked = refl

abbrev left : Fields
left = field (text "days") (array (item null nil)) end

deleted :
    delete_key table (text "t") (text "prices") rows
    ≡ (ok left, record { tenant_id = text "t"; fields = left } ∷ [])
unfolding delete_key ◌>>=◌ ◌>>◌ reads require stored result_of continue done find_by_tenant_id
    find_key has_key first_where update_rows change_rows any with_data remove_field ◌==◌
deleted = refl

upsert_path-read_path_example :
    (changed ≡ memory_of table (text "t") rows_changed)
    × (read_path changed (segments (text "/prices//sale")) ≡ some today)
    × ((q : List Text)
        → apart (segments (text "/prices//sale")) q ≡ true
        → read_path changed q ≡ read_path (memory_of table (text "t") rows) q)
    × ((other : Text)
        → (text "t" == other) ≡ false
        → memory_of table other rows_changed ≡ memory_of table other rows)
upsert_path-read_path_example =
    upsert_path-read_path table (text "t") (text "/prices//sale") today changed rows rows_changed
      rows-HasOneEach upserted

delete_key-get_key_example :
    (left ≡ memory_of table (text "t") (record { tenant_id = text "t"; fields = left } ∷ []))
    × (get_key table
          (text "t")
          (text "prices")
          (record { tenant_id = text "t"; fields = left } ∷ [])
        ≡ (
          failed (key_missing (text "prices")),
          record { tenant_id = text "t"; fields = left } ∷ [],
        ))
    × ((k : Text)
        → (text "prices" == k) ≡ false
        → get_field left k ≡ get_field (memory_of table (text "t") rows) k)
    × ((other : Text)
        → (text "t" == other) ≡ false
        → memory_of table other (record { tenant_id = text "t"; fields = left } ∷ [])
          ≡ memory_of table other rows)
delete_key-get_key_example =
    delete_key-get_key table (text "t") (text "prices") left rows
      (record { tenant_id = text "t"; fields = left } ∷ []) rows-HasOneEach deleted

upsert_path-outcome_example :
    ((r : Memory)
      → 1 ≤ length (segments (text "a/b/c/d/e/f"))
      → length (segments (text "a/b/c/d/e/f")) ≤ max_path_depth
      → find_by_tenant_id table (text "t") rows ≡ some r
      → (out : Fields) × (u : Table.St table) × (upsert_path table
            (text "t")
            (text "a/b/c/d/e/f")
            today
            rows
          ≡ (ok out, u)))
    × ((length (segments (text "a/b/c/d/e/f")) ≡ 0)
          ⊎ (suc max_path_depth ≤ length (segments (text "a/b/c/d/e/f")))
        → (why : Text) × (upsert_path table (text "t") (text "a/b/c/d/e/f") today rows
            ≡ (failed (bad_request why), rows)))
upsert_path-outcome_example = upsert_path-outcome table (text "t") (text "a/b/c/d/e/f") today rows
