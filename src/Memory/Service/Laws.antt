-- ===== src/Memory/Service/Laws.antt =====
-- What a write to a tenant's memory leaves to be read, and when it is refused
-- (tenant-memory.service.ts, upsertPath and deleteKey).
use f_chat_backend.Memory.{Value, null, Fields, get_field, remove_field, set_nested_value, segments}
use f_chat_backend.Memory.Paths.{
  read_path, apart, read_path-set_nested_value, set_nested_value-apart, get_field-remove_field,
}
use f_chat_backend.Memory.Service.{
  Memory, data_of, with_data, find_by_tenant_id, write_memory, upsert_at, upsert_path, delete_key,
  get_key, key_value, or_null, is_null, max_path_depth, key_missing,
}
use f_chat_backend.Prelude.{
  suc, Text, text, ◌==◌, ==_refl, ==_sound, ==_comm, Option, none, some, List, [], ◌∷◌, length,
  Bool, true, false, ◌≡◌, refl, sym, ap, ◌∙◌, subst, arith, if◌then◌else◌, Bool-cases, inl, inr,
  ◌≤◌, ◌⊎◌, Memᴰ, nat_eq, ltb,
}
use f_chat_backend.Prelude.Actions.{
  ok, failed, bad_request, stored, done, refuse, continue, result_of, ◌>>=◌, ◌>>◌, reads,
  after_stored, done-ok, after_refuse, after_reads, after_require,
}
use f_chat_backend.Prelude.Keys.{
  find_key, has_key, find_key-row, IsUnique, map_some, find_key-changed, changed-IsUnique,
  find_key-created, created-IsUnique,
}
use f_chat_backend.Prelude.Table.{Table}

abbrev tenant_of : Memory → Text
tenant_of r = r.tenant_id

module _ (t : Table Memory) where
  -- One memory for a tenant.
  unfoldable pub HasOneEach : Table.St t → Type 0
  unfolding IsUnique
  HasOneEach s = IsUnique t (λ r. r.tenant_id) s

  unfoldable pub memory_of : Text → Table.St t → Fields
  unfolding find_by_tenant_id data_of
  memory_of tenant_id s = data_of (find_by_tenant_id t tenant_id s)

  data_of-changed :
      (tenant_id other : Text) (fs : Fields) (o p : Option Memory)
      → ((r : Memory) → o ≡ some r → r.tenant_id ≡ other)
      → (tenant_id ≡ other → (r : Memory) × (o ≡ some r))
      → p ≡ map_some (λ x. if x.tenant_id == tenant_id then with_data fs x else x) o
      → data_of p ≡ (if tenant_id == other then fs else data_of o)
  unfolding data_of with_data map_some
  data_of-changed tenant_id other fs none p named there e = elim (Bool-cases (tenant_id == other)) [
    | inl q ↦ let (r, h) = there (==_sound tenant_id other q) in cc
    | inr q ↦ rw (e, q) refl
  ]
  data_of-changed tenant_id other fs (some r) p named there e =
      let same : (r.tenant_id == tenant_id) ≡ (tenant_id == other) =
        ap (λ z. z == tenant_id) (named r refl) ∙ ==_comm other tenant_id in
      elim (Bool-cases (tenant_id == other)) [
        | inl q ↦ rw (e, same, q) refl
        | inr q ↦ rw (e, same, q) refl
      ]

  -- What a write of `fs` as a tenant's memory leaves.
  unfoldable HasWritten : Text → Fields → Table.St t → Table.St t → Type 0
  unfolding HasOneEach memory_of
  HasWritten tenant_id fs s u =
      HasOneEach u
      × ((other : Text)
          → memory_of other u ≡ (if tenant_id == other then fs else memory_of other s))

  create-HasWritten :
      (tenant_id : Text) (fs : Fields) (s u : Table.St t)
      → HasOneEach s
      → find_by_tenant_id t tenant_id s ≡ none
      → Table.create t s (record { tenant_id = tenant_id; fields = fs }) ≡ some u
      → HasWritten tenant_id fs s u
  unfolding HasWritten find_by_tenant_id
  create-HasWritten tenant_id fs s u unique free h =
      let r : Memory = record { tenant_id = tenant_id; fields = fs } in
      (
        created-IsUnique t tenant_of s u r unique h free,
        λ other.
            rw (find_key-created t tenant_of s u r unique h free other)
              (chosen (tenant_id == other) r (find_key t tenant_of other s)),
      )
    where
      chosen :
          (b : Bool) (r : Memory) (o : Option Memory)
          → data_of (if b then some r else o) ≡ (if b then r.fields else data_of o)
      chosen true r o = refl
      chosen false r o = refl

  update-HasWritten :
      (tenant_id : Text) (fs : Fields) (r : Memory) (s u : Table.St t)
      → HasOneEach s
      → find_by_tenant_id t tenant_id s ≡ some r
      → Table.update t s (λ x. x.tenant_id == tenant_id) (with_data fs) ≡ some u
      → HasWritten tenant_id fs s u
  unfolding HasWritten find_by_tenant_id with_data
  update-HasWritten tenant_id fs r s u unique e h =
      let p : Memory → Bool = λ x. x.tenant_id == tenant_id in
      let updated : (x : Memory)
          → Memᴰ x (Table.rows t u)
          → (y : Memory) × Memᴰ y (Table.rows t s) × (x ≡ (if p y then with_data fs y else y)) =
        λ x m. (Table.updated t s u p (with_data fs) h x).0 m in
      let kept : (y : Memory)
          → Memᴰ y (Table.rows t s)
          → Memᴰ (if p y then with_data fs y else y) (Table.rows t u) =
        λ y m.
          (Table.updated t s u p (with_data fs) h (if p y then with_data fs y else y)).1
            (y, m, refl) in
      (
        changed-IsUnique t tenant_of p (with_data fs) (λ x. refl) s u unique updated kept,
        λ other.
            data_of-changed tenant_id other fs (find_key t tenant_of other s)
              (find_key t tenant_of other u) (λ x q. (find_key-row t tenant_of other s x q).1)
              (λ same. (r, subst (λ k. find_key t tenant_of k s ≡ some r) same e))
              (find_key-changed t tenant_of p (with_data fs) (λ x. refl) s u unique updated kept
                other),
      )

  -- A write of the memory that a read of the tenant's memory found, or of a new one.
  write_memory-HasWritten :
      (tenant_id : Text) (fs out : Fields) (o : Option Memory) (s u : Table.St t)
      → HasOneEach s
      → find_by_tenant_id t tenant_id s ≡ o
      → write_memory t tenant_id fs o s ≡ (ok out, u)
      → (out ≡ fs) × HasWritten tenant_id fs s u
  unfolding write_memory
  write_memory-HasWritten tenant_id fs out none s u unique e h =
      let (v, w, k) = after_stored _ (done fs) h in
      let (same, end_state) = done-ok fs v u out k in
      (sym same, create-HasWritten tenant_id fs s u unique e (w ∙ ap some end_state))
  write_memory-HasWritten tenant_id fs out (some r) s u unique e h =
      let (v, w, k) = after_stored _ (done fs) h in
      let (same, end_state) = done-ok fs v u out k in
      (sym same, update-HasWritten tenant_id fs r s u unique e (w ∙ ap some end_state))

  value_there :
      (p : List Text) (fs : Fields) (v : Value)
      → nat_eq (length p) 0 ≡ false
      → read_path (set_nested_value fs p v) p ≡ some v
  value_there [] fs v h = cc
  value_there (k ∷ p) fs v h = read_path-set_nested_value k p fs v

  -- Where no two rows are of one tenant: if the upsert of a path returns, it gives the tenant's
  -- memory as it now is: the path reads as the value, every path that parts from it reads as
  -- before, and the memory of each other tenant is what it was.
  pub upsert_path-read_path :
      (tenant_id raw : Text) (value : Value) (out : Fields) (s u : Table.St t)
      → HasOneEach s
      → upsert_path t tenant_id raw value s ≡ (ok out, u)
      → (out ≡ memory_of tenant_id u)
        × (read_path out (segments raw) ≡ some value)
        × ((q : List Text)
            → apart (segments raw) q ≡ true
            → read_path out q ≡ read_path (memory_of tenant_id s) q)
        × ((other : Text) → (tenant_id == other) ≡ false → memory_of other u ≡ memory_of other s)
  unfolding upsert_path upsert_at memory_of HasWritten
  upsert_path-read_path tenant_id raw value out s u unique h =
      let (filled, h1) = after_refuse _ _ h in
      let (short, h2) = after_refuse _ _ h1 in
      let h3 = after_reads _ _ h2 in
      let before = memory_of tenant_id s in
      let (same, (one, rest)) =
        write_memory-HasWritten tenant_id (set_nested_value before (segments raw) value) out
          (find_by_tenant_id t tenant_id s) s u unique refl h3 in
      (
        same ∙ sym (rw (rest tenant_id, ==_refl tenant_id) refl),
        rw same (value_there (segments raw) before value filled),
        λ q away. rw same (set_nested_value-apart (segments raw) q before value away),
        λ other differs. rw (rest other, differs) refl,
      )

  no_value :
      (key : Text) (o : Option Memory) → get_field (data_of o) key ≡ none → key_value t key o ≡ null
  unfolding key_value data_of or_null
  no_value key none h = refl
  no_value key (some r) h = rw h refl

  unread :
      (tenant_id key : Text) (u : Table.St t)
      → get_field (memory_of tenant_id u) key ≡ none
      → get_key t tenant_id key u ≡ (failed (key_missing key), u)
  unfolding get_key memory_of ◌>>=◌ ◌>>◌ reads refuse continue is_null
  unread tenant_id key u h = rw (no_value key (find_by_tenant_id t tenant_id u) h) refl

  -- Where no two rows are of one tenant: if the deletion of a key returns, it gives the tenant's
  -- memory as it now is: the key is gone from it, so that a read of the key throws `not_found`,
  -- every other key reads as before, and the memory of each other tenant is what it was.
  pub delete_key-get_key :
      (tenant_id key : Text) (out : Fields) (s u : Table.St t)
      → HasOneEach s
      → delete_key t tenant_id key s ≡ (ok out, u)
      → (out ≡ memory_of tenant_id u)
        × (get_key t tenant_id key u ≡ (failed (key_missing key), u))
        × ((k : Text) → (key == k) ≡ false → get_field out k ≡ get_field (memory_of tenant_id s) k)
        × ((other : Text) → (tenant_id == other) ≡ false → memory_of other u ≡ memory_of other s)
  unfolding delete_key memory_of HasWritten data_of
  delete_key-get_key tenant_id key out s u unique h =
      let (found, e, h1) = after_require _ _ (after_reads _ _ h) in
      let fs = remove_field found.fields key in
      let (v, w, k) = after_stored _ (done fs) h1 in
      let (same, end_state) = done-ok fs v u out k in
      let (one, rest) = update-HasWritten tenant_id fs found s u unique e (w ∙ ap some end_state) in
      let now : memory_of tenant_id u ≡ fs = rw (rest tenant_id, ==_refl tenant_id) refl in
      (
        sym same ∙ sym now,
        unread tenant_id key u
            (rw (now, get_field-remove_field found.fields key key, ==_refl key) refl),
        λ j differs. rw (sym same, get_field-remove_field found.fields key j, differs, e) refl,
        λ other differs. rw (rest other, differs) refl,
      )

  writes_found :
      (tenant_id : Text) (fs : Fields) (r : Memory) (s : Table.St t)
      → find_by_tenant_id t tenant_id s ≡ some r
      → (u : Table.St t) × (write_memory t tenant_id fs (some r) s ≡ (ok fs, u))
  unfolding write_memory find_by_tenant_id find_key has_key ◌>>◌ stored result_of continue done
  writes_found tenant_id fs r s e =
      let (u, w) = Table.updates t s (λ x. x.tenant_id == tenant_id) (with_data fs) r e in
      (u, rw w refl)

  -- The upsert of a path returns where the path has one to five segments and the tenant has a
  -- memory. On a path with none or more than five it throws `bad_request`, whatever is stored, and
  -- leaves everything as it is.
  pub upsert_path-outcome :
      (tenant_id raw : Text) (value : Value) (s : Table.St t)
      → ((r : Memory)
          → 1 ≤ length (segments raw)
          → length (segments raw) ≤ max_path_depth
          → find_by_tenant_id t tenant_id s ≡ some r
          → (out : Fields) × (u : Table.St t) × (upsert_path t tenant_id raw value s ≡ (ok out, u)))
        × ((length (segments raw) ≡ 0) ⊎ (suc max_path_depth ≤ length (segments raw))
            → (why : Text) × (upsert_path t tenant_id raw value s ≡ (failed (bad_request why), s)))
  unfolding upsert_path upsert_at ◌>>=◌ ◌>>◌ reads refuse continue data_of
  upsert_path-outcome tenant_id raw value s = (
    λ r least most e.
        let fs = set_nested_value r.fields (segments raw) value in
        let (u, w) = writes_found tenant_id fs r s e in
        let filled : nat_eq (length (segments raw)) 0 ≡ false = ground arith in
        let short : ltb max_path_depth (length (segments raw)) ≡ false = ground arith in
        (fs, u, rw (filled, short, e, w) refl),
    λ bad. elim (Bool-cases (nat_eq (length (segments raw)) 0)) [
      | inl q ↦ (text "Path cannot be empty", rw q refl)
      | inr q ↦
          let long : ltb max_path_depth (length (segments raw)) ≡ true = ground arith in
          (text "Path depth cannot exceed 5 levels", rw (q, long) refl)
    ],
  )
