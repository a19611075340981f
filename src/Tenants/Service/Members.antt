-- ===== src/Tenants/Service/Members.antt =====
-- The members of a tenant under the methods of tenants.service.ts.
use f_chat_backend.Prelude.{
  Text, ◌==◌, ==_iff, some, Bool, false, ◌≡◌, refl, subst, ◌↔◌, Memᴰ, Bool-cases, if◌then◌else◌,
  arith,
}
use f_chat_backend.Prelude.Actions.{ok, stored-ok, after_refuse, after_require_then, after_reads}
use f_chat_backend.Prelude.Table.{Table}
use f_chat_backend.Tenants.{
  TenantRole, TenantMember, AuthenticatedUser, Tables, Db, same_member, find_member, update_role,
  delete_member, set_members,
}
use f_chat_backend.Tenants.Service.{assert_current_tenant, update_member_role, remove_member}
use f_chat_backend.Tenants.Service.Tokens.{set_members-some}

module _ (t : Tables) where
  pub MembersOf : Db t → TenantMember → Type 0
  MembersOf db m = Memᴰ m (Table.rows t.members db.members)

  delete-rows :
      (p : TenantMember → Bool) (db d : Db t)
      → set_members t db (Table.delete t.members db.members p) ≡ some d
      → (m : TenantMember) → MembersOf d m ↔ (MembersOf db m × (p m ≡ false))
  unfolding MembersOf
  delete-rows p db d e =
      let (s, q, same) = set_members-some t db d _ e in
      subst
        (λ (z : Db t).
          (m : TenantMember)
          → Memᴰ m (Table.rows t.members z.members)
            ↔ (Memᴰ m (Table.rows t.members db.members) × (p m ≡ false)))
        same (Table.deleted t.members db.members s p q)

  update-rows :
      (p : TenantMember → Bool) (f : TenantMember → TenantMember) (db d : Db t)
      → set_members t db (Table.update t.members db.members p f) ≡ some d
      → (m : TenantMember)
      → MembersOf d m ↔ ((x : TenantMember) × MembersOf db x × (m ≡ (if p x then f x else x)))
  unfolding MembersOf
  update-rows p f db d e =
      let (s, q, same) = set_members-some t db d _ e in
      subst
        (λ (z : Db t).
          (m : TenantMember)
          → Memᴰ m (Table.rows t.members z.members) ↔ (
              (x : TenantMember) × Memᴰ x (Table.rows t.members db.members)
              × (m ≡ (if p x then f x else x))))
        same (Table.updated t.members db.members s p f q)

  -- The rows of the acting user are not those of another user.
  not_self :
      (id target : Text) (user : AuthenticatedUser) (m : TenantMember)
      → (target == user.id) ≡ false
      → m.user_id ≡ user.id
      → same_member id target m ≡ false
  unfolding same_member
  not_self id target user m other own = ground (
    arith,
    ==_iff m.user_id target,
    ==_iff target user.id,
    Bool-cases (m.tenant_id == id),
    Bool-cases (m.user_id == target),
  )

  -- Removing a member takes the target's row of the user's current tenant out and no other row;
  -- the target was a member, and the rows of the acting user all stay.
  pub remove_member-rows :
      (id target : Text) (user : AuthenticatedUser) (db db' : Db t)
      → remove_member t id target user db ≡ (ok tt, db')
      → (user.tenant_id ≡ id)
        × ((m : TenantMember) × (find_member t id target db ≡ some m))
        × ((m : TenantMember)
            → MembersOf db' m ↔ (MembersOf db m × (same_member id target m ≡ false)))
        × ((m : TenantMember) → MembersOf db m → m.user_id ≡ user.id → MembersOf db' m)
  unfolding remove_member assert_current_tenant delete_member
  remove_member-rows id target user db db' e =
      let (current, e1) = after_refuse _ _ e in
      let (other, e2) = after_refuse _ _ e1 in
      let (m, found, e3) = after_require_then _ _ (after_reads _ _ e2) in
      let rows = delete-rows (same_member id target) db db' (stored-ok _ db db' tt e3) in
      (
        ground (arith, ==_iff user.tenant_id id, Bool-cases (user.tenant_id == id)),
        (m, found),
        rows,
        λ x there own. (rows x).1 (there, not_self id target user x other own),
      )

  -- Changing a role changes the target's rows of the user's current tenant only; the target was a
  -- member, and the rows of the acting user all stay as they are.
  pub update_member_role-rows :
      (id target : Text) (role : TenantRole) (user : AuthenticatedUser) (db db' : Db t)
      → update_member_role t id target role user db ≡ (ok tt, db')
      → (user.tenant_id ≡ id)
        × ((m : TenantMember) × (find_member t id target db ≡ some m))
        × ((m : TenantMember)
            → MembersOf db' m ↔ (
                (x : TenantMember) × MembersOf db x
                × (m ≡ (if same_member id target x then record x { role = role } else x))))
        × ((m : TenantMember) → MembersOf db m → m.user_id ≡ user.id → MembersOf db' m)
  unfolding update_member_role assert_current_tenant update_role
  update_member_role-rows id target role user db db' e =
      let (current, e1) = after_refuse _ _ e in
      let (other, e2) = after_refuse _ _ e1 in
      let (m, found, e3) = after_require_then _ _ (after_reads _ _ e2) in
      let rows =
        update-rows (same_member id target) (λ x. record x { role = role }) db db'
          (stored-ok _ db db' tt e3) in
      (
        ground (arith, ==_iff user.tenant_id id, Bool-cases (user.tenant_id == id)),
        (m, found),
        rows,
        λ x there own. (rows x).1 (x, there, rw (not_self id target user x other own) refl),
      )
