-- ===== src/Tenants/Service/Tests.antt =====
-- A database of lists with one tenant, and the theorems about tenants.service.ts at it.
use f_chat_backend.Prelude.{
  ℕ, Text, text, ◌==◌, none, some, [], ◌∷◌, false, ◌||◌, ◌≡◌, refl, ◌↔◌, any, if◌then◌else◌,
}
use f_chat_backend.Prelude.Actions.{
  ok, failed, bad_request, done, reads, stored, result_of, refuse, require, continue, ◌>>=◌, ◌>>◌,
}
use f_chat_backend.Prelude.Table.{
  list_table, first_where, insert_row, change_rows, update_rows, delete_rows,
}
use f_chat_backend.Tenants.{
  TenantRole, owner, TenantMember, Tenant, TenantSettings, Invitation, User, AuthenticatedUser,
  Tables, Db, same_member, find_member, has_token, find_by_token, add_member, set_members,
  mark_accepted, mark_rejected, set_invitations, delete_member, update_role,
}
use f_chat_backend.Tenants.Service.{
  accept_open, open_invitation, assert_current_tenant, accept_invitation, reject_invitation,
  remove_member, update_member_role,
}
use f_chat_backend.Tenants.Service.Once.{Joins, accept_once, reject_once}
use f_chat_backend.Tenants.Service.Members.{MembersOf, remove_member-rows, update_member_role-rows}

abbrev tables : Tables
tables = record {
  tenants = list_table (λ (x y : Tenant). x.id == y.id);
  members = list_table (λ (x y : TenantMember). same_member x.tenant_id x.user_id y);
  settings = list_table (λ (x y : TenantSettings). x.tenant_id == y.tenant_id);
  invitations = list_table (λ (x y : Invitation). x.id == y.id || x.token == y.token);
  users = list_table (λ (x y : User). x.id == y.id || x.email == y.email);
}

abbrev db : Db tables
db = record {
  tenants = record { id = text "t1"; name = text "Tienda" } ∷ [];
  members =
      record { tenant_id = text "t1"; user_id = text "u1"; role = owner }
      ∷ record { tenant_id = text "t1"; user_id = text "u2"; role = TenantRole.user }
      ∷ [];
  settings = [];
  invitations =
      record {
        id = text "i1";
        token = text "k1";
        tenant_id = text "t1";
        email = text "c@x";
        role = TenantRole.tecnico;
        expires_at = 100;
        accepted_at = none;
        rejected_at = none;
      }
      ∷ [];
  users = record { id = text "u3"; email = text "c@x" } ∷ [];
  outbox = [];
}

abbrev boss : AuthenticatedUser
boss = record { id = text "u1"; email = text "a@x"; name = text "Ana"; tenant_id = text "t1" }

abbrev guest : AuthenticatedUser
guest = record { id = text "u3"; email = text "c@x"; name = text "Caro"; tenant_id = text "t9" }

abbrev joined_db : Db tables
joined_db = (accept_invitation tables 100 101 (text "k1") guest db).1

accepted :
    accept_invitation tables 100 101 (text "k1") guest db
    ≡ (ok (text "t1", TenantRole.tecnico), joined_db)
unfolding accept_invitation ◌>>=◌ ◌>>◌ accept_open open_invitation find_member same_member
    add_member set_members insert_row mark_accepted set_invitations update_rows change_rows reads
    require find_by_token first_where has_token ◌==◌ refuse done stored any continue result_of
accepted = refl

accept_once_example :
    ((i : Invitation) × Joins tables 100 (text "k1") guest db joined_db i)
    × ((now' later' : ℕ) (other : AuthenticatedUser)
        → (accept_invitation tables now' later' (text "k1") other joined_db
            ≡ (failed (bad_request (text "Invitation already accepted")), joined_db))
          × (reject_invitation tables now' later' (text "k1") other joined_db
              ≡ (failed (bad_request (text "Invitation already accepted")), joined_db)))
accept_once_example =
    accept_once tables 100 101 (text "k1") guest db joined_db (text "t1", TenantRole.tecnico)
      accepted

abbrev rejected_db : Db tables
rejected_db = (reject_invitation tables 100 101 (text "k1") guest db).1

rejected : reject_invitation tables 100 101 (text "k1") guest db ≡ (ok tt, rejected_db)
unfolding reject_invitation ◌>>=◌ ◌>>◌ open_invitation mark_rejected set_invitations update_rows
    change_rows reads require find_by_token first_where has_token ◌==◌ refuse done stored any
    continue result_of
rejected = refl

reject_once_example :
    (rejected_db.members ≡ db.members)
    × ((now' later' : ℕ) (other : AuthenticatedUser)
        → (message : Text) × (accept_invitation tables now' later' (text "k1") other rejected_db
            ≡ (failed (bad_request message), rejected_db))
          × (reject_invitation tables now' later' (text "k1") other rejected_db
              ≡ (failed (bad_request message), rejected_db)))
reject_once_example = reject_once tables 100 101 (text "k1") guest db rejected_db rejected

abbrev smaller_db : Db tables
smaller_db = (remove_member tables (text "t1") (text "u2") boss db).1

removed : remove_member tables (text "t1") (text "u2") boss db ≡ (ok tt, smaller_db)
unfolding remove_member ◌>>=◌ ◌>>◌ assert_current_tenant find_member same_member delete_member
    set_members delete_rows reads require find_by_token first_where has_token ◌==◌ refuse done
    stored any continue result_of
removed = refl

remove_member-rows_example :
    (text "t1" ≡ text "t1")
    × ((m : TenantMember) × (find_member tables (text "t1") (text "u2") db ≡ some m))
    × ((m : TenantMember)
        → MembersOf tables smaller_db m
          ↔ (MembersOf tables db m × (same_member (text "t1") (text "u2") m ≡ false)))
    × ((m : TenantMember)
        → MembersOf tables db m
        → m.user_id ≡ text "u1"
        → MembersOf tables smaller_db m)
remove_member-rows_example =
    remove_member-rows tables (text "t1") (text "u2") boss db smaller_db removed

abbrev changed_db : Db tables
changed_db = (update_member_role tables (text "t1") (text "u2") owner boss db).1

changed : update_member_role tables (text "t1") (text "u2") owner boss db ≡ (ok tt, changed_db)
unfolding update_member_role ◌>>=◌ ◌>>◌ assert_current_tenant find_member same_member update_role
    set_members update_rows change_rows reads require find_by_token first_where has_token ◌==◌
    refuse done stored any continue result_of
changed = refl

update_member_role-rows_example :
    (text "t1" ≡ text "t1")
    × ((m : TenantMember) × (find_member tables (text "t1") (text "u2") db ≡ some m))
    × ((m : TenantMember)
        → MembersOf tables changed_db m ↔ (
            (x : TenantMember) × MembersOf tables db x
            × (m ≡ (
                if same_member (text "t1") (text "u2") x then record x { role = owner } else x))))
    × ((m : TenantMember)
        → MembersOf tables db m
        → m.user_id ≡ text "u1"
        → MembersOf tables changed_db m)
update_member_role-rows_example =
    update_member_role-rows tables (text "t1") (text "u2") owner boss db changed_db changed
