-- ===== src/Tenants.antt =====
-- src/modules/tenants: tenants.service.ts over its two repositories and the lookup of a user. The
-- tables of the database are a parameter; moments are numbers, and every reading of the clock or
-- of a generated id is an argument of the operation that makes it.
pub mod Service
use f_chat_backend.Prelude.{
  ℕ, ◌+◌, Text, text, ◌==◌, Option, none, some, is_some, List, [], ◌∷◌, ◌++◌, keep, Bool, true,
  false, not, ◌&&◌, ltb,
}
use f_chat_backend.Prelude.Actions.{
  Action, Failure, not_found, forbidden, bad_request, unauthorized, done, reads, stored, refuse,
  require, ◌>>=◌, ◌>>◌,
}
use f_chat_backend.Prelude.Table.{Table}

pub data TenantRole : Type 0 where
  owner user tecnico : TenantRole

pub data Plan : Type 0 where
  free full : Plan

pub record Tenant : Type 0 where
  pub id : Text
  pub name : Text

pub record TenantMember : Type 0 where
  pub tenant_id : Text
  pub user_id : Text
  pub role : TenantRole

pub record TenantSettings : Type 0 where
  pub tenant_id : Text
  pub plan : Plan
  pub credits_limit : ℕ
  pub credits_used : ℕ
  pub whatsapp_limit : ℕ

pub record Invitation : Type 0 where
  pub id : Text
  pub token : Text
  pub tenant_id : Text
  pub email : Text
  pub role : TenantRole
  pub expires_at : ℕ
  pub accepted_at : Option ℕ
  pub rejected_at : Option ℕ

pub record User : Type 0 where
  pub id : Text
  pub email : Text

pub record AuthenticatedUser : Type 0 where
  pub id : Text
  pub email : Text
  pub name : Text
  pub tenant_id : Text

pub record Mail : Type 0 where
  pub to : Text
  pub tenant_name : Text
  pub inviter_name : Text
  pub role : TenantRole
  pub accept_url : Text

pub record Tables : Type 1 where
  pub tenants : Table Tenant
  pub members : Table TenantMember
  pub settings : Table TenantSettings
  pub invitations : Table Invitation
  pub users : Table User

pub record Db (t : Tables) : Type 0 where
  pub tenants : Table.St t.tenants
  pub members : Table.St t.members
  pub settings : Table.St t.settings
  pub invitations : Table.St t.invitations
  pub users : Table.St t.users
  pub outbox : List Mail

pub same_member : Text → Text → TenantMember → Bool
same_member tenant_id user_id m = m.tenant_id == tenant_id && m.user_id == user_id

pub has_token : Text → Invitation → Bool
has_token token i = i.token == token

-- Neither accepted nor rejected, and `expiresAt: { gt: now }`.
unfoldable pub is_pending : ℕ → Invitation → Bool
is_pending now i =
    not (is_some i.accepted_at) && (not (is_some i.rejected_at) && ltb now i.expires_at)

module _ (t : Tables) where
  -- tenant.repository.ts
  pub find_member : Text → Text → Db t → Option TenantMember
  find_member tenant_id user_id db =
      Table.find_first t.members db.members (same_member tenant_id user_id)

  pub find_tenant : Text → Db t → Option Tenant
  find_tenant id db = Table.find_first t.tenants db.tenants (λ x. x.id == id)

  pub set_members : Db t → Option (Table.St t.members) → Option (Db t)
  set_members db none = none
  set_members db (some s) = some (record db { members = s })

  pub set_invitations : Db t → Option (Table.St t.invitations) → Option (Db t)
  set_invitations db none = none
  set_invitations db (some s) = some (record db { invitations = s })

  set_tenants : Db t → Option (Table.St t.tenants) → Option (Db t)
  set_tenants db none = none
  set_tenants db (some s) = some (record db { tenants = s })

  set_settings : Db t → Option (Table.St t.settings) → Option (Db t)
  set_settings db none = none
  set_settings db (some s) = some (record db { settings = s })

  pub add_member : Text → Text → TenantRole → Action (Db t) Unit
  add_member tenant_id user_id role = stored (λ db. set_members db (
      Table.create t.members db.members
        (record { tenant_id = tenant_id; user_id = user_id; role = role })))

  pub update_role : Text → Text → TenantRole → Action (Db t) Unit
  update_role tenant_id user_id role = stored (λ db. set_members db (
      Table.update t.members db.members (same_member tenant_id user_id)
        (λ m. record m { role = role })))

  pub delete_member : Text → Text → Action (Db t) Unit
  delete_member tenant_id user_id =
      stored
        (λ db. set_members db (Table.delete t.members db.members (same_member tenant_id user_id)))

  update_name : Text → Text → Action (Db t) Unit
  update_name id name = stored (λ db.
      set_tenants db
        (Table.update t.tenants db.tenants (λ x. x.id == id) (λ x. record x { name = name })))

  -- TenantRepository.create: one transaction, so a write that throws undoes those before it.
  new_tenant : Text → Text → Text → Db t → Option (Db t)
  unfolding set_tenants set_members set_settings
  new_tenant fresh_id name owner_id db =
      elim (set_tenants db
        (Table.create t.tenants db.tenants (record { id = fresh_id; name = name }))) [
          | none ↦ none
          | some db1 ↦
              elim (set_members db1 (
                Table.create t.members db1.members
                  (record { tenant_id = fresh_id; user_id = owner_id; role = owner }))) [
                    | none ↦ none
                    | some db2 ↦ set_settings db2 (
                        Table.create t.settings db2.settings (record {
                          tenant_id = fresh_id;
                          plan = free;
                          credits_limit = 0;
                          credits_used = 0;
                          whatsapp_limit = 1;
                        }))
                  ]
        ]

  -- invitation.repository.ts
  pub find_by_token : Text → Db t → Option Invitation
  find_by_token token db = Table.find_first t.invitations db.invitations (has_token token)

  unfoldable pub find_by_id : Text → Db t → Option Invitation
  find_by_id id db = Table.find_first t.invitations db.invitations (λ i. i.id == id)

  pub find_pending_by_email : ℕ → Text → Text → Db t → Option Invitation
  find_pending_by_email now tenant_id email db =
      Table.find_first t.invitations db.invitations
        (λ i. i.tenant_id == tenant_id && (i.email == email && is_pending now i))

  -- The rows of `findPendingByUserEmail`; the order by creation is not modelled.
  pub find_pending_by_user_email : ℕ → Text → Db t → List Invitation
  find_pending_by_user_email now email db =
      keep (λ i. i.email == email && is_pending now i) (Table.rows t.invitations db.invitations)

  -- 7 * 24 * 60 * 60 * 1000
  pub create_invitation : ℕ → Text → Text → Text → Text → TenantRole → Action (Db t) Unit
  create_invitation now id token tenant_id email role = stored (λ db. set_invitations db (
      Table.create t.invitations db.invitations (record {
        id = id;
        token = token;
        tenant_id = tenant_id;
        email = email;
        role = role;
        expires_at = now + 604800000;
        accepted_at = none;
        rejected_at = none;
      })))

  pub mark_accepted : ℕ → Text → Action (Db t) Unit
  mark_accepted now token = stored (λ db. set_invitations db (
      Table.update t.invitations db.invitations (has_token token)
        (λ i. record i { accepted_at = some now })))

  pub mark_rejected : ℕ → Text → Action (Db t) Unit
  mark_rejected now token = stored (λ db. set_invitations db (
      Table.update t.invitations db.invitations (has_token token)
        (λ i. record i { rejected_at = some now })))

  pub delete_by_id : Text → Action (Db t) Unit
  delete_by_id id =
      stored
        (λ db. set_invitations db (Table.delete t.invitations db.invitations (λ i. i.id == id)))
