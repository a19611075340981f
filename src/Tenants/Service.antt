-- ===== src/Tenants/Service.antt =====
-- tenants.service.ts: one action per method, with its guards in their order. Replies that only
-- repeat the arguments or say that it is done are `Unit`.
pub mod Tokens
pub mod Once
pub mod Members
mod Tests
use f_chat_backend.Prelude.{
  ℕ, Text, text, ◌==◌, ◌++◌, Option, none, some, is_some, List, [], ◌∷◌, keep, Bool, true, false,
  not, ltb,
}
use f_chat_backend.Prelude.Actions.{
  Action, Failure, not_found, forbidden, bad_request, unauthorized, done, reads, stored, refuse,
  require, ◌>>=◌, ◌>>◌,
}
use f_chat_backend.Prelude.Table.{Table}
use f_chat_backend.Tenants.{
  TenantRole, Tenant, TenantMember, Invitation, User, AuthenticatedUser, Mail, Tables, Db,
  find_member, find_tenant, add_member, update_role, delete_member, update_name, new_tenant,
  same_member, find_by_token, find_by_id, find_pending_by_email, create_invitation, mark_accepted,
  mark_rejected, delete_by_id,
}

module _ (t : Tables) where
  -- assertCurrentTenant
  pub assert_current_tenant : Text → AuthenticatedUser → Action (Db t) Unit
  assert_current_tenant id user =
      refuse (not (user.tenant_id == id)) (forbidden (text "Not your current tenant"))

  pub create_tenant : Text → Text → AuthenticatedUser → Action (Db t) Unit
  create_tenant fresh_id name user = stored (new_tenant t fresh_id name user.id)

  pub get_tenant : Text → AuthenticatedUser → Action (Db t) Tenant
  get_tenant id user = do
    member ← reads (find_member t id user.id)
    require member (forbidden (text "Not a member of this tenant"))
    tenant ← reads (find_tenant t id)
    require tenant (not_found (text "Tenant not found"))

  pub update_tenant : Text → Text → AuthenticatedUser → Action (Db t) Unit
  unfolding assert_current_tenant
  update_tenant id name user = do assert_current_tenant id user; update_name t id name

  pub get_members : Text → AuthenticatedUser → Action (Db t) (List TenantMember)
  unfolding assert_current_tenant
  get_members id user = do
    assert_current_tenant id user
    reads (λ db. keep (λ m. m.tenant_id == id) (Table.rows t.members db.members))

  -- The user of the invitation's email, if there is one that is a member already.
  pub invited_member : Text → Text → Db t → Option TenantMember
  invited_member id email db = elim (Table.find_first t.users db.users (λ u. u.email == email)) [
    | none ↦ none
    | some target ↦ find_member t id target.id db
  ]

  send_invitation : Mail → Action (Db t) Unit
  send_invitation mail = stored (λ db. some (record db { outbox = db.outbox ++ mail ∷ [] }))

  -- `frontend_url` is `process.env.FRONTEND_URL ?? 'http://localhost:5173'`; `seen` and `made` are
  -- the clock at the search for a pending invitation and at the making of the new one.
  pub invite_member :
      Text → ℕ → ℕ → Text → Text → Text → Text → TenantRole → AuthenticatedUser → Action (Db t) Unit
  unfolding assert_current_tenant invited_member send_invitation
  invite_member frontend_url seen made new_id new_token id email role user = do
    assert_current_tenant id user
    found ← reads (find_tenant t id)
    tenant ← require found (not_found (text "Tenant not found"))
    existing ← reads (invited_member id email)
    refuse (is_some existing) (bad_request (text "User is already a member of this tenant"))
    pending ← reads (find_pending_by_email t seen id email)
    refuse (is_some pending)
        (bad_request (text "There is already a pending invitation for this email"))
    create_invitation t made new_id new_token id email role
    send_invitation (record {
      to = email;
      tenant_name = tenant.name;
      inviter_name = user.name;
      role = role;
      accept_url = frontend_url ++ text "/invitations/accept/" ++ new_token;
    })

  pub cancel_invitation : Text → Text → AuthenticatedUser → Action (Db t) Unit
  unfolding assert_current_tenant
  cancel_invitation id invitation_id user = do
    assert_current_tenant id user
    found ← reads (find_by_id t invitation_id)
    invitation ← require found (not_found (text "Invitation not found"))
    refuse (not (invitation.tenant_id == id))
        (forbidden (text "Invitation does not belong to this tenant"))
    refuse (is_some invitation.accepted_at)
        (bad_request (text "Cannot cancel an already accepted invitation"))
    delete_by_id t invitation_id

  -- The guards that accepting and rejecting share.
  pub open_invitation : ℕ → Text → AuthenticatedUser → Action (Db t) Invitation
  open_invitation now token user = do
    found ← reads (find_by_token t token)
    invitation ← require found (not_found (text "Invitation not found"))
    refuse (is_some invitation.accepted_at) (bad_request (text "Invitation already accepted"))
    refuse (is_some invitation.rejected_at) (bad_request (text "Invitation already rejected"))
    refuse (ltb invitation.expires_at now) (bad_request (text "Invitation has expired"))
    refuse (not (invitation.email == user.email))
        (unauthorized (text "This invitation is for a different email"))
    done invitation

  -- What accepting does once the guards are passed.
  pub accept_open : ℕ → Text → AuthenticatedUser → Invitation → Action (Db t) (Text × TenantRole)
  accept_open later token user invitation = do
    existing ← reads (find_member t invitation.tenant_id user.id)
    refuse (is_some existing) (bad_request (text "You are already a member of this tenant"))
    add_member t invitation.tenant_id user.id invitation.role
    mark_accepted t later token
    done (invitation.tenant_id, invitation.role)

  pub accept_invitation : ℕ → ℕ → Text → AuthenticatedUser → Action (Db t) (Text × TenantRole)
  unfolding open_invitation accept_open
  accept_invitation now later token user = do
    invitation ← open_invitation now token user
    accept_open later token user invitation

  pub reject_invitation : ℕ → ℕ → Text → AuthenticatedUser → Action (Db t) Unit
  unfolding open_invitation
  reject_invitation now later token user = do
    open_invitation now token user
    mark_rejected t later token

  pub update_member_role : Text → Text → TenantRole → AuthenticatedUser → Action (Db t) Unit
  unfolding assert_current_tenant
  update_member_role id target role user = do
    assert_current_tenant id user
    refuse (target == user.id) (bad_request (text "Cannot change your own role"))
    member ← reads (find_member t id target)
    require member (not_found (text "Member not found"))
    update_role t id target role

  pub remove_member : Text → Text → AuthenticatedUser → Action (Db t) Unit
  unfolding assert_current_tenant
  remove_member id target user = do
    assert_current_tenant id user
    refuse (target == user.id) (bad_request (text "Cannot remove yourself from tenant"))
    member ← reads (find_member t id target)
    require member (not_found (text "Member not found"))
    delete_member t id target
