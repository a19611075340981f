-- ===== src/Tenants/Service/Once.antt =====
-- The answers to an invitation: `acceptInvitation` and `rejectInvitation` of tenants.service.ts.
use f_chat_backend.Prelude.{
  ℕ, Text, text, none, some, is_some, true, false, ◌≡◌, refl, sym, ap, subst, ◌∙◌, ◌↔◌, ◌⊎◌, Memᴰ,
  Option-cases, arith,
}
use f_chat_backend.Prelude.Actions.{
  ok, failed, bad_request, continue, ◌>>=◌, ◌>>◌, bind-ok, done-ok, stored-ok, after_refuse,
  after_reads, after_stored,
}
use f_chat_backend.Prelude.Table.{Table}
use f_chat_backend.Tenants.{
  TenantRole, TenantMember, Invitation, AuthenticatedUser, Tables, Db, find_member, add_member,
  has_token, mark_accepted, mark_rejected, set_members, set_invitations,
}
use f_chat_backend.Tenants.Service.Tokens.{
  IsOpen, IsKnown, IsSpent, open_invitation-IsOpen, set_members-some, find_by_token-IsKnown,
  update-IsKnown, mark_accepted-IsSpent, mark_rejected-IsSpent, spent_refuses, rejected_refuses,
}
use f_chat_backend.Tenants.Service.{
  open_invitation, accept_open, accept_invitation, reject_invitation,
}

module _ (t : Tables) where
  pub joined : Invitation → AuthenticatedUser → TenantMember
  joined i user = record { tenant_id = i.tenant_id; user_id = user.id; role = i.role }

  pub record Joins (now : ℕ) (token : Text) (user : AuthenticatedUser) (db db' : Db t)
      (i : Invitation) : Type 0 where
    pub was_open : IsOpen t now token user db i
    pub no_member : find_member t i.tenant_id user.id db ≡ none
    pub members_after :
        (m : TenantMember)
        → Memᴰ m (Table.rows t.members db'.members)
          ↔ (Memᴰ m (Table.rows t.members db.members) ⊎ (m ≡ joined i user))
    pub spent : IsSpent t (λ x. x.accepted_at) token db'
    pub known : IsKnown t token db'

  add_member-rows :
      (m : TenantMember) (db v : Db t)
      → set_members t db (Table.create t.members db.members m) ≡ some v
      → (x : TenantMember)
      → Memᴰ x (Table.rows t.members v.members)
        ↔ (Memᴰ x (Table.rows t.members db.members) ⊎ (x ≡ m))
  add_member-rows m db v e =
      let (s, q, same) = set_members-some t db v _ e in
      subst
        (λ (z : Db t).
          (x : TenantMember)
          → Memᴰ x (Table.rows t.members z.members)
            ↔ (Memᴰ x (Table.rows t.members db.members) ⊎ (x ≡ m)))
        same (Table.created t.members db.members s m q)

  add_member-IsKnown :
      (m : TenantMember) (token : Text) (db v : Db t)
      → set_members t db (Table.create t.members db.members m) ≡ some v
      → IsKnown t token db
      → IsKnown t token v
  unfolding IsKnown
  add_member-IsKnown m token db v e known =
      let (s, q, same) = set_members-some t db v _ e in
      subst
        (λ (z : Db t).
          (x : Invitation) × Memᴰ x (Table.rows t.invitations z.invitations)
          × (has_token token x ≡ true))
        same known

  mark_accepted-Joins :
      (now later : ℕ) (token : Text) (user : AuthenticatedUser) (i : Invitation) (db v w : Db t)
      → IsOpen t now token user db i
      → IsKnown t token db
      → is_some (find_member t i.tenant_id user.id db) ≡ false
      → set_members t db (Table.create t.members db.members (joined i user)) ≡ some v
      → set_invitations t v (
          Table.update t.invitations v.invitations
            (has_token token)
            (λ i. record i { accepted_at = some later }))
        ≡ some w
      → Joins now token user db w i
  mark_accepted-Joins now later token user i db v w was_open known no_member added marked =
      let (spent, kept) = mark_accepted-IsSpent t later token v w marked in
      record {
        was_open = was_open;
        no_member = ground (arith, Option-cases (find_member t i.tenant_id user.id db));
        members_after = λ m.
            subst
              (λ s.
                Memᴰ m (Table.rows t.members s)
                ↔ (Memᴰ m (Table.rows t.members db.members) ⊎ (m ≡ joined i user)))
              (sym kept) (add_member-rows (joined i user) db v added m);
        spent = spent;
        known =
            update-IsKnown t token (λ i. record i { accepted_at = some later }) v w (λ y. refl)
              marked (add_member-IsKnown (joined i user) token db v added known);
      }

  accept_rest :
      (now later : ℕ) (token : Text) (user : AuthenticatedUser) (i : Invitation) (db db' : Db t)
      (r : Text × TenantRole)
      → IsOpen t now token user db i
      → accept_open t later token user i db ≡ (ok r, db')
      → Joins now token user db db' i
  unfolding accept_open joined add_member mark_accepted
  accept_rest now later token user i db db' r was_open e =
      let (no_member, e2) = after_refuse _ _ (after_reads _ _ e) in
      let (v, added, e3) = after_stored _ _ e2 in
      let (w, marked, e4) = after_stored _ _ e3 in
      let (_, stays) = done-ok _ w db' r e4 in
      subst (λ z. Joins now token user db z i) stays
        (mark_accepted-Joins now later token user i db v w was_open
          (find_by_token-IsKnown t token db i was_open.found) no_member added marked)

  accept-Joins :
      (now later : ℕ) (token : Text) (user : AuthenticatedUser) (db db' : Db t)
      (r : Text × TenantRole)
      → accept_invitation t now later token user db ≡ (ok r, db')
      → (i : Invitation) × Joins now token user db db' i
  unfolding accept_invitation
  accept-Joins now later token user db db' r e =
      let (i, u, opened, rest) = bind-ok (open_invitation t now token user) _ db db' r e in
      let (was_open, stays) = open_invitation-IsOpen t now token user db u i opened in
      (
        i,
        accept_rest now later token user i db db' r was_open
            (subst (λ z. accept_open t later token user i z ≡ (ok r, db')) (sym stays) rest),
      )

  -- Accepting an invitation: the token was known, not answered before, in time and sent to the
  -- user's email; the user was no member; afterwards the members are those from before and the user
  -- with the invitation's tenant and role. From then on nobody can accept or reject the token:
  -- both methods throw and change nothing.
  pub accept_once :
      (now later : ℕ) (token : Text) (user : AuthenticatedUser) (db db' : Db t)
      (r : Text × TenantRole)
      → accept_invitation t now later token user db ≡ (ok r, db')
      → ((i : Invitation) × Joins now token user db db' i)
        × ((now' later' : ℕ) (other : AuthenticatedUser)
            → (accept_invitation t now' later' token other db'
                ≡ (failed (bad_request (text "Invitation already accepted")), db'))
              × (reject_invitation t now' later' token other db'
                  ≡ (failed (bad_request (text "Invitation already accepted")), db')))
  unfolding accept_invitation reject_invitation ◌>>=◌ ◌>>◌ continue
  accept_once now later token user db db' r e =
      let (i, joins) = accept-Joins now later token user db db' r e in
      (
        (i, joins),
        λ now' later' other.
            let stop = spent_refuses t now' token other db' joins.spent joins.known in
            (rw stop refl, rw stop refl),
      )

  -- Rejecting an invitation adds no member, and from then on nobody can accept or reject the token.
  pub reject_once :
      (now later : ℕ) (token : Text) (user : AuthenticatedUser) (db db' : Db t)
      → reject_invitation t now later token user db ≡ (ok tt, db')
      → (db'.members ≡ db.members)
        × ((now' later' : ℕ) (other : AuthenticatedUser)
            → (message : Text) × (accept_invitation t now' later' token other db'
                ≡ (failed (bad_request message), db'))
              × (reject_invitation t now' later' token other db'
                  ≡ (failed (bad_request message), db')))
  unfolding accept_invitation reject_invitation ◌>>=◌ ◌>>◌ continue mark_rejected
  reject_once now later token user db db' e =
      let (i, u, opened, rest) = bind-ok (open_invitation t now token user) _ db db' tt e in
      let (was_open, stays) = open_invitation-IsOpen t now token user db u i opened in
      let marked = stored-ok _ u db' tt rest in
      let (spent, kept) = mark_rejected-IsSpent t later token u db' marked in
      let known =
        update-IsKnown t token (λ i. record i { rejected_at = some later }) u db' (λ y. refl) marked
          (subst (λ z. IsKnown t token z) stays
            (find_by_token-IsKnown t token db i was_open.found)) in
      (
        kept ∙ ap (λ (z : Db t). z.members) (sym stays),
        λ now' later' other.
            let (message, stop) = rejected_refuses t now' token other db' spent known in
            (message, rw stop refl, rw stop refl),
      )
