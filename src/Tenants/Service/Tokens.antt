-- ===== src/Tenants/Service/Tokens.antt =====
-- The invitations of a token: found, open to an answer, known and answered.
use f_chat_backend.Prelude.{
  or_else, ℕ, Text, text, ◌==◌, Option, none, some, is_some, true, false, ltb, ◌≡◌, refl, sym, ap,
  subst, inl, inr, Memᴰ, Bool-cases, Option-cases, if◌then◌else◌, arith,
}
use f_chat_backend.Prelude.Actions.{
  ok, failed, bad_request, reads, refuse, require, continue, ◌>>=◌, ◌>>◌, done-ok, after_refuse,
  after_require, after_reads,
}
use f_chat_backend.Prelude.Table.{Table}
use f_chat_backend.Tenants.{
  Invitation, AuthenticatedUser, Tables, Db, has_token, find_by_token, set_members, set_invitations,
}
use f_chat_backend.Tenants.Service.{open_invitation}

module _ (t : Tables) where
  -- An invitation that the user may answer.
  pub record IsOpen (now : ℕ) (token : Text) (user : AuthenticatedUser) (db : Db t) (i : Invitation)
      : Type 0 where
    pub found : find_by_token t token db ≡ some i
    pub not_accepted : is_some i.accepted_at ≡ false
    pub not_rejected : is_some i.rejected_at ≡ false
    pub in_time : ltb i.expires_at now ≡ false
    pub addressed : (i.email == user.email) ≡ true

  pub open_invitation-IsOpen :
      (now : ℕ) (token : Text) (user : AuthenticatedUser) (db db' : Db t) (i : Invitation)
      → open_invitation t now token user db ≡ (ok i, db')
      → IsOpen now token user db i × (db ≡ db')
  unfolding open_invitation
  open_invitation-IsOpen now token user db db' i e =
      let (j, found, e1) = after_require _ _ (after_reads _ _ e) in
      let (not_accepted, e2) = after_refuse _ _ e1 in
      let (not_rejected, e3) = after_refuse _ _ e2 in
      let (in_time, e4) = after_refuse _ _ e3 in
      let (addressed, e5) = after_refuse _ _ e4 in
      let (same, stays) = done-ok j db db' i e5 in
      (
        subst (λ z. IsOpen now token user db z) same
            (record {
              found = found;
              not_accepted = not_accepted;
              not_rejected = not_rejected;
              in_time = in_time;
              addressed = ground (arith, Bool-cases (j.email == user.email));
            }),
        stays,
      )

  pub set_members-some :
      (db d : Db t) (o : Option (Table.St t.members))
      → set_members t db o ≡ some d
      → (s : Table.St t.members) × (o ≡ some s) × (record db { members = s } ≡ d)
  unfolding set_members
  set_members-some db d none e = cc
  set_members-some db d (some s) e = (s, refl, ap (λ o. or_else o db) e)

  pub set_invitations-some :
      (db d : Db t) (o : Option (Table.St t.invitations))
      → set_invitations t db o ≡ some d
      → (s : Table.St t.invitations) × (o ≡ some s) × (record db { invitations = s } ≡ d)
  unfolding set_invitations
  set_invitations-some db d none e = cc
  set_invitations-some db d (some s) e = (s, refl, ap (λ o. or_else o db) e)

  -- Some invitation has the token.
  unfoldable pub IsKnown : Text → Db t → Type 0
  IsKnown token db =
      (x : Invitation) × Memᴰ x (Table.rows t.invitations db.invitations)
      × (has_token token x ≡ true)

  pub find_by_token-IsKnown :
      (token : Text) (db : Db t) (i : Invitation)
      → find_by_token t token db ≡ some i
      → IsKnown token db
  unfolding IsKnown find_by_token
  find_by_token-IsKnown token db i e =
      let (m, h) = Table.found_row t.invitations db.invitations (has_token token) i e in (i, m, h)

  -- An update that keeps tokens keeps a token known.
  pub update-IsKnown :
      (token : Text) (f : Invitation → Invitation) (db db' : Db t)
      → ((y : Invitation) → (f y).token ≡ y.token)
      → set_invitations t db (Table.update t.invitations db.invitations (has_token token) f)
        ≡ some db'
      → IsKnown token db
      → IsKnown token db'
  unfolding IsKnown has_token
  update-IsKnown token f db db' keeps e (y, m, h) =
      let (s, q, same) = set_invitations-some db db' _ e in
      subst
        (λ (z : Db t).
          (x : Invitation) × Memᴰ x (Table.rows t.invitations z.invitations)
          × (has_token token x ≡ true))
        same
        (
          f y,
          (Table.updated t.invitations db.invitations s (has_token token) f q (f y)).1
              (y, m, rw h refl),
          subst (λ k. (k == token) ≡ true) (sym (keeps y)) h,
        )

  -- Every invitation of a token has been answered.
  pub IsSpent : (Invitation → Option ℕ) → Text → Db t → Type 0
  IsSpent stamp token db =
      (x : Invitation)
      → Memᴰ x (Table.rows t.invitations db.invitations)
      → has_token token x ≡ true
      → is_some (stamp x) ≡ true

  -- An update of the rows of a token leaves none of them without the stamp.
  stamped :
      (stamp : Invitation → Option ℕ) (f : Invitation → Invitation) (token : Text)
      (x y : Invitation)
      → is_some (stamp (f y)) ≡ true
      → x ≡ (if has_token token y then f y else y)
      → has_token token x ≡ true
      → is_some (stamp x) ≡ true
  stamped stamp f token x y sets from h = elim (Bool-cases (has_token token y)) [
    | inl q ↦ subst (λ z. is_some (stamp z) ≡ true) (sym (rw q at from)) sets
    | inr q ↦
        let other : x ≡ y = rw q at from in
        let wrong : has_token token y ≡ true = subst (λ z. has_token token z ≡ true) other h in cc
  ]

  pub mark_accepted-IsSpent :
      (later : ℕ) (token : Text) (db db' : Db t)
      → set_invitations t db (
          Table.update t.invitations db.invitations
            (has_token token)
            (λ i. record i { accepted_at = some later }))
        ≡ some db'
      → IsSpent (λ x. x.accepted_at) token db' × (db'.members ≡ db.members)
  unfolding IsSpent
  mark_accepted-IsSpent later token db db' e =
      let (s, q, same) = set_invitations-some db db' _ e in
      subst (λ (z : Db t). IsSpent (λ x. x.accepted_at) token z × (z.members ≡ db.members)) same
        (
          λ x m h.
              let (y, _, from) = (Table.updated t.invitations db.invitations s _ _ q x).0 m in
              stamped (λ z. z.accepted_at) (λ i. record i { accepted_at = some later }) token x y
                refl from h,
          refl,
        )

  pub mark_rejected-IsSpent :
      (later : ℕ) (token : Text) (db db' : Db t)
      → set_invitations t db (
          Table.update t.invitations db.invitations
            (has_token token)
            (λ i. record i { rejected_at = some later }))
        ≡ some db'
      → IsSpent (λ x. x.rejected_at) token db' × (db'.members ≡ db.members)
  unfolding IsSpent
  mark_rejected-IsSpent later token db db' e =
      let (s, q, same) = set_invitations-some db db' _ e in
      subst (λ (z : Db t). IsSpent (λ x. x.rejected_at) token z × (z.members ≡ db.members)) same
        (
          λ x m h.
              let (y, _, from) = (Table.updated t.invitations db.invitations s _ _ q x).0 m in
              stamped (λ z. z.rejected_at) (λ i. record i { rejected_at = some later }) token x y
                refl from h,
          refl,
        )

  -- What an answered token throws, whoever comes with it and whenever.
  pub spent_refuses :
      (now : ℕ) (token : Text) (user : AuthenticatedUser) (db : Db t)
      → IsSpent (λ x. x.accepted_at) token db
      → IsKnown token db
      → open_invitation t now token user db
        ≡ (failed (bad_request (text "Invitation already accepted")), db)
  unfolding open_invitation IsSpent IsKnown ◌>>=◌ ◌>>◌ reads require refuse continue find_by_token
  spent_refuses now token user db spent (x, there, h) =
      elim (Option-cases (find_by_token t token db)) [
        | inl none_found ↦
            let wrong =
              Table.no_row t.invitations db.invitations (has_token token) none_found x there in
            cc
        | inr (i, found) ↦
            let (m, has) = Table.found_row t.invitations db.invitations (has_token token) i found in
            rw (found, spent i m has) refl
      ]

  pub rejected_refuses :
      (now : ℕ) (token : Text) (user : AuthenticatedUser) (db : Db t)
      → IsSpent (λ x. x.rejected_at) token db
      → IsKnown token db
      → (message : Text) × (open_invitation t now token user db
          ≡ (failed (bad_request message), db))
  unfolding open_invitation IsSpent IsKnown ◌>>=◌ ◌>>◌ reads require refuse continue find_by_token
  rejected_refuses now token user db spent (x, there, h) =
      elim (Option-cases (find_by_token t token db)) [
        | inl none_found ↦
            let wrong =
              Table.no_row t.invitations db.invitations (has_token token) none_found x there in
            cc
        | inr (i, found) ↦
            let (m, has) = Table.found_row t.invitations db.invitations (has_token token) i found in
            elim (Bool-cases (is_some i.accepted_at)) [
              | inl q ↦ (text "Invitation already accepted", rw (found, q) refl)
              | inr q ↦ (text "Invitation already rejected", rw (found, q, spent i m has) refl)
            ]
      ]
