-- ===== src/Invites/Acceptance.antt =====
-- What accepting an invite establishes, and what a refused acceptance leaves.
use fastapi_saas_template.Prelude.{
  map_found, ℕ, ◌≤◌, Bool, true, false, ◌&&◌, ◌≡◌, refl, sym, subst, ap, ◌∙◌, List, [], ◌∷◌, Option,
  some, none, arith, Text, find_first, update, map_found, count, Bool-cases, inl, inr,
}
use fastapi_saas_template.Errors.{Error, Result, ok, err}
use fastapi_saas_template.Exec.{bind-eq-ok, ◌>>=◌}
use fastapi_saas_template.Session.{Db, Session, ask}
use fastapi_saas_template.Session.Transactions.{join_or_begin-ok, join_or_begin-err, opened}
use fastapi_saas_template.Organisations
use fastapi_saas_template.Organisations.{get_organisation}
use fastapi_saas_template.Models.Organisation
use fastapi_saas_template.Models.Organisation.{Organisation}
use fastapi_saas_template.Users.{get_current_user_by_external_auth_id}
use fastapi_saas_template.Users.Projected.{get_or_create-found}
use fastapi_saas_template.Users.Kept.{get_or_create-OnlyUsers}
use fastapi_saas_template.Models.User
use fastapi_saas_template.Models.User.{User, AuthenticatedPrincipal}
use fastapi_saas_template.Models.Membership.{Membership}
use fastapi_saas_template.Models.Invite.{Invite}
use fastapi_saas_template.Memberships.Repository.{of_user, count_active_owners}
use fastapi_saas_template.Memberships.Repository.Writes.{new_membership}
use fastapi_saas_template.Memberships.Creation.{create_membership-Created}
use fastapi_saas_template.Invites.Repository.{
  flush, is_current, pending_with_hash, accepted_at, set_invites, update_returning,
  accept_pending_invite_by_token_hash,
}
use fastapi_saas_template.Invites.Checks.{email_matches, check_identity, check_accepting}
use fastapi_saas_template.Invites.Service.{accept_found, accept_in_transaction, accept_invite}

-- The invites that the UPDATE of `accept_pending_invite_by_token_hash` changes.
abbrev pub acceptable : ℕ → Text → Invite → Bool
acceptable now hash i = pending_with_hash hash i && is_current now i

update_returning-ok :
    (p : Invite → Bool) (f : Invite → Invite) (s t : Session) (r : Option Invite)
    → update_returning p f s ≡ (ok r, t)
    → (r ≡ map_found f (find_first p s.db.invites))
      × (t ≡ record s { db = set_invites (update p f s.db.invites) s.db })
unfolding update_returning flush ◌>>=◌
update_returning-ok p f s t r h = (ground arith, ground arith)

-- An invite that cannot be accepted now cannot be accepted later.
never_later :
    (now later : ℕ) (hash : Text) (i : Invite)
    → now ≤ later
    → acceptable now hash i ≡ false
    → acceptable later hash i ≡ false
never_later now later hash i h e = split i.expires_at refl
  where
    split : (x : Option ℕ) → i.expires_at ≡ x → acceptable later hash i ≡ false
    split none k = ground arith
    split (some at) k = ground arith

accepted_done :
    (now later : ℕ) (hash : Text) (i : Invite) → acceptable later hash (accepted_at now i) ≡ false
accepted_done now later hash i = ground arith

-- After an acceptance no invite can be accepted with the same hash, then or later.
hash_spent :
    (now later : ℕ) (hash : Text) (is : List Invite)
    → now ≤ later
    → find_first (acceptable later hash) (update (acceptable now hash) (accepted_at now) is) ≡ none
unfolding find_first update
hash_spent now later hash [] h = refl
hash_spent now later hash (i ∷ is) h = elim (Bool-cases (acceptable now hash i)) [
  | inl changed ↦ rw (changed, accepted_done now later hash i) (hash_spent now later hash is h)
  | inr same ↦ rw (same, never_later now later hash i h same) (hash_spent now later hash is h)
]

check_identity-ok :
    (identity : AuthenticatedPrincipal) (i : Invite)
    → check_identity identity i ≡ ok tt
    → (email_matches identity.email i.email ≡ true) × (identity.email_verified ≡ true)
unfolding check_identity
check_identity-ok identity i h = (ground arith, ground arith)

-- The user is not suspended, and the organisation is not deleted and not suspended.
record MayJoin (u : User) (organisation_id : ℕ) (db : Db) : Type 0 where
  user_active : User.is_suspended u.status ≡ false
  organisation : Organisation
  found : Organisations.get_by_id organisation_id db ≡ some organisation
  organisation_active : Organisation.is_suspended organisation.status ≡ false

check_accepting-ok :
    (u : User) (i : Invite) (db : Db)
    → check_accepting u i db ≡ ok tt
    → MayJoin u i.organisation_id db
unfolding check_accepting get_organisation Organisations.or_not_found
check_accepting-ok u i db h = ground arith

-- What an acceptance that returned establishes.
pub record Accepted (hash : Text) (now membership_id : ℕ) (identity : AuthenticatedPrincipal)
    (old new : Db) (m : Membership) : Type 0 where
  pub invite : Invite
  pub user : User
  pub usable : find_first (acceptable now hash) old.invites ≡ some invite
  pub addressed : email_matches identity.email invite.email ≡ true
  pub verified : identity.email_verified ≡ true
  pub projected : get_current_user_by_external_auth_id identity new ≡ some user
  pub user_active : User.is_suspended user.status ≡ false
  pub organisation : Organisation
  pub joined : Organisations.get_by_id invite.organisation_id new ≡ some organisation
  pub organisation_active : Organisation.is_suspended organisation.status ≡ false
  pub granted : m ≡ new_membership membership_id user.id invite.organisation_id invite.role
  pub marked : new.invites ≡ update (acceptable now hash) (accepted_at now) old.invites
  pub one_owner : count_active_owners invite.organisation_id new ≡ 1
  pub one_membership : count (of_user user.id) new.memberships ≡ 1

module _ (token_hash : Text → Text) (now user_id membership_id : ℕ) (token : Text)
    (identity : AuthenticatedPrincipal) where
  accept_found-some :
      (s t : Session) (m : Membership) (i : Invite) (old : Db)
      → find_first (acceptable now (token_hash token)) old.invites ≡ some i
      → s.db.invites ≡ update (acceptable now (token_hash token)) (accepted_at now) old.invites
      → accept_found token_hash now user_id membership_id token identity
          (some (accepted_at now i))
          s
        ≡ (ok m, t)
      → Accepted (token_hash token) now membership_id identity old t.db m
  unfolding accept_found
  accept_found-some s t m i old found marked h =
      let (done, s1, e1, h1) = bind-eq-ok _ _ s t m h in
      let (u, s2, e2, h2) = bind-eq-ok _ _ s1 t m h1 in
      let (done', s3, e3, h3) = bind-eq-ok _ _ s2 t m h2 in
      let created =
        create_membership-Created membership_id u.id i.organisation_id i.role s3 t m h3 in
      let projected = get_or_create-OnlyUsers s1 s2 u identity user_id e2 in
      let may = check_accepting-ok u (accepted_at now i) s2.db (ground arith) in
      let identified = check_identity-ok identity (accepted_at now i) (ground arith) in
      record {
        invite = i;
        user = u;
        usable = found;
        addressed = identified.0;
        verified = identified.1;
        projected =
            lookup_kept s2.db t.db (
              ap (λ (d : Db). d.users) created.only_memberships
              ∙ ap (λ (x : Session). x.db.users) (the_same s2 s3 u i e3))
            ∙ get_or_create-found identity s1 s2 u user_id e2;
        user_active = may.user_active;
        organisation = may.organisation;
        joined =
            organisation_kept s2.db t.db i.organisation_id (
              ap (λ (d : Db). d.organisations) created.only_memberships
              ∙ ap (λ (x : Session). x.db.organisations) (the_same s2 s3 u i e3))
            ∙ may.found;
        organisation_active = may.organisation_active;
        granted = created.returned;
        marked =
            ap (λ (d : Db). d.invites) created.only_memberships
            ∙ (ap (λ (x : Session). x.db.invites) (the_same s2 s3 u i e3)
                ∙ (ap (λ (d : Db). d.invites) projected
                    ∙ (ap (λ (x : Session). x.db.invites) (the_first s s1 i e1) ∙ marked)));
        one_owner = created.one_owner;
        one_membership = created.one_membership;
      }
    where
      lookup_kept :
          (x y : Db)
          → y.users ≡ x.users
          → get_current_user_by_external_auth_id identity y
            ≡ get_current_user_by_external_auth_id identity x
      lookup_kept x y e = unfold get_current_user_by_external_auth_id in ground arith

      organisation_kept :
          (x y : Db) (id : ℕ)
          → y.organisations ≡ x.organisations
          → Organisations.get_by_id id y ≡ Organisations.get_by_id id x
      organisation_kept x y id e = unfold Organisations.get_by_id in ground arith

      the_first :
          (x y : Session) (i : Invite)
          → ask (λ db. check_identity identity (accepted_at now i)) x ≡ (ok tt, y)
          → y ≡ x
      the_first x y i h = ground arith

      the_same :
          (x y : Session) (u : User) (i : Invite)
          → ask (check_accepting u (accepted_at now i)) x ≡ (ok tt, y)
          → y ≡ x
      the_same x y u i h = ground arith

  accept_found-ok :
      (s t : Session) (m : Membership) (found r : Option Invite) (old : Db)
      → find_first (acceptable now (token_hash token)) old.invites ≡ found
      → r ≡ map_found (accepted_at now) found
      → s.db.invites ≡ update (acceptable now (token_hash token)) (accepted_at now) old.invites
      → accept_found token_hash now user_id membership_id token identity r s ≡ (ok m, t)
      → Accepted (token_hash token) now membership_id identity old t.db m
  unfolding accept_found
  accept_found-ok s t m none r old f e marked h =
      let k = rw e at h in let (x, s1, e1, h1) = bind-eq-ok _ _ s t m k in absurd (cc h1)
  accept_found-ok s t m (some i) r old f e marked h =
      accept_found-some s t m i old f marked (rw e at h)

  -- An acceptance that returned had an invite that was pending, not expired and addressed to the
  -- verified address of the identity. The user that the identity's token resolves to afterwards is
  -- not suspended, and the invite's organisation is there, not deleted and not suspended. It marked
  -- the invites with this token accepted, and the membership it returns is that user's, of the
  -- invite's organisation and role; the organisation has exactly one active owner, and the user no
  -- other active membership.
  pub accept_invite-Accepted :
      (s t : Session) (m : Membership)
      → accept_invite token_hash now user_id membership_id token identity s ≡ (ok m, t)
      → Accepted (token_hash token) now membership_id identity s.db t.db m
  unfolding accept_invite accept_in_transaction accept_pending_invite_by_token_hash
  accept_invite-Accepted s t m h =
      let (u, e, d, l) = join_or_begin-ok _ s m t h in
      let (r, s1, e1, h1) = bind-eq-ok _ _ (opened s) u m e in
      let stored = update_returning-ok _ _ (opened s) s1 r e1 in
      subst (λ new. Accepted (token_hash token) now membership_id identity s.db new m) (sym d)
        (accept_found-ok s1 u m _ r s.db refl stored.0 (ap (λ (x : Session). x.db.invites) stored.1)
          h1)

  -- Outside any transaction, when no pending invite with the token's hash is still valid, accepting
  -- raises and leaves every table as it was: the status EXPIRED that the code gives to an invite
  -- that ran out is undone too.
  pub accept_unusable :
      (s : Session)
      → s.in_transaction ≡ false
      → find_first (acceptable now (token_hash token)) s.db.invites ≡ none
      → (e : Error) × (t : Session) × (accept_invite token_hash now user_id membership_id token
            identity s
          ≡ (err e, t))
        × (t.db ≡ s.db)
  accept_unusable s closed absent =
      split (accept_invite token_hash now user_id membership_id token identity s).0
        (accept_invite token_hash now user_id membership_id token identity s).1 refl
    where
      split :
          (r : Result Membership) (t : Session)
          → accept_invite token_hash now user_id membership_id token identity s ≡ (r, t)
          → (e : Error) × (u : Session) × (accept_invite token_hash now user_id membership_id token
                identity s
              ≡ (err e, u))
            × (u.db ≡ s.db)
      split (ok m) t h =
          let a = accept_invite-Accepted s t m h in absurd (ground (arith, a.usable, absent))
      split (err e) t h = (e, t, h, unfold accept_invite in join_or_begin-err _ s e t closed h)

-- When an acceptance has returned, accepting with the same token again, at that time or later and
-- whoever does it, raises and leaves every table as it was.
pub accept_once :
    (token_hash : Text → Text) (now user_id membership_id : ℕ) (token : Text)
    (identity : AuthenticatedPrincipal) (s t : Session) (m : Membership)
    → accept_invite token_hash now user_id membership_id token identity s ≡ (ok m, t)
    → t.in_transaction ≡ false
    → (later user_id' membership_id' : ℕ) (identity' : AuthenticatedPrincipal) → now ≤ later
    → (e : Error) × (t' : Session) × (accept_invite token_hash later user_id' membership_id' token
          identity' t
        ≡ (err e, t'))
      × (t'.db ≡ t.db)
accept_once token_hash now user_id membership_id token identity s t m h closed later user_id'
      membership_id' identity' ordered =
    let a = accept_invite-Accepted token_hash now user_id membership_id token identity s t m h in
    accept_unusable token_hash later user_id' membership_id' token identity' t closed
      (rw a.marked (hash_spent now later (token_hash token) s.db.invites ordered))
