-- ===== src/Invites/Repository.antt =====
-- backend/app/invites/repositories/invites.py. An UPDATE … RETURNING is matched against an index
-- with one row: it returns the first row it changes.
use fastapi_saas_template.Prelude.{
  map_found, ℕ, Bool, true, false, not, ◌&&◌, List, [], ◌∷◌, ◌++◌, Option, none, some, ◌==◌, leb,
  Text, text_eq, lower, if◌then◌else◌, find_first, update,
}
use fastapi_saas_template.Errors.{ok, err, integrity_error}
use fastapi_saas_template.Exec.{pure, ◌>>=◌, ◌>>◌}
use fastapi_saas_template.Session.{Db, Tx, ask, modify}
use fastapi_saas_template.Models.Membership.{MembershipRole}
use fastapi_saas_template.Models.Invite.{
  Invite, pending, accepted, expired, revoked, is_pending, indexes_hold,
}

-- `Invite.expires_at <= now`, which is not true of NULL.
abbrev pub has_expired : ℕ → Invite → Bool
has_expired now i = elim i.expires_at [ none ↦ false | some at ↦ leb at now ]

-- `(Invite.expires_at.is_(None)) | (Invite.expires_at > now)`
abbrev pub is_current : ℕ → Invite → Bool
is_current now i = elim i.expires_at [ none ↦ true | some at ↦ not (leb at now) ]

abbrev pub pending_with_hash : Text → Invite → Bool
pending_with_hash token_hash i = text_eq i.token_hash token_hash && is_pending i.status

abbrev pub pending_with_id : ℕ → ℕ → Invite → Bool
pending_with_id invite_id organisation_id i =
    (i.id == invite_id) && ((i.organisation_id == organisation_id) && is_pending i.status)

unfoldable pub get_invite_for_organisation : ℕ → ℕ → Db → Option Invite
get_invite_for_organisation invite_id organisation_id db =
    find_first (λ i. (i.id == invite_id) && (i.organisation_id == organisation_id)) db.invites

unfoldable pub get_pending_invite_by_email : ℕ → Text → Db → Option Invite
get_pending_invite_by_email organisation_id email db =
    find_first
      (λ i.
        (i.organisation_id == organisation_id)
        && (text_eq (lower i.email) (lower email) && is_pending i.status))
      db.invites

unfoldable pub flush : Tx (Unit {0})
flush s = (if indexes_hold s.db.invites then ok tt else err integrity_error, s)

abbrev pub set_invites : List Invite → Db → Db
set_invites is db = record db { invites = is }

-- `update(Invite).where(p).values(…).returning(Invite)`
unfoldable pub update_returning : (Invite → Bool) → (Invite → Invite) → Tx (Option Invite)
update_returning p f = do
  found ← ask (λ db. ok (find_first p db.invites))
  modify (λ db. set_invites (update p f db.invites) db)
  flush
  pure (map_found f found)

abbrev pub new_invite : ℕ → ℕ → Text → ℕ → MembershipRole → Text → ℕ → Invite
new_invite now id email organisation_id role token_hash expires_at = record {
  id = id;
  email = email;
  organisation_id = organisation_id;
  role = role;
  status = pending;
  token_hash = token_hash;
  expires_at = some expires_at;
  revoked_at = none;
  revoked_by_user_id = none;
  updated_at = now;
}

-- The new row's primary key is drawn by the caller (`uuid4`).
unfoldable pub create_invite : Invite → Tx Invite
create_invite invite = do
  modify (λ db. set_invites (db.invites ++ invite ∷ []) db)
  flush
  pure invite

abbrev pub accepted_at : ℕ → Invite → Invite
accepted_at now i = record i { status = accepted; updated_at = now }

abbrev pub expired_at : ℕ → Invite → Invite
expired_at now i = record i { status = expired; updated_at = now }

abbrev pub revoked_by : ℕ → ℕ → Invite → Invite
revoked_by actor_user_id now i = record i {
  status = revoked;
  revoked_at = some now;
  revoked_by_user_id = some actor_user_id;
  updated_at = now;
}

abbrev pub rotated_to : Text → ℕ → ℕ → Invite → Invite
rotated_to new_token_hash new_expires_at now i = record i {
  token_hash = new_token_hash;
  expires_at = some new_expires_at;
  updated_at = now;
}

unfoldable pub accept_pending_invite_by_token_hash : Text → ℕ → Tx (Option Invite)
accept_pending_invite_by_token_hash token_hash now =
    update_returning (λ i. pending_with_hash token_hash i && is_current now i) (accepted_at now)

unfoldable pub mark_pending_invite_expired_by_token_hash : Text → ℕ → Tx (Option Invite)
mark_pending_invite_expired_by_token_hash token_hash now =
    update_returning (λ i. pending_with_hash token_hash i && has_expired now i) (expired_at now)

unfoldable pub revoke_pending_invite : ℕ → ℕ → ℕ → ℕ → Tx (Option Invite)
revoke_pending_invite invite_id organisation_id actor_user_id now =
    update_returning (pending_with_id invite_id organisation_id) (revoked_by actor_user_id now)

unfoldable pub rotate_pending_invite_token : ℕ → ℕ → Text → ℕ → ℕ → Tx (Option Invite)
rotate_pending_invite_token invite_id organisation_id new_token_hash new_expires_at now =
    update_returning (λ i. pending_with_id invite_id organisation_id i && is_current now i)
      (rotated_to new_token_hash new_expires_at now)

unfoldable pub mark_pending_invite_expired_by_id : ℕ → ℕ → ℕ → Tx (Option Invite)
mark_pending_invite_expired_by_id invite_id organisation_id now =
    update_returning (λ i. pending_with_id invite_id organisation_id i && has_expired now i)
      (expired_at now)
