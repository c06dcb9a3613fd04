-- ===== src/Models/Invite.antt =====
-- backend/app/invites/models/invite.py
use fastapi_saas_template.Prelude.{
  ℕ, Bool, true, false, List, [], ◌∷◌, Option, ◌&&◌, ◌==◌, not, any, Text, text_eq, lower,
}
use fastapi_saas_template.Models.Membership.{MembershipRole}

pub data InviteStatus : Type 0 where
  pending accepted expired revoked : InviteStatus

abbrev pub is_pending : InviteStatus → Bool
is_pending pending = true
is_pending _ = false

pub record Invite : Type 0 where
  pub id : ℕ
  pub email : Text
  pub organisation_id : ℕ
  pub role : MembershipRole
  pub status : InviteStatus
  pub token_hash : Text
  pub expires_at : Option ℕ
  pub revoked_at : Option ℕ
  pub revoked_by_user_id : Option ℕ
  pub updated_at : ℕ

abbrev pub key : Invite → ℕ
key i = i.id

-- `ix_invites_token_hash`
abbrev pub same_token : Invite → Invite → Bool
same_token a b = text_eq a.token_hash b.token_hash

-- `uq_invites_org_email_pending`
abbrev pub same_pending : Invite → Invite → Bool
same_pending a b =
    (is_pending a.status && is_pending b.status)
    && ((a.organisation_id == b.organisation_id) && text_eq (lower a.email) (lower b.email))

-- Both unique indexes of `__table_args__` hold.
unfoldable pub indexes_hold : List Invite → Bool
unfolding any text_eq lower
indexes_hold [] = true
indexes_hold (i ∷ is) =
    (not (any (same_token i) is) && not (any (same_pending i) is)) && indexes_hold is
