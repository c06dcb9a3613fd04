-- ===== src/Models/Membership.antt =====
-- backend/app/memberships/models/membership.py
use fastapi_saas_template.Prelude.{ℕ, Bool, true, false, List, [], ◌∷◌, ◌&&◌, ◌==◌, not, any}

pub data MembershipRole : Type 0 where
  owner admin member : MembershipRole

abbrev pub is_owner : MembershipRole → Bool
is_owner owner = true
is_owner _ = false

abbrev pub is_admin : MembershipRole → Bool
is_admin admin = true
is_admin _ = false

abbrev pub is_member : MembershipRole → Bool
is_member member = true
is_member _ = false

abbrev pub role_eq : MembershipRole → MembershipRole → Bool
role_eq owner r = is_owner r
role_eq admin r = is_admin r
role_eq member r = is_member r

pub record Membership : Type 0 where
  pub id : ℕ
  pub user_id : ℕ
  pub organisation_id : ℕ
  pub role : MembershipRole
  pub is_active : Bool

abbrev pub key : Membership → ℕ
key m = m.id

-- `uq_memberships_user_id_active`: two rows that the index refuses together.
abbrev pub same_active_user : Membership → Membership → Bool
same_active_user a b = a.is_active && (b.is_active && (a.user_id == b.user_id))

-- `uq_memberships_one_active_owner_per_org`
abbrev pub same_active_owner : Membership → Membership → Bool
same_active_owner a b =
    (a.is_active && is_owner a.role)
    && ((b.is_active && is_owner b.role) && (a.organisation_id == b.organisation_id))

-- Both partial unique indexes of `__table_args__` hold.
unfoldable pub indexes_hold : List Membership → Bool
unfolding any
indexes_hold [] = true
indexes_hold (m ∷ ms) =
    (not (any (same_active_user m) ms) && not (any (same_active_owner m) ms)) && indexes_hold ms
