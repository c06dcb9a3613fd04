-- ===== src/Models/Organisation.antt =====
-- backend/app/organisations/models/organisation.py
use fastapi_saas_template.Prelude.{
  ℕ, Bool, true, false, not, ◌&&◌, List, [], ◌∷◌, Option, Text, is_some, any, text_eq,
}

pub data OrganisationStatus : Type 0 where
  active suspended : OrganisationStatus

abbrev pub is_suspended : OrganisationStatus → Bool
is_suspended active = false
is_suspended suspended = true

pub record Organisation : Type 0 where
  pub id : ℕ
  pub name : Text
  pub slug : Text
  pub deleted_at : Option ℕ
  pub status : OrganisationStatus
  pub suspended_at : Option ℕ
  pub suspended_reason : Option Text

abbrev pub key : Organisation → ℕ
key o = o.id

abbrev pub is_live : Organisation → Bool
is_live o = not (is_some o.deleted_at)

-- `uq_organisations_slug_active`: two rows that the index refuses together.
abbrev pub same_live_slug : Organisation → Organisation → Bool
same_live_slug a b = is_live a && (is_live b && text_eq a.slug b.slug)

unfoldable pub index_holds : List Organisation → Bool
index_holds [] = true
index_holds (o ∷ os) = not (any (same_live_slug o) os) && index_holds os
