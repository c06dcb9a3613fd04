-- ===== src/Tests/Fixture.antt =====
-- A small tenant: organisation 1 with an owner, an administrator and two members.
use fastapi_saas_template.Prelude.{ℕ, true, false, none, some, [], ◌∷◌, codes}
use fastapi_saas_template.Models.User
use fastapi_saas_template.Models.User.{User}
use fastapi_saas_template.Models.Organisation
use fastapi_saas_template.Models.Organisation.{Organisation}
use fastapi_saas_template.Models.Membership.{MembershipRole, owner, admin, member, Membership}
use fastapi_saas_template.Models.AuditEvent.{AuditContext}
use fastapi_saas_template.Session.{Db, Session}

abbrev pub user : ℕ → User
user id = record {
  id = id;
  external_auth_id = id ∷ [];
  email = some (codes "ann@example.com");
  email_verified = true;
  first_name = none;
  last_name = none;
  onboarding_completed = false;
  status = User.active;
  suspended_at = none;
  suspended_reason = none;
}

abbrev pub organisation : ℕ → Organisation
organisation id = record {
  id = id;
  name = codes "Acme";
  slug = codes "acme";
  deleted_at = none;
  status = Organisation.active;
  suspended_at = none;
  suspended_reason = none;
}

abbrev pub membership : ℕ → ℕ → ℕ → MembershipRole → Membership
membership id user_id organisation_id role = record {
  id = id;
  user_id = user_id;
  organisation_id = organisation_id;
  role = role;
  is_active = true;
}

abbrev pub tenant_db : Db
tenant_db = record {
  users = user 10 ∷ user 11 ∷ user 12 ∷ user 13 ∷ [];
  organisations = organisation 1 ∷ organisation 2 ∷ [];
  memberships =
      membership 20 10 1 owner ∷ membership 21 11 1 admin ∷ membership 22 12 1 member ∷ [];
  invites = [];
  outbox_events = [];
  delivery_claims = [];
  platform_staff = [];
  audit_events = [];
  data_subject_requests = [];
  export_artifacts = [];
}

abbrev pub session : Db → Session
session db = record { db = db; in_transaction = false; limiter_calls = 0 }

abbrev pub acting : ℕ → AuditContext
acting user_id = record { actor_user_id = some user_id }
