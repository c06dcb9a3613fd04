-- ===== src/Organisations/Slugs.antt =====
-- No two live organisations share a slug, and names and slugs are well formed.
use fastapi_saas_template.Prelude.{
  is_some, ℕ, true, false, not, ◌||◌, ◌≡◌, refl, ap, List, Option, none, some, arith, Text, AllRows,
  AllRows-append, AllRows-update, inl, inr, Bool-cases,
}
use fastapi_saas_template.Errors.{Result, ok, bind-ok}
use fastapi_saas_template.Exec.{◌>>=◌}
use fastapi_saas_template.Session.{Db, Tx}
use fastapi_saas_template.Session.Preserved.{
  Preserves, bind-Preserves, join_or_begin-Preserves, on_integrity_error-Preserves,
  limiter-Preserves,
}
use fastapi_saas_template.Audit.Events.{record_event, record_event-cases}
use fastapi_saas_template.Models.AuditEvent.{AuditContext, AuditEvent}
use fastapi_saas_template.Models.Organisation.{Organisation, index_holds, is_suspended}
use fastapi_saas_template.Memberships.Repository as Memberships
use fastapi_saas_template.Memberships.Repository.{deactivate_organisation_memberships}
use fastapi_saas_template.Organisations.Names.{
  is_blank, matches_slug, normalize_name, normalize_slug, normalize_name-ok, normalize_slug-ok,
}
use fastapi_saas_template.Organisations.Repository
use fastapi_saas_template.Organisations.Repository.{
  write, create, new_organisation, with_details, update_details, deleted,
}
use fastapi_saas_template.Organisations.Service.{
  create_unless_taken, normalized, create_organisation_in_transaction, create_organisation, Update,
  check_update, differs, normalize_optional, apply_update,
  update_organisation_details_in_transaction, update_organisation_details, apply_deletion,
  soft_delete_in_transaction, soft_delete,
}

-- A name that is not blank, a slug of lower-case letters, digits and hyphens, and a time of suspension
-- just while the organisation is suspended.
pub record IsWellFormed (o : Organisation) : Type 0 where
  pub name : is_blank o.name ≡ false
  pub slug : matches_slug o.slug ≡ true
  pub marked : is_some o.suspended_at ≡ is_suspended o.status

pub record OrganisationsSound (db : Db) : Type 0 where
  pub unique : index_holds db.organisations ≡ true
  pub named : AllRows IsWellFormed db.organisations

abbrev pub Keeps : {A : Type 0} → Tx A → Type 0
Keeps m = Preserves OrganisationsSound m

-- A flush is refused or leaves the index in order.
pub write-Keeps :
    (f : List Organisation → List Organisation)
    → ((rows : List Organisation) → AllRows IsWellFormed rows → AllRows IsWellFormed (f rows))
    → Keeps (write f)
unfolding write ◌>>=◌
write-Keeps f named s q = elim (Bool-cases (index_holds (f s.db.organisations))) [
  | inl e ↦ rw e (record { unique = e; named = named s.db.organisations q.named })
  | inr e ↦ rw e q
]

pub record_event-Keeps : (event : AuditEvent) → Keeps (record_event event)
record_event-Keeps event s q = elim (record_event-cases event s) [
  | inl e ↦ rw e (record { unique = q.unique; named = q.named })
  | inr (x, e) ↦ rw e q
]

memberships-Keeps :
    (organisation_id : ℕ) → Keeps (deactivate_organisation_memberships organisation_id)
unfolding deactivate_organisation_memberships Memberships.flush ◌>>=◌
memberships-Keeps organisation_id s q = record { unique = q.unique; named = q.named }

create-Keeps :
    (id : ℕ) (name slug : Text)
    → is_blank name ≡ false
    → matches_slug slug ≡ true
    → Keeps (create id name slug)
unfolding create
create-Keeps id name slug n l =
    bind-Preserves OrganisationsSound _ _ (λ s q. q)
      (λ s u e.
        bind-Preserves OrganisationsSound _ _
          (write-Keeps _ (λ rows a.
            AllRows-append IsWellFormed rows (new_organisation id name slug) a
              (record { name = n; slug = l; marked = refl })))
          (λ s' v e' s'' q. q))

create_unless_taken-Keeps :
    (id : ℕ) (name slug : Text) (existing : Option Organisation)
    → is_blank name ≡ false
    → matches_slug slug ≡ true
    → Keeps (create_unless_taken id (name, slug) existing)
unfolding create_unless_taken
create_unless_taken-Keeps id name slug none n l =
    on_integrity_error-Preserves OrganisationsSound _ _ (create-Keeps id name slug n l)
create_unless_taken-Keeps id name slug (some existing) n l = λ s q. q

normalized-ok :
    (name slug : Text) (p : Text × Text)
    → normalized name slug ≡ ok p
    → (is_blank p.0 ≡ false) × (matches_slug p.1 ≡ true)
unfolding normalized
normalized-ok name slug p h =
    let (n, e1, h1) = bind-ok (normalize_name name) _ p h in
    let (l, e2, h2) = bind-ok (normalize_slug slug) _ p h1 in
    let same : (n, l) ≡ p = cc (ap (λ (r : Result (Text × Text)). r) h2) in
    rw (← same) (normalize_name-ok name n e1, normalize_slug-ok slug l e2)

pub create_organisation-Keeps :
    (id : ℕ) (name slug : Text) → Keeps (create_organisation id name slug)
unfolding create_organisation create_organisation_in_transaction
create_organisation-Keeps id name slug = join_or_begin-Preserves OrganisationsSound _ (
    bind-Preserves OrganisationsSound _ _ (λ s q. q)
      (λ s names e.
        let good = normalized-ok name slug names e in
        bind-Preserves OrganisationsSound _ _ (λ s' q. q)
          (λ s' existing e'. create_unless_taken-Keeps id names.0 names.1 existing good.0 good.1)))

pub normalize_optional-name :
    (name n : Option Text)
    → normalize_optional normalize_name name ≡ ok n
    → (t : Text) → n ≡ some t
    → is_blank t ≡ false
normalize_optional-name none n h t e = absurd (cc (h, e))
normalize_optional-name (some x) n h t e =
    let (y, e1, h1) = bind-ok (normalize_name x) _ n h in
    let same : some y ≡ n = cc (ap (λ (r : Result (Option Text)). r) h1) in
    let one : y ≡ t = cc (same, e) in rw (← one) (normalize_name-ok x y e1)

pub normalize_optional-slug :
    (slug l : Option Text)
    → normalize_optional normalize_slug slug ≡ ok l
    → (t : Text) → l ≡ some t
    → matches_slug t ≡ true
normalize_optional-slug none l h t e = absurd (cc (h, e))
normalize_optional-slug (some x) l h t e =
    let (y, e1, h1) = bind-ok (normalize_slug x) _ l h in
    let same : some y ≡ l = cc (ap (λ (r : Result (Option Text)). r) h1) in
    let one : y ≡ t = cc (same, e) in rw (← one) (normalize_slug-ok x y e1)

-- What an update writes is well formed.
pub record IsNormal (u : Update) : Type 0 where
  pub name : (t : Text) → u.name ≡ some t → is_blank t ≡ false
  pub slug : (t : Text) → u.slug ≡ some t → matches_slug t ≡ true

check_update-IsNormal :
    (organisation_id actor_user_id : ℕ) (name slug : Option Text) (db : Db) (u : Update)
    → check_update organisation_id actor_user_id name slug db ≡ ok u
    → IsNormal u
unfolding check_update
check_update-IsNormal organisation_id actor_user_id name slug db u h = record {
  name = λ t e. normalize_optional-name name u.name (ground arith) t e;
  slug = λ t e. normalize_optional-slug slug u.slug (ground arith) t e;
}

with_details-IsWellFormed :
    (name slug : Option Text) (o : Organisation)
    → ((t : Text) → name ≡ some t → is_blank t ≡ false)
    → ((t : Text) → slug ≡ some t → matches_slug t ≡ true)
    → IsWellFormed o
    → IsWellFormed (with_details name slug o)
with_details-IsWellFormed none none o n l q = record {
  name = q.name;
  slug = q.slug;
  marked = q.marked;
}
with_details-IsWellFormed none (some y) o n l q = record {
  name = q.name;
  slug = l y refl;
  marked = q.marked;
}
with_details-IsWellFormed (some x) none o n l q = record {
  name = n x refl;
  slug = q.slug;
  marked = q.marked;
}
with_details-IsWellFormed (some x) (some y) o n l q = record {
  name = n x refl;
  slug = l y refl;
  marked = q.marked;
}

pub update_details-Keeps :
    (o : Organisation) (name slug : Option Text)
    → ((t : Text) → name ≡ some t → is_blank t ≡ false)
    → ((t : Text) → slug ≡ some t → matches_slug t ≡ true)
    → Keeps (update_details o name slug)
unfolding update_details
update_details-Keeps o name slug n l =
    bind-Preserves OrganisationsSound _ _
      (write-Keeps _ (λ rows a.
        AllRows-update IsWellFormed _ _ rows
          (λ x i h q. with_details-IsWellFormed name slug x n l q) a))
      (λ s v e s' q. q)

module _ (audit_context : AuditContext) (limiter : Option (Result (Unit {0}))) where
  apply_update-Keeps : (u : Update) → IsNormal u → Keeps (apply_update audit_context limiter u)
  unfolding apply_update
  apply_update-Keeps u normal =
      elim (Bool-cases
        (not (differs u.name u.organisation.name || differs u.slug u.organisation.slug))) [
          | inl e ↦ rw e (λ s q. q)
          | inr e ↦ rw e (
              bind-Preserves OrganisationsSound _ _ (limiter-Preserves OrganisationsSound limiter)
                (λ s v e1.
                  bind-Preserves OrganisationsSound _ _
                    (on_integrity_error-Preserves OrganisationsSound _ _
                      (update_details-Keeps u.organisation u.name u.slug normal.name normal.slug))
                    (λ s' updated e2.
                      bind-Preserves OrganisationsSound _ _ (record_event-Keeps _)
                        (λ s'' w e3 t q. q))))
        ]

  pub update_organisation_details-Keeps :
      (organisation_id actor_user_id : ℕ) (name slug : Option Text)
      → Keeps (
          update_organisation_details audit_context limiter organisation_id actor_user_id name slug)
  unfolding update_organisation_details update_organisation_details_in_transaction
  update_organisation_details-Keeps organisation_id actor_user_id name slug =
      bind-Preserves OrganisationsSound _ _ (λ s q. q)
        (λ s v e. join_or_begin-Preserves OrganisationsSound _ (
          bind-Preserves OrganisationsSound _ _ (λ s' q. q)
            (λ s' u e'.
              apply_update-Keeps u
                (check_update-IsNormal organisation_id actor_user_id name slug s'.db u e'))))

  pub soft_delete-Keeps :
      (now organisation_id actor_user_id : ℕ) (reason : Option Text)
      → Keeps (soft_delete audit_context limiter now organisation_id actor_user_id reason)
  unfolding soft_delete soft_delete_in_transaction apply_deletion Repository.soft_delete
  soft_delete-Keeps now organisation_id actor_user_id reason =
      bind-Preserves OrganisationsSound _ _ (λ s q. q)
        (λ s v e. join_or_begin-Preserves OrganisationsSound _ (
          bind-Preserves OrganisationsSound _ _ (λ s' q. q)
            (λ s' o e'.
              bind-Preserves OrganisationsSound _ _ (limiter-Preserves OrganisationsSound limiter)
                (λ s1 v1 e1.
                  bind-Preserves OrganisationsSound _ _ (memberships-Keeps organisation_id)
                    (λ s2 v2 e2.
                      bind-Preserves OrganisationsSound _ _
                        (bind-Preserves OrganisationsSound _ _
                          (write-Keeps _ (λ rows a.
                            AllRows-update IsWellFormed _ _ rows
                              (λ x i h q. record {
                                name = q.name;
                                slug = q.slug;
                                marked = q.marked;
                              })
                              a))
                          (λ s3 v3 e3 s4 q. q))
                        (λ s5 deleted e5.
                          bind-Preserves OrganisationsSound _ _ (record_event-Keeps _)
                            (λ s6 w e6 t q. q)))))))
