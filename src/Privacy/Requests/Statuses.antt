-- ===== src/Privacy/Requests/Statuses.antt =====
-- The requests as a board that shows the status of each, and what a write does to it.
use mathlib.Core.Path.{fun_ext}
use fastapi_saas_template.Prelude.{
  ℕ, Bool, true, false, ◌≡◌, refl, Option, some, none, arith, ◌==◌, List, [], ◌∷◌, ◌++◌, find_first,
  update, has_key, find_first-holds, find_first-update_key, find_first-update_other,
  find_first-append_other, find_first-append_new, Bool-cases, inl, inr, if◌then◌else◌,
}
use fastapi_saas_template.Session.{Db}
use fastapi_saas_template.Models.DataSubjectRequest.{
  DataSubjectRequest, DataSubjectRequestStatus, key, submitted, is_approved,
}
use fastapi_saas_template.Privacy.Requests.Repository.{get_by_id, is_current}
use fastapi_saas_template.Privacy.Requests.Checks.{is_allowed}
use fastapi_saas_template.Privacy.Requests.Lawful.{MayMove}

abbrev pub Board : Type 0
Board = ℕ → Option DataSubjectRequestStatus

abbrev pub shown : Option DataSubjectRequest → Option DataSubjectRequestStatus
shown none = none
shown (some r) = some r.status

-- The status that each request has in the table.
abbrev pub board : Db → Board
board db id = shown (get_by_id id db)

abbrev pub put : Board → ℕ → DataSubjectRequestStatus → Board
put b id status j = if id == j then some status else b j

-- What may happen on a board: nothing, a new request, or a move of the table of transitions.
pub data BoardStep (b b' : Board) : Type 0 where
  stay : b' ≡ b → BoardStep b b'
  open_request : (id : ℕ) → b id ≡ none → b' ≡ put b id submitted → BoardStep b b'
  move :
      (id : ℕ) (current next : DataSubjectRequestStatus)
      → b id ≡ some current
      → is_allowed current next ≡ true
      → b' ≡ put b id next
      → BoardStep b b'

module _ (request_id : ℕ) (next : DataSubjectRequestStatus) (db : Db) (r : DataSubjectRequest) where
  MayMove-current : MayMove request_id next db r → is_current request_id r.status next r ≡ true
  unfolding get_by_id
  MayMove-current h =
      let same : (r.id == request_id) ≡ true =
        find_first-holds (λ x. x.id == request_id) db.data_subject_requests r h.found in
      elim (Bool-cases (is_approved next)) [
        | inl e ↦ ground (arith, h.authorised e)
        | inr e ↦ ground arith
      ]

  -- A transition's UPDATE moves one request on the board.
  pub moved_board :
      (new : Db) (f : DataSubjectRequest → DataSubjectRequest)
      → MayMove request_id next db r
      → ((x : DataSubjectRequest) → (f x).id ≡ x.id)
      → ((x : DataSubjectRequest) → (f x).status ≡ next)
      → new.data_subject_requests
        ≡ update (is_current request_id r.status next) f db.data_subject_requests
      → board new ≡ put (board db) request_id next
  unfolding get_by_id
  moved_board new f h ids statuses e = fun_ext λ j. elim (Bool-cases (request_id == j)) [
    | inl this ↦
        let j_is : request_id ≡ j = ground arith in
        let found =
          find_first-update_key key (is_current request_id r.status next) f ids request_id
            db.data_subject_requests r (λ x p. ground arith) h.found (MayMove-current h) in
        rw (this, e, ← j_is, found, statuses r) refl
    | inr other ↦
        let kept =
          find_first-update_other key (is_current request_id r.status next) f ids j request_id
            db.data_subject_requests (λ x p. ground arith) other in
        rw (other, e, kept) refl
  ]

-- An UPDATE that keeps ids and statuses leaves the board as it is.
pub kept_status :
    (p : DataSubjectRequest → Bool) (f : DataSubjectRequest → DataSubjectRequest) (j : ℕ)
    (rows : List DataSubjectRequest)
    → ((x : DataSubjectRequest) → (f x).id ≡ x.id)
    → ((x : DataSubjectRequest) → (f x).status ≡ x.status)
    → shown (find_first (λ x. x.id == j) (update p f rows))
      ≡ shown (find_first (λ x. x.id == j) rows)
unfolding find_first update
kept_status p f j [] ids statuses = refl
kept_status p f j (x ∷ xs) ids statuses =
    let rest = kept_status p f j xs ids statuses in
    elim (Bool-cases (p x)) [
      | inl hit ↦ elim (Bool-cases (x.id == j)) [
        | inl this ↦ rw (hit, ids x, this, statuses x) refl
        | inr other ↦ rw (hit, ids x, other) rest
      ]
      | inr miss ↦ elim (Bool-cases (x.id == j)) [
        | inl this ↦ rw (miss, this) refl
        | inr other ↦ rw (miss, other) rest
      ]
    ]

pub created_board :
    (old new : Db) (m : DataSubjectRequest) (id : ℕ)
    → has_key key id old.data_subject_requests ≡ false
    → m.id ≡ id
    → m.status ≡ submitted
    → new.data_subject_requests ≡ old.data_subject_requests ++ m ∷ []
    → BoardStep (board old) (board new)
unfolding get_by_id
created_board old new m id fresh with_id status e =
    let (absent, present) =
      find_first-append_new key id old.data_subject_requests m fresh with_id in
    open_request id (rw absent refl) (
      fun_ext λ j. elim (Bool-cases (id == j)) [
        | inl this ↦ let j_is : id ≡ j = ground arith in rw (this, e, ← j_is, present, status) refl
        | inr other ↦
            rw
              (
                other,
                e,
                find_first-append_other key j old.data_subject_requests m (rw with_id other),
              )
              refl
      ])
