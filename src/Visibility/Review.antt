-- ===== src/Visibility/Review.antt =====
-- server/modules/review/service.py: review cases and decisions.
use infinitas_skill.Prelude.{
  ℕ, String, Bool, true, false, Option, none, some, ◌∷◌, any, not, ◌&&◌, ◌==◌, is_some, str_eq,
  if◌then◌else◌,
}
use infinitas_skill.Prelude.Text.{Text, codes, strip, lower, text_beq}
use infinitas_skill.Prelude.Result.{
  Result, ok, err, not_found, conflict, runtime_error, ◌>>=◌, ◌>>◌, ensure, require,
}
use infinitas_skill.Prelude.Table.{get, put, next_id, latest}
use infinitas_skill.Visibility.Model.{
  Db, Exposure, ReviewPolicy, ReviewCase, ReviewDecision, ReviewMode, Decision, approve, reject,
  comment, opened, approved, turned_down, closed, active, rejected, is_open, is_active, is_closed,
  is_blocking, same_audience, by_principal, exposure_payload, case_opened, decision_recorded,
  release_row, skill_row, exposure_row, policy_row, case_row, decision_row,
}
use infinitas_skill.Visibility.Release.{append_audit_event}

unfoldable pub owner_principal_id_for_exposure : Db → Exposure → Option ℕ
owner_principal_id_for_exposure db exposure = elim (get exposure.release_id db.releases) [
  | none ↦ exposure.requested_by_principal_id
  | some release ↦ elim release.skill_id [
    | none ↦ exposure.requested_by_principal_id
    | some skill_id ↦ elim (get skill_id db.skills) [
      | none ↦ exposure.requested_by_principal_id
      | some skill ↦ some skill.namespace_id
    ]
  ]
]

-- `_audit_exposure_activation`
unfoldable pub audit_exposure_activation : Db → Exposure → ℕ → Db
unfolding append_audit_event owner_principal_id_for_exposure
audit_exposure_activation db exposure actor_principal_id =
    let skill_id : Option ℕ = elim (get exposure.release_id db.releases) [
      | none ↦ none
      | some release ↦ release.skill_id
    ] in
    append_audit_event db (record {
      aggregate_type = "exposure";
      aggregate_id = exposure.id;
      event_type = "exposure.activated";
      actor_ref = by_principal actor_principal_id;
      owner_principal_id = owner_principal_id_for_exposure db exposure;
      payload =
          exposure_payload skill_id exposure.release_id exposure.id exposure.audience_type
            exposure.state;
    })

abbrev pub default_policy_name : String
default_policy_name = "private-first-default"

abbrev pub default_policy_version : String
default_policy_version = "1"

-- `ensure_default_policy`; with one writer the insertion meets no integrity error.
unfoldable pub ensure_default_policy : Db → ReviewPolicy × Db
ensure_default_policy db =
    elim (latest
      (λ (p : ReviewPolicy).
        str_eq p.name default_policy_name && str_eq p.version default_policy_version)
      db.policies) [
        | some policy ↦ (policy, db)
        | none ↦
            let policy : ReviewPolicy = record {
              id = next_id db.policies;
              name = default_policy_name;
              version = default_policy_version;
              is_active = true;
            } in
            (policy, record db { policies = policy ∷ db.policies })
      ]

unfoldable pub get_review_case_or_404 : Db → ℕ → Result ReviewCase
get_review_case_or_404 db review_case_id =
    require (get review_case_id db.cases) (not_found "review case not found")

abbrev pub of_exposure : ℕ → ReviewCase → Bool
of_exposure exposure_id c = c.exposure_id == exposure_id

abbrev pub open_of_exposure : ℕ → ReviewCase → Bool
open_of_exposure exposure_id c = of_exposure exposure_id c && is_open c.state

unfoldable pub get_open_review_case_for_exposure : Db → ℕ → Option ReviewCase
get_open_review_case_for_exposure db exposure_id = latest (open_of_exposure exposure_id) db.cases

unfoldable pub get_latest_review_case_for_exposure : Db → ℕ → Option ReviewCase
get_latest_review_case_for_exposure db exposure_id = latest (of_exposure exposure_id) db.cases

-- `close_review_case`
unfoldable pub close_review_case : Db → ReviewCase → ℕ → Db
close_review_case db review_case now =
    if is_open review_case.state
    then record db {
      cases = put (record review_case { state = closed; closed_at = some now }) db.cases;
    }
    else db

-- The row that `open_review_case` inserts
unfoldable pub new_case : Db → ℕ → ℕ → ℕ → ReviewMode → ReviewCase
new_case db exposure_id policy_id actor_principal_id mode = record {
  id = next_id db.cases;
  exposure_id = exposure_id;
  policy_id = some policy_id;
  mode = mode;
  state = opened;
  opened_by_principal_id = some actor_principal_id;
  closed_at = none;
}

-- `open_review_case`; with one writer the insertion meets no integrity error, since the query
-- before it has found no open case.
unfoldable pub open_review_case : Db → Exposure → ℕ → ReviewMode → ReviewCase × Db
unfolding get_open_review_case_for_exposure ensure_default_policy append_audit_event
    owner_principal_id_for_exposure new_case
open_review_case db exposure actor_principal_id mode =
    elim (get_open_review_case_for_exposure db exposure.id) [
      | some existing ↦ (existing, db)
      | none ↦
          let (policy, db') = ensure_default_policy db in
          let review_case = new_case db' exposure.id policy.id actor_principal_id mode in
          (
            review_case,
            append_audit_event (record db' { cases = review_case ∷ db'.cases })
                (record {
                  aggregate_type = "review_case";
                  aggregate_id = review_case.id;
                  event_type = "review_case.opened";
                  actor_ref = by_principal actor_principal_id;
                  owner_principal_id = owner_principal_id_for_exposure db' exposure;
                  payload = case_opened exposure.release_id exposure.id review_case.id mode;
                }),
          )
    ]

-- The unique index `uq_exposures_open_release_audience`, as it meets one row
abbrev pub clashes : Exposure → Exposure → Bool
clashes e other =
    not (other.id == e.id)
    && (other.release_id == e.release_id
        && (same_audience other.audience_type e.audience_type && not (is_closed other.state)))

-- The flush of a changed exposure; the index refuses a second open one.
unfoldable pub flush_exposure : Db → Exposure → Result Db
flush_exposure db e =
    if not (is_closed e.state) && any (clashes e) db.exposures
    then err (runtime_error "IntegrityError")
    else ok (record db { exposures = put e db.exposures })

-- `normalized_decision`
unfoldable pub read_decision : Text → Option Decision
read_decision s =
    if text_beq s (codes "approve")
    then some approve
    else if text_beq s (codes "reject")
    then some reject
    else if text_beq s (codes "comment")
    then some comment
    else none

unfoldable pub decided : ReviewCase → Decision → ℕ → ReviewCase
decided c approve now = record c { state = approved; closed_at = some now }
decided c reject now = record c { state = turned_down; closed_at = some now }
decided c comment now = record c { state = opened }

-- The exposure after the decision: only a case in blocking mode changes it.
unfoldable pub judged : Exposure → ReviewMode → Decision → ℕ → Exposure
judged e mode approve now =
    if is_blocking mode
    then record e {
      state = active;
      activated_at = if is_some e.activated_at then e.activated_at else some now;
    }
    else e
judged e mode reject now =
    if is_blocking mode then record e { state = rejected; ended_at = some now } else e
judged e mode comment now = e

-- `exposure_activated`
unfoldable pub newly_activated : Exposure → ReviewMode → Decision → Bool
newly_activated e mode approve = is_blocking mode && not (is_active e.state)
newly_activated e mode _ = false

-- `record_decision`, from the normalised word on; the `UPDATE ... WHERE state = 'open'` touches
-- one row or none.
unfoldable pub decide : Db → ℕ → ℕ → Decision → String → ℕ → Result (ReviewCase × Exposure × Db)
unfolding get_review_case_or_404 flush_exposure append_audit_event owner_principal_id_for_exposure
    audit_exposure_activation decided judged newly_activated
decide db review_case_id reviewer_principal_id decision note now = do
  review_case ← get_review_case_or_404 db review_case_id
  ensure (is_open review_case.state) (conflict "review case is already closed")
  let next = decided review_case decision now
  let db1 = record db { cases = put next db.cases }
  exposure ← require (get next.exposure_id db1.exposures) (not_found "exposure not found")
  let row =
      let d : ReviewDecision = record {
        id = next_id db1.decisions;
        review_case_id = next.id;
        reviewer_principal_id = some reviewer_principal_id;
        decision = decision;
        note = note;
      } in
      d
  let exposure' = judged exposure next.mode decision now
  db2 ← flush_exposure (record db1 { decisions = row ∷ db1.decisions }) exposure'
  let db3 = append_audit_event db2 (record {
    aggregate_type = "review_case";
    aggregate_id = next.id;
    event_type = "review_decision.recorded";
    actor_ref = by_principal reviewer_principal_id;
    owner_principal_id = owner_principal_id_for_exposure db2 exposure';
    payload = decision_recorded exposure'.release_id exposure'.id next.id decision next.state;
  })
  ok (
    next,
    exposure',
    if newly_activated exposure next.mode decision
        then audit_exposure_activation db3 exposure' reviewer_principal_id
        else db3,
  )

unfoldable pub record_decision :
    Db → ℕ → ℕ → Text → String → ℕ → Result (ReviewCase × Exposure × Db)
unfolding read_decision decide
record_decision db review_case_id reviewer_principal_id decision note now = do
  normalized ←
      require (read_decision (lower (strip decision))) (conflict "unsupported review decision")
  decide db review_case_id reviewer_principal_id normalized note now
