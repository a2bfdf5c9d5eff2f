-- ===== src/Visibility/Safety.antt =====
-- What every sequence of service calls keeps true of exposures and their reviews.
pub mod Calls
pub mod Changes
pub mod Published
use mathlib.Core.Bool.{false≢true}
use infinitas_skill.Prelude.{
  ℕ, String, Bool, true, false, Option, none, some, List, [], ◌∷◌, any, not, ◌&&◌, ◌||◌, ◌==◌, ◌≢◌,
  ◌⊎◌, inl, inr, Option-cases, if◌then◌else◌, ◌≡◌, refl, sym, subst, ◌∙◌, All, All-mono, arith,
}
use infinitas_skill.Prelude.Result.{
  Result, ok, err, Ensures, Ensures-ok, Ensures-err, Ensures-bind, Ensures-guard, Ensures-require,
}
use infinitas_skill.Prelude.Table.{
  get, put, next_id, latest, All-put, All-get, get-key, any_of_latest,
}
use infinitas_skill.Prelude.Table.Keys.{
  HasKeys, put-HasKeys, next_id-HasKeys, latest-get, any-put, any-put_self,
}
use infinitas_skill.Visibility.Model.{
  Db, AuditEvent, Exposure, ReviewCase, ReviewMode, Decision, PolicySnapshot, of_request, of_intent,
  approve, reject, comment, is_open, is_blocking, is_active, is_approved, is_public, exposure_row,
  case_row,
}
use infinitas_skill.Visibility.Release.{
  get_release_or_404, get_release_snapshot, append_audit_event,
}
use infinitas_skill.Visibility.Review.{
  flush_exposure, of_exposure, open_of_exposure, audit_exposure_activation, get_review_case_or_404,
  decide, decided, judged, open_review_case, ensure_default_policy, new_case,
}
use infinitas_skill.Visibility.Exposure.{Caller, audit_exposure}

-- The case of an exposure that was approved
abbrev pub approved_of : ℕ → ReviewCase → Bool
approved_of exposure_id c = of_exposure exposure_id c && is_approved c.state

-- Published by `finalize_publish_intent` for an agent whose policy had "auto_public_publish"
abbrev pub is_agent_published : PolicySnapshot → Bool
is_agent_published (of_request snapshot) = false
is_agent_published (of_intent intent_id auto_public_publish) = auto_public_publish

-- A public exposure requires a blocking review or was published for an agent whose policy allows it,
-- and an active one that requires a blocking review has one that was approved.
abbrev pub is_reviewed : List ReviewCase → Exposure → Bool
is_reviewed cases e =
    (not (is_public e.audience_type)
      || (is_blocking e.review_requirement || is_agent_published e.policy_snapshot))
    && (not (is_blocking e.review_requirement && is_active e.state) || any (approved_of e.id) cases)

abbrev pub Reviewed : List ReviewCase → Exposure → Type 0
Reviewed cases e = is_reviewed cases e ≡ true

pub record IsSafe (db : Db) : Type 0 where
  pub case_keys : HasKeys db.cases
  pub reviewed : All (Reviewed db.cases) db.exposures

pub Reviewed-mono :
    (cases cases' : List ReviewCase)
    → ((i : ℕ) → any (approved_of i) cases ≡ true → any (approved_of i) cases' ≡ true)
    → (e : Exposure) → Reviewed cases e
    → Reviewed cases' e
Reviewed-mono cases cases' k e h = ground (arith, k e.id)

-- The two tables that matter determine safety.
pub IsSafe-frame :
    (db db' : Db) → db.cases ≡ db'.cases → db.exposures ≡ db'.exposures → IsSafe db → IsSafe db'
IsSafe-frame db db' c e s = record {
  case_keys = rw (← c) s.case_keys;
  reviewed = rw (← c, ← e) s.reviewed;
}

pub flush_frame :
    (db : Db) (e : Exposure) (db' : Db)
    → flush_exposure db e ≡ ok db'
    → (db.cases ≡ db'.cases) × (put e db.exposures ≡ db'.exposures)
unfolding flush_exposure
flush_frame db e db' h = ground arith

pub flush-IsSafe :
    (db : Db) (e : Exposure)
    → IsSafe db
    → Reviewed db.cases e
    → Ensures IsSafe (flush_exposure db e)
flush-IsSafe db e s r = record {
  at = λ db' q.
      let (c, x) = flush_frame db e db' q in
      IsSafe-frame (record db { exposures = put e db.exposures }) db' c x
        (record {
          case_keys = s.case_keys;
          reviewed = All-put (Reviewed db.cases) e db.exposures r s.reviewed;
        });
}

pub audit-IsSafe :
    (db : Db) (e : Exposure) (event_type : String) (caller : Caller)
    → IsSafe db
    → Ensures IsSafe (audit_exposure db e event_type caller)
unfolding audit_exposure
audit-IsSafe db e event_type caller s = Ensures-bind _ _ λ release _.
    Ensures-bind _ _
      λ snapshot _. Ensures-ok _ (record { case_keys = s.case_keys; reviewed = s.reviewed })

pub policy_frame :
    (db : Db)
    → ((ensure_default_policy db).1.cases ≡ db.cases)
      × ((ensure_default_policy db).1.exposures ≡ db.exposures)
unfolding ensure_default_policy
policy_frame db = ground arith

-- Opening a case adds one row, which is open, or none.
open_frame :
    (db : Db) (e : Exposure) (p : ℕ) (m : ReviewMode)
    → let (policy, db') = ensure_default_policy db in
      ((open_review_case db e p m).1.exposures ≡ db.exposures)
      × (((open_review_case db e p m).1.cases ≡ db.cases)
          ⊎ ((open_review_case db e p m).1.cases ≡ new_case db' e.id policy.id p m ∷ db'.cases))
unfolding open_review_case
open_frame db e p m = elim (Option-cases (latest (open_of_exposure e.id) db.cases)) [
  | inl q ↦ rw (q, open_review_case) ((policy_frame db).1, inr refl)
  | inr (c, q) ↦ rw (q, open_review_case) (refl, inl refl)
]

added-IsSafe :
    (db db' : Db) (c : ReviewCase)
    → db'.exposures ≡ db.exposures
    → db'.cases ≡ c ∷ db.cases
    → c.id ≡ next_id db.cases
    → IsSafe db
    → IsSafe db'
added-IsSafe db db' c x y k s = record {
  case_keys = rw y (next_id-HasKeys c db.cases k s.case_keys);
  reviewed =
      rw (x, y)
        (All-mono (Reviewed db.cases) (Reviewed (c ∷ db.cases)) db.exposures
          (Reviewed-mono db.cases (c ∷ db.cases) (λ i h. ground arith)) s.reviewed);
}

pub open-IsSafe :
    (db : Db) (e : Exposure) (p : ℕ) (m : ReviewMode)
    → IsSafe db
    → IsSafe (open_review_case db e p m).1
unfolding new_case
open-IsSafe db e p m s =
    let db1 = (ensure_default_policy db).1 in
    let s1 : IsSafe db1 =
      IsSafe-frame db db1 (sym (policy_frame db).0) (sym (policy_frame db).1) s in
    let (x, y) = open_frame db e p m in
    elim y [
      | inl same ↦ IsSafe-frame db (open_review_case db e p m).1 (sym same) (sym x) s
      | inr new ↦
          added-IsSafe db1 (open_review_case db e p m).1
            (new_case db1 e.id (ensure_default_policy db).0.id p m) (x ∙ sym (policy_frame db).1)
            new refl s1
    ]

pub decided_key : (c : ReviewCase) (d : Decision) (now : ℕ) → (decided c d now).id ≡ c.id
unfolding decided
decided_key c approve now = refl
decided_key c reject now = refl
decided_key c comment now = refl

decided_exposure :
    (c : ReviewCase) (d : Decision) (now : ℕ) → (decided c d now).exposure_id ≡ c.exposure_id
unfolding decided
decided_exposure c approve now = refl
decided_exposure c reject now = refl
decided_exposure c comment now = refl

pub not_approved : (i : ℕ) (c : ReviewCase) → is_open c.state ≡ true → approved_of i c ≡ false
not_approved i c h = ground arith

-- Rewriting an open case takes no approval away.
pub replaced-IsSafe :
    (db : Db) (c next : ReviewCase)
    → next.id ≡ c.id
    → get c.id db.cases ≡ some c
    → is_open c.state ≡ true
    → IsSafe db
    → IsSafe (record db { cases = put next db.cases })
replaced-IsSafe db c next k found o s =
    let found' = subst (λ i. get i db.cases ≡ some c) (sym k) found in
    record {
      case_keys = put-HasKeys next db.cases s.case_keys;
      reviewed =
          All-mono (Reviewed db.cases) (Reviewed (put next db.cases)) db.exposures
            (Reviewed-mono db.cases (put next db.cases) λ i.
              any-put (approved_of i) next c db.cases s.case_keys found'
                (λ q. absurd (false≢true (sym (not_approved i c o) ∙ q))))
            s.reviewed;
    }

judged-Reviewed :
    (cases : List ReviewCase) (e : Exposure) (c : ReviewCase) (d : Decision) (now : ℕ)
    → e.id ≡ c.exposure_id
    → get c.id cases ≡ some c
    → Reviewed (put (decided c d now) cases) e
    → Reviewed (put (decided c d now) cases) (judged e (decided c d now).mode d now)
unfolding decided judged
judged-Reviewed cases e c approve now k found r =
    let next = decided c approve now in
    ground (arith, any-put_self (approved_of e.id) next c cases found)
judged-Reviewed cases e c reject now k found r = ground arith
judged-Reviewed cases e c comment now k found r = r

logged-IsSafe :
    (b : Bool) (db : Db) (event : AuditEvent) (e : Exposure) (p : ℕ)
    → IsSafe db
    → IsSafe (
        if b
        then audit_exposure_activation (append_audit_event db event) e p
        else append_audit_event db event)
unfolding audit_exposure_activation append_audit_event
logged-IsSafe true db event e p s = record { case_keys = s.case_keys; reviewed = s.reviewed }
logged-IsSafe false db event e p s = record { case_keys = s.case_keys; reviewed = s.reviewed }

pub decide-IsSafe :
    (db : Db) (case_id reviewer : ℕ) (d : Decision) (note : String) (now : ℕ)
    → IsSafe db
    → Ensures (λ r. IsSafe r.2) (decide db case_id reviewer d note now)
unfolding decide get_review_case_or_404
decide-IsSafe db case_id reviewer d note now s = Ensures-require _ _ _ λ c found.
    Ensures-guard _ _ _ λ o. Ensures-require _ _ _ λ e there.
      let key = get-key case_id db.cases c found in
      let found' = subst (λ i. get i db.cases ≡ some c) (sym key) found in
      let next = decided c d now in
      let s1 = replaced-IsSafe db c next (decided_key c d now) found' o s in
      let k : e.id ≡ c.exposure_id =
        get-key next.exposure_id db.exposures e there ∙ decided_exposure c d now in
      let r = judged-Reviewed db.cases e c d now k found' (
        All-get (Reviewed (put next db.cases)) next.exposure_id db.exposures e s1.reviewed there) in
      Ensures-bind _ _ λ db2 flushed. Ensures-ok _ (
        logged-IsSafe _ db2 _ (judged e next.mode d now) _ (
          (flush-IsSafe _ (judged e next.mode d now)
              (record { case_keys = s1.case_keys; reviewed = s1.reviewed }) r).at
            db2 flushed))
