-- ===== src/Access/Examples.antt =====
-- Access to a release whose exposure was approved, and to one that is shown to a principal.
use infinitas_skill.Visibility.Model.{Exposure, is_active}
use infinitas_skill.Shares.Links.{is_enabled}
use infinitas_skill.Prelude.{
  List, any, ◌&&◌, ◌==◌, arith, true, false, none, some, [], ◌∷◌, ◌≡◌, refl, select,
}
use infinitas_skill.Prelude.Text.{codes, lower, strip}
use infinitas_skill.Prelude.Result.{◌>>=◌}
use infinitas_skill.Visibility.Exposure.{create_exposure}
use infinitas_skill.Visibility.Reviewing.{create_review_decision}
use infinitas_skill.Prelude.Table.{get, put, latest, next_id}
use infinitas_skill.Visibility.Examples.{start, start-IsSafe, approved_run}
use infinitas_skill.Visibility.History.{serve_all}
use infinitas_skill.Shares.Model.{Store}
use infinitas_skill.Access.Authz.{AccessContext, can_access_releases, can_access_release}
use infinitas_skill.Access.Each.{may_access, can_access_releases-each}
use infinitas_skill.RateLimit.Database.{RateLimitEntry, consume, upsert, entry_of, drop_before}
use infinitas_skill.Access.Quota.{CredentialPolicy, consume_publish_quota, quota_forgotten}
use infinitas_skill.Access.Grounds.{has_ground, can_access_release-has_ground}

abbrev member : AccessContext
member = record {
  credential_type = "personal_token";
  grant_id = none;
  principal_id = some 1;
  has_user = true;
  scopes = [];
}

abbrev store : Store
store = record { db = serve_all start approved_run; grants = []; credentials = []; audit = [] }

can_access_releases-each_example :
    can_access_releases store member (1 ∷ 2 ∷ []) ≡ select (may_access store member) (1 ∷ 2 ∷ [])
can_access_releases-each_example = can_access_releases-each store member (1 ∷ 2 ∷ [])

member_has_access : can_access_release store member 1 ≡ true
unfolding can_access_release can_access_releases serve_all create_review_decision create_exposure
    ◌>>=◌ get put latest next_id lower strip
member_has_access = refl

can_access_release-has_ground_example :
    any
      (λ (e : Exposure).
        (e.release_id == 1 && (is_active e.state && is_enabled e.install_mode))
        && has_ground store member e.audience_type e)
      (serve_all start approved_run).exposures
    ≡ true
can_access_release-has_ground_example =
    can_access_release-has_ground start approved_run store member 1 start-IsSafe refl refl
      member_has_access

-- A policy of two publishes a day
abbrev two_a_day : CredentialPolicy
two_a_day = record {
  readonly = false;
  max_daily_publishes = some 2;
  allowed_object_kinds = some (codes "skill" ∷ []);
  auto_public_publish = false;
}

-- Two publishes, and no third
abbrev used_up : List RateLimitEntry
used_up =
    record {
      id = 1;
      key = "credential-publish:7";
      window_start = 100;
      attempt_count = 2;
      created_at = 100;
      updated_at = 200;
    }
    ∷ []

third_refused : (consume_publish_quota two_a_day "credential-publish:7" 300 used_up).0 ≡ false
unfolding consume_publish_quota consume upsert entry_of drop_before
third_refused = refl

quota_forgotten_example :
    (consume_publish_quota two_a_day "credential-publish:7" 300
      (consume "login:bob" 290 5 60 used_up).1).0
    ≡ true
quota_forgotten_example =
    quota_forgotten two_a_day 1 "credential-publish:7" "login:bob" 290 5 60 300 used_up refl refl
      (omega arith) ((λ _. omega arith), tt)
