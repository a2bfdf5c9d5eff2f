-- ===== src/Access/Quota.antt =====
-- server/modules/access/credential_policy.py: what a credential or an agent may publish, and how often.
use infinitas_skill.Prelude.{
  ℕ, ◌+◌, String, Bool, true, false, Option, none, some, List, [], ◌==◌, ◌≡◌, refl, not, map,
  select, any, arith, suc, ◌*◌, ◌<◌, str_eq, if◌then◌else◌, All,
}
use infinitas_skill.Prelude.Text.{Text, strip, text_beq}
use infinitas_skill.Prelude.Result.{Result, forbidden, ensure, ◌>>=◌, ◌>>◌}
use infinitas_skill.RateLimit.Database.{RateLimitEntry, consume, upsert}
use infinitas_skill.RateLimit.Window.{entry-drop_none, consume-forgets}

-- "allowed_object_kinds" of a policy: absent, no list, or the texts of a list
pub data RawKinds : Type 0 where
  any_kind malformed : RawKinds
  kinds : List Text → RawKinds

-- A policy as its JSON object holds it. A limit that is no integer is none, and one below zero is
-- zero, which is all that is asked of it.
pub record RawPolicy : Type 0 where
  pub readonly : Bool
  pub max_daily_publishes : Option ℕ
  pub allowed_object_kinds : RawKinds
  pub auto_public_publish : Bool

pub record CredentialPolicy : Type 0 where
  pub readonly : Bool
  pub max_daily_publishes : Option ℕ
  pub allowed_object_kinds : Option (List Text)
  pub auto_public_publish : Bool

is_blank : Text → Bool
is_blank t = text_beq t []

read_kinds : RawKinds → Option (List Text)
unfolding is_blank strip
read_kinds any_kind = none
read_kinds malformed = some []
read_kinds (kinds items) = some (select (λ t. not (is_blank t)) (map strip items))

-- `resolve_service_policy`, and `resolve_credential_policy` for a policy that is loaded
unfoldable pub resolve_policy : RawPolicy → CredentialPolicy
unfolding read_kinds
resolve_policy raw = record {
  readonly = raw.readonly;
  max_daily_publishes = raw.max_daily_publishes;
  allowed_object_kinds = read_kinds raw.allowed_object_kinds;
  auto_public_publish = raw.auto_public_publish;
}

-- `load_credential_policy_mapping`: the policy of the grant that is found, else that of the selector
unfoldable pub load_credential_policy_mapping : Option RawPolicy → RawPolicy → RawPolicy
load_credential_policy_mapping none selector = selector
load_credential_policy_mapping (some constraints) selector = constraints

-- `assert_credential_mutation_allowed` and `assert_agent_publish_allowed`
unfoldable pub assert_mutation_allowed : CredentialPolicy → Text → Result (Unit {0})
unfolding ◌>>=◌
assert_mutation_allowed policy object_kind =
    ensure (not policy.readonly) (forbidden "credential is read-only")
    >> ensure
        (elim policy.allowed_object_kinds [
          | none ↦ true
          | some allowed ↦ any (text_beq object_kind) allowed
        ])
        (forbidden "credential policy does not allow object kind")

abbrev pub daily_window_seconds : ℕ
daily_window_seconds = 86400

-- `consume_credential_publish_quota` and `consume_publish_quota_for_principal`, for the key that they
-- make of the id; whether they return, and the table after it
unfoldable pub consume_publish_quota :
    CredentialPolicy → String → ℕ → List RateLimitEntry → Bool × List RateLimitEntry
unfolding consume
consume_publish_quota policy key now rows = elim policy.max_daily_publishes [
  | none ↦ (true, rows)
  | some limit ↦
      if limit == 0 then (false, rows) else consume key now limit daily_window_seconds rows
]

-- When another key attempts something with a shorter window, which a login or a share link does, a
-- credential whose rows started more than two of these windows ago publishes again, however many
-- times it has published in its day: the quota is forgotten.
pub quota_forgotten :
    (policy : CredentialPolicy) (limit : ℕ) (key other : String)
    (now max_attempts window_seconds later : ℕ) (rows : List RateLimitEntry)
    → policy.max_daily_publishes ≡ some (suc limit)
    → str_eq other key ≡ false
    → 0 < max_attempts
    → All
        (λ (e : RateLimitEntry).
          str_eq e.key key ≡ true → e.window_start + window_seconds * 2 < now)
        rows
    → (consume_publish_quota policy key later
        (consume other now max_attempts window_seconds rows).1).0
      ≡ true
unfolding consume_publish_quota consume upsert
quota_forgotten policy limit key other now max_attempts window_seconds later rows h n m l =
    let rows' = (consume other now max_attempts window_seconds rows).1 in
    let gone = consume-forgets key other now max_attempts window_seconds rows n m l in
    let absent = entry-drop_none key later (daily_window_seconds * 2) rows' gone in
    let positive : (suc limit == 0) ≡ false = ground arith in
    rw (h, consume_publish_quota) (rw (absent, upsert, positive) refl)
