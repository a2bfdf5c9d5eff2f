-- ===== src/Shares/Model.antt =====
-- The tables of share links: grants, credentials and events beside those of the services.
use infinitas_skill.Prelude.{ℕ, String, Bool, Option, List}
use infinitas_skill.Prelude.Text.{Text}
use infinitas_skill.Prelude.Table.{Row}
use infinitas_skill.Visibility.Model.{Db, release_row, skill_row, principal_row, exposure_row}

-- `AccessGrant`; `name` is what `constraints_json` holds. Of `subject_ref` only the principal that it
-- names is kept: the id in "principal:<id>", none in the random references of links and tokens.
pub record AccessGrant : Type 0 where
  pub id : ℕ
  pub exposure_id : ℕ
  pub grant_type : String
  pub subject_principal_id : Option ℕ
  pub name : Text
  pub state : String
  pub expires_at : Option ℕ
  pub usage_limit : Option ℕ
  pub usage_count : ℕ
  pub created_by_principal_id : Option ℕ

instance abbrev pub grant_row : Row AccessGrant
grant_row = record { key = λ g. g.id }

-- The columns of `Credential` that share links use
pub record Credential : Type 0 where
  pub id : ℕ
  pub grant_id : Option ℕ
  pub type : String
  pub hashed_secret : Text
  pub expires_at : Option ℕ
  pub revoked_at : Option ℕ

instance abbrev pub credential_row : Row Credential
credential_row = record { key = λ c. c.id }

pub record ShareEvent : Type 0 where
  pub aggregate_id : ℕ
  pub event_type : String
  pub owner_principal_id : Option ℕ
  pub release_id : ℕ

-- The database: the tables of the services, and those of this module
pub record Store : Type 0 where
  pub db : Db
  pub grants : List AccessGrant
  pub credentials : List Credential
  pub audit : List ShareEvent

-- `ActorRef`, as the owner check reads it
pub record Actor : Type 0 where
  pub principal_id : ℕ
  pub is_maintainer : Bool

-- Hashing: identity/passwords.py and hash_token, over libraries
pub record Hashing : Type 0 where
  pub hash_share_password : Text → Text
  pub verify_password : Text → Text → Bool
  pub hash_token : Text → Text
