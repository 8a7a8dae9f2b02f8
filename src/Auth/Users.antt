-- ===== src/Auth/Users.antt =====
-- The administrators, as the database keeps them, and what `AuthService` is given
-- (src/auth/auth.service.ts, prisma/schema.prisma). The database is an interface; the hashes of
-- passwords, the signature of a token and the services' clocks are arguments.
use facturify.Base.{ℕ, ◌≤◌, ◌≡◌, Bool, Option, none, some, List, [], ◌∷◌}
use facturify.Js.Text.{Text, codes}
use facturify.Throttle.{AuthThrottle}
use facturify.Password.Text.{Letters}
use facturify.AdminToken.Claims.{AdminTokenClaims}

pub data AdminRole : Type 0 where
  admin superadmin : AdminRole

abbrev pub role_name : AdminRole → Text
role_name admin = codes "ADMIN"
role_name superadmin = codes "SUPERADMIN"

pub record AdminUser : Type 0 where
  pub id : Text
  pub email : Text
  pub name : Text
  pub password_hash : Text
  pub password_salt : Text
  pub role : AdminRole
  pub active : Bool

-- What the database stores of a new administrator.
pub record NewUser : Type 0 where
  pub email : Text
  pub name : Text
  pub password_hash : Text
  pub role : AdminRole

-- `create` gives the stored user, unless the database fails.
pub record UserStore : Type 1 where
  pub Db : Type 0
  pub count : Db → ℕ
  pub count_active : Db → ℕ
  pub find_by_email : Text → Db → Option AdminUser
  pub find_by_id : Text → Db → Option AdminUser
  pub create : NewUser → Db → Option (AdminUser × Db)
  pub update_hash : Text → Text → Db → Db

-- A user that was created is counted.
pub record UserLaws (S : UserStore) : Type 0 where
  pub create_count :
      (user : NewUser) (db : S.Db) (stored : AdminUser) (db' : S.Db)
      → S.create user db ≡ some (stored, db')
      → 1 ≤ S.count db'

-- The hashes of passwords, by `PasswordHashingService` and by the salted scrypt of old records, in hexadecimal; `sign`
-- makes the token of claims.
pub record Secrets : Type 0 where
  pub hash : Text → Text
  pub verify : Text → Text → Bool
  pub needs_rehash : Text → Bool
  pub scrypt : Text → Text → Option Text
  pub hmac : Text → Text → Text
  pub sign : AdminTokenClaims → Text
  pub letters : Letters
  -- `BOOTSTRAP_ADMIN_TOKEN` of the settings and of the environment.
  pub config_token : Option Text
  pub env_token : Option Text

-- `a || b`, where a text is falsy if it is empty.
abbrev pub filled_or : Option Text → Text → Text
filled_or none s = s
filled_or (some []) s = s
filled_or (some (c ∷ t)) s = c ∷ t

-- The token that a bootstrap asks for, with the default of the source.
abbrev pub expected_token : Secrets → Text
expected_token p =
    filled_or p.config_token (filled_or p.env_token (codes "facturify_bootstrap_secret_token"))

pub data AuditEvent : Type 0 where
  login_failed bootstrap_failed : AuditEvent
  login_succeeded bootstrap_succeeded admin_created : Text → AuditEvent

-- What lives on between requests: the throttle, the database, and the audit log, whose last event comes first.
pub record AuthState (S : UserStore) : Type 0 where
  pub throttle : AuthThrottle
  pub db : S.Db
  pub audit : List AuditEvent
