-- ===== src/Auth/Service.antt =====
-- `AuthService` (src/auth/auth.service.ts), as the module wires it: with the throttle, the policies on
-- passwords and tokens, and the audit log. One request runs after the other, so that no transaction fails for
-- another one.
use facturify.Base.{
  ℕ, Bool, true, false, not, ◌&&◌, ◌||◌, none, some, ◌∷◌, all, length, map, ltb, ◌==◌,
  if◌then◌else◌,
}
use facturify.Base.Result.{Result, ok, err}
use facturify.Js.Text.{Text, codes, text_eq, trim, to_lower, lower_unit}
use facturify.Js.Search.{has_prefix}
use facturify.Js.Value.{undefined, string}
use facturify.Throttle.{
  AuthAction, login, bootstrap, assert_allowed, record_failure, record_success,
}
use facturify.Password.Service.{assert_valid}
use facturify.AdminToken.Claims.{TokenError, AdminTokenClaims, BuildAdminClaimsInput}
use facturify.AdminToken.Service.{build_claims}
use facturify.AdminToken.Uuid.{hex, fits}
use facturify.Auth.Users.{
  AdminRole, admin, superadmin, role_name, AdminUser, UserStore, Secrets, expected_token,
  AuditEvent, login_failed, bootstrap_failed, login_succeeded, bootstrap_succeeded, admin_created,
  AuthState,
}
use facturify.Js.Utf8.{utf8}
use facturify.Auth.Requests.{
  AuthError, invalid_credentials, invalid_bootstrap_token, already_bootstrapped, no_superadmin,
  email_taken, no_user, database, unequal_buffers, throttle_error, weak_password, token_error,
  PublicAdminUser, public_user, LoginDto, BootstrapAdminDto, Times, throttled,
}

module _ (S : UserStore) (p : Secrets) where
  open S use {Db, count, count_active, find_by_email, find_by_id, create, update_hash}

  abbrev pub Outcome : Type 0 → Type 0
  Outcome A = Result AuthError A × AuthState S

  -- `email.toLowerCase().trim()`
  unfoldable pub normalize_email : Text → Text
  unfolding trim to_lower
  normalize_email email = trim (to_lower p.letters.lower email)

  unfoldable pub has_admins : AuthState S → Bool
  has_admins st = ltb 0 (count_active st.db)

  -- A failure is counted and logged, and then the request is refused.
  unfoldable pub refuse_attempt :
      {A : Type 0} → AuthAction → Text → Times → AuditEvent → AuthError → AuthState S → Outcome A
  unfolding record_failure
  refuse_attempt action identifier at event e st =
      elim (record_failure p.letters.lower p.hmac st.throttle action identifier at.failed
        at.pruned) [
          | err e' ↦ (err (throttle_error e'), st)
          | ok throttle ↦ (err e, record st { throttle = throttle; audit = event ∷ st.audit })
        ]

  -- A success clears the count of failures and is logged.
  unfoldable pub succeed :
      {A : Type 0} → AuthAction → Text → AuditEvent → A → AuthState S → Outcome A
  unfolding record_success
  succeed action identifier event a st =
      elim (record_success p.letters.lower p.hmac st.throttle action identifier) [
        | err e ↦ (err (throttle_error e), st)
        | ok throttle ↦ (ok a, record st { throttle = throttle; audit = event ∷ st.audit })
      ]

  -- The state after the throttle has allowed the attempt.
  abbrev pub once_allowed :
      {A : Type 0} → AuthAction → Text → Times → AuthState S → (AuthState S → Outcome A) → Outcome A
  once_allowed action identifier at st next =
      elim (assert_allowed p.letters.lower p.hmac st.throttle action identifier at.allowed) [
        | err e ↦ (err (throttled e), st)
        | ok throttle ↦ next (record st { throttle = throttle })
      ]

  unfoldable pub verify_legacy_password : Text → Text → Text → Bool
  unfolding fits text_eq lower_unit
  verify_legacy_password password salt expected_hex =
      not (length salt == 0)
      && (length expected_hex == 128)
      && all (fits hex) expected_hex
      && (elim (p.scrypt password salt) [
        | none ↦ false
        | some derived ↦ text_eq derived (map lower_unit expected_hex)
      ])

  abbrev pub is_versioned : AdminUser → Bool
  is_versioned user = has_prefix (codes "scrypt$") user.password_hash

  unfoldable pub hash_matches : Text → AdminUser → Bool
  unfolding verify_legacy_password has_prefix
  hash_matches password user =
      if is_versioned user
      then p.verify password user.password_hash
      else verify_legacy_password password user.password_salt user.password_hash

  abbrev pub claims_input : AdminUser → BuildAdminClaimsInput
  claims_input user = record {
    sub = string user.id;
    role = string (role_name user.role);
    iss = string (codes "facturify-api");
    aud = string (codes "facturify-admin");
    ttl_seconds = undefined;
    iat = undefined;
  }

  abbrev pub claims_of : AdminUser → ℕ → Result TokenError AdminTokenClaims
  claims_of user seconds = build_claims p.letters.lower seconds (some (claims_input user))

  -- The hash of an old scheme or cost is replaced.
  unfoldable pub upgrade : Text → AdminUser → AuthState S → AuthState S
  unfolding has_prefix
  upgrade password user st =
      if not (is_versioned user) || p.needs_rehash user.password_hash
      then record st { db = update_hash user.id (p.hash password) st.db }
      else st

  -- With the password checked: the token, the upgrade of the hash, and the answer.
  unfoldable pub finish_login :
      Text → Text → ℕ → AdminUser → AuthState S → Outcome (Text × PublicAdminUser)
  unfolding build_claims upgrade succeed
  finish_login email password seconds user st = elim (claims_of user seconds) [
    | err e ↦ (err (token_error e), st)
    | ok claims ↦
        succeed login email (login_succeeded user.id) (p.sign claims, public_user user)
          (upgrade password user st)
  ]

  unfoldable pub check_credentials :
      Text → Text → Times → AuthState S → Outcome (Text × PublicAdminUser)
  unfolding refuse_attempt hash_matches finish_login
  check_credentials email password at st = elim (find_by_email email st.db) [
    | none ↦ refuse_attempt login email at login_failed invalid_credentials st
    | some user ↦
        if user.active && hash_matches password user
        then finish_login email password at.seconds user st
        else refuse_attempt login email at login_failed invalid_credentials st
  ]

  unfoldable pub log_in : LoginDto → Times → AuthState S → Outcome (Text × PublicAdminUser)
  unfolding normalize_email assert_allowed check_credentials
  log_in dto at st =
      once_allowed login (normalize_email dto.email) at st
        (check_credentials (normalize_email dto.email) dto.password at)

  -- `internalCreateUser`
  unfoldable pub internal_create_user :
      Text → Text → Text → AdminRole → Db → Result AuthError (AdminUser × Db)
  unfolding normalize_email assert_valid
  internal_create_user email name password role db =
      elim (assert_valid p.letters (string password)
        (some (record { email = normalize_email email; name = name }))) [
          | err es ↦ err (weak_password es)
          | ok _ ↦ elim (find_by_email (normalize_email email) db) [
            | some _ ↦ err email_taken
            | none ↦
                elim (create
                  (record {
                    email = normalize_email email;
                    name = name;
                    password_hash = p.hash password;
                    role = role;
                  })
                  db) [ none ↦ err database | some stored ↦ ok stored ]
          ]
        ]

  -- The transaction: nothing is created where there is an administrator.
  unfoldable pub create_initial : BootstrapAdminDto → Db → Result AuthError (AdminUser × Db)
  unfolding internal_create_user
  create_initial dto db =
      if ltb 0 (count db)
      then err already_bootstrapped
      else internal_create_user dto.email dto.name dto.password superadmin db

  abbrev pub check_token : {A : Type 0} → Bool → Text → Text → A → A → A → A
  check_token same_length a b equal different unequal =
      if not same_length
      then different
      else if not (length a == length b)
      then unequal
      else if text_eq a b
      then equal
      else different

  abbrev pub with_token : BootstrapAdminDto → Times → AuthState S → Outcome PublicAdminUser
  with_token dto at st = elim (create_initial dto st.db) [
    | err e ↦ (err e, st)
    | ok (user, db) ↦
        succeed bootstrap dto.email (bootstrap_succeeded user.id) (public_user user)
          (record st { db = db })
  ]

  -- The lengths in units are compared first. `timingSafeEqual` throws where the lengths in bytes differ,
  -- outside the tests that count a failure.
  unfoldable pub bootstrap_initial_admin :
      BootstrapAdminDto → Times → AuthState S → Outcome PublicAdminUser
  unfolding assert_allowed text_eq utf8 refuse_attempt create_initial succeed
  bootstrap_initial_admin dto at st = once_allowed bootstrap dto.email at st (λ st.
      check_token (length dto.bootstrap_token == length (expected_token p))
        (utf8 dto.bootstrap_token) (utf8 (expected_token p)) (with_token dto at st)
        (refuse_attempt bootstrap dto.email at bootstrap_failed invalid_bootstrap_token st)
        (err unequal_buffers, st))

  abbrev is_superadmin : AdminRole → Bool
  is_superadmin superadmin = true
  is_superadmin admin = false

  unfoldable pub create_admin :
      AdminRole → Text → Text → Text → Text → AdminRole → AuthState S → Outcome PublicAdminUser
  unfolding internal_create_user
  create_admin creator_role creator_id email name password role st =
      if not (is_superadmin creator_role)
      then (err no_superadmin, st)
      else elim (internal_create_user email name password role st.db) [
        | err e ↦ (err e, st)
        | ok (user, db) ↦ (
          ok (public_user user),
          record st { db = db; audit = admin_created creator_id ∷ st.audit },
        )
      ]

  unfoldable pub get_profile : Text → AuthState S → Result AuthError PublicAdminUser
  get_profile id st = elim (find_by_id id st.db) [
    | none ↦ err no_user
    | some user ↦ if user.active then ok (public_user user) else err no_user
  ]
