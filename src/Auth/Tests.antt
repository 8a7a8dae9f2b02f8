-- ===== src/Auth/Tests.antt =====
-- A table of administrators as a list, the bootstrap, a login and a failed one.
use facturify.Base.{
  ◌≤◌, ◌≡◌, ◌≢◌, refl, subst, Bool, true, false, Option, none, some, List, [], ◌∷◌, ◌++◌, length,
  if◌then◌else◌, filter, arith,
}
use facturify.Base.Result.{ok, err}
use facturify.Js.Text.{
  codes, text_eq, includes, trim, trim_start, trim_end, trim_end_cons, is_space, is_digit, is_upper,
  is_lower, is_alnum, lower_unit, to_lower,
}
use facturify.Js.Search.{has_prefix, contains}
use facturify.Js.Map.{get, set, delete}
use facturify.Js.Integer.{integer_of}
use facturify.Throttle.{
  service, assert_allowed, record_failure, record_success, generate_throttle_key,
  normalize_identifier, check_key, fail_key, ensure_capacity,
}
use facturify.Password.Text.{
  normalize_text, leet_unit, normalize_with_leet, is_control_unit, contains_control_characters,
  repetition_loop, repeats, has_excessive_repetitions,
}
use facturify.Password.Service.{
  has_outer_whitespace, split_name, local_part, contains_personal_data, password_errors, validate,
  assert_valid,
}
use facturify.AdminToken.Uuid.{fits, fits_all, is_valid_uuid}
use facturify.AdminToken.Service.{
  uuid_of, admin_role_of, name_of, issued_at, time_to_live, build_claims,
}
use facturify.Auth.Users.{superadmin, AdminUser, NewUser, UserStore, UserLaws, Secrets, AuthState}
use facturify.Js.Utf8.{utf8}
use facturify.Auth.Requests.{
  invalid_credentials, unequal_buffers, PublicAdminUser, LoginDto, BootstrapAdminDto, Times,
}
use facturify.Auth.Service.{
  normalize_email, refuse_attempt, succeed, verify_legacy_password, hash_matches, upgrade,
  finish_login, check_credentials, log_in, internal_create_user, create_initial,
  bootstrap_initial_admin,
}
use facturify.Auth.Laws.{IsLogin, log_in-IsLogin}
use facturify.Auth.Bootstrap.{IsBootstrap, bootstrap_initial_admin-once}

opened : Unit {0}
unfolding text_eq includes trim trim_start trim_end trim_end_cons is_space is_digit is_upper
    is_lower is_alnum lower_unit to_lower has_prefix contains get set delete integer_of
    assert_allowed record_failure record_success generate_throttle_key normalize_identifier
    check_key fail_key ensure_capacity normalize_text leet_unit normalize_with_leet is_control_unit
    contains_control_characters repetition_loop repeats has_excessive_repetitions
    has_outer_whitespace split_name local_part contains_personal_data password_errors validate
    assert_valid fits fits_all is_valid_uuid uuid_of admin_role_of name_of issued_at time_to_live
    build_claims utf8 normalize_email refuse_attempt succeed verify_legacy_password hash_matches
    upgrade finish_login check_credentials log_in internal_create_user create_initial
    bootstrap_initial_admin
opened = tt

abbrev find_first : (AdminUser → Bool) → List AdminUser → Option AdminUser
find_first f [] = none
find_first f (u ∷ us) = let rest = find_first f us in if f u then some u else rest

abbrev user_of : NewUser → AdminUser
user_of u = record {
  id = codes "3f2504e0-4f89-41d3-9a0c-0305e82c3301";
  email = u.email;
  name = u.name;
  password_hash = u.password_hash;
  password_salt = [];
  role = u.role;
  active = true;
}

abbrev users : UserStore
users = record {
  Db = List AdminUser;
  count = length;
  count_active = λ us. length (filter (λ u. u.active) us);
  find_by_email = λ email us. find_first (λ u. text_eq u.email email) us;
  find_by_id = λ id us. find_first (λ u. text_eq u.id id) us;
  create = λ u us. some (user_of u, user_of u ∷ us);
  update_hash = λ id hash us. us;
}

counted :
    (u : NewUser) (us : List AdminUser) (stored : AdminUser) (us' : List AdminUser)
    → Path
        (Option (AdminUser × List AdminUser))
        (some (user_of u, user_of u ∷ us))
        (some (stored, us'))
    → 1 ≤ length us'
counted u us stored us' h =
    let pair : Path (AdminUser × List AdminUser) (user_of u, user_of u ∷ us) (stored, us') = cc in
    subst (λ p. 1 ≤ length p.1) pair (omega arith)

users_counted : UserLaws users
users_counted = record { create_count = counted }

abbrev secrets : Secrets
secrets = record {
  hash = λ s. codes "scrypt$" ++ s;
  verify = λ s h. text_eq (codes "scrypt$" ++ s) h;
  needs_rehash = λ h. false;
  scrypt = λ s salt. none;
  hmac = λ key s. s;
  sign = λ claims. claims.sub;
  letters = record { lower = λ s. s; nfd = λ s. s };
  config_token = some [];
  env_token = some (codes "first-token");
}

abbrev empty_state : AuthState users
empty_state = record {
  throttle = service (codes "0123456789abcdef") (some 10);
  db = [];
  audit = [];
}

abbrev at : Times
at = record { allowed = 1000; failed = 1000; pruned = 1000; seconds = 1 }

abbrev first_admin : BootstrapAdminDto
first_admin = record {
  email = codes "Ana@Firm.pe ";
  name = codes "Ana Maria";
  password = codes "Xk7!greenQw9z";
  bootstrap_token = codes "first-token";
}

abbrev started : AuthState users
started = (bootstrap_initial_admin users secrets first_admin at empty_state).1

abbrev ana : PublicAdminUser
ana = record {
  id = codes "3f2504e0-4f89-41d3-9a0c-0305e82c3301";
  email = codes "ana@firm.pe";
  name = codes "Ana Maria";
  role = superadmin;
  active = true;
}

bootstrap_run : bootstrap_initial_admin users secrets first_admin at empty_state ≡ (ok ana, started)
unfolding opened
bootstrap_run = refl

-- A token with as many units, but more bytes.
other_bytes :
    (bootstrap_initial_admin users secrets
      (record first_admin { bootstrap_token = codes "first-tokeñ" })
      at
      empty_state)
    ≡ (err unequal_buffers, empty_state)
unfolding opened
other_bytes = refl

abbrev right : LoginDto
right = record { email = codes "ANA@firm.pe"; password = codes "Xk7!greenQw9z" }

abbrev logged_in : AuthState users
logged_in = (log_in users secrets right at started).1

login_run :
    log_in users secrets right at started
    ≡ (ok (codes "3f2504e0-4f89-41d3-9a0c-0305e82c3301", ana), logged_in)
unfolding opened
login_run = refl

wrong_run :
    (log_in users secrets (record right { password = codes "guess" }) at started).0
    ≡ err invalid_credentials
unfolding opened
wrong_run = refl

log_in-IsLogin_example :
    IsLogin users secrets right 1 started
      (codes "3f2504e0-4f89-41d3-9a0c-0305e82c3301")
      ana
      logged_in
log_in-IsLogin_example =
    log_in-IsLogin users secrets right at started logged_in
      (codes "3f2504e0-4f89-41d3-9a0c-0305e82c3301") ana login_run

bootstrap_initial_admin-once_example :
    IsBootstrap users secrets first_admin empty_state ana started
    × ((dto' : BootstrapAdminDto) (at' : Times) (later last : AuthState users)
          (answer' : PublicAdminUser)
        → later.db ≡ started.db
        → bootstrap_initial_admin users secrets dto' at' later ≢ (ok answer', last))
bootstrap_initial_admin-once_example =
    bootstrap_initial_admin-once users secrets users_counted first_admin at empty_state started ana
      bootstrap_run
