-- ===== src/Auth/Requests.antt =====
-- What a request of `AuthService` holds, its errors, and the user that it answers with (src/auth).
use facturify.Base.{ℕ, Bool, List}
use facturify.Js.Text.{Text}
use facturify.Throttle.{ThrottleError, rate_limited}
use facturify.Password.Service.{PasswordError}
use facturify.AdminToken.Claims.{TokenError}
use facturify.Auth.Users.{AdminRole, AdminUser}

pub data AuthError : Type 0 where
  invalid_credentials invalid_bootstrap_token already_bootstrapped no_superadmin email_taken :
      AuthError
  no_user database unequal_buffers : AuthError
  too_many_requests : ℕ → AuthError
  throttle_error : ThrottleError → AuthError
  -- All errors of the password, of which the answer names the first.
  weak_password : List PasswordError → AuthError
  token_error : TokenError → AuthError

-- `AdminUser` without the hash and the salt of its password.
pub record PublicAdminUser : Type 0 where
  pub id : Text
  pub email : Text
  pub name : Text
  pub role : AdminRole
  pub active : Bool

abbrev pub public_user : AdminUser → PublicAdminUser
public_user u = record {
  id = u.id;
  email = u.email;
  name = u.name;
  role = u.role;
  active = u.active;
}

pub record LoginDto : Type 0 where
  pub email : Text
  pub password : Text

pub record BootstrapAdminDto : Type 0 where
  pub email : Text
  pub name : Text
  pub password : Text
  pub bootstrap_token : Text

-- The readings of the clock in a request: by the throttle in milliseconds, by the policy on tokens in
-- seconds.
pub record Times : Type 0 where
  pub allowed : ℕ
  pub failed : ℕ
  pub pruned : ℕ
  pub seconds : ℕ

abbrev pub throttled : ThrottleError → AuthError
throttled (rate_limited seconds) = too_many_requests seconds
throttled e = throttle_error e
