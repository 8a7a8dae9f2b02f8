-- ===== src/Auth/Laws.antt =====
-- What a login that succeeds has done (src/auth/auth.service.ts).
use facturify.Base.{
  ℕ, ◌+◌, ◌*◌, ◌≡◌, refl, sym, ap, ◌∙◌, Bool, true, false, not, ◌&&◌, ◌||◌, some, ◌∷◌,
  if◌then◌else◌, arith, Bool-cases, Option-cases, inl, inr,
}
use facturify.Base.Result.{Result, ok, err, Result-cases, ok_inj}
use facturify.Js.Integer.{pos}
use facturify.Js.Text.{
  Text, codes, to_lower, includes, trim, trim_start, trim_end, trim_end_cons, is_space,
}
use facturify.Throttle.{
  AuthThrottle, AuthAction, login, assert_allowed, record_failure, record_success,
}
use facturify.Throttle.Isolation.{record_success-clears}
use facturify.AdminToken.Claims.{TokenError, bad_subject, bad_role, AdminTokenClaims, admin_roles}
use facturify.AdminToken.Uuid.{is_valid_uuid}
use facturify.AdminToken.Service.{
  uuid_of, admin_role_of, name_of, issued_at, time_to_live, build_claims,
}
use facturify.AdminToken.Build.{IsIssued, build_claims-IsIssued}
use facturify.Auth.Users.{
  role_name, AdminUser, UserStore, Secrets, AuditEvent, login_failed, login_succeeded, AuthState,
}
use facturify.Auth.Requests.{
  AuthError, invalid_credentials, token_error, throttle_error, PublicAdminUser, public_user,
  LoginDto, Times, throttled,
}
use facturify.Auth.Service.{
  once_allowed, Outcome, normalize_email, refuse_attempt, succeed, is_versioned, hash_matches,
  claims_input, claims_of, upgrade, finish_login, check_credentials, log_in,
}

module _ (S : UserStore) (p : Secrets) where
  open S use {Db, count, count_active, find_by_email, find_by_id, create, update_hash}

  -- An error is no answer.
  pub no_answer {ℓ} :
      {A : Type 0} {B : Type ℓ} (e : AuthError) (st st' : AuthState S) (a : A)
      → Path (Outcome S p A) (err e, st) (ok a, st')
      → B
  no_answer {A} e st st' a h =
      let no : Path (Result AuthError A) (err e) (ok a) = ap (λ r. r.0) h in cc

  pub refuse_attempt-never {ℓ} :
      {A : Type 0} {B : Type ℓ} (action : AuthAction) (identifier : Text) (at : Times)
      (event : AuditEvent) (e : AuthError) (st st' : AuthState S) (a : A)
      → refuse_attempt S p action identifier at event e st ≡ (ok a, st')
      → B
  unfolding refuse_attempt
  refuse_attempt-never {A} action identifier at event e st st' a h =
      elim (Result-cases
        (record_failure p.letters.lower p.hmac st.throttle action identifier at.failed at.pruned)) [
          | inl (throttle, counted) ↦
              no_answer {A = A} e (record st { throttle = throttle; audit = event ∷ st.audit }) st'
                a (rw (counted, refuse_attempt) at h)
          | inr (e', refused) ↦
              no_answer {A = A} (throttle_error e') st st' a (rw (refused, refuse_attempt) at h)
        ]

  -- What a success leaves: the throttle has no record of it, and it is logged.
  pub record Succeeded {A : Type 0} (action : AuthAction) (identifier : Text) (event : AuditEvent)
      (a b : A) (st st' : AuthState S) : Type 0 where
    pub same : a ≡ b
    pub same_db : st'.db ≡ st.db
    pub logged : st'.audit ≡ event ∷ st.audit
    pub cleared :
        (now : ℕ)
        → assert_allowed p.letters.lower p.hmac st'.throttle action identifier now ≡ ok st'.throttle

  pub succeed-Succeeded :
      {A : Type 0} (action : AuthAction) (identifier : Text) (event : AuditEvent) (a b : A)
      (st st' : AuthState S)
      → succeed S p action identifier event a st ≡ (ok b, st')
      → Succeeded action identifier event a b st st'
  unfolding succeed
  succeed-Succeeded {A} action identifier event a b st st' h =
      elim (Result-cases (record_success p.letters.lower p.hmac st.throttle action identifier)) [
        | inl (throttle, done) ↦
            let made : Path (Outcome S p A)
                (ok a, record st { throttle = throttle; audit = event ∷ st.audit }) (ok b, st') =
              rw (done, succeed) at h in
            let state : record st { throttle = throttle; audit = event ∷ st.audit } ≡ st' =
              ap (λ r. r.1) made in
            record {
              same = ok_inj (ap (λ r. r.0) made);
              same_db = sym (ap (λ s. s.db) state);
              logged = sym (ap (λ s. s.audit) state);
              cleared = λ now. rw (sym (ap (λ s. s.throttle) state)) (
                  (record_success-clears p.letters.lower p.hmac st.throttle throttle action
                      identifier done).0
                    now);
            }
        | inr (e, refused) ↦
            no_answer {A = A} (throttle_error e) st st' b (rw (refused, succeed) at h)
      ]

  -- What is known of a login that succeeded, from its state before and after.
  pub record IsLogin (dto : LoginDto) (seconds : ℕ) (st : AuthState S) (token : Text)
      (answer : PublicAdminUser) (st' : AuthState S) : Type 0 where
    pub user : AdminUser
    pub claims : AdminTokenClaims
    pub found : find_by_email (normalize_email S p dto.email) st.db ≡ some user
    pub is_active : user.active ≡ true
    pub matches : hash_matches S p dto.password user ≡ true
    pub issued : IsIssued p.letters.lower claims
    pub sub : claims.sub ≡ to_lower p.letters.lower user.id
    pub role : claims.role ≡ role_name user.role
    pub issuer : claims.iss ≡ codes "facturify-api"
    pub audience : claims.aud ≡ codes "facturify-admin"
    pub starts : claims.iat ≡ pos seconds
    pub ends : claims.exp ≡ pos (seconds + 8 * 60 * 60)
    pub same_answer :
        Path (Text × PublicAdminUser) (p.sign claims, public_user user) (token, answer)
    pub logged : st'.audit ≡ login_succeeded user.id ∷ st.audit
    pub cleared :
        (now : ℕ)
        → assert_allowed p.letters.lower p.hmac st'.throttle login
            (normalize_email S p dto.email)
            now
          ≡ ok st'.throttle

  either_audit :
      (b : Bool) (x y : AuthState S) → x.audit ≡ y.audit → (if b then x else y).audit ≡ y.audit
  either_audit true x y h = h
  either_audit false x y h = refl

  upgrade-audit :
      (password : Text) (user : AdminUser) (st : AuthState S)
      → (upgrade S p password user st).audit ≡ st.audit
  unfolding upgrade
  upgrade-audit password user st =
      either_audit (not (is_versioned S p user) || p.needs_rehash user.password_hash)
        (record st { db = update_hash user.id (p.hash password) st.db }) st refl

  -- Claims on the administrator, for eight hours from a time on.
  record IsOwn (user : AdminUser) (seconds : ℕ) (claims : AdminTokenClaims) : Type 0 where
    sub : claims.sub ≡ to_lower p.letters.lower user.id
    role : claims.role ≡ role_name user.role
    issuer : claims.iss ≡ codes "facturify-api"
    audience : claims.aud ≡ codes "facturify-admin"
    starts : claims.iat ≡ pos seconds
    ends : claims.exp ≡ pos (seconds + 8 * 60 * 60)

  claims_of-IsOwn :
      (user : AdminUser) (seconds : ℕ) (claims : AdminTokenClaims)
      → claims_of S p user seconds ≡ ok claims
      → IsOwn user seconds claims
  unfolding build_claims uuid_of admin_role_of name_of issued_at time_to_live trim trim_start
      trim_end trim_end_cons is_space
  claims_of-IsOwn user seconds claims h = elim (Bool-cases (is_valid_uuid user.id)) [
    | inr bad ↦
        let no : Path (Result TokenError AdminTokenClaims) (err bad_subject) (ok claims) =
          rw bad at h in
        cc
    | inl valid ↦ elim (Bool-cases (includes admin_roles (role_name user.role))) [
      | inr bad ↦
          let no : Path (Result TokenError AdminTokenClaims) (err bad_role) (ok claims) =
            rw (valid, bad) at h in
          cc
      | inl known ↦
          let made = ok_inj (rw (valid, known) at h) in
          rw (sym made) (record {
            sub = refl;
            role = refl;
            issuer = refl;
            audience = refl;
            starts = refl;
            ends = refl;
          })
    ]
  ]

  credentials-IsLogin :
      (dto : LoginDto) (at : Times) (st st' : AuthState S) (token : Text) (answer : PublicAdminUser)
      → check_credentials S p (normalize_email S p dto.email) dto.password at st
        ≡ (ok (token, answer), st')
      → IsLogin dto at.seconds st token answer st'
  unfolding check_credentials finish_login
  credentials-IsLogin dto at st st' token answer h =
      let email = normalize_email S p dto.email in
      elim (Option-cases (find_by_email email st.db)) [
        | inl no_one ↦
            refuse_attempt-never login email at login_failed invalid_credentials st st'
              (token, answer) (rw (no_one, check_credentials) at h)
        | inr (user, found) ↦
            elim (Bool-cases (user.active && hash_matches S p dto.password user)) [
              | inr bad ↦
                  refuse_attempt-never login email at login_failed invalid_credentials st st'
                    (token, answer) (rw (found, check_credentials, bad) at h)
              | inl good ↦
                  let rest : finish_login S p email dto.password at.seconds user st
                      ≡ (ok (token, answer), st') =
                    rw (found, check_credentials, good) at h in
                  elim (Result-cases (claims_of S p user at.seconds)) [
                    | inr (e, no_claims) ↦
                        no_answer {A = Text × PublicAdminUser} (token_error e) st st'
                          (token, answer) (rw (no_claims, finish_login) at rest)
                    | inl (claims, made) ↦
                        let own = claims_of-IsOwn user at.seconds claims made in
                        let done =
                          succeed-Succeeded login email (login_succeeded user.id)
                            (p.sign claims, public_user user) (token, answer)
                            (upgrade S p dto.password user st) st'
                            (rw (made, finish_login) at rest) in
                        record {
                          user = user;
                          claims = claims;
                          found = found;
                          is_active = ground (arith, good);
                          matches = ground (arith, good);
                          issued =
                              build_claims-IsIssued p.letters.lower at.seconds
                                (claims_input S p user) claims made;
                          sub = own.sub;
                          role = own.role;
                          issuer = own.issuer;
                          audience = own.audience;
                          starts = own.starts;
                          ends = own.ends;
                          same_answer = done.same;
                          logged =
                              done.logged
                              ∙ ap (λ l. login_succeeded user.id ∷ l)
                                  (upgrade-audit dto.password user st);
                          cleared = done.cleared;
                        }
                  ]
            ]
      ]

  -- An answer comes from what follows an attempt that was allowed.
  pub once_allowed-answer :
      {A : Type 0} (action : AuthAction) (identifier : Text) (at : Times) (st st' : AuthState S)
      (next : AuthState S → Outcome S p A) (a : A)
      → once_allowed S p action identifier at st next ≡ (ok a, st')
      → (throttle : AuthThrottle) × (next (record st { throttle = throttle }) ≡ (ok a, st'))
  once_allowed-answer {A} action identifier at st st' next a h =
      elim (Result-cases
        (assert_allowed p.letters.lower p.hmac st.throttle action identifier at.allowed)) [
          | inl (throttle, fine) ↦ (throttle, rw (fine, once_allowed) at h)
          | inr (e, refused) ↦
              no_answer {A = A} (throttled e) st st' a (rw (refused, once_allowed) at h)
        ]

  -- A login succeeds only for an active administrator with the email in small letters, whose stored hash the
  -- password matches. It answers with a signed token, whose claims keep the policy and name that administrator's id
  -- and role, the issuer and the audience of the program, and eight hours from the time of the login on, and with that administrator; it is logged, and after it the throttle allows the
  -- email at any time.
  pub log_in-IsLogin :
      (dto : LoginDto) (at : Times) (st st' : AuthState S) (token : Text) (answer : PublicAdminUser)
      → log_in S p dto at st ≡ (ok (token, answer), st')
      → IsLogin dto at.seconds st token answer st'
  unfolding log_in
  log_in-IsLogin dto at st st' token answer h =
      let email = normalize_email S p dto.email in
      let (throttle, next) =
        once_allowed-answer login email at st st' (check_credentials S p email dto.password at)
          (token, answer) h in
      let i =
        credentials-IsLogin dto at (record st { throttle = throttle }) st' token answer next in
      record {
        user = i.user;
        claims = i.claims;
        found = i.found;
        is_active = i.is_active;
        matches = i.matches;
        issued = i.issued;
        sub = i.sub;
        role = i.role;
        issuer = i.issuer;
        audience = i.audience;
        starts = i.starts;
        ends = i.ends;
        same_answer = i.same_answer;
        logged = i.logged;
        cleared = i.cleared;
      }
