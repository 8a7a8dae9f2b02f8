-- ===== src/Auth/Bootstrap.antt =====
-- What a bootstrap that succeeds has done (src/auth/auth.service.ts).
use facturify.Base.{
  ◌≡◌, ◌≢◌, sym, ap, ◌∙◌, none, some, ◌∷◌, length, ltb, ◌==◌, arith, Bool-cases, Option-cases, inl,
  inr,
}
use facturify.Base.Result.{Result, ok, err, Result-cases, ok_inj}
use facturify.Js.Text.{text_eq}
use facturify.Js.Text.Laws.{eq_of_text_eq}
use facturify.Js.Value.{string}
use facturify.Throttle.{bootstrap}
use facturify.Password.Service.{assert_valid}
use facturify.Password.Laws.{IsStrong, assert_valid-IsStrong}
use facturify.Auth.Laws.{once_allowed-answer, no_answer, refuse_attempt-never, succeed-Succeeded}
use facturify.Auth.Users.{
  superadmin, AdminUser, UserStore, UserLaws, Secrets, expected_token, bootstrap_failed,
  bootstrap_succeeded, AuthState,
}
use facturify.Js.Utf8.{utf8}
use facturify.Auth.Requests.{
  AuthError, invalid_bootstrap_token, already_bootstrapped, weak_password, email_taken, database,
  unequal_buffers, PublicAdminUser, public_user, BootstrapAdminDto, Times,
}
use facturify.Auth.Service.{
  Outcome, normalize_email, refuse_attempt, internal_create_user, create_initial, check_token,
  with_token, bootstrap_initial_admin,
}

module _ (S : UserStore) (p : Secrets) where
  open S use {Db, count, count_active, find_by_email, find_by_id, create, update_hash}

  -- What is known of a bootstrap that succeeded.
  pub record IsBootstrap (dto : BootstrapAdminDto) (st : AuthState S) (answer : PublicAdminUser)
      (st' : AuthState S) : Type 0 where
    pub user : AdminUser
    pub same_token : utf8 dto.bootstrap_token ≡ utf8 (expected_token p)
    pub first : count st.db ≡ 0
    pub unused_email : find_by_email (normalize_email S p dto.email) st.db ≡ none
    pub strong :
        IsStrong p.letters dto.password
          (some (record { email = normalize_email S p dto.email; name = dto.name }))
    pub stored :
        create
          (record {
            email = normalize_email S p dto.email;
            name = dto.name;
            password_hash = p.hash dto.password;
            role = superadmin;
          })
          st.db
        ≡ some (user, st'.db)
    pub same_answer : answer ≡ public_user user
    pub logged : st'.audit ≡ bootstrap_succeeded user.id ∷ st.audit

  abbrev Stored : BootstrapAdminDto → Db → AdminUser → Db → Type 0
  Stored dto db user db' =
      (count db ≡ 0)
      × (find_by_email (normalize_email S p dto.email) db ≡ none)
      × (assert_valid p.letters (string dto.password)
            (some (record { email = normalize_email S p dto.email; name = dto.name }))
          ≡ ok tt)
      × (create
            (record {
              email = normalize_email S p dto.email;
              name = dto.name;
              password_hash = p.hash dto.password;
              role = superadmin;
            })
            db
          ≡ some (user, db'))

  initial-Stored :
      (dto : BootstrapAdminDto) (db : Db) (user : AdminUser) (db' : Db)
      → create_initial S p dto db ≡ ok (user, db')
      → Stored dto db user db'
  unfolding create_initial internal_create_user
  initial-Stored dto db user db' h =
      let email = normalize_email S p dto.email in
      elim (Bool-cases (ltb 0 (count db))) [
        | inl some_there ↦
            let no : Path (Result AuthError (AdminUser × Db)) (err already_bootstrapped)
                (ok (user, db')) =
              rw (some_there, create_initial) at h in
            cc
        | inr none_there ↦
            elim (Result-cases (
              assert_valid p.letters (string dto.password)
                (some (record { email = email; name = dto.name })))) [
                  | inr (es, weak) ↦
                      let no : Path (Result AuthError (AdminUser × Db)) (err (weak_password es))
                          (ok (user, db')) =
                        rw (none_there, weak, create_initial, internal_create_user) at h in
                      cc
                  | inl (_, strong) ↦ elim (Option-cases (find_by_email email db)) [
                    | inr (other, taken) ↦
                        let no : Path (Result AuthError (AdminUser × Db)) (err email_taken)
                            (ok (user, db')) =
                          rw (none_there, strong, taken, create_initial, internal_create_user) at
                            h in
                        cc
                    | inl free ↦
                        elim (Option-cases (
                          create
                            (record {
                              email = email;
                              name = dto.name;
                              password_hash = p.hash dto.password;
                              role = superadmin;
                            })
                            db)) [
                              | inl failed ↦
                                  let no : Path (Result AuthError (AdminUser × Db)) (err database)
                                      (ok (user, db')) =
                                    rw
                                      (
                                        none_there, strong, free, failed, create_initial,
                                        internal_create_user,
                                      )
                                      at h in
                                  cc
                              | inr (made, stored) ↦
                                  let same : Path (Result AuthError (AdminUser × Db)) (ok made)
                                      (ok (user, db')) =
                                    rw
                                      (
                                        none_there, strong, free, stored, create_initial,
                                        internal_create_user,
                                      )
                                      at h in
                                  (
                                    ground (arith, none_there),
                                    free,
                                    strong,
                                    stored ∙ ap some (ok_inj same),
                                  )
                            ]
                  ]
                ]
      ]

  abbrev token_tested : BootstrapAdminDto → Times → AuthState S → Outcome S p PublicAdminUser
  token_tested dto at st =
      check_token S p (length dto.bootstrap_token == length (expected_token p))
        (utf8 dto.bootstrap_token) (utf8 (expected_token p)) (with_token S p dto at st)
        (refuse_attempt S p bootstrap dto.email at bootstrap_failed invalid_bootstrap_token st)
        (err unequal_buffers, st)

  -- The answer comes behind the test of the token.
  token-equal :
      (dto : BootstrapAdminDto) (at : Times) (st st' : AuthState S) (answer : PublicAdminUser)
      → check_token S p
          (length dto.bootstrap_token == length (expected_token p))
          (utf8 dto.bootstrap_token)
          (utf8 (expected_token p))
          (with_token S p dto at st)
          (refuse_attempt S p bootstrap dto.email at bootstrap_failed invalid_bootstrap_token st)
          (err unequal_buffers, st)
        ≡ (ok answer, st')
      → (utf8 dto.bootstrap_token ≡ utf8 (expected_token p))
        × (with_token S p dto at st ≡ (ok answer, st'))
  token-equal dto at st st' answer h =
      let never =
        refuse_attempt-never S p bootstrap dto.email at bootstrap_failed invalid_bootstrap_token st
          st' answer in
      elim (Bool-cases (length dto.bootstrap_token == length (expected_token p))) [
        | inr other_length ↦ never (rw other_length at h)
        | inl same_length ↦
            elim (Bool-cases
              (length (utf8 dto.bootstrap_token) == length (utf8 (expected_token p)))) [
                | inr unequal ↦
                    no_answer S p {A = PublicAdminUser} unequal_buffers st st' answer
                      (rw (same_length, unequal) at h)
                | inl same_bytes ↦
                    elim (Bool-cases
                      (text_eq (utf8 dto.bootstrap_token) (utf8 (expected_token p)))) [
                        | inr differs ↦ never (rw (same_length, same_bytes, differs) at h)
                        | inl equal ↦ (
                          eq_of_text_eq (utf8 dto.bootstrap_token) (utf8 (expected_token p)) equal,
                          rw (same_length, same_bytes, equal) at h,
                        )
                      ]
              ]
      ]

  bootstrap_initial_admin-IsBootstrap :
      (dto : BootstrapAdminDto) (at : Times) (st st' : AuthState S) (answer : PublicAdminUser)
      → bootstrap_initial_admin S p dto at st ≡ (ok answer, st')
      → IsBootstrap dto st answer st'
  unfolding bootstrap_initial_admin
  bootstrap_initial_admin-IsBootstrap dto at st st' answer h =
      let (throttle, next) =
        once_allowed-answer S p bootstrap dto.email at st st' (token_tested dto at) answer h in
      let st1 : AuthState S = record st { throttle = throttle } in
      let (equal, created) = token-equal dto at st1 st' answer next in
      elim (Result-cases (create_initial S p dto st.db)) [
        | inr (e, failed) ↦
            no_answer S p {A = PublicAdminUser} e st1 st' answer
              (rw (failed, with_token) at created)
        | inl ((user, db), made) ↦
            let done =
              succeed-Succeeded S p bootstrap dto.email (bootstrap_succeeded user.id)
                (public_user user) answer (record st1 { db = db }) st'
                (rw (made, with_token) at created) in
            let (first, free, strong, stored) = initial-Stored dto st.db user db made in
            record {
              user = user;
              same_token = equal;
              first = first;
              unused_email = free;
              strong =
                  assert_valid-IsStrong p.letters dto.password
                    (some (record { email = normalize_email S p dto.email; name = dto.name }))
                    strong;
              stored = rw done.same_db stored;
              same_answer = sym done.same;
              logged = done.logged;
            }
      ]

  -- A bootstrap succeeds only with the token of the settings, or else of the environment, or else the default, where there is no administrator and for a strong password;
  -- it stores the one superadministrator of the request, and is logged. After it every other
  -- bootstrap fails, whatever it is given, as long as the administrators stay as they are. Assumed is a database
  -- that counts what it has stored.
  pub bootstrap_initial_admin-once :
      (L : UserLaws S) (dto : BootstrapAdminDto) (at : Times) (st st' : AuthState S)
      (answer : PublicAdminUser)
      → bootstrap_initial_admin S p dto at st ≡ (ok answer, st')
      → IsBootstrap dto st answer st'
        × ((dto' : BootstrapAdminDto) (at' : Times) (later last : AuthState S)
              (answer' : PublicAdminUser)
            → later.db ≡ st'.db
            → bootstrap_initial_admin S p dto' at' later ≢ (ok answer', last))
  bootstrap_initial_admin-once L dto at st st' answer h =
      let i = bootstrap_initial_admin-IsBootstrap dto at st st' answer h in
      let counted = L.create_count _ st.db i.user st'.db i.stored in
      (
        i,
        λ dto' at' later last answer' same h'.
            let none_left =
              (bootstrap_initial_admin-IsBootstrap dto' at' later last answer' h').first in
            let none_there : count st'.db ≡ 0 = rw same at none_left in
            absurd (omega (arith, counted, none_there)),
      )
