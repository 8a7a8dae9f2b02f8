-- ===== src/Password/Laws.antt =====
-- What an accepted password is (src/password-policy/password-policy.service.ts).
use mathlib.Core.List.{Memᴰ}
use facturify.Base.{
  ℕ, ◌≤◌, ◌≡◌, sym, ◌∙◌, true, false, not, ◌&&◌, ◌||◌, Option, some, any, length, leb, ◌==◌, arith,
}
use facturify.Base.Result.{ok}
use facturify.Js.Text.{Text, to_lower, is_upper, is_lower, is_digit}
use facturify.Js.Search.{contains}
use facturify.Js.Value.{string}
use facturify.Password.Text.{
  Letters, normalize_text, normalize_with_leet, is_control_unit, contains_control_characters,
  has_excessive_repetitions, repeats,
}
use facturify.Password.Service.{
  personal_data, min_length, max_length, max_consecutive_identical_chars, forbidden_words,
  PasswordValidationContext, is_special, has_outer_whitespace, has_word, has_part, has_email,
  has_name, local_part, split_name, contains_personal_data, personal_errors, is_empty_list,
  assert_valid,
}
use facturify.Password.Errors.{
  any-Memᴰ, none-Memᴰ, when-empty, either_false, assert_valid-errors, all_pass,
}
use facturify.Password.Names.{IsPart, split_name-IsPart}
use facturify.Password.Repetitions.{HasRun, repeats_iff}

-- A part of at least three units that is not in the password, neither as it stands nor under the
-- substitutions of digits and signs for letters.
abbrev pub IsAbsent : Letters → Text → Text → Type 0
IsAbsent letters s part =
    3 ≤ length part
    → (contains part (normalize_text letters s) ≡ false)
      × (contains part (normalize_with_leet letters s) ≡ false)

pub record IsStrong (letters : Letters) (s : Text) (context : Option PasswordValidationContext)
    : Type 0 where
  pub closed : has_outer_whitespace s ≡ false
  pub no_control : (c : ℕ) → Memᴰ c s → is_control_unit c ≡ false
  pub min : min_length ≤ length s
  pub max : length s ≤ max_length
  pub upper : (c : ℕ) × Memᴰ c s × (is_upper c ≡ true)
  pub lower : (c : ℕ) × Memᴰ c s × (is_lower c ≡ true)
  pub digit : (c : ℕ) × Memᴰ c s × (is_digit c ≡ true)
  pub special : (c : ℕ) × Memᴰ c s × (is_special c ≡ true)
  pub no_run : HasRun max_consecutive_identical_chars (to_lower letters.lower s) → false ≡ true
  pub no_word :
      (word : Text)
      → Memᴰ word forbidden_words
      → (contains (normalize_text letters word) (normalize_text letters s) ≡ false)
        × (contains (normalize_with_leet letters word) (normalize_with_leet letters s) ≡ false)
  pub no_email :
      (c : PasswordValidationContext)
      → context ≡ some c
      → 1 ≤ length c.email
      → IsAbsent letters s (local_part (normalize_text letters c.email))
  pub no_name :
      (c : PasswordValidationContext) (part : Text)
      → context ≡ some c
      → 1 ≤ length c.name
      → IsPart part (normalize_text letters c.name)
      → IsAbsent letters s part

is_there : (n : ℕ) → 1 ≤ n → not (n == 0) ≡ true
is_there n h = ground (arith, h)

part-IsAbsent :
    (letters : Letters) (s part : Text)
    → has_part (normalize_text letters s) (normalize_with_leet letters s) part ≡ false
    → IsAbsent letters s part
part-IsAbsent letters s part h long =
    let hit : leb 3 (length part) ≡ true = ground (arith, long) in
    let neither : (contains part (normalize_text letters s)
          || contains part (normalize_with_leet letters s))
        ≡ false =
      rw hit at h in
    either_false (contains part (normalize_text letters s))
      (contains part (normalize_with_leet letters s)) neither

no_repetition :
    (letters : Letters) (s : Text)
    → min_length ≤ length s
    → has_excessive_repetitions letters s 3 ≡ false
    → repeats 3 (to_lower letters.lower s) ≡ false
unfolding has_excessive_repetitions
no_repetition letters s h e =
    let long : leb (length s) 3 ≡ false = ground (arith, h) in
    rw (long, has_excessive_repetitions) at e

-- The parts of personal data that are absent where the test finds none.
personal-IsAbsent :
    (letters : Letters) (s : Text) (c : PasswordValidationContext)
    → is_empty_list (personal_errors letters s (some c)) ≡ true
    → (1 ≤ length c.email → IsAbsent letters s (local_part (normalize_text letters c.email)))
      × ((part : Text)
          → 1 ≤ length c.name
          → Memᴰ part (split_name (normalize_text letters c.name))
          → IsAbsent letters s part)
unfolding contains_personal_data
personal-IsAbsent letters s c h =
    let none_found =
      when-empty
        (contains_personal_data letters (normalize_text letters s) (normalize_with_leet letters s)
          c)
        personal_data h in
    let normalized = normalize_text letters s in
    let leet = normalize_with_leet letters s in
    let (by_email, by_name) =
      either_false (has_email letters normalized leet c.email)
        (has_name letters normalized leet c.name) none_found in
    (
      λ there.
          let given : not (length c.email == 0) ≡ true = is_there (length c.email) there in
          let (_, local) =
            either_false
              (leb 3 (length (normalize_text letters c.email))
                && contains (normalize_text letters c.email) normalized)
              (has_part normalized leet (local_part (normalize_text letters c.email)))
              (rw given at by_email) in
          part-IsAbsent letters s (local_part (normalize_text letters c.email)) local,
      λ part there m.
          let given : not (length c.name == 0) ≡ true = is_there (length c.name) there in
          let (_, parts) =
            either_false (has_part normalized leet (normalize_text letters c.name))
              (any (has_part normalized leet) (split_name (normalize_text letters c.name)))
              (rw given at by_name) in
          part-IsAbsent letters s part (
            none-Memᴰ (has_part normalized leet) (split_name (normalize_text letters c.name)) part
              parts m),
    )

-- An accepted password has 12 to 128 units, one each of the four kinds, no space or tabulator at either
-- end, no control character and no run of four equal letters; no forbidden word stands in it, and, in a context with an
-- email or a name, neither the part of the email before the @ nor a part of the name that has only letters and stands between
-- white space, commas, dots, underscores or the ends of the name, if these have three units or more; a hyphen does not
-- end a part. Both hold for the password as it stands and with letters for digits and signs, but for case,
-- white space and accents.
pub assert_valid-IsStrong :
    (letters : Letters) (s : Text) (context : Option PasswordValidationContext)
    → assert_valid letters (string s) context ≡ ok tt
    → IsStrong letters s context
unfolding contains_control_characters
assert_valid-IsStrong letters s context h =
    let (e1, e2, (low, high), e4, e5, e6, e7, e8, e9, e10) =
      all_pass letters s context (assert_valid-errors letters s context h) in
    let quiet = no_repetition letters s low e8 in
    record {
      closed = e1;
      no_control = λ c m. none-Memᴰ is_control_unit s c e2 m;
      min = low;
      max = high;
      upper = any-Memᴰ is_upper s e4;
      lower = any-Memᴰ is_lower s e5;
      digit = any-Memᴰ is_digit s e6;
      special = any-Memᴰ is_special s e7;
      no_run = λ found. sym quiet ∙ (repeats_iff 2 (to_lower letters.lower s)).1 found;
      no_word = λ word m.
          either_false (contains (normalize_text letters word) (normalize_text letters s))
            (contains (normalize_with_leet letters word) (normalize_with_leet letters s))
            (none-Memᴰ (has_word letters s) forbidden_words word e9 m);
      no_email = λ c same there. (personal-IsAbsent letters s c (rw same at e10)).0 there;
      no_name = λ c part same there is long.
          (personal-IsAbsent letters s c (rw same at e10)).1 part there
            (split_name-IsPart part (normalize_text letters c.name) is (omega (arith, long))) long;
    }
