-- ===== src/Destination/Service.antt =====
-- `WebhookDnsSafetyService` (src/webhook-dns-safety/webhook-dns-safety.service.ts). The parser of
-- URLs, `net.isIP`, and the answers and the timing of the DNS are arguments.
use facturify.Base.{
  ℕ, Bool, true, false, not, Option, none, some, List, [], ◌∷◌, ◌++◌, map, filter, length, ◌==◌,
  if◌then◌else◌,
}
use facturify.Base.Result.{Result, ok, err, ◌>>=◌, ◌>>◌, throw_if}
use facturify.Js.Text.{Text, codes, text_eq, trim, to_lower}
use facturify.Js.Number.{Num, of_ℕ, lt_num}
use facturify.Js.Value.{Value, string}
use facturify.Destination.Address.{is_public_routable_ip, normalize_ip, strip_brackets}

abbrev pub default_dns_timeout_ms : Num
default_dns_timeout_ms = of_ℕ 3000

abbrev pub max_dns_resolved_addresses : Num
max_dns_resolved_addresses = of_ℕ 16

-- The exception, whose message is always `GENERIC_DNS_SAFETY_ERROR_MESSAGE`.
pub data DnsSafetyError : Type 0 where
  generic_dns_safety_error : DnsSafetyError

pub record DnsSafetyOptions : Type 0 where
  pub timeout_ms : Option Num
  pub max_addresses : Option Num

-- What is used of a parsed `URL`.
pub record Url : Type 0 where
  pub protocol : Text
  pub hostname : Text

-- `lookup host ms`: the answers for A and for AAAA, none where the query fails, or none of both if
-- the timer of `ms` milliseconds fires first.
pub record Network : Type 0 where
  pub is_ip : Text → ℕ
  pub wide : Text → Text
  pub parse_url : Text → Option Url
  pub lookup : Text → Num → Option (Option (List Text) × Option (List Text))

abbrev pub is_empty : Text → Bool
is_empty [] = true
is_empty (_ ∷ _) = false

abbrev pub or_default : Option Num → Num → Num
or_default none d = d
or_default (some x) d = x

-- `Array.from(new Set(list))`
unfoldable pub unique : List Text → List Text
unfolding text_eq
unique [] = []
unique (s ∷ ss) = s ∷ filter (λ t. not (text_eq s t)) (unique ss)

-- `NodeDnsResolver`: a query that fails has no answers.
abbrev pub resolve_one : Option (List Text) → List Text
resolve_one none = []
resolve_one (some ss) = ss

module _ (N : Network) where
  open N use {is_ip, wide, parse_url, lookup}

  unfoldable pub resolve_with_timeout : Text → Num → Result DnsSafetyError (List Text)
  resolve_with_timeout hostname timeout_ms = elim (lookup hostname timeout_ms) [
    | none ↦ err generic_dns_safety_error
    | some (v4, v6) ↦ ok (resolve_one v4 ++ resolve_one v6)
  ]

  -- The loop over the addresses.
  unfoldable pub check_addresses : List Text → Result DnsSafetyError (Unit {0})
  unfolding is_public_routable_ip
  check_addresses [] = ok tt
  check_addresses (ip ∷ ips) = do
    throw_if (not (is_public_routable_ip is_ip wide ip)) generic_dns_safety_error
    check_addresses ips

  abbrev pub is_missing : List Text → Bool
  is_missing [] = true
  is_missing (_ ∷ _) = false

  -- The addresses of a name.
  unfoldable pub resolve_name : Text → DnsSafetyOptions → Result DnsSafetyError (List Text)
  unfolding resolve_with_timeout lt_num unique normalize_ip check_addresses
  resolve_name hostname options = do
    resolved ← resolve_with_timeout hostname (or_default options.timeout_ms default_dns_timeout_ms)
    throw_if (is_missing resolved) generic_dns_safety_error
    throw_if
        (lt_num (or_default options.max_addresses max_dns_resolved_addresses)
          (of_ℕ (length resolved)))
        generic_dns_safety_error
    let unique_normalized = unique (map (normalize_ip wide) resolved)
    check_addresses unique_normalized
    ok unique_normalized

  -- The address that a URL is written with.
  unfoldable pub literal_address : Text → Result DnsSafetyError (List Text)
  unfolding is_public_routable_ip normalize_ip
  literal_address hostname = do
    throw_if (not (is_public_routable_ip is_ip wide hostname)) generic_dns_safety_error
    ok (normalize_ip wide hostname ∷ [])

  abbrev pub clean_hostname : Url → Text
  clean_hostname url = to_lower wide (strip_brackets (trim url.hostname))

  unfoldable pub check_url : Option Url → DnsSafetyOptions → Result DnsSafetyError (List Text)
  unfolding text_eq trim strip_brackets to_lower literal_address resolve_name
  check_url none options = err generic_dns_safety_error
  check_url (some url) options = do
    throw_if (not (text_eq url.protocol (codes "https:"))) generic_dns_safety_error
    throw_if (is_empty (trim url.hostname)) generic_dns_safety_error
    (if not (is_ip (clean_hostname url) == 0)
        then literal_address (clean_hostname url)
        else resolve_name (clean_hostname url) options)

  -- The addresses that are allowed.
  unfoldable pub validate_webhook_destination :
      Value → DnsSafetyOptions → Result DnsSafetyError (List Text)
  unfolding trim check_url
  validate_webhook_destination (string s) options = do
    throw_if (is_empty (trim s)) generic_dns_safety_error
    check_url (parse_url (trim s)) options
  validate_webhook_destination _ options = err generic_dns_safety_error
