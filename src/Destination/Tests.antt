-- ===== src/Destination/Tests.antt =====
-- Destinations at concrete inputs.
use facturify.Base.{
  ℕ, ◌≡◌, refl, true, Option, none, some, List, [], ◌∷◌, any, arith, if◌then◌else◌,
}
use facturify.Base.Result.{ok, err}
use facturify.Js.Text.{
  Text, codes, text_eq, trim, trim_start, trim_end, trim_end_cons, is_space, is_digit, is_upper,
  to_lower, lower_unit,
}
use facturify.Js.Number.{lt_num}
use facturify.Js.Value.{Value, string}
use facturify.Destination.Address.{
  split, parse_digits, parse_int, natural, negative, in_restricted_range, judge_parts,
  is_private_or_restricted_ipv4, starts_with, drop_close, strip_brackets, zero_groups,
  zero_groups_one, is_private_or_restricted_ipv6, is_public_routable_ip, normalize_ip,
}
use facturify.Destination.Blocks.{in_block, address_of, special_blocks}
use facturify.Destination.Notation.{dotted, is_private_or_restricted_ipv4-blocks}
use facturify.Destination.Service.{
  generic_dns_safety_error, DnsSafetyOptions, Network, unique, resolve_with_timeout,
  check_addresses, resolve_name, literal_address, check_url, validate_webhook_destination,
}
use facturify.Destination.Laws.{IsAllowed, validate_webhook_destination-IsAllowed}

-- A few addresses, and a network with these answers.
abbrev is_ip : Text → ℕ
is_ip s =
    if any (text_eq s) (codes "93.184.216.34" ∷ codes "10.0.0.7" ∷ codes "172.31.0.1" ∷ [])
    then 4
    else if any (text_eq s) (codes "2606:2800::1" ∷ codes "::1" ∷ codes "0::1" ∷ [])
    then 6
    else 0

abbrev network : Text → Option (Option (List Text) × Option (List Text)) → Network
network host answers = record {
  is_ip = is_ip;
  wide = λ s. s;
  parse_url = λ s. some (record { protocol = codes "https:"; hostname = host });
  lookup = λ h ms. answers;
}

abbrev options : DnsSafetyOptions
options = record { timeout_ms = none; max_addresses = none }

abbrev given : Value
given = string (codes "https://shop.pe/hook")

abbrev answering : Network
answering = network (codes "Shop.pe") (
    some
      (some (codes "93.184.216.34" ∷ codes "93.184.216.34" ∷ []), some (codes "2606:2800::1" ∷ [])))

abbrev rebinding : Network
rebinding =
    network (codes "shop.pe") (some (some (codes "93.184.216.34" ∷ codes "10.0.0.7" ∷ []), none))

opened : Unit {0}
unfolding text_eq trim trim_start trim_end trim_end_cons is_space is_digit is_upper to_lower
    lower_unit lt_num split parse_digits parse_int in_restricted_range judge_parts
    is_private_or_restricted_ipv4 starts_with drop_close strip_brackets zero_groups zero_groups_one
    is_private_or_restricted_ipv6 is_public_routable_ip normalize_ip unique resolve_with_timeout
    check_addresses resolve_name literal_address check_url validate_webhook_destination
opened = tt

answering_run :
    validate_webhook_destination answering given options
    ≡ ok (codes "93.184.216.34" ∷ codes "2606:2800::1" ∷ [])
unfolding opened
answering_run = refl

rebinding_run : validate_webhook_destination rebinding given options ≡ err generic_dns_safety_error
unfolding opened
rebinding_run = refl

timeout_run :
    validate_webhook_destination (network (codes "shop.pe") none) given options
    ≡ err generic_dns_safety_error
unfolding opened
timeout_run = refl

literal_run :
    validate_webhook_destination (network (codes "[::1]") none) given options
    ≡ err generic_dns_safety_error
unfolding opened
literal_run = refl

numbers :
    (parse_int (codes " 12x") ≡ natural 12)
    × (parse_int (codes "-3") ≡ negative)
    × (parse_int (codes "-0") ≡ natural 0)
unfolding opened
numbers = (refl, refl, refl)

-- The loopback address in another notation.
other_notation : is_public_routable_ip is_ip (λ s. s) (codes "0::1") ≡ true
unfolding opened
other_notation = refl

private_ip : is_ip (dotted 172 31 0 1) ≡ 4
unfolding opened
private_ip = refl

is_private_or_restricted_ipv4-blocks_example :
    is_private_or_restricted_ipv4 is_ip (dotted 172 31 0 1)
    ≡ any (in_block (address_of 172 31 0 1)) special_blocks
is_private_or_restricted_ipv4-blocks_example =
    is_private_or_restricted_ipv4-blocks 172 31 0 1 (omega arith) (omega arith) (omega arith)
      (omega arith) is_ip private_ip

validate_webhook_destination-IsAllowed_example :
    IsAllowed answering given options (codes "93.184.216.34" ∷ codes "2606:2800::1" ∷ [])
validate_webhook_destination-IsAllowed_example =
    validate_webhook_destination-IsAllowed answering given options
      (codes "93.184.216.34" ∷ codes "2606:2800::1" ∷ []) answering_run
