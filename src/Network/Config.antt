-- ===== src/Network/Config.antt =====
-- server/internal/network/network.go: the configuration and its validation.
mod Domain
unfoldable pub use Domain.{valid_domain}
use Prim.Native.String
use lumio_os.Prelude.{
  ℕ, String, Bool, true, false, ◌&&◌, ◌||◌, not, Option, none, some, List, [], ◌∷◌, ltb,
  if◌then◌else◌, ◌==◌, str_eq,
}
use lumio_os.Prelude.Int.{ℤ, pos, negsuc}
use lumio_os.Prelude.Lists.{length}
use lumio_os.Prelude.Map.{Map}
use lumio_os.Prelude.Text.{codes, all_in, is_digit, is_lower, is_upper, is_lower_hex}

pub record Nameservers : Type 0 where
  pub addresses : List String
  pub search_domains : List String

pub record Route : Type 0 where
  pub to : String
  pub via : String
  pub metric : ℕ

pub record EthernetConfig : Type 0 where
  pub dhcp4 : Bool
  pub dhcp6 : Bool
  pub addresses : List String
  pub nameservers : Option Nameservers
  pub routes : List Route
  pub optional : Bool

pub record Config : Type 0 where
  pub version : ℤ
  pub ethernets : Map String EthernetConfig

-- Go's net/netip: `parse_prefix` gives the canonical text of a prefix, `parse_addr` whether the text
-- is an address.
pub record Netip : Type 0 where
  pub parse_prefix : String → Option String
  pub parse_addr : String → Bool

-- [a-zA-Z0-9] and [a-zA-Z0-9_-]
abbrev is_alnum : ℕ → Bool
is_alnum c = is_lower c || is_upper c || is_digit c

abbrev is_name_char : ℕ → Bool
is_name_char c = is_alnum c || c == b'_' || c == b'-'

-- ^[a-zA-Z0-9][a-zA-Z0-9_-]{0,14}$
unfoldable pub interface_name : List ℕ → Bool
unfolding all_in
interface_name [] = false
interface_name (c ∷ cs) = is_alnum c && all_in is_name_char cs && not (ltb 14 (length cs))

-- The text after "sha256:", and false for any other text.
abbrev after_sha256 : List ℕ → (List ℕ → Bool) → Bool
after_sha256 (a ∷ b ∷ c ∷ d ∷ e ∷ f ∷ g ∷ rest) p =
    a == b's'
    && b == b'h'
    && c == b'a'
    && d == b'2'
    && e == b'5'
    && f == b'6'
    && g == b':'
    && p rest
after_sha256 _ p = false

-- [a-f0-9]{64}$
abbrev pub is_hex64 : List ℕ → Bool
is_hex64 rest = all_in is_lower_hex rest && length rest == 64

-- ^sha256:[a-f0-9]{64}$
unfoldable pub valid_revision : String → Bool
unfolding all_in
valid_revision value = after_sha256 (codes value) is_hex64

-- The result of a validation: the text of the error, after "network configuration is invalid: ".
pub data Verdict : Type 0 where
  valid : Verdict
  invalid : String → Verdict

-- if fails { return error }
abbrev pub reject : Bool → String → Verdict → Verdict
reject fails message rest = if fails then invalid message else rest

abbrev contains : String → List String → Bool
contains value [] = false
contains value (v ∷ vs) = str_eq value v || contains value vs

abbrev pub every {ℓ} : {A : Type ℓ} → (A → Bool) → List A → Bool
every p [] = true
every p (x ∷ xs) = p x && every p xs

abbrev is_canonical : Option String → String → Bool
is_canonical none value = false
is_canonical (some canonical) value = str_eq canonical value

module _ (netip : Netip) where
  -- The loop over the addresses, with those that were seen.
  unfoldable pub valid_addresses : List String → List String → Bool
  valid_addresses seen [] = true
  valid_addresses seen (value ∷ rest) =
      is_canonical (netip.parse_prefix value) value
      && not (contains value seen)
      && valid_addresses (value ∷ seen) rest

  abbrev is_prefix : String → Bool
  is_prefix value = elim (netip.parse_prefix value) [ none ↦ false | some _ ↦ true ]

  abbrev is_destination : Route → Bool
  is_destination route = str_eq route.to "default" || is_prefix route.to

  -- The checks of `config.Nameservers`, in front of those that follow.
  validate_nameservers : String → Option Nameservers → Verdict → Verdict
  validate_nameservers name none rest = rest
  validate_nameservers name (some ns) rest =
      reject (ltb 6 (length ns.addresses) || ltb 6 (length ns.search_domains))
        (String.◌++◌ name " has too many DNS values")
        (reject (not (every netip.parse_addr ns.addresses))
          (String.◌++◌ name " has an invalid DNS address")
          (reject (not (every valid_domain ns.search_domains))
            (String.◌++◌ name " has an invalid DNS search domain") rest))

  -- The loop over the routes.
  validate_routes : String → List Route → Verdict
  validate_routes name [] = valid
  validate_routes name (route ∷ routes) =
      reject (not (is_destination route)) (String.◌++◌ name " has an invalid route destination") (
        reject (not (netip.parse_addr route.via)) (String.◌++◌ name " has an invalid route gateway")
          (validate_routes name routes))

  validate_ethernet : String → EthernetConfig → Verdict
  unfolding validate_nameservers validate_routes interface_name
  validate_ethernet name e = reject (not (interface_name (codes name))) "invalid interface name" (
      reject (not e.dhcp4 && not e.dhcp6 && length e.addresses == 0)
        (String.◌++◌ name " needs DHCP or a static address")
        (reject (ltb 8 (length e.addresses)) (String.◌++◌ name " has too many addresses") (
          reject (not (valid_addresses [] e.addresses))
            (String.◌++◌ name " has an invalid or duplicate address")
            (validate_nameservers name e.nameservers (
              reject (ltb 16 (length e.routes)) (String.◌++◌ name " has too many routes")
                (validate_routes name e.routes))))))

  abbrev after : Verdict → Verdict → Verdict
  after valid rest = rest
  after (invalid message) rest = invalid message

  -- for name, ethernet := range config.Ethernets
  validate_ethernets : Map String EthernetConfig → Verdict
  unfolding validate_ethernet
  validate_ethernets [] = valid
  validate_ethernets ((name, e) ∷ rest) = after (validate_ethernet name e) (validate_ethernets rest)

  abbrev is_two : ℤ → Bool
  is_two (pos n) = n == 2
  is_two (negsuc n) = false

  unfoldable pub validate_config : Config → Verdict
  unfolding validate_ethernets
  validate_config config = reject (not (is_two config.version)) "version must be 2" (
      reject (length config.ethernets == 0 || ltb 8 (length config.ethernets))
        "between 1 and 8 ethernet interfaces are required" (validate_ethernets config.ethernets))
