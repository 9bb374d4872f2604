-- ===== src/Ipv4.antt =====
-- The part of Python's `ipaddress` that veil_core/linux_proxy.py uses, for IPv4: an address is its
-- 32-bit number. A text that is no IPv4 address is refused here; the callers treat IPv6 texts and
-- texts that are no address alike.
pub mod RoundTrip
use Prim.Native.Char.{code}
use veil_python_stack.Prelude.{
  ℕ, zero, suc, ◌+◌, ◌-◌, ◌*◌, ◌/◌, ◌%◌, ◌^◌, String, Bool, true, false, ◌&&◌, ◌||◌, not, Option,
  none, some, List, [], ◌∷◌, length, ltb, leb, nat_eq, string_eq, ◌==◌, if◌then◌else◌,
}
use veil_python_stack.Text.{cat, split_on, digits_from, show}

abbrev pub dot : ℕ
dot = 46

abbrev pub slash : ℕ
slash = 47

abbrev pub address_count : ℕ
address_count = 2 ^ 32

abbrev chars : String → ℕ
chars String.[] = 0
chars (String.◌∷◌ c s) = suc (chars s)

abbrev leading_zero : String → Bool
leading_zero String.[] = false
leading_zero (String.◌∷◌ c s) = code c == 48 && not (s == "")

abbrev at_most : ℕ → Option ℕ → Option ℕ
at_most m none = none
at_most m (some n) = if leb n m then some n else none

-- `_parse_octet`: one to three digits, no leading zero, at most 255.
unfoldable pub parse_octet : String → Option ℕ
unfolding digits_from
parse_octet s =
    if s == "" || ltb 3 (chars s) || leading_zero s then none else at_most 255 (digits_from 0 s)

abbrev pub of_octets : Option ℕ → Option ℕ → Option ℕ → Option ℕ → Option ℕ
of_octets (some a) (some b) (some c) (some d) = some (((a * 256 + b) * 256 + c) * 256 + d)
of_octets _ _ _ _ = none

abbrev pub parse_octets : List String → Option ℕ
parse_octets (a ∷ b ∷ c ∷ d ∷ []) =
    of_octets (parse_octet a) (parse_octet b) (parse_octet c) (parse_octet d)
parse_octets _ = none

-- `ip_address(text)`, if it is of version 4
unfoldable pub parse_address : String → Option ℕ
parse_address s = parse_octets (split_on dot s)

-- `str(address)`
unfoldable pub show_address : ℕ → String
show_address n = cat (show (n / 256 / 256 / 256)) (
    cat "." (
      cat (show (n / 256 / 256 % 256))
        (cat "." (cat (show (n / 256 % 256)) (cat "." (show (n % 256)))))))

-- How many addresses a prefix of this length leaves.
abbrev pub block : ℕ → ℕ
block prefix = 2 ^ (32 - prefix)

-- The netmask of a prefix length, as an address.
abbrev netmask : ℕ → ℕ
netmask prefix = address_count - block prefix

-- The prefix length that has this netmask, tried from `p` on.
unfoldable pub find_prefix : ℕ → ℕ → ℕ → Option ℕ
find_prefix zero p mask = none
find_prefix (suc k) p mask =
    let rest = find_prefix k (p + 1) mask in if netmask p == mask then some p else rest

abbrev or_hostmask : ℕ → Option ℕ → Option ℕ
or_hostmask n (some p) = some p
or_hostmask n none = find_prefix 33 0 (address_count - 1 - n)

abbrev prefix_of_mask : Option ℕ → Option ℕ
prefix_of_mask none = none
prefix_of_mask (some n) = or_hostmask n (find_prefix 33 0 n)

abbrev or_mask : String → Option ℕ → Option ℕ
or_mask s (some p) = if leb p 32 then some p else none
or_mask s none = prefix_of_mask (parse_address s)

-- `_make_netmask`: a prefix length in digits, else a netmask, else a host mask.
unfoldable pub parse_prefix : String → Option ℕ
unfolding find_prefix
parse_prefix s = if s == "" then none else or_mask s (digits_from 0 s)

-- `IPv4Interface`: an address in its network.
pub record Interface : Type 0 where
  pub ip : ℕ
  pub prefix : ℕ

abbrev of_parts : Option ℕ → Option ℕ → Option Interface
of_parts (some n) (some p) = some (record { ip = n; prefix = p })
of_parts _ _ = none

abbrev interface_of : List String → Option Interface
interface_of (a ∷ []) = of_parts (parse_address a) (some 32)
interface_of (a ∷ p ∷ []) = of_parts (parse_address a) (parse_prefix p)
interface_of _ = none

-- `ip_interface(text)`, if it is of version 4
unfoldable pub parse_interface : String → Option Interface
unfolding parse_address parse_prefix split_on
parse_interface s = interface_of (split_on slash s)

-- `interface.network.network_address` and `.broadcast_address`
abbrev pub network_address : Interface → ℕ
network_address i = i.ip / block i.prefix * block i.prefix

abbrev pub broadcast_address : Interface → ℕ
broadcast_address i = network_address i + (block i.prefix - 1)

-- `address in interface.network`
abbrev pub contains : Interface → ℕ → Bool
contains i n = n / block i.prefix * block i.prefix == network_address i

-- `network.hosts()`: the first of the hosts and their number.
unfoldable pub hosts : Interface → ℕ × ℕ
hosts i =
    if i.prefix == 32
    then (network_address i, 1)
    else if i.prefix == 31
    then (network_address i, 2)
    else (network_address i + 1, block i.prefix - 2)

-- `str(network)`
unfoldable pub show_network : Interface → String
unfolding show_address
show_network i = cat (show_address (network_address i)) (cat "/" (show i.prefix))
