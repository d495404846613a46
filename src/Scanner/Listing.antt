-- ===== src/Scanner/Listing.antt =====
-- How `parseAndExtractValidArpFromInputStream` of LanDeviceScanner.kt reads the listing that the
-- native method writes into the pipe. Texts are lists of character codes.
mod Words
pub mod Entry
pub mod Hosts
use lan_scan.Base.{
  ℕ, ◌≤◌, ◌<◌, ltb, leb, ◌==◌, not, ◌&&◌, ◌||◌, Bool, true, false, Option, none, some, List, [],
  ◌∷◌, length, get_elem?, if◌then◌else◌, ℤ, is_zero,
}
use lan_scan.Scanner.Host.{Host, new_host}
use lan_scan.Text.Codes.{codes, same_text}
use mathlib.Core.List.{filter_map}

-- Puts a character in front of the first of some texts.
unfoldable pub add_front : ℕ → List (List ℕ) → List (List ℕ)
add_front c [] = (c ∷ []) ∷ []
add_front c (field ∷ fields) = (c ∷ field) ∷ fields

-- `readLines()`: a line ends with "\n", "\r" or "\r\n", and the last one may have no end.
unfoldable pub read_lines : (after_cr : Bool) → List ℕ → List (List ℕ)
read_lines after_cr [] = []
read_lines after_cr (c ∷ cs) =
    let rest = read_lines false cs in
    let rest_cr = read_lines true cs in
    if c == 10
    then (if after_cr then rest else [] ∷ rest)
    else if c == 13
    then [] ∷ rest_cr
    else add_front c rest

-- `\s`
unfoldable pub is_space : ℕ → Bool
is_space c = (leb 9 c && leb c 13) || (c == 32)

-- `line.split(Regex("\\s+"))`; `behind` says that the character in front was a space.
unfoldable pub split_spaces : (behind : Bool) → List ℕ → List (List ℕ)
unfolding is_space
split_spaces behind [] = [] ∷ []
split_spaces behind (c ∷ cs) =
    let more = split_spaces true cs in
    let next = split_spaces false cs in
    if is_space c then (if behind then more else [] ∷ more) else add_front c next

-- What is asked of an `InetAddress`.
pub record Address : Type 0 where
  pub link_local : Bool
  pub loopback : Bool

-- What the code calls in the platform.
pub record Platform : Type 0 where
  -- the characters of a stream of bytes, as `StandardCharsets.UTF_8` decodes them
  pub decode : List ℕ → List ℕ
  -- `InetAddress.getByName`; `none` is an UnknownHostException
  pub by_name : List ℕ → Option Address

-- `last()` of a list with a first element
unfoldable pub last_of : List ℕ → List (List ℕ) → List ℕ
last_of field [] = field
last_of field (next ∷ rest) = last_of next rest

-- What a line with more than five fields adds: the tests on its address and its state.
unfoldable pub valid : Option Address → (ip mac state : List ℕ) → Option Host
valid none ip mac state = none
valid (some address) ip mac state =
    if not address.link_local && not address.loopback
    then (if not (same_text state (codes "FAILED")) && not (same_text state (codes "INCOMPLETE"))
        then some (record (new_host ip) { mac = some mac })
        else none)
    else none

module _ (p : Platform) where
  -- The body of `lines.forEach`, on the fields of the line.
  unfoldable pub parse_fields : List (List ℕ) → Option Host
  unfolding valid last_of
  parse_fields (ip ∷ a ∷ b ∷ c ∷ mac ∷ d ∷ rest) = valid (p.by_name ip) ip mac (last_of d rest)
  parse_fields few = none

  unfoldable pub parse_line : List ℕ → Option Host
  unfolding parse_fields split_spaces
  parse_line line = parse_fields (split_spaces false line)

  -- The hosts, from what the native method returned and what stands in the pipe.
  unfoldable pub parse_listing : ℤ → List ℕ → List Host
  unfolding parse_line read_lines
  parse_listing return_code bytes =
      if not (is_zero return_code)
      then []
      else filter_map parse_line (read_lines false (p.decode bytes))
