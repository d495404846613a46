-- ===== src/Scanner/Naming.antt =====
-- How LanDeviceScanner.kt names a host, `processHost` and `resolveHostName`.
pub mod Laws
mod Runs
use lan_scan.Base.{Bool, true, false, Option, none, some, List, ℕ, if◌then◌else◌}
use lan_scan.Resolver.Attempt.{
  Attempt, value, io_exception, exception, out_of_fuel, Names, null, names,
}
use lan_scan.Scanner.Host.{Host, set_hostname}

-- What is asked while a host is named.
pub record Answers : Type 0 where
  -- whether `InetAddress.getByName(host.ip)` gives an address, and its `canonicalHostName`
  pub known : Bool
  pub canonical : List ℕ
  -- `isBlank` of a text
  pub is_blank : List ℕ → Bool
  -- what `resolve` gives for the address; `none` if the resolver's constructor throws
  pub mdns : Option (Attempt Names)
  pub netbios : Option (Attempt Names)

-- The host after `resolveHostName` and its result, or the host when an exception leaves it.
pub data Named : Type 0 where
  settled : Host → (resolved : Bool) → Named
  thrown : Host → Named

-- `host.hostname = name[0]; return true`
unfoldable pub assign : Host → List ℕ → Named
unfolding set_hostname
assign host name = elim (set_hostname host name) [
  | none ↦ thrown host
  | some changed ↦ settled changed true
]

-- `resolver.resolve(add)` and what follows.
unfoldable pub take_name : (is_blank : List ℕ → Bool) → Host → Attempt Names → Named
unfolding assign
take_name is_blank host io_exception = settled host false
take_name is_blank host exception = thrown host
take_name is_blank host out_of_fuel = thrown host
take_name is_blank host (value null) = settled host false
take_name is_blank host (value (names none rest)) = settled host false
take_name is_blank host (value (names (some name) rest)) =
    if is_blank name then settled host false else assign host name

-- `resolveHostName`, with the constructor of the resolver that is its argument.
unfoldable pub resolve_host_name : Answers → Host → Option (Attempt Names) → Named
unfolding take_name
resolve_host_name a host none = thrown host
resolve_host_name a host (some resolved) =
    if a.known then take_name a.is_blank host resolved else settled host false

-- The host that `processHost` returns: an exception is caught and printed.
unfoldable pub caught : Named → Host
caught (settled host resolved) = host
caught (thrown host) = host

-- `if (!isResolveHostName)`
unfoldable pub ask_netbios : Answers → Named → Host
unfolding caught resolve_host_name
ask_netbios a (settled host true) = host
ask_netbios a (settled host false) = caught (resolve_host_name a host a.netbios)
ask_netbios a (thrown host) = host

unfoldable pub process_host : Answers → Host → Host
unfolding set_hostname resolve_host_name ask_netbios
process_host a host =
    if a.known
    then elim (set_hostname host a.canonical) [
      | none ↦ host
      | some changed ↦ ask_netbios a (resolve_host_name a changed a.mdns)
    ]
    else host
