-- ===== src/Scanner/Host.antt =====
-- A host of android/src/main/kotlin/com/example/lan_scan/networkUtils/Host.kt.
use lan_scan.Base.{
  ℕ, ◌-◌, ◌==◌, ◌||◌, leb, ltb, ◌&&◌, Bool, Option, none, some, List, length, take, drop,
  if◌then◌else◌,
}
use lan_scan.Text.Codes.{codes, same_text}

pub record Host : Type 0 where
  pub ip : List ℕ
  pub mac : Option (List ℕ)
  pub hostname : Option (List ℕ)

-- `Host(ip)`
abbrev pub new_host : List ℕ → Host
new_host ip = record { ip = ip; mac = none; hostname = none }

-- `value.endsWith(".local")`
unfoldable pub ends_with_local : List ℕ → Bool
ends_with_local value =
    leb 6 (length value) && same_text (drop (length value - 6) value) (codes ".local")

-- What the setter of `hostname` makes of a value; `none` is an exception of `substring`.
unfoldable pub hostname_field : List ℕ → Option (List ℕ)
unfolding ends_with_local
hostname_field value =
    if (length value == 0) || ends_with_local value
    then (if ltb (length value) 6 then none else some (take (length value - 6) value))
    else some value

-- The assignment `host.hostname = value` of a value that is not null; `none` is an exception.
unfoldable pub set_hostname : Host → List ℕ → Option Host
unfolding hostname_field
set_hostname host value = elim (hostname_field value) [
  | none ↦ none
  | some field ↦ some (record host { hostname = some field })
]
