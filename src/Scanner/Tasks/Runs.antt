-- ===== src/Scanner/Tasks/Runs.antt =====
-- The theorems about the coroutines of LanDeviceScanner.kt on a network with two hosts.
use lan_scan.Base.{ℕ, ◌≤◌, ◌≡◌, refl, arith, true, false, [], ◌∷◌, replicate, ◌==◌}
use lan_scan.Scanner.Range.{
  Network, probe, to_byte_array, worker, number_of_hosts, first_address, netmask, shr, shl,
}
use lan_scan.Scanner.Range.Bytes.{big_endian}
use lan_scan.Scanner.Range.Shares.{tries, wanted}
use lan_scan.Resolver.Attempt.{value}
use lan_scan.Scanner.Tasks.{
  host, over, Scan, shares_of, launched, try_next, finish, Reach, here, next,
}
use lan_scan.Scanner.Tasks.Order.{sent_hosts, Reach-at_most_once, Reach-exactly_once}

-- 192.168.1.5 and 192.168.1.6, in the network of 30 bits
abbrev lower : ℕ
lower = 0xc0a80105

abbrev upper : ℕ
upper = 0xc0a80106

-- Only the second answers.
abbrev net : Network
net = record {
  get_by_address = λ bytes. value bytes;
  is_reachable = λ bytes. value (big_endian 0 bytes == upper);
}

-- The second is tried first and answers.
abbrev scanned : Scan
scanned = record {
  shares = replicate 8 [];
  tried = lower ∷ upper ∷ [];
  active = true;
  timed_out = false;
  ended = true;
  events = over ∷ host upper ∷ [];
}

scanned-Reach : Reach net (launched lower 30) scanned
unfolding launched probe to_byte_array shares_of worker number_of_hosts first_address netmask shr
    shl
scanned-Reach =
    next
      (next (next here (try_next ((lower ∷ []) ∷ []) (replicate 6 []) upper [] true refl refl refl))
        (try_next [] (replicate 7 []) lower [] false refl refl refl))
      (finish (refl, (refl, (refl, (refl, (refl, (refl, (refl, (refl, tt)))))))) refl refl)

Reach-at_most_once_example :
    (tries upper (scanned.tried) ≤ wanted lower 30 upper)
    × (sent_hosts upper (scanned.events) ≤ tries upper (scanned.tried))
Reach-at_most_once_example =
    Reach-at_most_once net lower 30 (omega arith) (omega arith) (omega arith) scanned-Reach upper

Reach-exactly_once_example : tries upper (scanned.tried) ≡ wanted lower 30 upper
Reach-exactly_once_example =
    Reach-exactly_once net lower 30 (omega arith) (omega arith) (omega arith) scanned-Reach refl
      refl refl upper
