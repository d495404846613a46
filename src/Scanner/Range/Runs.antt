-- ===== src/Scanner/Range/Runs.antt =====
-- The theorems about the addresses of LanDeviceScanner.kt at a network of a home.
use lan_scan.Base.{
  ℕ, refl, true, ◌==◌, ◌-◌, ◌^◌, ◌<◌, ◌≤◌, ◌≡◌, arith, if◌then◌else◌, ◌⊎◌, length, refl, true, ◌==◌,
}
use lan_scan.Scanner.Range.{
  Network, start_scanning, probes, probe, numeric_ips, to_byte_array, workers, worker,
  number_of_hosts, first_address, netmask, shr, shl,
}
use lan_scan.Scanner.Range.Bytes.{big_endian, to_byte_array-length}
use lan_scan.Scanner.Range.Probes.{NetworkLaws, Scans, start_scanning-probes}
use lan_scan.Resolver.Attempt.{value, io_exception}

-- 192.168.1.23 and 192.168.1.7
abbrev own_address : ℕ
own_address = 0xc0a80117

abbrev another : ℕ
another = 0xc0a80107

-- Each address answers.
abbrev answering : Network
answering = record {
  get_by_address = λ bytes. if length bytes == 4 then value bytes else io_exception;
  is_reachable = λ bytes. value true;
}

answering-laws : NetworkLaws answering
answering-laws = record { four = λ bytes h. rw h refl; fewer = λ bytes h. ground (arith, h) }

start_scanning-probes_example : Scans own_address 24 (start_scanning answering own_address 24)
start_scanning-probes_example =
    start_scanning-probes answering answering-laws (λ bytes. (true, refl)) own_address 24
      (omega arith) (omega arith) (omega arith)

-- 0.0.0.5 in a network of 30 bits
low_network : start_scanning answering 5 30 ≡ io_exception
unfolding start_scanning probes probe numeric_ips to_byte_array workers worker number_of_hosts
    first_address netmask shr shl
low_network = refl

to_byte_array-length_example :
    ((2 ^ 23 ≤ another)
      × (another < 2 ^ 32 - 2 ^ 23)
      × (length (to_byte_array another) ≡ 4)
      × (big_endian 0 (to_byte_array another) ≡ another))
    ⊎ (((another < 2 ^ 23) ⊎ (2 ^ 32 - 2 ^ 23 ≤ another)) × (length (to_byte_array another) < 4))
to_byte_array-length_example = to_byte_array-length another (omega arith)
