-- ===== src/Libc/Laws.antt =====
-- What the program relies on in the system's library.
use lan_scan.Base.{ℕ, ◌≤◌, ◌≡◌, some, List, length}
use lan_scan.Libc.{Libc}
use lan_scan.Sys.{Sys}

-- `inet_ntop` fails only for another family or where the text does not fit: INET_ADDRSTRLEN is 16 and
-- INET6_ADDRSTRLEN is 46.
pub record LibcLaws (s : Sys) (c : Libc) : Type 0 where
  pub inet_ntop4 :
      (bytes : List ℕ) (size : ℕ)
      → length bytes ≡ 4
      → 16 ≤ size
      → (t : List ℕ) × (c.inet_ntop s.af_inet bytes size ≡ some t)
  pub inet_ntop6 :
      (bytes : List ℕ) (size : ℕ)
      → length bytes ≡ 16
      → 46 ≤ size
      → (t : List ℕ) × (c.inet_ntop s.af_inet6 bytes size ≡ some t)
