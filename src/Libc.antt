-- ===== src/Libc.antt =====
-- What the program calls in the system's library and does not implement. The answers are
-- parameters; `none` is a NULL result.
pub mod Laws
use lan_scan.Base.{ℕ, Option, List}

pub record Libc : Type 0 where
  -- `inet_ntop(af, addr, ...)`, given the bytes of the address and the size of the buffer.
  pub inet_ntop : (af : ℕ) → List ℕ → (size : ℕ) → Option (List ℕ)
  -- `if_indextoname(idx, ...)`
  pub if_indextoname : ℕ → Option (List ℕ)
  -- `sysconf(_SC_CLK_TCK)`
  pub clk_tck : ℕ
