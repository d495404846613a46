-- ===== src/Ipx.antt =====
-- android/src/main/c/ipx_ntop.c: IPX addresses as `network.node` in hexadecimal.
pub mod Laws
mod Runs
use lan_scan.Base.{
  ℕ, zero, suc, ◌+◌, ◌-◌, ◌*◌, ◌/◌, ◌%◌, ◌^◌, ltb, ◌==◌, if◌then◌else◌, List, [], ◌∷◌, ntohl,
}
use lan_scan.Sys.{Sys}
use lan_scan.Text.Buffer.{Writer, more, ◌>>=◌, put, finish, Printed, null, text}

-- `struct ipx_addr`: `ipx_net` is the word as it lies in memory, in network order; `ipx_node` has
-- IPX_NODE_LEN = 6 bytes.
pub record IpxAddr : Type 0 where
  pub ipx_net : ℕ
  pub ipx_node : List ℕ

-- The character for the digit `tmp`, stored into a `char`.
pub digit_char : ℕ → ℕ
digit_char tmp = (if ltb 9 tmp then tmp + b'A' - 10 else tmp + b'0') % 2 ^ 8

-- `addr >> (scale * 4)`, `tmp &= 0x0f`
pub do_digit : (len addr scale : ℕ) → List ℕ → ℕ → Writer
do_digit len addr scale = put len (digit_char (addr / 2 ^ (scale * 4) % 2 ^ 4))

-- `for (i = 7; i >= 0; i--)` with `left` rounds to go, so that `i` is `left - 1`.
pub net_loop : (len net left : ℕ) → List ℕ → ℕ → Writer
net_loop len net zero str pos = more str pos
net_loop len net (suc i) str pos = do_digit len net i str pos >>= net_loop len net i

-- `for (i = 0; i < 6; i++)` over the bytes of `ipx_node`.
pub node_loop : (len : ℕ) → List ℕ → List ℕ → ℕ → Writer
node_loop len [] str pos = more str pos
node_loop len (b ∷ node) str pos =
    do_digit len b 1 str pos >>= do_digit len b 0 >>= node_loop len node

pub ipx_ntop1 : IpxAddr → List ℕ → ℕ → Printed
ipx_ntop1 addr str len =
    if len == 0
    then text str
    else finish (
        net_loop len (ntohl addr.ipx_net) 8 str 0
        >>= put len b'.'
        >>= node_loop len addr.ipx_node
        >>= put len 0)

-- The new `errno` comes first.
pub ipx_ntop : Sys → ℕ → IpxAddr → List ℕ → ℕ → ℕ × Printed
ipx_ntop s af addr str len =
    if af == s.af_ipx then (0, ipx_ntop1 addr str len) else (s.eafnosupport, null)
