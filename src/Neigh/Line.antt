-- ===== src/Neigh/Line.antt =====
-- The line that `print_neigh` of android/src/main/c/ipneigh.c prints for an entry.
pub mod State
pub mod Prints
use lan_scan.Base.{
  ℕ, ◌+◌, ◌-◌, ◌/◌, ◌==◌, not, if◌then◌else◌, ◌&&◌, Option, none, some, List, [], ◌∷◌, ◌++◌,
  bit_and,
}
use lan_scan.Libc.{Libc}
use lan_scan.LlMap.{ll_index_to_name, ll_index_to_type, signed_decimal}
use lan_scan.Memory.{load32}
use lan_scan.Neigh.Address.{ll_addr_n2a, format_host}
use lan_scan.Neigh.Print.{Env, Ndmsg, has, emit, emit_stdout, when, string, rta_payload}
use lan_scan.Netlink.Attr.{rta_length}
use lan_scan.Sys.{Sys}
use lan_scan.Text.Codes.{codes}
use lan_scan.Text.Decimal.{decimal}
use lan_scan.World.{Cmd, Exec, ◌>>=◌, ◌>>◌, pure, lift}

-- The result of a call that returns a string or has no string to return.
abbrev pub name_of : Option (List ℕ) → Cmd (List ℕ)
name_of none = λ _. Exec.fault
name_of (some name) = pure name

-- `PRINT_FLAG(f)`: the bit is taken out, and a comma follows while others are left.
pub print_flag : (nud mask : ℕ) → List ℕ → ℕ × List ℕ
print_flag nud mask name =
    if has nud mask
    then (let left = bit_and nud (0xffffffff - mask) in
        (left, name ++ (if left == 0 then [] else codes ",")))
    else (nud, [])

pub print_flags : List (ℕ × List ℕ) → (nud : ℕ) → List ℕ
print_flags [] nud = []
print_flags ((mask, name) ∷ rest) nud =
    let (left, text) = print_flag nud mask name in text ++ print_flags rest left

module _ (s : Sys) where
  -- The flags in the order of their lines.
  abbrev pub nud_names : List (ℕ × List ℕ)
  nud_names =
      (s.nud_incomplete, codes "INCOMPLETE")
      ∷ (s.nud_reachable, codes "REACHABLE")
      ∷ (s.nud_stale, codes "STALE")
      ∷ (s.nud_delay, codes "DELAY")
      ∷ (s.nud_probe, codes "PROBE")
      ∷ (s.nud_failed, codes "FAILED")
      ∷ (s.nud_noarp, codes "NOARP")
      ∷ (s.nud_permanent, codes "PERMANENT")
      ∷ []

  -- The text of the state, from the space in front of it on.
  pub state_text : (state : ℕ) → List ℕ
  unfolding print_flags print_flag
  state_text state = if state == 0 then [] else codes " " ++ print_flags nud_names state

  -- What stands in front of the entry, by the type of the message.
  unfoldable pub kind_text : (type : ℕ) → List ℕ
  kind_text type =
      if type == s.rtm_delneigh
      then codes "Deleted "
      else if type == s.rtm_getneigh
      then codes "miss "
      else []

  unfoldable pub flags_text : (flags : ℕ) → List ℕ
  flags_text flags =
      (if has flags s.ntf_router then codes " router" else [])
      ++ (if has flags s.ntf_proxy then codes " proxy" else [])

module _ (s : Sys) (c : Libc) (e : Env) (m : List ℕ) (r : Ndmsg) where
  -- `if (tb[NDA_DST])`
  pub print_dst : Option ℕ → Cmd (Unit {0})
  print_dst none = pure tt
  print_dst (some dst) = do
    n ← rta_payload s m dst
    host ← string (format_host s c e.android r.family n m (dst + rta_length s 0) e.host_buf)
    emit (host ++ codes " ")

  -- `if (!filter.index && r->ndm_ifindex)`
  pub print_dev : (index : ℕ) → Cmd (Unit {0})
  print_dev index =
      if index == 0 && not (r.ifindex == 0)
      then (do
        name ← name_of (ll_index_to_name c e.idx_head e.nbuf r.ifindex)
        emit (codes "dev " ++ (name ++ codes " ")))
      else pure tt

  -- `if (tb[NDA_LLADDR])`; SPRINT_BSIZE is 64.
  pub print_lladdr : Option ℕ → Cmd (Unit {0})
  print_lladdr none = pure tt
  print_lladdr (some ll) = do
    n ← rta_payload s m ll
    addr ←
        string (
          ll_addr_n2a s c m (ll + rta_length s 0) n (ll_index_to_type e.idx_head r.ifindex) e.b1 64)
    emit (codes "lladdr " ++ addr)

  -- A counter in seconds; a division by 0 is a fault.
  seconds : (p hz : ℕ) → Cmd (List ℕ)
  seconds p hz = do
    ticks ← lift (load32 m p)
    (if hz == 0 then (λ _. Exec.fault) else pure (signed_decimal (ticks / hz)))

  -- `if (tb[NDA_CACHEINFO] && show_stats)`; ` ref` goes to the standard output.
  pub print_cacheinfo : Option ℕ → Cmd (Unit {0})
  unfolding seconds
  print_cacheinfo none = pure tt
  print_cacheinfo (some ci) = if e.show_stats == 0 then pure tt else (do
    let at = ci + rta_length s 0
    refcnt ← lift (load32 m (at + s.ndm_refcnt_at))
    when (not (refcnt == 0)) (emit_stdout (codes " ref " ++ signed_decimal refcnt))
    used ← seconds (at + s.ndm_used_at) c.clk_tck
    confirmed ← seconds (at + s.ndm_confirmed_at) c.clk_tck
    updated ← seconds (at + s.ndm_updated_at) c.clk_tck
    emit (codes " used " ++ (used ++ (codes "/" ++ (confirmed ++ (codes "/" ++ updated))))))

  -- `if (tb[NDA_PROBES] && show_stats)`
  pub print_probes : Option ℕ → Cmd (Unit {0})
  print_probes none = pure tt
  print_probes (some at) =
      if e.show_stats == 0
      then pure tt
      else (do p ← lift (load32 m (at + rta_length s 0)); emit (codes " probes " ++ decimal p))
