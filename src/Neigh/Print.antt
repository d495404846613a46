-- ===== src/Neigh/Print.antt =====
-- `print_neigh` of android/src/main/c/ipneigh.c, the callback of the dump, and `flush_update`.
pub mod Append
pub mod Flush
use lan_scan.Base.{
  ℕ, zero, suc, ◌+◌, ◌-◌, ◌%◌, ◌^◌, ltb, ◌==◌, not, if◌then◌else◌, Bool, false, ◌&&◌, ◌||◌, Option,
  none, some, List, [], ◌∷◌, ◌++◌, replicate, bit_and, ℤ, pos, negsuc, is_neg, is_zero,
}
use lan_scan.LlMap.{IdxHead}
use lan_scan.Memory.{Run, done, load8, load16, load32, bytes_at, copy, store16, store32}
use lan_scan.Neigh.Address.{Returned}
use lan_scan.Neigh.Match.{inet_addr_match}
use lan_scan.Netlink.Attr.{rta_length}
use lan_scan.Netlink.Send.{rtnl_send_check}
use lan_scan.Sys.{Sys}
use lan_scan.World.{Filter, Cmd, Exec, ◌>>=◌, ◌>>◌, pure, lift, get, put, note, flush_failed}

-- `fprintf(fp, ...)` of this text, and `printf`.
abbrev pub emit : List ℕ → Cmd (Unit {0})
emit text w = Exec.ok tt (record w { out = w.out ++ text })

abbrev pub emit_stdout : List ℕ → Cmd (Unit {0})
emit_stdout text w = Exec.ok tt (record w { stdout = w.stdout ++ text })

abbrev pub when : Bool → Cmd (Unit {0}) → Cmd (Unit {0})
when test act = if test then act else pure tt

-- `%s` of a returned string: NULL is a fault.
abbrev pub string : Returned → Cmd (List ℕ)
string (done (some text)) = pure text
string (done none) = λ _. Exec.fault
string Run.fault = λ _. Exec.fault
string Run.out_of_fuel = λ _. Exec.out_of_fuel

-- What the callback uses and does not change: the interface cache, and what the arrays that it
-- declares hold before they are written.
pub record Env : Type 0 where
  pub android : Bool
  pub show_stats : ℕ
  pub idx_head : IdxHead
  pub nbuf : List ℕ
  pub host_buf : List ℕ
  pub b1 : List ℕ
  pub resp : List ℕ

-- `struct ndmsg *r = NLMSG_DATA(n)`
pub record Ndmsg : Type 0 where
  pub family : ℕ
  pub ifindex : ℕ
  pub state : ℕ
  pub flags : ℕ

-- `errno == e`
abbrev is_errno : ℤ → ℕ → Bool
is_errno (pos n) e = n == e
is_errno (negsuc n) e = false

-- `x & y` as a condition.
abbrev pub has : ℕ → ℕ → Bool
has x y = not (bit_and x y == 0)

unfoldable pub set_filter : Filter → Cmd (Unit {0})
set_filter f = do w ← get; put (record w { filter = f })

module _ (s : Sys) where
  unfoldable pub ndmsg : List ℕ → (r : ℕ) → Cmd Ndmsg
  ndmsg m r = do
    family ← lift (load8 m (r + s.ndm_family_at))
    ifindex ← lift (load32 m (r + s.ndm_ifindex_at))
    state ← lift (load16 m (r + s.ndm_state_at))
    flags ← lift (load8 m (r + s.ndm_flags_at))
    pure (record { family = family; ifindex = ifindex; state = state; flags = flags })

  -- The tests of family, index and state that drop an entry.
  unfoldable pub unwanted : Filter → Ndmsg → Bool
  unwanted f r =
      (not (f.family == 0) && not (f.family == r.family))
      || (not (f.index == 0) && not (f.index == r.ifindex))
      || (not (has f.state r.state)
          && not (has r.flags s.ntf_proxy)
          && (not (r.state == 0) || not (has f.state 0x100))
          && not (r.family == s.af_decnet))

  -- `RTA_DATA(tb[i])` and RTA_PAYLOAD of an attribute at `rta`.
  unfoldable pub rta_payload : List ℕ → (rta : ℕ) → Cmd ℕ
  rta_payload m rta = do l ← lift (load16 m (rta + s.rta_len_at)); pure (l - rta_length s 0)

  -- Words of a little endian array of bytes.
  words : (n : ℕ) → List ℕ → ℕ → Cmd (List ℕ)
  words zero m p = pure []
  words (suc n) m p = do w ← lift (load32 m p); ws ← words n m (p + 4); pure (w ∷ ws)

  -- The test of the prefix: the payload is copied to the front of 64 words of zeros; a longer one would
  -- be written past them. `true` drops the entry.
  pub outside_prefix : Filter → Ndmsg → List ℕ → (rta : ℕ) → Cmd Bool
  unfolding words
  outside_prefix f r m rta = do
    n ← rta_payload m rta
    bytes ← lift (bytes_at m (rta + rta_length s 0) n)
    data_bytes ← lift (copy (replicate 256 0) 0 bytes)
    ws ← words 64 data_bytes 0
    answer ←
        lift (
          inet_addr_match (record { family = r.family; bitlen = 0; words = ws }) f.pfx f.pfx.bitlen)
    pure (not (is_zero answer))

  unfoldable pub dropped_by_prefix : Filter → Ndmsg → List ℕ → Option ℕ → Cmd Bool
  dropped_by_prefix f r m none = pure false
  dropped_by_prefix f r m (some dst) =
      if f.pfx.family == 0 then pure false else outside_prefix f r m dst

  -- `if (filter.unused_only && tb[NDA_CACHEINFO])`: `true` drops an entry that is in use.
  unfoldable pub dropped_as_used : Filter → List ℕ → Option ℕ → Cmd Bool
  dropped_as_used f m none = pure false
  dropped_as_used f m (some ci) = if f.unused_only == 0 then pure false else (do
    refcnt ← lift (load32 m (ci + rta_length s 0 + s.ndm_refcnt_at))
    pure (not (refcnt == 0)))

  flushed_ok : ℤ → Cmd ℤ
  unfolding set_filter
  flushed_ok status = do
    w ← get
    (if is_neg status && not (is_errno w.errno s.eaddrnotavail)
        then (note flush_failed >> pure (negsuc 0))
        else (set_filter (record (w.filter) { flushp = 0 }) >> pure (pos 0)))

  -- `flushb` is not NULL.
  pub flush_update : Env → (flushb : List ℕ) → Cmd ℤ
  unfolding flushed_ok
  flush_update e flushb = do
    w ← get
    bytes ← lift (bytes_at flushb 0 w.filter.flushp)
    status ← rtnl_send_check s e.resp bytes
    flushed_ok status

  -- The request for the entry `n` is put behind those that wait in `flushb`.
  pub flush_append : List ℕ → (n len : ℕ) → List ℕ → Cmd (Unit {0})
  unfolding set_filter
  flush_append m n len flushb = do
    w ← get
    let fn = s.nlmsg_align w.filter.flushp
    bytes ← lift (bytes_at m n len)
    b ← lift (copy flushb fn bytes)
    b ← lift (store16 b (fn + s.nlmsg_type_at) s.rtm_delneigh)
    b ← lift (store16 b (fn + s.nlmsg_flags_at) s.nlm_f_request)
    let seq = (w.rth.seq + 1) % 2 ^ 32
    b ← lift (store32 b (fn + s.nlmsg_seq_at) seq)
    put (record w {
      rth = record (w.rth) { seq = seq };
      filter = record (w.filter) {
        flushb = some b;
        flushp = fn + len;
        flushed = w.filter.flushed + 1;
      };
    })

  -- The branch `if (filter.flushb)`: a full buffer is sent first. A negative answer ends the dump.
  pub flush_entry : Env → List ℕ → (n len : ℕ) → List ℕ → Cmd ℤ
  flush_entry e m n len flushb = do
    w ← get
    status ←
        (if ltb w.filter.flushe (s.nlmsg_align w.filter.flushp + len)
          then flush_update e flushb
          else pure (pos 0))
    (if is_zero status then (flush_append m n len flushb >> pure (pos 0)) else pure (negsuc 0))
