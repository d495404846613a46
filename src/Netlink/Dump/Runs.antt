-- ===== src/Netlink/Dump/Runs.antt =====
-- The dump loop at an interrupted dump without an entry.
use lan_scan.Base.{ℕ, ◌≡◌, refl, List, [], ◌∷◌, replicate, arith, ℤ, pos}
use lan_scan.Memory.{load16, load32}
use lan_scan.Neigh.Show.{fresh_filter}
use lan_scan.Netlink.Dump.{rtnl_dump_filter_nc}
use lan_scan.Netlink.Dump.Finish.{EndsAt}
use lan_scan.Netlink.Dump.Retry.{failures, rtnl_dump_filter_nc-ends}
use lan_scan.Netlink.Send.{blank}
use lan_scan.Sys.Linux.{linux, linux-laws}
use lan_scan.Text.Buffer.{overlay}
use lan_scan.World.{World, Exec, Cmd, datagram, ok}

-- NLMSG_DONE with sequence number 0.
abbrev finish : List ℕ
finish = 20 ∷ 0 ∷ 0 ∷ 0 ∷ 3 ∷ 0 ∷ 2 ∷ 0 ∷ 0 ∷ 0 ∷ 0 ∷ 0 ∷ 0 ∷ 0 ∷ 0 ∷ 0 ∷ 0 ∷ 0 ∷ 0 ∷ 0 ∷ []

-- EINTR, EAGAIN and then the end.
abbrev interrupted : World
interrupted = record {
  errno = pos 0;
  rth = blank;
  filter = fresh_filter 0;
  notes = [];
  out = [];
  stdout = [];
  sent = [];
  inbox = failures (4 ∷ 11 ∷ []) (datagram finish 0 0 ∷ []);
  answers = [];
}

abbrev refuses_all : ℕ → List ℕ → ℕ → Cmd ℤ
refuses_all nl_pid buf h w = Exec.fault

finish-EndsAt : EndsAt linux (overlay finish (replicate 64 0)) 0 20 0
unfolding load16 load32
finish-EndsAt = record {
  len = 20;
  word = 0;
  len_read = refl;
  long = omega arith;
  fits = omega arith;
  whole = omega arith;
  type_read = refl;
  seq_read = refl;
  word_read = refl;
  no_error = omega arith;
}

rtnl_dump_filter_nc-ends_example :
    (w : World) × (rtnl_dump_filter_nc linux refuses_all 0 (replicate 64 0) interrupted
      ≡ ok (pos 0) w)
    × (w.inbox ≡ [])
rtnl_dump_filter_nc-ends_example =
    rtnl_dump_filter_nc-ends linux linux-laws refuses_all 0 (replicate 64 0) interrupted
      (4 ∷ 11 ∷ []) finish 0 [] (refl, (refl, tt)) refl refl finish-EndsAt
