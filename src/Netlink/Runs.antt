-- ===== src/Netlink/Runs.antt =====
-- The theorems on libnetlink.c at concrete messages and callbacks.
use lan_scan.Base.{
  ℕ, ◌≤◌, ◌≡◌, refl, length, ◌==◌, if◌then◌else◌, List, [], ◌∷◌, ◌++◌, replicate, arith, ℤ, pos,
  negsuc,
}
use lan_scan.Neigh.Show.{fresh_filter}
use lan_scan.Netlink.Attr.{parse_rtattr_flags}
use lan_scan.Netlink.Attr.Table.{Tabulates, parse_rtattr_flags-Tabulates}
use lan_scan.Netlink.Dump.{rtnl_dump_filter_nc}
use lan_scan.Netlink.Dump.Ends.{rtnl_dump_filter_nc-Safe}
use lan_scan.Netlink.Dump.Only.{rtnl_dump_filter_nc-agree}
use lan_scan.Netlink.Send.{
  OpenAnswers, blank, rtnl_open, transmit, rtnl_dump_request_n, rtnl_send_check,
}
use lan_scan.Netlink.Send.Open.{Opens, rtnl_open-Opens}
use lan_scan.Memory.{done, load16, load32}
use lan_scan.Memory.Laws.{slice}
use lan_scan.Netlink.Send.Request.{IsRequest, asking, rtnl_dump_request_n-IsRequest}
use lan_scan.Netlink.Send.Check.{Checks, rtnl_send_check-Checks}
use lan_scan.Sys.Linux.{linux, linux-laws}
use lan_scan.World.{World, Peeked, Filter, Cmd, datagram, and_then, pure}
use lan_scan.World.Safe.{Safe, Keeps}

-- NDA_DST 10.0.0.5, NDA_DST 10.0.0.6, then the four bytes of NDA_PROBES 1; 8 bytes follow.
abbrev some_attributes : List ℕ
some_attributes =
    (8 ∷ 0 ∷ 1 ∷ 0 ∷ 10 ∷ 0 ∷ 0 ∷ 5 ∷ [])
    ++ (8 ∷ 0 ∷ 1 ∷ 0 ∷ 10 ∷ 0 ∷ 0 ∷ 6 ∷ [])
    ++ (8 ∷ 0 ∷ 4 ∷ 0 ∷ 1 ∷ 0 ∷ 0 ∷ 0 ∷ [])
    ++ replicate 8 0

parse_rtattr_flags-Tabulates_example :
    Tabulates linux some_attributes 12 0 0 24
      (parse_rtattr_flags linux some_attributes 12 0 (pos 24) 0)
parse_rtattr_flags-Tabulates_example =
    parse_rtattr_flags-Tabulates linux linux-laws some_attributes 12 0 24 0 (omega arith)

-- A message of another dump, with sequence number 7, then the end of this one, with 0.
abbrev replies : List ℕ
replies =
    (16 ∷ 0 ∷ 0 ∷ 0 ∷ 28 ∷ 0 ∷ 2 ∷ 0 ∷ 7 ∷ 0 ∷ 0 ∷ 0 ∷ 0 ∷ 0 ∷ 0 ∷ 0 ∷ [])
    ++ (20 ∷ 0 ∷ 0 ∷ 0 ∷ 3 ∷ 0 ∷ 2 ∷ 0 ∷ 0 ∷ 0 ∷ 0 ∷ 0 ∷ 0 ∷ 0 ∷ 0 ∷ 0 ∷ 0 ∷ 0 ∷ 0 ∷ 0 ∷ [])

abbrev listening : World
listening = record {
  errno = pos 0;
  rth = blank;
  filter = fresh_filter 0;
  notes = [];
  out = [];
  stdout = [];
  sent = [];
  inbox = datagram replies 0 0 ∷ datagram replies 1234 0 ∷ [];
  answers = [];
}

abbrev accepts : ℕ → List ℕ → ℕ → Cmd ℤ
accepts nl_pid buf h = pure (pos 0)

abbrev only_the_kernel : ℕ → List ℕ → ℕ → Cmd ℤ
only_the_kernel nl_pid buf h = if nl_pid == 0 then pure (pos 0) else pure (negsuc 0)

rtnl_dump_filter_nc-agree_example :
    rtnl_dump_filter_nc linux accepts 2 (replicate 64 0) listening
    ≡ rtnl_dump_filter_nc linux only_the_kernel 2 (replicate 64 0) listening
rtnl_dump_filter_nc-agree_example =
    rtnl_dump_filter_nc-agree linux accepts only_the_kernel 2 (replicate 64 0) listening
      (λ buf h type w seq is_type not_done not_error no_file. refl)

-- The filter is never changed.
abbrev IsFresh : Filter → List ℕ → Type 0
IsFresh f out = f ≡ fresh_filter 0

rtnl_dump_filter_nc-Safe_example :
    Safe (Keeps IsFresh) (rtnl_dump_filter_nc linux accepts 2 (replicate 64 0) listening)
rtnl_dump_filter_nc-Safe_example =
    rtnl_dump_filter_nc-Safe linux linux-laws 20 IsFresh accepts 2 (replicate 64 0) listening
      (omega arith) (λ nl_pid buf h w inside k. k) (omega arith, (omega arith, tt)) refl

-- A header whose length says 20, and the four bytes behind it.
abbrev unsent : List ℕ
unsent = 20 ∷ 0 ∷ 0 ∷ 0 ∷ 30 ∷ 0 ∷ 0 ∷ 0 ∷ 0 ∷ 0 ∷ 0 ∷ 0 ∷ 9 ∷ 9 ∷ 9 ∷ 9 ∷ 2 ∷ 0 ∷ 0 ∷ 0 ∷ []

unsent_len : load32 unsent linux.nlmsg_len_at ≡ done 20
unfolding load32 load16
unsent_len = refl

rtnl_dump_request_n-IsRequest_example :
    (n : List ℕ) × IsRequest linux unsent listening n
    × (rtnl_dump_request_n linux unsent listening
        ≡ and_then (transmit linux (slice n 0 20) (asking listening)) (λ a. pure a.status))
rtnl_dump_request_n-IsRequest_example =
    rtnl_dump_request_n-IsRequest linux linux-laws unsent listening 20 (omega arith) unsent_len
      (omega arith)

-- Socket 5, with the name that the kernel gives it.
abbrev answers : OpenAnswers
answers = record {
  socket = pos 5;
  sndbuf = pos 0;
  rcvbuf = pos 0;
  getsockname = pos 0;
  addr_len = 12;
  nl_family = 16;
  nl_groups = 0;
  nl_pid = 321;
  time = 1700000000;
}

rtnl_open-Opens_example : Opens linux answers listening (rtnl_open linux answers 0 listening)
rtnl_open-Opens_example = rtnl_open-Opens linux answers 0 listening

-- The kernel's answer to a request that it does not take: NLMSG_ERROR with the number -2.
abbrev refusal : List ℕ
refusal =
    (36 ∷ 0 ∷ 0 ∷ 0 ∷ 2 ∷ 0 ∷ 0 ∷ 0 ∷ 0 ∷ 0 ∷ 0 ∷ 0 ∷ 0 ∷ 0 ∷ 0 ∷ 0 ∷ [])
    ++ (0xfe ∷ 0xff ∷ 0xff ∷ 0xff ∷ [])
    ++ replicate 16 0

abbrev refused_at_once : World
refused_at_once = record listening {
  answers = record { status = pos 20; errno = 0; peeked = Peeked.bytes refusal } ∷ [];
}

bytes-Injective : (bs cs : List ℕ) → Peeked.bytes bs ≡ Peeked.bytes cs → bs ≡ cs
bytes-Injective bs cs e = cc

refusal_small : (bs : List ℕ) → Peeked.bytes refusal ≡ Peeked.bytes bs → length bs ≤ 1024
refusal_small bs e =
    let same : refusal ≡ bs = bytes-Injective refusal bs e in rw (← same) (omega arith)

rtnl_send_check-Checks_example :
    Checks linux
      (replicate 1024 0)
      unsent
      refused_at_once
      (rtnl_send_check linux (replicate 1024 0) unsent refused_at_once)
      (refused_at_once.answers)
rtnl_send_check-Checks_example =
    rtnl_send_check-Checks linux linux-laws (replicate 1024 0) unsent refused_at_once
      (refusal_small, tt)
