-- ===== src/Neigh/Show/Runs.antt =====
-- The listing of android/src/main/c/ipneigh.c at a concrete answer of the kernel.
use lan_scan.Base.{
  ◌≤◌, length, ℕ, ◌≡◌, refl, ◌==◌, if◌then◌else◌, true, none, some, List, [], ◌∷◌, ◌++◌, replicate,
  arith, pos,
}
use lan_scan.Libc.{Libc}
use lan_scan.Libc.Laws.{LibcLaws}
use lan_scan.Memory.{done, load16, load32}
use lan_scan.Neigh.Address.{format_host}
use lan_scan.Neigh.Address.Shown.{host_text, format_host-shown}
use lan_scan.Neigh.Callback.{print_neigh}
use lan_scan.Neigh.Callback.Branches.{print_neigh-Outcome}
use lan_scan.Neigh.Callback.Entry.{IsListing}
use lan_scan.Neigh.Callback.Outcome.{Outcome}
use lan_scan.Neigh.Line.Prints.{IsRoomy}
use lan_scan.Neigh.Print.{Env, flush_append, flush_entry}
use lan_scan.Neigh.Print.Append.{Waits, with_entry, flush_append-Waits}
use lan_scan.Neigh.Print.Flush.{IsFlushing, Flushes, flush_entry-Safe}
use lan_scan.Neigh.Show.{fresh_filter, native_ip_neigh}
use lan_scan.Neigh.Show.Ends.{Ended, native_ip_neigh-Safe}
use lan_scan.Netlink.Dump.Safe.{Inside}
use lan_scan.Netlink.Message.{nlmsg_len}
use lan_scan.Netlink.Send.{OpenAnswers, blank}
use lan_scan.Sys.Linux.{linux, linux-laws}
use lan_scan.Text.Codes.{codes}
use lan_scan.World.{World, ok, datagram, Peeked}
use lan_scan.World.Safe.{Safe}

abbrev pub wifi : Libc
wifi = record {
  inet_ntop = λ af bytes size. some (codes "10.0.0.5");
  if_indextoname = λ i. if i == 3 then some (codes "wlan0") else none;
  clk_tck = 100;
}

wifi-laws : LibcLaws linux wifi
wifi-laws = record {
  inet_ntop4 = λ bytes size four room. (codes "10.0.0.5", refl);
  inet_ntop6 = λ bytes size sixteen room. (codes "10.0.0.5", refl);
}

abbrev pub arrays : Env
arrays = record {
  android = true;
  show_stats = 0;
  idx_head = λ bucket. [];
  nbuf = replicate 16 0;
  host_buf = replicate 256 0;
  b1 = replicate 64 0;
  resp = replicate 1024 0;
}

arrays-IsRoomy : IsRoomy arrays
arrays-IsRoomy = record {
  android = refl;
  quiet = refl;
  nbuf_room = omega arith;
  host_room = omega arith;
  b1_room = omega arith;
}

-- RTM_NEWNEIGH with sequence number 101: 10.0.0.5 at aa:bb:cc:1:2:3 on interface 3, reachable, and
-- an attribute without data.
abbrev pub neighbour : List ℕ
neighbour =
    (52 ∷ 0 ∷ 0 ∷ 0 ∷ 28 ∷ 0 ∷ 2 ∷ 0 ∷ 101 ∷ 0 ∷ 0 ∷ 0 ∷ 0 ∷ 0 ∷ 0 ∷ 0 ∷ [])
    ++ (2 ∷ 0 ∷ 0 ∷ 0 ∷ 3 ∷ 0 ∷ 0 ∷ 0 ∷ 2 ∷ 0 ∷ 0 ∷ 1 ∷ [])
    ++ (8 ∷ 0 ∷ 1 ∷ 0 ∷ 10 ∷ 0 ∷ 0 ∷ 5 ∷ [])
    ++ (10 ∷ 0 ∷ 2 ∷ 0 ∷ 170 ∷ 187 ∷ 204 ∷ 1 ∷ 2 ∷ 3 ∷ 0 ∷ 0 ∷ [])
    ++ (4 ∷ 0 ∷ 4 ∷ 0 ∷ [])

abbrev end_of_dump : List ℕ
end_of_dump = 20 ∷ 0 ∷ 0 ∷ 0 ∷ 3 ∷ 0 ∷ 2 ∷ 0 ∷ 101 ∷ 0 ∷ 0 ∷ 0 ∷ 0 ∷ 0 ∷ 0 ∷ 0 ∷ 0 ∷ 0 ∷ 0 ∷ 0 ∷ []

abbrev pub before : World
before = record {
  errno = pos 0;
  rth = blank;
  filter = fresh_filter 0;
  notes = [];
  out = [];
  stdout = [];
  sent = [];
  inbox = datagram (neighbour ++ end_of_dump) 0 0 ∷ [];
  answers = record { status = pos 28; errno = 0; peeked = Peeked.failed 11 } ∷ [];
}

abbrev pub received : List ℕ
received = neighbour ++ replicate 24 0

neighbour_len : nlmsg_len linux received 0 ≡ done 52
unfolding load32 load16
neighbour_len = refl

abbrev neighbour-Inside : Inside linux 76 24 received 0
neighbour-Inside = record {
  len = 52;
  same = refl;
  header = omega arith;
  len_read = neighbour_len;
  big = omega arith;
  whole = omega arith;
}

before-IsListing : IsListing (before.filter)
before-IsListing = record {
  no_flush = refl;
  no_prefix = refl;
  no_index = refl;
  no_master = refl;
  any_use = refl;
}

print_neigh-Outcome_example :
    Outcome linux wifi arrays received 0 52 before
      (print_neigh linux wifi arrays 0 received 0 before)
print_neigh-Outcome_example =
    print_neigh-Outcome linux linux-laws wifi wifi-laws arrays arrays-IsRoomy 76 24 (omega arith) 0
      received 0 before neighbour-Inside before-IsListing

abbrev socket_answers : OpenAnswers
socket_answers = record {
  socket = pos 5;
  sndbuf = pos 0;
  rcvbuf = pos 0;
  getsockname = pos 0;
  addr_len = 12;
  nl_family = 16;
  nl_groups = 0;
  nl_pid = 321;
  time = 100;
}

native_ip_neigh-Safe_example :
    Safe
      (Ended linux wifi arrays [])
      (native_ip_neigh linux wifi arrays true socket_answers (replicate 200 0) before)
native_ip_neigh-Safe_example =
    native_ip_neigh-Safe linux linux-laws wifi wifi-laws arrays arrays-IsRoomy (replicate 200 0) 24
      (omega arith) true socket_answers before (omega arith, tt)

-- The destination of the message.
format_host-shown_example :
    format_host linux wifi true 2 4 received 32 (replicate 256 0)
    ≡ done (some (host_text linux wifi received 32 4 2))
format_host-shown_example =
    format_host-shown linux wifi wifi-laws received 32 4 (omega arith) (omega arith) 2
      (replicate 256 0) (omega arith)

-- A flush with a buffer of 64 bytes, in which 20 wait.
abbrev part_full : World
part_full = record before {
  filter = record (fresh_filter 0) { flushb = some (replicate 64 0); flushp = 20; flushe = 64 };
}

part_full-IsFlushing : IsFlushing (replicate 64 0) (part_full.filter)
part_full-IsFlushing = record { buffer = refl; room = omega arith; used = omega arith }

no_answer_small : (bs : List ℕ) → Peeked.failed 11 ≡ Peeked.bytes bs → length bs ≤ 1024
no_answer_small bs e = absurd (cc e)

flush_append-Waits_example :
    (b : List ℕ) × (flush_append linux neighbour 0 52 (replicate 80 0) part_full
      ≡ ok tt (with_entry linux 52 b part_full))
    × Waits linux neighbour 0 52 (replicate 80 0) 20 1 b
flush_append-Waits_example =
    flush_append-Waits linux linux-laws neighbour 0 52 (omega arith) (omega arith) (replicate 80 0)
      part_full (omega arith)

flush_entry-Safe_example :
    Safe
      (Flushes linux neighbour 0 52 (replicate 64 0) part_full)
      (flush_entry linux arrays neighbour 0 52 (replicate 64 0) part_full)
flush_entry-Safe_example =
    flush_entry-Safe linux linux-laws arrays (replicate 64 0) part_full part_full-IsFlushing
      (no_answer_small, tt) neighbour 0 52 (omega arith) (omega arith) (omega arith)
