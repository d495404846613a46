-- ===== src/Sys/Linux.antt =====
-- The values of the Linux headers, at which the tests and the examples run the program.
use Prim.Native.Nat.{◌+◌, ◌*◌, ◌/◌}
use lan_scan.Sys.{Sys}
use lan_scan.Sys.Laws.{SysLaws}
use native.Mathlib.Omega.{arith}

abbrev pub linux : Sys
linux = record {
  af_unspec = 0;
  af_inet = 2;
  af_inet6 = 10;
  af_ipx = 4;
  af_decnet = 12;
  af_packet = 17;
  af_netlink = 16;
  eafnosupport = 97;
  e2big = 7;
  eintr = 4;
  eagain = 11;
  enoent = 2;
  eopnotsupp = 95;
  emsgsize = 90;
  eaddrnotavail = 99;
  mpls_ls_label_mask = 0xfffff000;
  mpls_ls_label_shift = 12;
  mpls_ls_s_mask = 0x100;
  nlmsg_align = λ n. (n + 3) / 4 * 4;
  sizeof_nlmsghdr = 16;
  nlmsg_len_at = 0;
  nlmsg_type_at = 4;
  nlmsg_flags_at = 6;
  nlmsg_seq_at = 8;
  nlmsg_pid_at = 12;
  sizeof_nlmsgerr = 20;
  nlmsgerr_error_at = 0;
  sizeof_sockaddr_nl = 12;
  rta_align = λ n. (n + 3) / 4 * 4;
  sizeof_rtattr = 4;
  rta_len_at = 0;
  rta_type_at = 2;
  sizeof_ndmsg = 12;
  ndm_family_at = 0;
  ndm_ifindex_at = 4;
  ndm_state_at = 8;
  ndm_flags_at = 10;
  ndm_confirmed_at = 0;
  ndm_used_at = 4;
  ndm_updated_at = 8;
  ndm_refcnt_at = 12;
  nlmsg_error = 2;
  nlmsg_done = 3;
  nlm_f_request = 1;
  nlm_f_dump = 0x300;
  nlm_f_dump_intr = 0x10;
  nlm_f_dump_filtered = 0x20;
  msg_trunc = 0x20;
  netlink_route = 0;
  netlink_sock_diag = 4;
  rtm_newneigh = 28;
  rtm_delneigh = 29;
  rtm_getneigh = 30;
  nda_max = 12;
  nda_dst = 1;
  nda_lladdr = 2;
  nda_cacheinfo = 3;
  nda_probes = 4;
  ntf_proxy = 0x08;
  ntf_router = 0x80;
  nud_incomplete = 0x01;
  nud_reachable = 0x02;
  nud_stale = 0x04;
  nud_delay = 0x08;
  nud_probe = 0x10;
  nud_failed = 0x20;
  nud_noarp = 0x40;
  nud_permanent = 0x80;
}

pub linux-laws : SysLaws linux
linux-laws = omega arith
