-- ===== src/Sys.antt =====
-- What the program takes from the headers of the system it is built on. None of it is source of
-- the program, so it is a parameter: the constants, and further down the laws that are relied on.
pub mod Linux
pub mod Laws
use lan_scan.Base.{ℕ}

pub record Sys : Type 0 where
  -- address families
  pub af_unspec : ℕ
  pub af_inet : ℕ
  pub af_inet6 : ℕ
  pub af_ipx : ℕ
  pub af_decnet : ℕ
  pub af_packet : ℕ
  pub af_netlink : ℕ
  -- error numbers
  pub eafnosupport : ℕ
  pub e2big : ℕ
  pub eintr : ℕ
  pub eagain : ℕ
  pub enoent : ℕ
  pub eopnotsupp : ℕ
  pub emsgsize : ℕ
  pub eaddrnotavail : ℕ
  -- MPLS label stack entries
  pub mpls_ls_label_mask : ℕ
  pub mpls_ls_label_shift : ℕ
  pub mpls_ls_s_mask : ℕ
  -- netlink messages: alignment, sizes, and where the fields of the headers lie
  pub nlmsg_align : ℕ → ℕ
  pub sizeof_nlmsghdr : ℕ
  pub nlmsg_len_at : ℕ
  pub nlmsg_type_at : ℕ
  pub nlmsg_flags_at : ℕ
  pub nlmsg_seq_at : ℕ
  pub nlmsg_pid_at : ℕ
  pub sizeof_nlmsgerr : ℕ
  pub nlmsgerr_error_at : ℕ
  pub sizeof_sockaddr_nl : ℕ
  -- attributes
  pub rta_align : ℕ → ℕ
  pub sizeof_rtattr : ℕ
  pub rta_len_at : ℕ
  pub rta_type_at : ℕ
  -- neighbour messages
  pub sizeof_ndmsg : ℕ
  pub ndm_family_at : ℕ
  pub ndm_ifindex_at : ℕ
  pub ndm_state_at : ℕ
  pub ndm_flags_at : ℕ
  pub ndm_confirmed_at : ℕ
  pub ndm_used_at : ℕ
  pub ndm_updated_at : ℕ
  pub ndm_refcnt_at : ℕ
  -- message types and flags
  pub nlmsg_error : ℕ
  pub nlmsg_done : ℕ
  pub nlm_f_request : ℕ
  pub nlm_f_dump : ℕ
  pub nlm_f_dump_intr : ℕ
  pub nlm_f_dump_filtered : ℕ
  pub msg_trunc : ℕ
  pub netlink_route : ℕ
  pub netlink_sock_diag : ℕ
  pub rtm_newneigh : ℕ
  pub rtm_delneigh : ℕ
  pub rtm_getneigh : ℕ
  pub nda_max : ℕ
  pub nda_dst : ℕ
  pub nda_lladdr : ℕ
  pub nda_cacheinfo : ℕ
  pub nda_probes : ℕ
  pub ntf_proxy : ℕ
  pub ntf_router : ℕ
  pub nud_incomplete : ℕ
  pub nud_reachable : ℕ
  pub nud_stale : ℕ
  pub nud_delay : ℕ
  pub nud_probe : ℕ
  pub nud_failed : ℕ
  pub nud_noarp : ℕ
  pub nud_permanent : ℕ
