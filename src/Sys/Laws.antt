-- ===== src/Sys/Laws.antt =====
-- What the code relies on in the headers of the system.
use lan_scan.Base.{ℕ, ◌+◌, ◌≤◌, ◌<◌, ◌≡◌, ◌^◌}
use lan_scan.Sys.{Sys}

pub record SysLaws (s : Sys) : Type 0 where
  -- Aligning rounds up, by less than the size of an attribute's header.
  pub nlmsg_align_zero : s.nlmsg_align 0 ≡ 0
  pub nlmsg_align_up : (n : ℕ) → n ≤ s.nlmsg_align n
  pub rta_align_up : (n : ℕ) → n ≤ s.rta_align n
  pub rta_align_near : (n : ℕ) → s.rta_align n < n + s.sizeof_rtattr
  -- In front of the flags of a message stands its length.
  pub nlmsg_len_first : s.nlmsg_len_at + 4 ≤ s.nlmsg_flags_at
  -- The fields of a header lie inside it.
  pub nlmsg_len_inside : s.nlmsg_len_at + 4 ≤ s.sizeof_nlmsghdr
  pub nlmsg_type_inside : s.nlmsg_type_at + 2 ≤ s.sizeof_nlmsghdr
  pub nlmsg_flags_inside : s.nlmsg_flags_at + 2 ≤ s.sizeof_nlmsghdr
  pub nlmsg_seq_inside : s.nlmsg_seq_at + 4 ≤ s.sizeof_nlmsghdr
  pub rta_len_inside : s.rta_len_at + 2 ≤ s.sizeof_rtattr
  pub rta_type_behind : s.rta_len_at + 2 ≤ s.rta_type_at
  pub rta_type_inside : s.rta_type_at + 2 ≤ s.sizeof_rtattr
  pub nlmsgerr_error_inside : s.nlmsgerr_error_at + 4 ≤ s.sizeof_nlmsgerr
  -- The sizes of the headers are aligned.
  pub nlmsghdr_aligned : s.nlmsg_align s.sizeof_nlmsghdr ≡ s.sizeof_nlmsghdr
  pub ndmsg_aligned : s.nlmsg_align s.sizeof_ndmsg ≡ s.sizeof_ndmsg
  pub rtattr_aligned : s.rta_align s.sizeof_rtattr ≡ s.sizeof_rtattr
  -- The fields of a neighbour message lie inside it, and its attributes are among the known ones.
  pub ndm_family_inside : s.ndm_family_at + 1 ≤ s.sizeof_ndmsg
  pub ndm_ifindex_inside : s.ndm_ifindex_at + 4 ≤ s.sizeof_ndmsg
  pub ndm_state_inside : s.ndm_state_at + 2 ≤ s.sizeof_ndmsg
  pub ndm_flags_inside : s.ndm_flags_at + 1 ≤ s.sizeof_ndmsg
  pub nda_dst_known : s.nda_dst ≤ s.nda_max
  pub nda_lladdr_known : s.nda_lladdr ≤ s.nda_max
  pub nda_cacheinfo_known : s.nda_cacheinfo ≤ s.nda_max
  pub nda_probes_known : s.nda_probes ≤ s.nda_max
  -- The fields of the header of a message, in their order.
  pub nlmsg_type_behind : s.nlmsg_len_at + 4 ≤ s.nlmsg_type_at
  pub nlmsg_flags_behind : s.nlmsg_type_at + 2 ≤ s.nlmsg_flags_at
  pub nlmsg_seq_behind : s.nlmsg_flags_at + 2 ≤ s.nlmsg_seq_at
  pub nlmsg_pid_behind : s.nlmsg_seq_at + 4 ≤ s.nlmsg_pid_at
  pub nlmsg_pid_inside : s.nlmsg_pid_at + 4 ≤ s.sizeof_nlmsghdr
  pub headers_small : s.sizeof_nlmsghdr + s.sizeof_ndmsg < 2 ^ 32
