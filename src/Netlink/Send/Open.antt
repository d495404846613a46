-- ===== src/Netlink/Send/Open.antt =====
-- What `rtnl_open` of android/src/main/c/libnetlink.c leaves.
use lan_scan.Base.{
  ℕ, ◌%◌, ◌^◌, ◌≡◌, refl, ◌==◌, not, ◌&&◌, Bool, true, false, Bool-cases, inl, inr, none, [], ◌∷◌,
  ◌++◌, ℤ, pos, negsuc, is_neg,
}
use lan_scan.Netlink.Send.{OpenAnswers, named, set_rth, rtnl_open_byproto, rtnl_open}
use lan_scan.Sys.{Sys}
use lan_scan.World.{World, RtnlHandle, Exec, ok, open_failed}

module _ (s : Sys) (o : OpenAnswers) where
  -- Every call succeeded, and the name of the socket is one of netlink.
  abbrev pub accepts : Bool
  accepts =
      not (is_neg o.socket)
      && (not (is_neg o.sndbuf)
          && (not (is_neg o.rcvbuf)
              && (not (is_neg o.getsockname)
                  && ((o.addr_len == s.sizeof_sockaddr_nl) && (o.nl_family == s.af_netlink)))))

  -- The handle of an open socket: no dump has been asked for, and the sequence starts at the time.
  abbrev pub opened_handle : RtnlHandle
  opened_handle = record {
    fd = o.socket;
    nl_family = o.nl_family;
    nl_groups = o.nl_groups;
    nl_pid = o.nl_pid;
    seq = o.time % 2 ^ 32;
    dump = 0;
    proto = s.netlink_route;
    dump_fp = none;
    flags = 0;
  }

  -- The two outcomes of opening.
  pub data Opens (w : World) (r : Exec ℤ) : Type 0 where
    opens : accepts ≡ true → r ≡ ok (pos 0) (record w { rth = opened_handle }) → Opens w r
    refuses :
        accepts ≡ false
        → (rth : RtnlHandle) (why : ℕ) → rth.fd ≡ o.socket
        → r ≡ ok (negsuc 0) (record w { rth = rth; notes = w.notes ++ (open_failed why ∷ []) })
        → Opens w r

  -- Opening succeeds exactly where every call does and the socket has a netlink name of the right size; then
  -- the handle is fresh, but for the socket, its name and the time as sequence number. Otherwise it returns -1 with one
  -- message, and the handle keeps the socket as it was answered: one that was made is left open.
  pub rtnl_open-Opens : (subscriptions : ℕ) (w : World) → Opens w (rtnl_open s o subscriptions w)
  unfolding rtnl_open rtnl_open_byproto named set_rth
  rtnl_open-Opens subscriptions w = elim (Bool-cases (is_neg o.socket)) [
    | inl e ↦ rw e (refuses (rw e) _ 1 refl refl)
    | inr e1 ↦ rw e1 (elim (Bool-cases (is_neg o.sndbuf)) [
      | inl e ↦ rw e (refuses (rw (e1, e)) _ 2 refl refl)
      | inr e2 ↦ rw e2 (elim (Bool-cases (is_neg o.rcvbuf)) [
        | inl e ↦ rw e (refuses (rw (e1, e2, e)) _ 3 refl refl)
        | inr e3 ↦ rw e3 (elim (Bool-cases (is_neg o.getsockname)) [
          | inl e ↦ rw e (refuses (rw (e1, e2, e3, e)) _ 4 refl refl)
          | inr e4 ↦ rw e4 (elim (Bool-cases (o.addr_len == s.sizeof_sockaddr_nl)) [
            | inr e ↦ rw e (refuses (rw (e1, e2, e3, e4, e)) _ 5 refl refl)
            | inl e5 ↦ rw e5 (elim (Bool-cases (o.nl_family == s.af_netlink)) [
              | inr e ↦ rw e (refuses (rw (e1, e2, e3, e4, e5, e)) _ 6 refl refl)
              | inl e6 ↦ rw e6 (opens (rw (e1, e2, e3, e4, e5, e6)) refl)
            ])
          ])
        ])
      ])
    ])
  ]
