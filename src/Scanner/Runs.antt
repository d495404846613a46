-- ===== src/Scanner/Runs.antt =====
-- The theorems about LanDeviceScanner.kt at concrete inputs.
use lan_scan.Base.{◌≡◌, refl, arith, false, none, some, [], ◌∷◌, pos, negsuc}
use lan_scan.Neigh.Address.Shown.{host_text, ll_addr_text}
use lan_scan.Neigh.Address.Hex.{hex_text, colon_bytes}
use lan_scan.LlMap.Names.{name_text}
use lan_scan.LlMap.{ll_index_to_type, ll_get_by_index}
use lan_scan.Memory.{done, load8, load16, load32}
use lan_scan.Neigh.Runs.{linux_bits}
use lan_scan.Neigh.Print.{Ndmsg, ndmsg, unwanted}
use lan_scan.Neigh.Show.{show_filter, fresh_filter}
use lan_scan.Neigh.Show.Ends.{Ended}
use lan_scan.Neigh.Show.Lines.{Line, all_printed}
use lan_scan.Neigh.Show.Runs.{wifi, arrays, received, before}
use lan_scan.Netlink.Attr.{
  Attrs, parse_rtattr, parse_rtattr_flags, parse_loop, rta_ok, record_attr, enter, report,
}
use lan_scan.Netlink.Attr.Inside.{present}
use lan_scan.Netlink.Send.{blank}
use lan_scan.Netlink.Message.{nlmsg_type}
use lan_scan.Scanner.Listing.{Platform, parse_listing}
use lan_scan.Scanner.Listing.Entry.{IsOrdinary, resolved}
use lan_scan.Scanner.Listing.Hosts.{PlatformLaws, hosts_of, parse_listing-hosts}
use lan_scan.Sys.Linux.{linux}
use lan_scan.Text.Words.{is_word_sound}
use lan_scan.World.{World, ok}

-- Every address resolves to one of the network.
abbrev phone : Platform
phone = record {
  decode = λ bytes. bytes;
  by_name = λ name. some (record { link_local = false; loopback = false });
}

phone-laws : PlatformLaws phone
phone-laws = record { decode_ascii = λ t ascii. refl }

abbrev neighbour_ndmsg : Ndmsg
neighbour_ndmsg = record { family = 2; ifindex = 3; state = 2; flags = 0 }

abbrev neighbour_attrs : Attrs
neighbour_attrs = record {
  tb =
      none
      ∷ some 28
      ∷ some 36
      ∷ none
      ∷ some 48
      ∷ none
      ∷ none
      ∷ none
      ∷ none
      ∷ none
      ∷ none
      ∷ none
      ∷ none
      ∷ [];
  deficit = none;
}

neighbour_type : nlmsg_type linux received 0 ≡ done 28
unfolding load16
neighbour_type = refl

neighbour_read : ndmsg linux received 16 before ≡ ok neighbour_ndmsg before
unfolding ndmsg load8 load16 load32
neighbour_read = refl

neighbour_parsed : parse_rtattr linux received 12 28 (pos 24) ≡ done neighbour_attrs
unfolding parse_rtattr parse_rtattr_flags parse_loop rta_ok record_attr enter report load16
neighbour_parsed = refl

dst_len : load16 received 28 ≡ done 8
unfolding load16
dst_len = refl

ll_len : load16 received 36 ≡ done 10
unfolding load16
ll_len = refl

neighbour_wanted :
    unwanted linux (show_filter linux wifi arrays (fresh_filter 0)) neighbour_ndmsg ≡ false
unfolding unwanted
neighbour_wanted = refl

abbrev neighbour_line : Line linux wifi arrays
neighbour_line = record {
  m = received;
  n = 0;
  len = 52;
  type = 28;
  r = neighbour_ndmsg;
  w = before;
  type_read = neighbour_type;
  about = refl;
  ndmsg_read = neighbour_read;
  wanted = neighbour_wanted;
  a = neighbour_attrs;
  parsed = neighbour_parsed;
  dst =
      present 28 refl
        (record { len = 8; len_read = dst_len; big = omega arith; whole = omega arith });
  ll =
      present 36 refl
        (record { len = 10; len_read = ll_len; big = omega arith; whole = omega arith });
}

-- The entry: 10.0.0.5 on wlan0, reachable at aa:bb:cc:01:02:03.
neighbour-IsOrdinary : IsOrdinary linux wifi arrays neighbour_line
unfolding host_text ll_addr_text hex_text colon_bytes name_text ll_index_to_type ll_get_by_index
neighbour-IsOrdinary = record {
  not_deleted = refl;
  not_missed = refl;
  some_device = refl;
  some_state = omega arith;
  known_state = omega arith;
  at = (8, 28);
  has_dst = refl;
  ip_word = is_word_sound _ refl;
  device_word = is_word_sound _ refl;
  link_layer = resolved (10, 36) (is_word_sound _ refl);
}

-- What the native method left: one line in the pipe, and no socket.
abbrev listed_one : World
listed_one = record before {
  rth = record blank { fd = negsuc 0 };
  out = all_printed linux wifi arrays (neighbour_line ∷ []);
}

abbrev one-Ended : Ended linux wifi arrays [] (pos 0) listed_one
one-Ended = (refl, refl, (neighbour_line ∷ [], refl))

parse_listing-hosts_example :
    parse_listing phone (pos 0) (listed_one.out)
    ≡ hosts_of linux wifi arrays phone (neighbour_line ∷ []) (neighbour-IsOrdinary, tt)
parse_listing-hosts_example =
    parse_listing-hosts linux wifi arrays phone linux_bits phone-laws (pos 0) listed_one one-Ended
      (neighbour-IsOrdinary, tt)
