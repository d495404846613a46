-- ===== src/Lib.antt =====
-- The Android part of lan_scan. Its native code, android/src/main/c, asks the kernel for the neighbour table
-- over a netlink socket and writes a line for each neighbour into a pipe. Its plugin, below
-- android/src/main/kotlin/com/example/lan_scan, tries each address of the network so that the table fills, reads
-- the lines from the pipe, and asks each host for its name.
--
-- The program's parts, from the bottom up, and the files that model them:
-- - utils.h, dnet_ntop.c, ipx_ntop.c, mpls_ntop.c: addresses as text. Dnet, Ipx and Mpls; a `char *str` with room
--   for `len` characters is an array (a list of bytes) and a place in it (Text.Buffer), and a store outside
--   the array is `fault`. Text.Snprintf is `snprintf` of C's library for the formats that the program uses.
-- - ll_map.c: the cache of interface names. LlMap; `idx_head` is a function from the bucket to its chain.
-- - libnetlink.c, libnetlink.h: Netlink.Attr (`parse_rtattr`, `addattr_l`, and
--   in Netlink.Attr.Read the accessors `rta_getattr_*`), Netlink.Message (the macros that
--   walk over messages), Netlink.Dump (`rtnl_dump_filter_l` and what it calls), Netlink.Send (`rtnl_open`,
--   `rtnl_close`, `rtnl_dump_request_n`, `rtnl_send_check`).
-- - ipneigh.c: Neigh.Address (`ll_addr_n2a` to `format_host`), Neigh.Match (`inet_addr_match`), Neigh.Print
--   (the filter and the flush branch of `print_neigh`), Neigh.Line (the pieces of the line), Neigh.Callback
--   (`print_neigh`), Neigh.Show (`do_show_or_flush` and the two native methods, which have one body).
-- - scanner/LanDeviceScanner.kt: Scanner.Listing (`parseAndExtractValidArpFromInputStream`), Scanner.Range (the
--   addresses of `startScanning` and how the coroutines share them), Scanner.Tasks (the coroutines and
--   `stopScanning` as a step relation, from Android 13 on), Scanner.Naming (`processHost`,
--   `resolveHostName`). networkUtils/Host.kt is Scanner.Host.
-- - networkUtils/MDNSResolver.kt and NetBIOSResolver.kt: Resolver.Mdns and Resolver.NetBios. Resolver.Attempt
--   has calls that may throw: a value, an IOException, or another exception.
-- - ios/Classes/ICMPPing/ICMPPing.swift: Ping (`createICMPPacket`, `calculateChecksum` and the test of the
--   socket's callback, on a little endian machine).
--
-- The two halves meet in Scanner.Listing.Hosts: what the native method leaves in the pipe (Neigh.Show.Lines) is
-- what the plugin reads there. Texts are lists of character codes; an Int of Kotlin is its 32 bits.
--
-- Memory has reads and writes of a message as a little endian machine makes them. World is the state that
-- libnetlink.c and ipneigh.c share: `errno`, the handle `rth`, the static `filter`, what was written to each
-- stream, and what the kernel will answer: the datagrams of `recvmsg` and the answers of `send`. A function on
-- this state ends with a value, by `exit`, waiting for an answer that never comes, or with a fault.
--
-- The system's headers are not part of the repository. Sys names the constants and sizes that are taken from
-- them, Sys.Laws what is relied on (aligning rounds up, the sizes of the headers are aligned, their fields lie
-- inside them and in their order), and Sys.Linux is one instance, for runs. Libc has `inet_ntop`,
-- `if_indextoname` and `sysconf(_SC_CLK_TCK)` as functions, and Libc.Laws says where `inet_ntop` gives a text.
--
-- The plugin's platform is a parameter too: decoding UTF-8, `InetAddress.getByName`, `isBlank` and the datagrams
-- that arrive (Scanner.Listing.Platform, Scanner.Naming.Answers), and `InetAddress.getByAddress` and `isReachable`,
-- which may throw (Scanner.Range.Network). It is relied on that ASCII characters are their own encoding, that the
-- empty text is blank, and that `getByAddress` takes four bytes and throws for fewer.
--
-- Loops: the loops over messages and attributes are recursion on fuel, one more than the bytes that are left;
-- a round takes a header at least, so the fuel is enough. The receive loop is recursion on the answers of
-- `recvmsg`. Loops with a fixed count are recursion on it.
--
-- The parser of attributes reads up to two headers behind the last attribute, and an attribute of an address
-- without data is read as 16 bytes: where a theorem is about what does not fault, a datagram leaves that much
-- of the receive buffer free, the `slack`.
--
-- The loop of `decodeName` has one more round than the array has bytes: a round takes a byte or throws. A
-- coroutine has one more round than there are hosts, and its step is at least one where there is a coroutine.
--
-- Not modelled: list.h but for the walk along a chain, `nl_dump_ext_err`, and the branch of RESOLVE_HOSTNAMES, which
-- is not defined; of the plugin the connections and channels, the order in which an older Android sends the hosts
-- of the listing, and the questions to the Wi-Fi service, which are calls of the platform; the other Swift parts
-- and the Dart interface; and in ios/Classes/MacFinder a copy of another project's library.
pub mod Base
pub mod Text
pub mod Sys
pub mod Dnet
pub mod Ipx
pub mod Mpls
pub mod Libc
pub mod LlMap
pub mod Memory
pub mod World
pub mod Netlink
pub mod Neigh
pub mod Scanner
pub mod Resolver
pub mod Ping
