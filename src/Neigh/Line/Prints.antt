-- ===== src/Neigh/Line/Prints.antt =====
-- The pieces of the line that `print_neigh` of android/src/main/c/ipneigh.c prints: each appends one text to the
-- output and changes nothing else.
use lan_scan.Base.{
  ℕ, ◌+◌, ◌-◌, ◌≤◌, ◌≡◌, arith, ◌==◌, not, ◌&&◌, if◌then◌else◌, true, Bool-cases, inl, inr, Option,
  none, some, List, [], ◌++◌, length, append_assoc, append-nil,
}
use lan_scan.Libc.{Libc}
use lan_scan.Libc.Laws.{LibcLaws}
use lan_scan.LlMap.{ll_index_to_type}
use lan_scan.LlMap.Names.{name_text, ll_index_to_name-text}
use lan_scan.Neigh.Address.Shown.{host_text, ll_addr_text, format_host-shown, ll_addr_n2a-shown}
use lan_scan.Neigh.Line.{print_dst, print_dev, print_lladdr, print_cacheinfo, print_probes}
use lan_scan.Neigh.Print.{Env, Ndmsg, rta_payload}
use lan_scan.Netlink.Attr.{rta_length}
use lan_scan.Netlink.Attr.Inside.{AttrAt}
use lan_scan.Sys.{Sys}
use lan_scan.Sys.Laws.{SysLaws}
use lan_scan.Text.Codes.{codes}
use lan_scan.World.{World, Exec, ok, Cmd, ◌>>◌}

-- `x` appends `t` to the output.
abbrev pub Prints : Cmd (Unit {0}) → List ℕ → Type 0
Prints x t = (w : World) → x w ≡ ok tt (record w { out = w.out ++ t })

pub Prints-seq :
    (x y : Cmd (Unit {0})) (t u : List ℕ) → Prints x t → Prints y u → Prints (x >> y) (t ++ u)
Prints-seq x y t u hx hy w = rw (hx w, hy (record w { out = w.out ++ t }), append_assoc w.out t u)

Prints-nothing :
    (w : World) → ◌≡◌ {A = Exec (Unit {0})} (ok tt w) (ok tt (record w { out = w.out ++ [] }))
Prints-nothing w = rw append-nil

-- What the arrays of the callback must hold.
pub record IsRoomy (e : Env) : Type 0 where
  pub android : e.android ≡ true
  pub quiet : e.show_stats ≡ 0
  pub nbuf_room : 16 ≤ length e.nbuf
  pub host_room : 256 ≤ length e.host_buf
  pub b1_room : 64 ≤ length e.b1

module _ (s : Sys) (c : Libc) (e : Env) (m : List ℕ) (r : Ndmsg) where
  -- The data of the attribute at `p`, and how many bytes it has.
  abbrev pub data_at : ℕ → ℕ
  data_at p = p + rta_length s 0

  -- What is printed for the destination, from the 16 bits of the attribute's length.
  abbrev pub dst_text : (len : ℕ) → (p : ℕ) → List ℕ
  dst_text len p = host_text s c m (data_at p) (len - rta_length s 0) r.family ++ codes " "

  abbrev pub dev_text : (index : ℕ) → List ℕ
  dev_text index =
      if index == 0 && not (r.ifindex == 0)
      then codes "dev " ++ (name_text c e.idx_head r.ifindex ++ codes " ")
      else []

  abbrev pub lladdr_text : (len : ℕ) → (p : ℕ) → List ℕ
  lladdr_text len p =
      codes "lladdr "
      ++ ll_addr_text s c m (data_at p) (len - rta_length s 0)
          (ll_index_to_type e.idx_head r.ifindex) 64

module _ (s : Sys) (laws : SysLaws s) (c : Libc) (libc : LibcLaws s c) (e : Env) (roomy : IsRoomy e)
    (m : List ℕ) (end : ℕ) (behind : end + s.sizeof_rtattr + 16 ≤ length m) (r : Ndmsg) where
  rta_payload-done :
      (p : ℕ) (at : AttrAt s m end p) (w : World)
      → rta_payload s m p w ≡ ok (at.len - rta_length s 0) w
  unfolding rta_payload
  rta_payload-done p at w = rw (at.len_read)

  pub print_dst-Prints :
      (p : ℕ) (at : AttrAt s m end p)
      → Prints (print_dst s c e m r (some p)) (dst_text s c e m r at.len p)
  unfolding print_dst
  print_dst-Prints p at w = rw (
    rta_payload-done p at w,
    roomy.android,
    format_host-shown s c libc m (p + rta_length s 0) (at.len - rta_length s 0)
        (omega (arith, laws.rtattr_aligned)) (omega (arith, laws.rtattr_aligned)) r.family
        e.host_buf roomy.host_room,
  )

  pub print_dst-none : Prints (print_dst s c e m r none) []
  unfolding print_dst
  print_dst-none w = Prints-nothing w

  pub print_dev-Prints : (index : ℕ) → Prints (print_dev s c e m r index) (dev_text s c e m r index)
  unfolding print_dev
  print_dev-Prints index w = elim (Bool-cases (index == 0 && not (r.ifindex == 0))) [
    | inl y ↦ rw (y, ll_index_to_name-text c e.idx_head e.nbuf r.ifindex roomy.nbuf_room)
    | inr n ↦ rw n (Prints-nothing w)
  ]

  pub print_lladdr-Prints :
      (p : ℕ) (at : AttrAt s m end p)
      → Prints (print_lladdr s c e m r (some p)) (lladdr_text s c e m r at.len p)
  unfolding print_lladdr
  print_lladdr-Prints p at w = rw (
    rta_payload-done p at w,
    ll_addr_n2a-shown s c libc m (p + rta_length s 0) (at.len - rta_length s 0)
        (omega (arith, laws.rtattr_aligned)) (omega (arith, laws.rtattr_aligned))
        (ll_index_to_type e.idx_head r.ifindex) e.b1 64 (omega arith) roomy.b1_room,
  )

  pub print_lladdr-none : Prints (print_lladdr s c e m r none) []
  unfolding print_lladdr
  print_lladdr-none w = Prints-nothing w

  pub print_cacheinfo-Prints : (o : Option ℕ) → Prints (print_cacheinfo s c e m r o) []
  unfolding print_cacheinfo
  print_cacheinfo-Prints none w = Prints-nothing w
  print_cacheinfo-Prints (some p) w = rw (roomy.quiet) (Prints-nothing w)

  pub print_probes-Prints : (o : Option ℕ) → Prints (print_probes s c e m r o) []
  unfolding print_probes
  print_probes-Prints none w = Prints-nothing w
  print_probes-Prints (some p) w = rw (roomy.quiet) (Prints-nothing w)
