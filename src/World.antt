-- ===== src/World.antt =====
-- The state that the functions of libnetlink.c and ipneigh.c (android/src/main/c) share, what the
-- system answers their calls, and how a function may end.
pub mod Safe
use lan_scan.Base.{
  ℕ, ◌+◌, ◌%◌, ◌^◌, ltb, ◌-◌, if◌then◌else◌, Option, none, some, List, [], ◌∷◌, ◌++◌, ℤ, pos,
  negsuc,
}
use lan_scan.Memory.{Run, done}

-- `struct rtnl_handle`; `local` keeps its family, groups and port, and `dump_fp` what was written to
-- the file, `none` for NULL.
pub record RtnlHandle : Type 0 where
  pub fd : ℤ
  pub nl_family : ℕ
  pub nl_groups : ℕ
  pub nl_pid : ℕ
  pub seq : ℕ
  pub dump : ℕ
  pub proto : ℕ
  pub dump_fp : Option (List ℕ)
  pub flags : ℕ

-- The answer of `recvmsg`: an error number, or the bytes with the port of the sender and `msg_flags`.
pub data Received : Type 0 where
  failed : (errno : ℕ) → Received
  datagram : (bytes : List ℕ) (nl_pid msg_flags : ℕ) → Received

-- The answer of a `send` and of the `recv` with MSG_PEEK that follows it.
pub data Peeked : Type 0 where
  failed : (errno : ℕ) → Peeked
  bytes : List ℕ → Peeked

pub record SendAnswer : Type 0 where
  pub status : ℤ
  pub errno : ℕ
  pub peeked : Peeked

-- The `inet_prefix` of android/src/main/c/utils.h; `words` is its array of 64 words.
pub record InetPrefix : Type 0 where
  pub family : ℕ
  pub bitlen : ℕ
  pub words : List ℕ

-- The static `filter` of ipneigh.c; `flushb` is the buffer for a flush, `none` for NULL.
pub record Filter : Type 0 where
  pub family : ℕ
  pub index : ℕ
  pub state : ℕ
  pub unused_only : ℕ
  pub pfx : InetPrefix
  pub flushed : ℕ
  pub flushb : Option (List ℕ)
  pub flushp : ℕ
  pub flushe : ℕ
  pub master : ℕ

-- What is written to the standard error stream.
pub data Note : Type 0 where
  receive_error : (errno : ℕ) → Note
  eof_on_netlink dump_interrupted message_truncated done_truncated error_truncated : Note
  buffer_too_small rtnetlink_answers dump_terminated cannot_send : Note
  remnant : ℤ → Note
  not_newneigh : (len type flags : ℕ) → Note
  wrong_nlmsg_len : ℤ → Note
  flush_failed : Note
  deficit : ℤ → ℕ → Note
  open_failed : ℕ → Note

pub record World : Type 0 where
  pub errno : ℤ
  pub rth : RtnlHandle
  pub filter : Filter
  pub notes : List Note
  -- what was written to the pipe, and to the standard output
  pub out : List ℕ
  pub stdout : List ℕ
  -- what was sent, and what the system will answer
  pub sent : List (List ℕ)
  pub inbox : List Received
  pub answers : List SendAnswer

-- `blocked` waits for a message or an answer that never comes.
pub data Exec {ℓ} (A : Type ℓ) : Type ℓ where
  ok : A → World → Exec A
  exits : ℕ → World → Exec A
  blocked : World → Exec A
  fault : Exec A
  out_of_fuel : Exec A

abbrev pub Cmd {ℓ} : Type ℓ → Type ℓ
Cmd A = World → Exec A

abbrev pub and_then {ℓ κ} : {A : Type ℓ} {B : Type κ} → Exec A → (A → Cmd B) → Exec B
and_then (ok a w) k = k a w
and_then (exits n w) k = exits n w
and_then (blocked w) k = blocked w
and_then Exec.fault k = Exec.fault
and_then Exec.out_of_fuel k = Exec.out_of_fuel

infixl 5 ◌>>=◌ ◌>>◌
abbrev pub ◌>>=◌ {ℓ κ} : {A : Type ℓ} {B : Type κ} → Cmd A → (A → Cmd B) → Cmd B
◌>>=◌ m k w = and_then (m w) k

abbrev pub ◌>>◌ {ℓ} : {B : Type ℓ} → Cmd (Unit {0}) → Cmd B → Cmd B
m >> k = m >>= λ _. k

abbrev pub pure {ℓ} : {A : Type ℓ} → A → Cmd A
pure a w = ok a w

abbrev lift_at {ℓ} : {A : Type ℓ} → Run A → World → Exec A
lift_at (done a) w = ok a w
lift_at Run.fault w = Exec.fault
lift_at Run.out_of_fuel w = Exec.out_of_fuel

-- An access to memory.
abbrev pub lift {ℓ} : {A : Type ℓ} → Run A → Cmd A
lift r w = lift_at r w

abbrev pub get : Cmd World
get w = ok w w

abbrev pub put : World → Cmd (Unit {0})
put w' w = ok tt w'

abbrev pub note : Note → Cmd (Unit {0})
note n w = ok tt (record w { notes = w.notes ++ (n ∷ []) })

abbrev pub set_errno : ℤ → Cmd (Unit {0})
set_errno e w = ok tt (record w { errno = e })

abbrev pub exit {ℓ} : {A : Type ℓ} → ℕ → Cmd A
exit n w = exits n w

-- The value of the `int` with these 32 bits.
abbrev pub signed32 : ℕ → ℤ
signed32 n = if ltb n (2 ^ 31) then pos n else negsuc (2 ^ 32 - n - 1)
