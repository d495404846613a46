-- ===== src/Scanner/Tasks.antt =====
-- The coroutines of `startScanning` and `stopScanning` of LanDeviceScanner.kt, in every order of their steps, from
-- Android 13 on. A test of `isActive` and what it guards are one step.
pub mod Order
mod Runs
use lan_scan.Base.{
  ℕ, zero, suc, ◌-◌, ◌*◌, ◌≡◌, Bool, true, false, List, [], ◌∷◌, ◌++◌, All, if◌then◌else◌, to_ℕ,
}
use lan_scan.Resolver.Attempt.{Attempt, value, io_exception, exception}
use lan_scan.Scanner.Range.{Network, probe, worker, number_of_hosts, first_address}

-- What is sent to the application: a host, or null at the end.
pub data Event : Type 0 where
  host : ℕ → Event
  over : Event

pub record Scan : Type 0 where
  -- what each coroutine has still to try
  pub shares : List (List ℕ)
  pub tried : List ℕ
  -- whether the job is active, neither stopped nor cancelled by an exception, whether its time has run out, and whether it has ended
  pub active : Bool
  pub timed_out : Bool
  pub ended : Bool
  -- the latest first
  pub events : List Event

-- `List(scanThreads) { threadIndex -> launch { ... } }`
unfoldable pub shares_of : (number step first : ℕ) → (threads : ℕ) → List (List ℕ)
shares_of number step first zero = []
shares_of number step first (suc thread_index) =
    shares_of number step first thread_index
    ++ (worker number step first (suc number) thread_index ∷ [])

unfoldable pub launched : (ipv4 cidr_prefix_length : ℕ) → Scan
unfolding shares_of
launched ipv4 cidr_prefix_length =
    let host_bits = 32 - cidr_prefix_length in
    record {
      shares =
          shares_of (to_ℕ (number_of_hosts host_bits)) (host_bits * 4)
            (first_address ipv4 cidr_prefix_length) (host_bits * 4);
      tried = [];
      active = true;
      timed_out = false;
      ended = false;
      events = [];
    }

abbrev pub IsDone : List ℕ → Type 0
IsDone share = share ≡ []

-- The call ends with an exception.
pub data Throws {ℓ} {A : Type ℓ} : Attempt A → Type ℓ where
  by_io : Throws io_exception
  by_another : Throws exception

module _ (net : Network) where
  pub data Step (s : Scan) : Scan → Type 0 where
    -- a coroutine tries its next address, and sends a host that answers
    try_next :
        (before after : List (List ℕ)) (address : ℕ) (share : List ℕ) (answers : Bool)
        → s.active ≡ true
        → s.shares ≡ before ++ ((address ∷ share) ∷ after)
        → probe net address ≡ value answers
        → Step s (record s {
          shares = before ++ (share ∷ after);
          tried = address ∷ s.tried;
          events = if answers then host address ∷ s.events else s.events;
        })
    -- what `getByAddress` or `isReachable` throws, nobody catches: it ends the coroutine and cancels the
    -- scope with the job
    throw :
        (before after : List (List ℕ)) (address : ℕ) (share : List ℕ)
        → s.active ≡ true
        → s.shares ≡ before ++ ((address ∷ share) ∷ after)
        → Throws (probe net address)
        → Step s (record s { shares = before ++ ([] ∷ after); active = false })
    -- `if (!isActive) return@launch`
    leave :
        (before after : List (List ℕ)) (share : List ℕ)
        → s.active ≡ false
        → s.shares ≡ before ++ (share ∷ after)
        → Step s (record s { shares = before ++ ([] ∷ after) })
    -- the TimeoutCancellationException of `withTimeout`
    time_out : s.ended ≡ false → Step s (record s { shares = []; timed_out = true })
    -- `joinAll()` and the end of the job, where it is active and where it is not
    finish :
        All IsDone s.shares
        → s.ended ≡ false
        → s.active ≡ true
        → Step s (record s { ended = true; events = over ∷ s.events })
    finish_cancelled :
        All IsDone s.shares
        → s.ended ≡ false
        → s.active ≡ false
        → Step s (record s { ended = true })
    -- `stopScanning`
    stop_scanning : Step s (record s { active = false; events = over ∷ s.events })

  pub data Reach (s : Scan) : Scan → Type 0 where
    here : Reach s s
    next : {t u : Scan} → Reach s t → Step t u → Reach s u
