-- ===== src/Scanner/Tasks/Order.antt =====
-- No order of the steps of a scan of LanDeviceScanner.kt tries an address twice or leaves one out.
use lan_scan.Base.{
  ℕ, zero, suc, ◌+◌, ◌-◌, ◌*◌, ◌^◌, ◌<◌, ◌≤◌, ◌≡◌, refl, ap, ◌∙◌, arith, ◌==◌, true, false, List,
  [], ◌∷◌, ◌++◌, All, if◌then◌else◌, to_ℕ, subst, ◌⊎◌, inl, inr,
}
use lan_scan.Scanner.Range.{Network, worker, workers, numeric_ips, number_of_hosts, first_address}
use lan_scan.Scanner.Range.Shares.{tries, tries-append, wanted, numeric_ips-tries}
use lan_scan.Scanner.Tasks.{
  Event, host, over, Scan, shares_of, launched, IsDone, Step, try_next, throw, leave, time_out,
  finish, finish_cancelled, stop_scanning, Reach, here, next,
}

-- How often an address is among some shares.
abbrev pub left : (address : ℕ) → List (List ℕ) → ℕ
left address [] = 0
left address (share ∷ shares) = tries address share + left address shares

left-append :
    (before : List (List ℕ)) (a : ℕ) (after : List (List ℕ))
    → left a (before ++ after) ≡ left a before + left a after
left-append [] a after = omega arith
left-append (share ∷ before) a after = omega (arith, left-append before a after)

left-shares_of :
    (number step first threads a : ℕ)
    → left a (shares_of number step first threads) ≡ tries a (workers number step first threads)
unfolding shares_of workers
left-shares_of number step first zero a = refl
left-shares_of number step first (suc k) a = omega (
  arith,
  left-append (shares_of number step first k) a (worker number step first (suc number) k ∷ []),
  tries-append (workers number step first k) a (worker number step first (suc number) k),
  left-shares_of number step first k a,
)

left-done : (shares : List (List ℕ)) (a : ℕ) → All IsDone shares → left a shares ≡ 0
left-done [] a h = refl
left-done (share ∷ shares) a h = rw (h.0) (omega (arith, left-done shares a h.1))

-- How often a host was sent.
abbrev pub sent_hosts : (address : ℕ) → List Event → ℕ
sent_hosts address [] = 0
sent_hosts address (host a ∷ events) = sent_hosts address events + (if a == address then 1 else 0)
sent_hosts address (over ∷ events) = sent_hosts address events

-- Of `all` times that an address is to be tried.
record Counts (all a : ℕ) (s : Scan) : Type 0 where
  missed : ℕ
  whole : tries a s.tried + left a s.shares + missed ≡ all
  heard : sent_hosts a s.events ≤ tries a s.tried

-- The shares with one of them changed.
left-changed :
    (a : ℕ) (before after : List (List ℕ)) (share changed : List ℕ)
    → left a (before ++ (share ∷ after)) + tries a changed
      ≡ left a (before ++ (changed ∷ after)) + tries a share
left-changed a before after share changed =
    omega (arith, left-append before a (share ∷ after), left-append before a (changed ∷ after))

Step-Counts :
    (net : Network) (all a : ℕ) {s t : Scan} → Step net s t → Counts all a s → Counts all a t
Step-Counts net all a {s} (try_next before after address share true active at probed) c = record {
  missed = c.missed;
  whole =
      omega (arith, c.whole, ap (left a) at, left-changed a before after (address ∷ share) share);
  heard = omega (arith, c.heard);
}
Step-Counts net all a {s} (try_next before after address share false active at probed) c = record {
  missed = c.missed;
  whole =
      omega (arith, c.whole, ap (left a) at, left-changed a before after (address ∷ share) share);
  heard = omega (arith, c.heard);
}
Step-Counts net all a {s} (throw before after address share active at thrown) c = record {
  missed = c.missed + tries a (address ∷ share);
  whole = omega (arith, c.whole, ap (left a) at, left-changed a before after (address ∷ share) []);
  heard = c.heard;
}
Step-Counts net all a {s} (leave before after share inactive at) c = record {
  missed = c.missed + tries a share;
  whole = omega (arith, c.whole, ap (left a) at, left-changed a before after share []);
  heard = c.heard;
}
Step-Counts net all a {s} (time_out running) c = record {
  missed = c.missed + left a s.shares;
  whole = omega (arith, c.whole);
  heard = c.heard;
}
Step-Counts net all a {s} (finish done running active) c = record {
  missed = c.missed;
  whole = c.whole;
  heard = c.heard;
}
Step-Counts net all a {s} (finish_cancelled done running inactive) c = record {
  missed = c.missed;
  whole = c.whole;
  heard = c.heard;
}
Step-Counts net all a {s} stop_scanning c = record {
  missed = c.missed;
  whole = c.whole;
  heard = c.heard;
}

-- Nothing is missed in a scan that was neither stopped nor ran out of time.
abbrev Exactly : (all a : ℕ) → Scan → Type 0
Exactly all a s =
    (s.active ≡ false) ⊎ ((s.timed_out ≡ true) ⊎ (tries a s.tried + left a s.shares ≡ all))

Step-Exactly :
    (net : Network) (all a : ℕ) {s t : Scan} → Step net s t → Exactly all a s → Exactly all a t
Step-Exactly net all a {s} (try_next before after address share answers active at probed) (inl h) =
    inl h
Step-Exactly net all a {s} (try_next before after address share answers active at probed)
      (inr (inl h)) =
    inr (inl h)
Step-Exactly net all a {s} (try_next before after address share answers active at probed)
      (inr (inr h)) =
    inr (inr (omega (arith, ap (left a) at, left-changed a before after (address ∷ share) share)))
Step-Exactly net all a (throw before after address share active at thrown) h = inl refl
Step-Exactly net all a (leave before after share inactive at) h = inl inactive
Step-Exactly net all a (time_out running) h = inr (inl refl)
Step-Exactly net all a (finish done running active) h = h
Step-Exactly net all a (finish_cancelled done running inactive) h = h
Step-Exactly net all a stop_scanning h = inl refl

-- A scan that has ended has nothing left to try.
abbrev IsIdle : Scan → Type 0
IsIdle s = (s.ended ≡ false) ⊎ All IsDone s.shares

none_next :
    (before after : List (List ℕ)) (address : ℕ) (share : List ℕ)
    → ¬ All IsDone (before ++ ((address ∷ share) ∷ after))
none_next [] after address share h = cc (h.0)
none_next (first ∷ before) after address share h = none_next before after address share h.1

still-IsDone :
    (before after : List (List ℕ)) (share : List ℕ)
    → All IsDone (before ++ (share ∷ after))
    → All IsDone (before ++ ([] ∷ after))
still-IsDone [] after share h = (refl, h.1)
still-IsDone (first ∷ before) after share h = (h.0, still-IsDone before after share h.1)

Step-IsIdle : (net : Network) {s t : Scan} → Step net s t → IsIdle s → IsIdle t
Step-IsIdle net (try_next before after address share answers active at probed) (inl h) = inl h
Step-IsIdle net (try_next before after address share answers active at probed) (inr h) =
    absurd (none_next before after address share (subst (All IsDone) at h))
Step-IsIdle net (throw before after address share active at thrown) (inl h) = inl h
Step-IsIdle net (throw before after address share active at thrown) (inr h) =
    absurd (none_next before after address share (subst (All IsDone) at h))
Step-IsIdle net (leave before after share inactive at) (inl h) = inl h
Step-IsIdle net (leave before after share inactive at) (inr h) =
    inr (still-IsDone before after share (subst (All IsDone) at h))
Step-IsIdle net (time_out running) h = inr tt
Step-IsIdle net (finish done running active) h = inr done
Step-IsIdle net (finish_cancelled done running inactive) h = inr done
Step-IsIdle net stop_scanning h = h

module _ (net : Network) (ipv4 cidr_prefix_length a : ℕ) where
  abbrev all : ℕ
  all = tries a (numeric_ips ipv4 cidr_prefix_length)

  launched-left : left a ((launched ipv4 cidr_prefix_length).shares) ≡ all
  unfolding launched numeric_ips
  launched-left =
      left-shares_of (to_ℕ (number_of_hosts (32 - cidr_prefix_length)))
        ((32 - cidr_prefix_length) * 4) (first_address ipv4 cidr_prefix_length)
        ((32 - cidr_prefix_length) * 4) a

  Reach-Counts : {s : Scan} → Reach net (launched ipv4 cidr_prefix_length) s → Counts all a s
  unfolding launched
  Reach-Counts here = record {
    missed = 0;
    whole = omega (arith, launched-left);
    heard = omega arith;
  }
  Reach-Counts (next r step) = Step-Counts net all a step (Reach-Counts r)

  Reach-Exactly : {s : Scan} → Reach net (launched ipv4 cidr_prefix_length) s → Exactly all a s
  unfolding launched
  Reach-Exactly here = inr (inr (omega (arith, launched-left)))
  Reach-Exactly (next r step) = Step-Exactly net all a step (Reach-Exactly r)

  Reach-IsIdle : {s : Scan} → Reach net (launched ipv4 cidr_prefix_length) s → IsIdle s
  unfolding launched
  Reach-IsIdle here = inl refl
  Reach-IsIdle (next r step) = Step-IsIdle net step (Reach-IsIdle r)

module _ (net : Network) (ipv4 cidr_prefix_length : ℕ) (small : ipv4 < 2 ^ 32)
    (wide : 2 ≤ cidr_prefix_length) (most : cidr_prefix_length ≤ 32) where
  -- For a prefix of 2 to 32 bits, in whatever order the coroutines take their steps, whenever the
  -- scan is stopped, its time runs out, or an exception of getByAddress or isReachable ends it: at each
  -- moment an address of the network other than its first and its last was tried at most once and no
  -- other was, and no host was sent more often than its address was tried.
  pub Reach-at_most_once :
      {s : Scan} (r : Reach net (launched ipv4 cidr_prefix_length) s) (a : ℕ)
      → (tries a s.tried ≤ wanted ipv4 cidr_prefix_length a)
        × (sent_hosts a s.events ≤ tries a s.tried)
  Reach-at_most_once {s} r a =
      let c = Reach-Counts net ipv4 cidr_prefix_length a r in
      let all_of = numeric_ips-tries ipv4 cidr_prefix_length small wide most a in
      (subst (λ (n : ℕ). tries a s.tried ≤ n) all_of (omega (arith, c.whole)), c.heard)

  -- For a prefix of 2 to 32 bits, a scan whose job has ended and is active, so that it was neither
  -- stopped nor cancelled by an exception of getByAddress or isReachable, and whose time did not run
  -- out, has tried each address of the network but its first and its last exactly once, and no other,
  -- whatever the order was.
  pub Reach-exactly_once :
      {s : Scan} (r : Reach net (launched ipv4 cidr_prefix_length) s)
      → s.active ≡ true
      → s.timed_out ≡ false
      → s.ended ≡ true
      → (a : ℕ) → tries a s.tried ≡ wanted ipv4 cidr_prefix_length a
  Reach-exactly_once {s} r active in_time ended a =
      of_cases (Reach-Exactly net ipv4 cidr_prefix_length a r)
        (Reach-IsIdle net ipv4 cidr_prefix_length a r)
      ∙ numeric_ips-tries ipv4 cidr_prefix_length small wide most a
    where
      of_cases :
          Exactly (tries a (numeric_ips ipv4 cidr_prefix_length)) a s
          → IsIdle s
          → tries a s.tried ≡ tries a (numeric_ips ipv4 cidr_prefix_length)
      of_cases (inl stopped) idle = absurd (cc)
      of_cases (inr (inl late)) idle = absurd (cc)
      of_cases (inr (inr exact)) (inl running) = absurd (cc)
      of_cases (inr (inr exact)) (inr done) = omega (arith, exact, left-done s.shares a done)
