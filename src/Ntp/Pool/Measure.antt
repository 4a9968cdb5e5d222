-- ===== src/Ntp/Pool/Measure.antt =====
-- A measurement queries a server no sooner than its minimal interval after the query before.
use time_shield_cpp.Base.{
  ℕ, zero, suc, ◌≤◌, ◌≡◌, refl, ap, sym, ◌∙◌, subst, ◌⊎◌, inl, inr, Bool, Bool-cases, false, List,
  [], ◌∷◌, ◌==◌, Option, some, arith,
}
use time_shield_cpp.Base.Int.{ℤ, ◌+ℤ◌, ◌≤ℤ◌}
use time_shield_cpp.Ntp.Samples.{NtpSample}
use time_shield_cpp.Ntp.Samples.Counts.{IsNthElement}
use time_shield_cpp.Ntp.Servers.{ServerState, NtpClientPool, server_at, set_server}
use time_shield_cpp.Ntp.Pool.{
  Query, sample_of, queried, pick_servers_locked, query_one, query_all, measure_n,
}
use time_shield_cpp.Ntp.Pool.Estimate.{update_from_samples_total}
use time_shield_cpp.Ntp.Pool.Pace.{IsPaced, IsMonotone, queried-IsStep}
use time_shield_cpp.Ntp.Pool.Pick.{
  AllOf, AllOf-map, IsShuffle, IsAllowed, pick_servers_locked-IsAllowed,
}

server_at-set_server :
    (k : ℕ) (x y : ServerState) (servers : List ServerState)
    → server_at k servers ≡ some x
    → server_at k (set_server k y servers) ≡ some y
unfolding server_at set_server
server_at-set_server k x y [] e = absurd (cc e)
server_at-set_server zero x y (s ∷ servers) e = refl
server_at-set_server (suc k) x y (s ∷ servers) e = server_at-set_server k x y servers e

other_server :
    (i k : ℕ) (y : ServerState) (servers : List ServerState)
    → (i == k) ≡ false
    → server_at i (set_server k y servers) ≡ server_at i servers
unfolding server_at set_server
other_server i k y [] e = refl
other_server zero zero y (s ∷ servers) e = absurd (ground (arith, e))
other_server zero (suc k) y (s ∷ servers) e = refl
other_server (suc i) zero y (s ∷ servers) e = refl
other_server (suc i) (suc k) y (s ∷ servers) e = other_server i k y servers (ground (arith, e))

abbrev Exists : List ServerState → ℕ → Type 0
Exists servers k = (x : ServerState) × (server_at k servers ≡ some x)

set_server-Exists :
    (i k : ℕ) (y : ServerState) (servers : List ServerState)
    → Exists servers k
    → Exists servers i
    → Exists (set_server k y servers) i
set_server-Exists i k y servers (x, e) (z, f) = elim (Bool-cases (i == k)) [
  | inl same ↦
      let equal : (k ≡ i) = ground (arith, same) in
      (
        y,
        subst (λ j. server_at j (set_server k y servers) ≡ some y) equal
            (server_at-set_server k x y servers e),
      )
  | inr other ↦ (z, other_server i k y servers other ∙ f)
]

-- How a server that was `s` stands after a measurement that began at `now`: it is as it was, or it
-- was allowed to be queried and is not again before its minimal interval after `started`.
pub record IsKept (of_ms : ℤ → ℤ) (now started : ℤ) (s : ServerState) (o : Option ServerState)
    : Type 0 where
  pub state : ServerState
  pub there : o ≡ some state
  pub same_cfg : state.cfg ≡ s.cfg
  pub paced : IsPaced state
  pub moved :
      (state ≡ s)
      ⊎ ((s.next_allowed ≤ℤ now) × (started +ℤ of_ms s.cfg.min_interval ≤ℤ state.next_allowed))

some_same : (a b : ServerState) → some a ≡ some b → a ≡ b
some_same a b f = cc f

module _ (of_ms : ℤ → ℤ) (mono : IsMonotone of_ms) (queries : ℕ → Query)
    (order : (i : ℕ) → (queries i).started ≤ℤ (queries i).finished) (now : ℤ) (i : ℕ)
    (s : ServerState) where
  Kept : List ServerState → Type 0
  Kept servers = IsKept of_ms now (queries i).started s (server_at i servers)

  query-Kept :
      (k : ℕ) (x : ServerState) (servers : List ServerState)
      → server_at k servers ≡ some x
      → (i ≡ k → s.next_allowed ≤ℤ now)
      → Kept servers
      → Kept (set_server k (queried of_ms (queries k) x) servers)
  unfolding Kept
  query-Kept k x servers e allowed kept = elim (Bool-cases (i == k)) [
    | inl same ↦
        let equal : (i ≡ k) = ground (arith, same) in
        let there =
          subst
            (λ j.
              server_at j (set_server k (queried of_ms (queries k) x) servers)
              ≡ some (queried of_ms (queries k) x))
            (sym equal) (server_at-set_server k x (queried of_ms (queries k) x) servers e) in
        let is_state : (kept.state ≡ x) =
          some_same kept.state x (sym kept.there ∙ ap (λ j. server_at j servers) equal ∙ e) in
        let step =
          queried-IsStep of_ms (queries k) x mono (order k) (subst IsPaced is_state kept.paced) in
        let cfg_is : (x.cfg ≡ s.cfg) = sym (ap (λ z. z.cfg) is_state) ∙ kept.same_cfg in
        record {
          state = queried of_ms (queries k) x;
          there = there;
          same_cfg = step.same_cfg ∙ cfg_is;
          paced = step.paced;
          moved = inr (
            allowed equal,
            subst
                (λ c.
                  (queries i).started +ℤ of_ms c.min_interval
                  ≤ℤ (queried of_ms (queries k) x).next_allowed)
                cfg_is
                (subst
                  (λ j.
                    (queries j).started +ℤ of_ms x.cfg.min_interval
                    ≤ℤ (queried of_ms (queries k) x).next_allowed)
                  (sym equal) step.later),
          );
        }
    | inr other ↦ record {
      state = kept.state;
      there = other_server i k (queried of_ms (queries k) x) servers other ∙ kept.there;
      same_cfg = kept.same_cfg;
      paced = kept.paced;
      moved = kept.moved;
    }
  ]

  query_all-Kept :
      (picked : List ℕ) (pool : NtpClientPool)
      → AllOf (Exists pool.servers) picked
      → AllOf (λ k. i ≡ k → s.next_allowed ≤ℤ now) picked
      → Kept pool.servers
      → (samples : List NtpSample) × (last : NtpClientPool) × (query_all of_ms picked queries pool
          ≡ some (samples, last))
        × Kept last.servers
  unfolding query_all query_one
  query_all-Kept [] pool h allowed kept = ([], pool, refl, kept)
  query_all-Kept (k ∷ picked) pool ((x, e), h) (now_allowed, allowed) kept =
      let next = record pool {
        servers = set_server k (queried of_ms (queries k) x) pool.servers;
      } in
      let exist =
        AllOf-map (Exists pool.servers) (Exists next.servers) picked
          (λ j z. set_server-Exists j k (queried of_ms (queries k) x) pool.servers (x, e) z) h in
      let (samples, last, f, end) =
        query_all-Kept picked next exist allowed (query-Kept k x pool.servers e now_allowed kept) in
      (sample_of x.cfg (queries k).client ∷ samples, last, rw (e, f) refl, end)

-- Where at least one valid sample is demanded, each query ends no earlier than it starts, the
-- casts of durations keep their order and the shuffle adds no index, measure_n returns. A server
-- whose initial and maximum backoff are not negative and at least its minimum interval, and whose
-- backoff is 0, or not negative and at least that interval, is so afterwards, with the same
-- configuration, and it either is unchanged, or was allowed at the time of the measurement and is
-- not allowed again before its minimum interval has passed since its query started.
-- std::nth_element keeps the values and puts one at its place in the order.
pub measure_n-IsKept :
    (of_ms : ℤ → ℤ) (nth_element : ℕ → List ℤ → List ℤ) (shuffle : List ℕ → List ℕ)
    (servers_to_sample : ℕ) (now : ℤ) (queries : ℕ → Query) (pool : NtpClientPool) (i : ℕ)
    (s : ServerState)
    → IsMonotone of_ms
    → IsNthElement nth_element
    → IsShuffle shuffle
    → ((k : ℕ) → (queries k).started ≤ℤ (queries k).finished)
    → 1 ≤ pool.cfg.min_valid_samples
    → server_at i pool.servers ≡ some s
    → IsPaced s
    → (updated : Bool) × (next : NtpClientPool) × (measure_n of_ms nth_element shuffle
          servers_to_sample now queries pool
        ≡ some (updated, next))
      × IsKept of_ms now (queries i).started s (server_at i next.servers)
unfolding measure_n Kept
measure_n-IsKept of_ms nth_element shuffle n now queries pool i s mono nth moved order valid e p =
    let picked = pick_servers_locked shuffle now n pool in
    let all = pick_servers_locked-IsAllowed shuffle now n pool moved in
    let exist =
      AllOf-map (IsAllowed now pool.servers) (Exists pool.servers) picked (λ k (x, f, _). (x, f))
        all in
    let allowed =
      AllOf-map (IsAllowed now pool.servers) (λ k. i ≡ k → s.next_allowed ≤ℤ now) picked
        (λ k (x, f, h) same.
          subst (λ z. z.next_allowed ≤ℤ now)
            (some_same x s (sym f ∙ ap (λ j. server_at j pool.servers) (sym same) ∙ e)) h)
        all in
    let start : IsKept of_ms now (queries i).started s (server_at i pool.servers) = record {
      state = s;
      there = e;
      same_cfg = refl;
      paced = p;
      moved = inl refl;
    } in
    let (samples, after, f, kept) =
      query_all-Kept of_ms mono queries order now i s picked pool exist allowed start in
    let (updated, next, g, same) =
      update_from_samples_total nth_element samples pool.cfg after nth valid in
    (
      updated,
      record next { last_samples = samples },
      rw (f, g) refl,
      subst (λ l. IsKept of_ms now (queries i).started s (server_at i l)) (sym same) kept,
    )
