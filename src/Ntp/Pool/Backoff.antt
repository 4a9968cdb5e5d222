-- ===== src/Ntp/Pool/Backoff.antt =====
-- The backoff of a server over repeated failures.
use time_shield_cpp.Base.{
  ℕ, suc, ◌*◌, ◌^◌, ◌≤◌, ◌≡◌, refl, ap, sym, ◌∙◌, Bool-cases, false, not, ◌&&◌, List, [], ◌∷◌, leb,
  inl, inr, arith,
}
use time_shield_cpp.Base.Int.{ℤ, pos, ◌+ℤ◌, ◌*ℤ◌, ◌==ℤ◌, min_ℤ, eq_of_parts, int_laws}
use native.Mathlib.Numerals.{unary_clauses}
use time_shield_cpp.Ntp.Servers.{NtpServerConfig, ServerState}
use time_shield_cpp.Ntp.Pool.{
  Query, sample_of, next_backoff, reserve, update_server_state_after_query, queried,
}

-- The queries of a server, one after the other.
unfoldable pub queried_all : (ℤ → ℤ) → List Query → ServerState → ServerState
queried_all of_ms [] state = state
queried_all of_ms (query ∷ queries) state = queried_all of_ms queries (queried of_ms query state)

abbrev pub IsFailure : Query → Type 0
IsFailure query = (not query.client.is_thrown && query.client.is_ok) ≡ false

abbrev pub AllFailures : List Query → Type 0
AllFailures [] = Unit {0}
AllFailures (query ∷ queries) = IsFailure query × AllFailures queries

abbrev pub count_of : List Query → ℕ
count_of [] = 0
count_of (query ∷ queries) = suc (count_of queries)

pub queried-failed :
    (of_ms : ℤ → ℤ) (query : Query) (state : ServerState)
    → IsFailure query
    → let next = queried of_ms query state in
      (next.cfg ≡ state.cfg)
      × (next.backoff ≡ next_backoff state.cfg state.backoff)
      × (next.fail_count ≡ state.fail_count +ℤ pos 1)
      × (next.next_allowed ≡ query.finished +ℤ of_ms (next_backoff state.cfg state.backoff))
unfolding queried update_server_state_after_query reserve sample_of
queried-failed of_ms query state e = rw e (refl, refl, refl, refl)

min-left : (a b : ℕ) → a ≤ b → min_ℤ (pos a) (pos b) ≡ pos a
min-left a b h = ground arith

min-right : (a b : ℕ) → b ≤ a → min_ℤ (pos a) (pos b) ≡ pos b
min-right a b h = ground arith

next_backoff-pos :
    (cfg : NtpServerConfig) (max x : ℕ)
    → cfg.backoff_max ≡ pos max
    → 1 ≤ x
    → next_backoff cfg (pos x) ≡ min_ℤ (pos max) (pos (x * 2))
unfolding next_backoff
next_backoff-pos cfg max x e low =
    let running : ((pos x ==ℤ pos 0) ≡ false) = ground arith in
    let twice : (pos x *ℤ pos 2 ≡ pos (x * 2)) = eq_of_parts _ _ (omega int_laws) in
    rw (running, e, twice) refl

-- A failure doubles a backoff, up to the greatest.
doubled :
    (cfg : NtpServerConfig) (max w : ℕ)
    → cfg.backoff_max ≡ pos max
    → 1 ≤ max
    → 1 ≤ w
    → next_backoff cfg (min_ℤ (pos max) (pos w)) ≡ min_ℤ (pos max) (pos (w * 2))
doubled cfg max w e high low = elim (Bool-cases (leb max w)) [
  | inl capped ↦
      let h : (max ≤ w) = ground (arith, capped) in
      ap (next_backoff cfg) (min-left max w h)
      ∙ next_backoff-pos cfg max max e high
      ∙ min-left max (max * 2) (omega arith)
      ∙ sym (min-left max (w * 2) (omega (arith, h)))
  | inr free ↦
      let h : (w ≤ max) = ground (arith, free) in
      ap (next_backoff cfg) (min-right max w h) ∙ next_backoff-pos cfg max w e low
]

power_suc : (n : ℕ) → 2 ^ suc n ≡ 2 * 2 ^ n
power_suc n = simp unary_clauses (omega arith)

weight_suc : (w n : ℕ) → w * 2 * 2 ^ n ≡ w * 2 ^ suc n
weight_suc w n = rw (power_suc n) (regroup (2 ^ n))
  where
    regroup : (p : ℕ) → w * 2 * p ≡ w * (2 * p)
    regroup p = grind arith

failures-from :
    (of_ms : ℤ → ℤ) (queries : List Query) (max w : ℕ) (state : ServerState)
    → AllFailures queries
    → state.cfg.backoff_max ≡ pos max
    → 1 ≤ max
    → 1 ≤ w
    → state.backoff ≡ min_ℤ (pos max) (pos w)
    → (queried_all of_ms queries state).backoff ≡ min_ℤ (pos max) (pos (w * 2 ^ count_of queries))
unfolding queried_all
failures-from of_ms [] max w state all e high low at =
    at ∙ ap (λ x. min_ℤ (pos max) (pos x)) (omega arith)
failures-from of_ms (query ∷ queries) max w state (failed, all) e high low at =
    let next = queried of_ms query state in
    let (cfg_is, backoff_is, _, _) = queried-failed of_ms query state failed in
    let step = backoff_is ∙ ap (next_backoff state.cfg) at ∙ doubled state.cfg max w e high low in
    failures-from of_ms queries max (w * 2) next all (ap (λ c. c.backoff_max) cfg_is ∙ e) high
      (omega arith) step
    ∙ ap (λ x. min_ℤ (pos max) (pos x)) (weight_suc w (count_of queries))

-- From no backoff, and with an initial backoff from 1 to the maximum, the backoff after k + 1
-- queries that all fail is the initial one times 2 ^ k, or the maximum if that is less.
pub backoff-failures :
    (of_ms : ℤ → ℤ) (query : Query) (queries : List Query) (state : ServerState) (first max : ℕ)
    → AllFailures (query ∷ queries)
    → state.backoff ≡ pos 0
    → state.cfg.backoff_initial ≡ pos first
    → state.cfg.backoff_max ≡ pos max
    → (1 ≤ first) × (first ≤ max)
    → (queried_all of_ms (query ∷ queries) state).backoff
      ≡ min_ℤ (pos max) (pos (first * 2 ^ count_of queries))
unfolding queried_all next_backoff
backoff-failures of_ms query queries state first max (failed, all) fresh begins ends (low, high) =
    let next = queried of_ms query state in
    let (cfg_is, backoff_is, _, _) = queried-failed of_ms query state failed in
    let first_is : (next_backoff state.cfg state.backoff ≡ pos first) =
      ap (next_backoff state.cfg) fresh ∙ begins in
    failures-from of_ms queries max first next all (ap (λ c. c.backoff_max) cfg_is ∙ ends)
      (omega arith) low (backoff_is ∙ first_is ∙ sym (min-right max first high))
