-- ===== src/Ntp/Pool/Pace.antt =====
-- A query keeps a server from the next one for its minimal interval.
use time_shield_cpp.Base.{◌≡◌, refl, ◌⊎◌, inl, inr, Bool-cases, not, ◌&&◌, arith}
use time_shield_cpp.Base.Int.{ℤ, pos, ◌+ℤ◌, ◌*ℤ◌, ◌≤ℤ◌, ◌==ℤ◌, leb_ℤ, int_laws}
use time_shield_cpp.Ntp.Servers.{ServerState}
use time_shield_cpp.Ntp.Pool.{
  Query, sample_of, next_backoff, reserve, update_server_state_after_query, queried,
}

-- A server whose backoff, where there is one, is not shorter than its minimal interval.
pub record IsPaced (state : ServerState) : Type 0 where
  pub initial : state.cfg.min_interval ≤ℤ state.cfg.backoff_initial
  pub greatest : state.cfg.min_interval ≤ℤ state.cfg.backoff_max
  pub running :
      (state.backoff ≡ pos 0)
      ⊎ ((pos 0 ≤ℤ state.backoff) × (state.cfg.min_interval ≤ℤ state.backoff))
  pub nonneg : (pos 0 ≤ℤ state.cfg.backoff_initial) × (pos 0 ≤ℤ state.cfg.backoff_max)

abbrev pub IsMonotone : (ℤ → ℤ) → Type 0
IsMonotone f = (a b : ℤ) → a ≤ℤ b → f a ≤ℤ f b

backoff-long :
    (state : ServerState)
    → IsPaced state
    → (pos 0 ≤ℤ next_backoff state.cfg state.backoff)
      × (state.cfg.min_interval ≤ℤ next_backoff state.cfg state.backoff)
unfolding next_backoff
backoff-long state p = elim (Bool-cases (state.backoff ==ℤ pos 0)) [
  | inl e ↦ rw e (p.nonneg.0, p.initial)
  | inr e ↦
      let twice = state.backoff *ℤ pos 2 in
      let long : ((pos 0 ≤ℤ twice) × (state.cfg.min_interval ≤ℤ twice)) = elim p.running [
        | inl z ↦ absurd (ground (arith, e, z))
        | inr r ↦ (omega (int_laws, r), omega (int_laws, r))
      ] in
      rw e (elim (Bool-cases (leb_ℤ state.cfg.backoff_max twice)) [
        | inl f ↦ rw f (p.nonneg.1, p.greatest)
        | inr f ↦ rw f long
      ])
]

-- What one query does.
pub record IsStep (of_ms : ℤ → ℤ) (query : Query) (state next : ServerState) : Type 0 where
  pub same_cfg : next.cfg ≡ state.cfg
  pub paced : IsPaced next
  pub later : query.started +ℤ of_ms state.cfg.min_interval ≤ℤ next.next_allowed

pub queried-IsStep :
    (of_ms : ℤ → ℤ) (query : Query) (state : ServerState)
    → IsMonotone of_ms
    → query.started ≤ℤ query.finished
    → IsPaced state
    → IsStep of_ms query state (queried of_ms query state)
unfolding queried update_server_state_after_query reserve sample_of
queried-IsStep of_ms query state mono order p =
    elim (Bool-cases (not query.client.is_thrown && query.client.is_ok)) [
      | inl e ↦ rw e (record {
        same_cfg = refl;
        paced = record {
          initial = p.initial;
          greatest = p.greatest;
          running = inl refl;
          nonneg = p.nonneg;
        };
        later = omega arith;
      })
      | inr e ↦
          let long = backoff-long state p in
          let wait = mono state.cfg.min_interval (next_backoff state.cfg state.backoff) long.1 in
          rw e (record {
            same_cfg = refl;
            paced = record {
              initial = p.initial;
              greatest = p.greatest;
              running = inr long;
              nonneg = p.nonneg;
            };
            later = omega (int_laws, wait, order);
          })
    ]
