-- ===== src/Ntp/Samples/Best.antt =====
-- The offset of the sample with the least delay.
use time_shield_cpp.Base.{
  ◌≤◌, ◌≡◌, refl, ap, sym, ◌∙◌, ◌⊎◌, inl, inr, Bool-cases, true, List, [], ◌∷◌, ◌++◌, arith,
}
use time_shield_cpp.Base.Int.{ℤ, pos, ◌≤ℤ◌, ◌<ℤ◌, ltb_ℤ}
use time_shield_cpp.Ntp.Samples.{
  NtpSample, size, accepted_offsets, is_accepted, better, best_loop, best_delay_offset,
}

-- The delays of the accepted samples are positive.
abbrev pub AllTimed : List NtpSample → Type 0
AllTimed [] = Unit {0}
AllTimed (s ∷ samples) = (is_accepted s ≡ true → pos 0 <ℤ s.delay_us) × AllTimed samples

-- No accepted sample has a smaller delay.
abbrev pub IsLeast : ℤ → List NtpSample → Type 0
IsLeast delay [] = Unit {0}
IsLeast delay (s ∷ samples) = (is_accepted s ≡ true → delay ≤ℤ s.delay_us) × IsLeast delay samples

abbrev pub IsOneOf : NtpSample → List NtpSample → Type 0
IsOneOf s samples =
    (before : List NtpSample) × (after : List NtpSample) × (samples ≡ before ++ s ∷ after)

skip : (s x : NtpSample) (samples : List NtpSample) → IsOneOf s samples → IsOneOf s (x ∷ samples)
skip s x samples (before, after, e) = (x ∷ before, after, ap (λ l. x ∷ l) e)

-- What the loop makes of a best sample with a positive delay.
record IsBestOf (best : NtpSample) (samples : List NtpSample) (r : NtpSample) : Type 0 where
  found : (r ≡ best) ⊎ (IsOneOf r samples × (is_accepted r ≡ true))
  not_worse : r.delay_us ≤ℤ best.delay_us
  least : IsLeast r.delay_us samples

better-cases :
    (s best : NtpSample)
    → pos 0 <ℤ s.delay_us
    → pos 0 <ℤ best.delay_us
    → ((better s best ≡ s) × (s.delay_us <ℤ best.delay_us))
      ⊎ ((better s best ≡ best) × (best.delay_us ≤ℤ s.delay_us))
unfolding better
better-cases s best p q =
    let timed : (ltb_ℤ (pos 0) s.delay_us ≡ true) = ground (arith, p) in
    let best_timed : (ltb_ℤ (pos 0) best.delay_us ≡ true) = ground (arith, q) in
    elim (Bool-cases (ltb_ℤ s.delay_us best.delay_us)) [
      | inl e ↦ inl (rw (timed, best_timed, e) refl, ground (arith, e))
      | inr e ↦ inr (rw (timed, best_timed, e) refl, ground (arith, e))
    ]

best_loop-IsBestOf :
    (best : NtpSample) (samples : List NtpSample)
    → pos 0 <ℤ best.delay_us
    → AllTimed samples
    → IsBestOf best samples (best_loop best samples)
unfolding best_loop
best_loop-IsBestOf best [] q h = record { found = inl refl; not_worse = omega arith; least = tt }
best_loop-IsBestOf best (s ∷ samples) q (timed, h) = elim (Bool-cases (is_accepted s)) [
  | inr out ↦
      let rest = best_loop-IsBestOf best samples q h in
      rw out (stays rest (λ e. absurd (cc (e, out))))
  | inl accepted ↦ rw accepted (elim (better-cases s best (timed accepted) q) [
    | inl (e, less) ↦
        let rest = best_loop-IsBestOf s samples (timed accepted) h in
        rw e (record {
          found = elim rest.found [
            | inl same ↦
                inr
                  (([], samples, ap (λ r. r ∷ samples) (sym same)), ap is_accepted same ∙ accepted)
            | inr (one, ok) ↦ inr (skip _ s samples one, ok)
          ];
          not_worse = omega (arith, rest.not_worse, less);
          least = (λ e. rest.not_worse, rest.least);
        })
    | inr (e, more) ↦
        let rest = best_loop-IsBestOf best samples q h in
        rw e (stays rest (λ a. omega (arith, rest.not_worse, more)))
  ])
]
  where
    stays :
        IsBestOf best samples (best_loop best samples)
        → (is_accepted s ≡ true → (best_loop best samples).delay_us ≤ℤ s.delay_us)
        → IsBestOf best (s ∷ samples) (best_loop best samples)
    stays rest first = record {
      found = elim rest.found [
        | inl same ↦ inl same
        | inr (one, ok) ↦ inr (skip _ s samples one, ok)
      ];
      not_worse = rest.not_worse;
      least = (first, rest.least);
    }

-- Where the accepted samples have positive delays and there is one, best_delay_offset gives the
-- offset of an accepted sample of the list whose delay is the least of the accepted ones.
pub best_delay_offset-IsLeast :
    (samples : List NtpSample)
    → AllTimed samples
    → 1 ≤ size (accepted_offsets samples)
    → (best : NtpSample) × (best_delay_offset samples ≡ best.offset_us)
      × (is_accepted best ≡ true)
      × IsOneOf best samples
      × IsLeast best.delay_us samples
unfolding best_delay_offset accepted_offsets size
best_delay_offset-IsLeast [] h some_one = absurd (omega arith)
best_delay_offset-IsLeast (s ∷ samples) (timed, h) some_one = elim (Bool-cases (is_accepted s)) [
  | inr out ↦
      let one : (1 ≤ size (accepted_offsets samples)) = rw out at some_one in
      let (best, e, ok, found, least) = best_delay_offset-IsLeast samples h one in
      rw out (best, e, ok, skip best s samples found, (λ a. absurd (cc a), least))
  | inl accepted ↦
      let r = best_loop-IsBestOf s samples (timed accepted) h in
      let (ok, found) = chosen accepted r.found in
      rw accepted (best_loop s samples, refl, ok, found, (λ a. r.not_worse, r.least))
]
  where
    chosen :
        is_accepted s ≡ true
        → (best_loop s samples ≡ s)
          ⊎ (IsOneOf (best_loop s samples) samples × (is_accepted (best_loop s samples) ≡ true))
        → (is_accepted (best_loop s samples) ≡ true) × IsOneOf (best_loop s samples) (s ∷ samples)
    chosen accepted (inl same) =
        (ap is_accepted same ∙ accepted, ([], samples, ap (λ r. r ∷ samples) (sym same)))
    chosen accepted (inr (one, ok)) = (ok, skip (best_loop s samples) s samples one)
