-- ===== src/Ntp/Pool/Pick.antt =====
-- The servers that are picked are allowed to be queried.
use time_shield_cpp.Base.{
  ℕ, zero, suc, ◌+◌, ◌≡◌, refl, subst, inl, inr, Bool-cases, List, [], ◌∷◌, ltb, if◌then◌else◌,
  some, arith,
}
use time_shield_cpp.Base.Int.{ℤ, ◌≤ℤ◌, leb_ℤ}
use time_shield_cpp.Text.{length, take}
use time_shield_cpp.Ntp.Servers.{ServerState, NtpClientPool, server_at}
use time_shield_cpp.Ntp.Pool.{eligible_from, pick_servers_locked}

abbrev pub AllOf : (ℕ → Type 0) → List ℕ → Type 0
AllOf P [] = Unit {0}
AllOf P (i ∷ is) = P i × AllOf P is

-- A reordering leaves no other indices.
abbrev pub IsShuffle : (List ℕ → List ℕ) → Type 1
IsShuffle shuffle = (P : ℕ → Type 0) (is : List ℕ) → AllOf P is → AllOf P (shuffle is)

AllOf-take : (P : ℕ → Type 0) (n : ℕ) (is : List ℕ) → AllOf P is → AllOf P (take n is)
unfolding take
AllOf-take P zero is h = tt
AllOf-take P (suc n) [] h = tt
AllOf-take P (suc n) (i ∷ is) (h, hs) = (h, AllOf-take P n is hs)

abbrev pub IsAllowed : ℤ → List ServerState → ℕ → Type 0
IsAllowed now servers i =
    (s : ServerState) × (server_at i servers ≡ some s) × (s.next_allowed ≤ℤ now)

eligible_from-IsAllowed :
    (now : ℤ) (k : ℕ) (servers : List ServerState)
    → AllOf (λ i. (j : ℕ) × (i ≡ j + k) × IsAllowed now servers j) (eligible_from now k servers)
unfolding eligible_from server_at
eligible_from-IsAllowed now k [] = tt
eligible_from-IsAllowed now k (s ∷ servers) =
    let rest =
      later (eligible_from now (suc k) servers) (eligible_from-IsAllowed now (suc k) servers) in
    elim (Bool-cases (leb_ℤ s.next_allowed now)) [
      | inl e ↦ rw e ((0, omega arith, (s, refl, ground (arith, e))), rest)
      | inr e ↦ rw e rest
    ]
  where
    later :
        (is : List ℕ)
        → AllOf (λ i. (j : ℕ) × (i ≡ j + suc k) × IsAllowed now servers j) is
        → AllOf (λ i. (j : ℕ) × (i ≡ j + k) × IsAllowed now (s ∷ servers) j) is
    later [] h = tt
    later (i ∷ is) ((j, e, allowed), h) = ((suc j, omega (arith, e), allowed), later is h)

pub AllOf-map : (P Q : ℕ → Type 0) (is : List ℕ) → ((i : ℕ) → P i → Q i) → AllOf P is → AllOf Q is
AllOf-map P Q [] f h = tt
AllOf-map P Q (i ∷ is) f (h, hs) = (f i h, AllOf-map P Q is f hs)

all_eligible :
    (now : ℤ) (servers : List ServerState)
    → AllOf (IsAllowed now servers) (eligible_from now 0 servers)
all_eligible now servers =
    AllOf-map (λ i. (j : ℕ) × (i ≡ j + 0) × IsAllowed now servers j) (IsAllowed now servers)
      (eligible_from now 0 servers)
      (λ i (j, e, allowed). subst (IsAllowed now servers) (omega (arith, e)) allowed)
      (eligible_from-IsAllowed now 0 servers)

pub pick_servers_locked-IsAllowed :
    (shuffle : List ℕ → List ℕ) (now : ℤ) (n : ℕ) (pool : NtpClientPool)
    → IsShuffle shuffle
    → AllOf (IsAllowed now pool.servers) (pick_servers_locked shuffle now n pool)
unfolding pick_servers_locked
pick_servers_locked-IsAllowed shuffle now n pool moved =
    picked (eligible_from now 0 pool.servers) (all_eligible now pool.servers)
  where
    P : ℕ → Type 0
    P = IsAllowed now pool.servers

    cut : (is : List ℕ) → AllOf P is → AllOf P (if ltb n (length is) then take n is else is)
    cut is h = elim (Bool-cases (ltb n (length is))) [
      | inl e ↦ rw e (AllOf-take P n is h)
      | inr e ↦ rw e h
    ]

    picked :
        (is : List ℕ)
        → AllOf P is
        → AllOf P (elim is [
          | [] ↦ []
          | i ∷ rest ↦
              let eligible = shuffle (i ∷ rest) in
              if ltb n (length eligible) then take n eligible else eligible
        ])
    picked [] h = tt
    picked (i ∷ rest) h = cut (shuffle (i ∷ rest)) (moved P (i ∷ rest) h)
