-- ===== src/Detail/FastDate/Table.antt =====
-- The last steps of `fast_date_from_days`: from the quarter days left in a year to a month and a
-- day. The fixed-point fraction `ypt` is known within a few units, and both ends give one date.
use time_shield_cpp.Base.{
  ℕ, ◌+◌, ◌-◌, ◌*◌, ◌/◌, ◌%◌, ◌≤◌, ◌<◌, ◌≡◌, refl, Bool, true, false, not, ◌&&◌, ◌||◌, arith, ltb,
  leb, ◌==◌, if◌then◌else◌, get_or, each_of, each_of-at, ◌⊎◌, inl, inr,
}
use time_shield_cpp.Base.Word.{u64_mod}
use time_shield_cpp.Detail.FastDate.{
  c2, c3, ypt_scale, ypt_bump_threshold, shift_jan_feb, shift_other, k_doy_from_march,
}

-- The place of a month in a year that begins in March.
unfoldable pub march_index : ℕ → ℕ
march_index m = if leb m 2 then m + 9 else m - 3

unfoldable pub doy_of_month : ℕ → ℕ
unfolding march_index
doy_of_month m = get_or k_doy_from_march (march_index m) 0

unfoldable pub longest : ℕ → ℕ
longest m = if m == 2 then 29 else if (m == 4) || (m == 6) || (m == 9) || (m == 11) then 30 else 31

-- The days of a year that begins in March, but for its last.
unfoldable pub last_doy : ℕ → ℕ
last_doy rest = if rest % 4 == 0 then 365 else 364

abbrev pub one_if : Bool → ℕ
one_if b = if b then 1 else 0

pub one_if-le : (b : Bool) → one_if b ≤ 1
one_if-le true = omega arith
one_if-le false = omega arith

decodes : ℕ → Bool → ℕ → ℕ → Bool
unfolding doy_of_month longest last_doy
decodes rest bump m d =
    leb 1 m
    && leb m 12
    && (if bump then leb m 2 else leb 3 m)
    && leb 1 d
    && leb d (longest m)
    && (not (m == 2) || not (d == 29) || rest == 0)
    && (doy_of_month m + d + rest / 4 == last_doy rest + 1)

abbrev pub n_of : ℕ → ℕ → ℕ → ℕ
n_of rest shift ypt = (3 + rest) % 4 * 512 + shift - ypt

abbrev pub day_of : ℕ → ℕ
day_of n = n % 0x1_0000 * c3 / u64_mod + 1

abbrev pub low_ypt : ℕ → ℕ
low_ypt rest = ypt_scale * (rest * c2) / (4 * u64_mod)

abbrev pub high_ypt : ℕ → ℕ
high_ypt rest = ypt_scale * (rest * c2 + 317 * 2_182_876_330_657) / (4 * u64_mod)

-- Both ends of the range of `ypt` give one month and one day, with no wrap.
agrees : ℕ → Bool → ℕ → ℕ → ℕ → Bool
unfolding decodes
agrees rest bump shift lo hi =
    leb hi shift
    && (n_of rest shift lo / 0x1_0000 == n_of rest shift hi / 0x1_0000)
    && (day_of (n_of rest shift lo) == day_of (n_of rest shift hi))
    && decodes rest bump (n_of rest shift lo / 0x1_0000) (day_of (n_of rest shift lo))

row : ℕ → Bool
unfolding agrees
row rest =
    let lo = low_ypt rest in
    let hi = high_ypt rest in
    if ltb hi ypt_bump_threshold
    then agrees rest true shift_jan_feb lo hi
    else leb ypt_bump_threshold lo && agrees rest false shift_other lo hi

row_table : each_of row 1461 ≡ true
unfolding each_of row
row_table = refl

-- A month and a day for the quarter days that are left; `bump` tells January and February.
pub record IsDecoded (rest : ℕ) (bump : Bool) (m d : ℕ) : Type 0 where
  pub month_in : (1 ≤ m) × (m ≤ 12)
  pub bump_is : bump ≡ leb m 2
  pub day_in : (1 ≤ d) × (d ≤ longest m)
  pub leap_day : m ≡ 2 → d ≡ 29 → rest ≡ 0
  pub doy_is : doy_of_month m + d + rest / 4 ≡ last_doy rest + 1

decodes_sound :
    (rest : ℕ) (bump : Bool) (m d : ℕ) → decodes rest bump m d ≡ true → IsDecoded rest bump m d
unfolding decodes
decodes_sound rest true m d h = ground arith
decodes_sound rest false m d h = ground arith

-- The month and the day fall with `ypt`, so that equal ends leave no choice between them.
between :
    (low n high : ℕ)
    → low ≤ n
    → n ≤ high
    → high / 0x1_0000 ≡ low / 0x1_0000
    → day_of high ≡ day_of low
    → (n / 0x1_0000 ≡ high / 0x1_0000) × (day_of n ≡ day_of high)
between low n high p q e f = omega arith

==-eq : (a b : ℕ) → (a == b) ≡ true → a ≡ b
==-eq a b h = ground arith

leb-le : (a b : ℕ) → leb a b ≡ true → a ≤ b
leb-le a b h = ground arith

agrees_parts :
    (rest : ℕ) (bump : Bool) (shift lo hi : ℕ)
    → agrees rest bump shift lo hi ≡ true
    → (leb hi shift ≡ true)
      × ((n_of rest shift lo / 0x1_0000 == n_of rest shift hi / 0x1_0000) ≡ true)
      × ((day_of (n_of rest shift lo) == day_of (n_of rest shift hi)) ≡ true)
      × (decodes rest bump (n_of rest shift lo / 0x1_0000) (day_of (n_of rest shift lo)) ≡ true)
unfolding agrees
agrees_parts rest bump shift lo hi h = all-of-four _ _ _ _ h
  where
    all-of-four :
        (a b c d : Bool)
        → (a && b && c && d) ≡ true
        → (a ≡ true) × (b ≡ true) × (c ≡ true) × (d ≡ true)
    all-of-four a b c d h = ground arith

-- Every `ypt` between the ends gives a month and a day.
agrees_sound :
    (rest : ℕ) (bump : Bool) (shift lo hi ypt : ℕ)
    → agrees rest bump shift lo hi ≡ true
    → lo ≤ ypt
    → ypt ≤ hi
    → (ypt ≤ shift)
      × IsDecoded rest bump (n_of rest shift ypt / 0x1_0000) (day_of (n_of rest shift ypt))
agrees_sound rest bump shift lo hi ypt h p q =
    let (fits, months, days, decoded) = agrees_parts rest bump shift lo hi h in
    let le : hi ≤ shift = leb-le hi shift fits in
    let (m, d) =
      between (n_of rest shift hi) (n_of rest shift ypt) (n_of rest shift lo) (omega arith)
        (omega arith) (==-eq _ _ months) (==-eq _ _ days) in
    (omega arith, rw (m, d) (decodes_sound rest bump _ _ decoded))

abbrev pub shift_of : Bool → ℕ
shift_of bump = if bump then shift_jan_feb else shift_other

ltb-lt : (a b : ℕ) → ltb a b ≡ true → a < b
ltb-lt a b h = ground arith

lt-ltb : (a b : ℕ) → a < b → ltb a b ≡ true
lt-ltb a b h = ground arith

le-ltb : (a b : ℕ) → b ≤ a → ltb a b ≡ false
le-ltb a b h = ground arith

row_cases :
    (rest : ℕ)
    → row rest ≡ true
    → ((ltb (high_ypt rest) ypt_bump_threshold ≡ true)
        × (agrees rest true shift_jan_feb (low_ypt rest) (high_ypt rest) ≡ true))
      ⊎ ((leb ypt_bump_threshold (low_ypt rest) ≡ true)
          × (agrees rest false shift_other (low_ypt rest) (high_ypt rest) ≡ true))
unfolding row
row_cases rest h = either _ _ _ _ h
  where
    either :
        (t a b c : Bool)
        → (if t then a else b && c) ≡ true
        → ((t ≡ true) × (a ≡ true)) ⊎ ((b ≡ true) × (c ≡ true))
    either true a b c h = inl (refl, h)
    either false a b c h = inr (ground arith)

-- The month and the day of any fraction that the fixed-point product can come to.
pub decode :
    (rest ypt : ℕ)
    → rest < 1461
    → low_ypt rest ≤ ypt
    → ypt ≤ high_ypt rest
    → let bump = ltb ypt ypt_bump_threshold in
      let n = n_of rest (shift_of bump) ypt in
      (ypt ≤ shift_of bump) × IsDecoded rest bump (n / 0x1_0000) (day_of n)
decode rest ypt h p q = elim (row_cases rest (each_of-at row rest 1461 h row_table)) [
  | inl (t, a) ↦
      let t' : high_ypt rest < ypt_bump_threshold = ltb-lt _ _ t in
      rw (lt-ltb ypt ypt_bump_threshold (omega arith))
        (agrees_sound rest true shift_jan_feb (low_ypt rest) (high_ypt rest) ypt a p q)
  | inr (t, a) ↦
      let t' : ypt_bump_threshold ≤ low_ypt rest = leb-le _ _ t in
      rw (le-ltb ypt ypt_bump_threshold (omega arith))
        (agrees_sound rest false shift_other (low_ypt rest) (high_ypt rest) ypt a p q)
]
