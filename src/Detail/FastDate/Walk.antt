-- ===== src/Detail/FastDate/Walk.antt =====
-- The conversions between days and dates: inverse to one another, and in step with the calendar.
use time_shield_cpp.Base.{ℕ, ◌+◌, ◌≤◌, ◌≡◌, refl, sym, ap, subst, ◌∙◌, arith, ◌⊎◌, inl, inr}
use time_shield_cpp.Base.Int.{ℤ, pos, pos_part, neg_part, ◌+ℤ◌, int_laws}
use time_shield_cpp.Calendar.{IsDate, days_in_month, next_day, date}
use time_shield_cpp.Detail.FastDate.{FastDate, fast_days_from_date_constexpr, fast_date_from_days}
use time_shield_cpp.Detail.FastDate.Order.{IsYear, counted, fast_days-injective, FastDate-eq}
use time_shield_cpp.Detail.FastDate.Next.{next_number, next_day-cases, days_in_month_pos}
use time_shield_cpp.Detail.FastDate.RoundTrip.{IsUnixDay, fast_days-from_days, fast_date-year}

IsDate-eq : {t : FastDate} (v : IsDate t) → t ≡ date t.year v.m v.d
IsDate-eq {t} v = FastDate-eq t (date t.year v.m v.d) refl v.month_is v.day_is

-- The day after a date of the calendar has the next day number, where both years are at most
-- 2967369602200 in size.
pub fast_days-next_day :
    (t : FastDate)
    → IsDate t
    → IsYear t.year
    → IsYear (t.year +ℤ pos 1)
    → let w = next_day t in
      fast_days_from_date_constexpr w.year w.month w.day
      ≡ fast_days_from_date_constexpr t.year t.month t.day +ℤ pos 1
fast_days-next_day t v r r' =
    subst
      (λ (x : FastDate).
        fast_days_from_date_constexpr (next_day x).year (next_day x).month (next_day x).day
        ≡ fast_days_from_date_constexpr x.year x.month x.day +ℤ pos 1)
      (sym (IsDate-eq v)) (next_number t.year v.m v.d r r' v.month_in v.day_in)

fast_date-IsYear : (p_days : ℤ) → IsUnixDay p_days → IsYear (fast_date_from_days p_days).year
fast_date-IsYear p_days r = record {
  low = omega (arith, fast_date-year p_days r);
  high = omega (arith, fast_date-year p_days r);
}

-- A date of the calendar in a year of at most 2967369602200 in size, whose day number is from
-- -106751991167302 to 106751991167301, is what that number decodes to.
pub fast_date-fast_days :
    (t : FastDate)
    → IsDate t
    → IsYear t.year
    → IsUnixDay (fast_days_from_date_constexpr t.year t.month t.day)
    → fast_date_from_days (fast_days_from_date_constexpr t.year t.month t.day) ≡ t
fast_date-fast_days t v y r =
    let p = fast_days_from_date_constexpr t.year t.month t.day in
    let (v', e) = fast_days-from_days p r in
    fast_days-injective (fast_date_from_days p) t (counted _ v' (fast_date-IsYear p r))
      (counted t v y) e

-- The day after a date is a date.
pub next_day-IsDate : (t : FastDate) → IsDate t → IsDate (next_day t)
next_day-IsDate t v =
    subst (λ x. IsDate (next_day x)) (sym (IsDate-eq v))
      (at_fields t.year v.m v.d v.month_in v.day_in)
  where
    at_fields :
        (y : ℤ) (m d : ℕ)
        → (1 ≤ m) × (m ≤ 12)
        → (1 ≤ d) × (d ≤ days_in_month y m)
        → IsDate (next_day (date y m d))
    at_fields y m d hm hd = elim (next_day-cases y m d hm.1 hd.1) [
      | inl (l, e) ↦ subst IsDate (sym e) (record {
        m = m;
        d = d + 1;
        month_is = refl;
        day_is = refl;
        month_in = hm;
        day_in = omega arith;
      })
      | inr (inl (l, h, e)) ↦ subst IsDate (sym e) (record {
        m = m + 1;
        d = 1;
        month_is = refl;
        day_is = refl;
        month_in = omega arith;
        day_in = omega (arith, days_in_month_pos y (m + 1));
      })
      | inr (inr (l, h, e)) ↦ subst IsDate (sym e) (record {
        m = 1;
        d = 1;
        month_is = refl;
        day_is = refl;
        month_in = omega arith;
        day_in = omega (arith, days_in_month_pos (y +ℤ pos 1) 1);
      })
    ]

next_day-IsYear :
    (t : FastDate)
    → (neg_part t.year ≤ 292_277_022_658) × (pos_part t.year ≤ 292_277_026_597)
    → IsYear (next_day t).year
next_day-IsYear t h = elim (next_day-year t) [
  | inl e ↦ record { low = omega (arith, ap neg_part e); high = omega (arith, ap pos_part e) }
  | inr e ↦ record { low = omega (int_laws, ap neg_part e); high = omega (int_laws, ap pos_part e) }
]
  where
    next_day-year :
        (t : FastDate) → ((next_day t).year ≡ t.year) ⊎ ((next_day t).year ≡ t.year +ℤ pos 1)
    next_day-year t = unfold next_day in ground arith

-- Where a day and the next are from -106751991167302 to 106751991167301, the date of the next day
-- is the day after the date by the rules of the calendar.
pub fast_date-suc :
    (p_days : ℤ)
    → IsUnixDay p_days
    → IsUnixDay (p_days +ℤ pos 1)
    → fast_date_from_days (p_days +ℤ pos 1) ≡ next_day (fast_date_from_days p_days)
fast_date-suc p_days r r' =
    let t = fast_date_from_days p_days in
    let w = next_day t in
    let (v, e) = fast_days-from_days p_days r in
    let y = fast_date-year p_days r in
    let number : fast_days_from_date_constexpr w.year w.month w.day ≡ p_days +ℤ pos 1 =
      fast_days-next_day t v (fast_date-IsYear p_days r)
        (record { low = omega (int_laws, y); high = omega (int_laws, y) })
      ∙ ap (λ n. n +ℤ pos 1) e in
    sym (ap fast_date_from_days number)
    ∙ fast_date-fast_days w (next_day-IsDate t v) (next_day-IsYear t y)
        (subst IsUnixDay (sym number) r')
