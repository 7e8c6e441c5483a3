-- ===== src/Clock.antt =====
-- The layouts of the package `time` that internal/ids and internal/cli use, for a time in UTC.
use decloud.Base.{
  ℕ, zero, suc, ◌+◌, ◌-◌, ◌*◌, ◌/◌, ◌%◌, Str, Bool, ◌&&◌, ◌||◌, not, [], ◌∷◌, ◌++◌, if◌then◌else◌,
  ltb, ◌==◌,
}
use decloud.Registry.Types.{Time}

pub record Civil : Type 0 where
  pub year : ℕ
  pub month : ℕ
  pub day : ℕ

abbrev pub is_leap : ℕ → Bool
is_leap y = y % 4 == 0 && (not (y % 100 == 0) || y % 400 == 0)

unfoldable pub days_in_month : ℕ → ℕ → ℕ
days_in_month y m =
    if m == 2
    then (if is_leap y then 29 else 28)
    else if m == 4 || m == 6 || m == 9 || m == 11
    then 30
    else 31

abbrev capped : ℕ → ℕ → ℕ
capped cap n = if ltb cap n then cap else n

-- The month and day of a day of the year, from this month on, with rounds left.
unfoldable pub month_from : ℕ → ℕ → ℕ → ℕ → Civil
unfolding days_in_month
month_from zero y m d = record { year = y; month = m; day = d + 1 }
month_from (suc rounds) y m d =
    let rest = month_from rounds y (m + 1) (d - days_in_month y m) in
    if ltb d (days_in_month y m) then record { year = y; month = m; day = d + 1 } else rest

-- The date of a day that is counted from January 1 of year 1.
unfoldable pub civil_of : ℕ → Civil
unfolding month_from
civil_of days =
    let cycle = days % 146_097 in
    let century = capped 3 (cycle / 36_524) in
    let rest = cycle - century * 36_524 in
    let quad = rest % 1_461 in
    let single = capped 3 (quad / 365) in
    month_from 11 (1 + days / 146_097 * 400 + century * 100 + rest / 1_461 * 4 + single) 1
      (quad - single * 365)

abbrev digit : ℕ → ℕ
digit n = b'0' + n % 10

abbrev two_digits : ℕ → Str
two_digits n = digit (n / 10) ∷ digit n ∷ []

-- Years up to 9999
abbrev four_digits : ℕ → Str
four_digits n = digit (n / 1000) ∷ digit (n / 100) ∷ two_digits n

abbrev pub seconds_of : Time → ℕ
seconds_of t = t / 1_000_000_000

abbrev pub date_of : Time → Civil
date_of t = civil_of (seconds_of t / 86_400)

abbrev hour : Time → ℕ
hour t = seconds_of t / 3600 % 24

abbrev minute : Time → ℕ
minute t = seconds_of t / 60 % 60

abbrev second : Time → ℕ
second t = seconds_of t % 60

-- t.Format("20060102")
unfoldable pub compact_date : Time → Str
unfolding civil_of
compact_date t = let c = date_of t in four_digits c.year ++ (two_digits c.month ++ two_digits c.day)

-- t.Format("150405")
unfoldable pub compact_time : Time → Str
compact_time t = two_digits (hour t) ++ (two_digits (minute t) ++ two_digits (second t))

-- t.Format(time.RFC3339)
unfoldable pub rfc3339 : Time → Str
unfolding civil_of
rfc3339 t =
    let c = date_of t in
    four_digits c.year
    ++ (b'-'
        ∷ (two_digits c.month
            ++ (b'-'
                ∷ (two_digits c.day
                    ++ (b'T'
                        ∷ (two_digits (hour t)
                            ++ (b':'
                                ∷ (two_digits (minute t)
                                    ++ (b':' ∷ (two_digits (second t) ++ b'Z' ∷ []))))))))))
