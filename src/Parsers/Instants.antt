-- ===== src/Parsers/Instants.antt =====
-- `datetime` of a local time in Argentina, as app/workers/parsers/whatsapp.py uses it: an instant is a
-- number of microseconds since the year 1, in UTC.
use insyta_api.Prelude.{
  ℕ, zero, suc, ◌+◌, ◌-◌, ◌*◌, ◌/◌, ◌%◌, Bool, not, ◌&&◌, ◌||◌, ◌==◌, leb, ltb, if◌then◌else◌,
}

-- An instant, the `ValueError` of `datetime`, or the `OverflowError` of `astimezone`.
pub data Moment : Type 0 where
  instant : ℕ → Moment
  value_error overflow_error : Moment

abbrev pub is_leap : ℕ → Bool
is_leap y = y % 4 == 0 && (not (y % 100 == 0) || y % 400 == 0)

abbrev pub days_in_month : ℕ → ℕ → ℕ
days_in_month y m =
    if m == 2
    then if is_leap y then 29 else 28
    else if m == 4 || m == 6 || m == 9 || m == 11
    then 30
    else 31

-- The days of the months before one.
abbrev pub days_before : ℕ → ℕ → ℕ
days_before y zero = 0
days_before y (suc zero) = 0
days_before y (suc (suc m)) = days_before y (suc m) + days_in_month y (suc m)

-- The days from the first of January of the year 1.
abbrev pub day_number : ℕ → ℕ → ℕ → ℕ
day_number y m d =
    let past = y - 1 in past * 365 + past / 4 - past / 100 + past / 400 + days_before y m + (d - 1)

abbrev pub is_date : ℕ → ℕ → ℕ → Bool
is_date y m d =
    leb 1 y && (leb y 9999 && (leb 1 m && (leb m 12 && (leb 1 d && leb d (days_in_month y m)))))

abbrev pub is_time : ℕ → ℕ → ℕ → Bool
is_time h mi s = ltb h 24 && (ltb mi 60 && ltb s 60)

-- The end of the year 9999, in seconds.
abbrev pub last_second : ℕ
last_second = 315537897600

-- `datetime(…, tzinfo=_ARG_TZ).astimezone(UTC)`, three hours on.
unfoldable pub utc_of : ℕ → ℕ → ℕ → ℕ → ℕ → ℕ → Moment
utc_of y m d h mi s =
    let seconds = day_number y m d * 86400 + h * 3600 + mi * 60 + s + 10800 in
    if is_date y m d && is_time h mi s
    then if ltb seconds last_second then instant (seconds * 1000000) else overflow_error
    else value_error
