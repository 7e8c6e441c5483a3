-- ===== src/Ids/Format.antt =====
-- internal/ids/ids.go: the format of deploy ids.
use decloud.Base.{
  ℕ, ◌+◌, ◌*◌, ◌/◌, ◌%◌, ◌<◌, ◌≤◌, ◌≡◌, ◌⊎◌, refl, Str, length, All, List, [], ◌∷◌, ◌++◌, arith,
}
use mathlib.Core.List.{append_cancel_left}
use decloud.Os.Laws.{IsDigit}
use decloud.Registry.Types.{Time}
use decloud.Clock.{compact_date, compact_time}
use decloud.Ids.{hex_digit, hex, new_deploy_id}

abbrev pub IsHexDigit : ℕ → Type 0
IsHexDigit b = IsDigit b ⊎ ((b'a' ≤ b) × (b ≤ b'f'))

-- Eight digits, six digits and six hexadecimal digits, with dashes between: a docker tag.
abbrev pub HasFormat : Str → Type 0
HasFormat id =
    (date : Str) × (time : Str) × (random : Str) × (id ≡ date ++ (b'-' ∷ (time ++ (b'-' ∷ random))))
    × ((length date ≡ 8) × All IsDigit date)
    × ((length time ≡ 6) × All IsDigit time)
    × ((length random ≡ 6) × All IsHexDigit random)

last_digit : (n : ℕ) → IsDigit (b'0' + n % 10)
last_digit n = (ground arith, ground arith)

compact_date-digits : (t : Time) → (length (compact_date t) ≡ 8) × All IsDigit (compact_date t)
unfolding compact_date
compact_date-digits t = (
  refl,
  (
    last_digit _,
    (
      last_digit _,
      (
        last_digit _,
        (last_digit _, (last_digit _, (last_digit _, (last_digit _, (last_digit _, tt))))),
      ),
    ),
  ),
)

compact_time-digits : (t : Time) → (length (compact_time t) ≡ 6) × All IsDigit (compact_time t)
unfolding compact_time
compact_time-digits t = (
  refl,
  (
    last_digit _,
    (last_digit _, (last_digit _, (last_digit _, (last_digit _, (last_digit _, tt))))),
  ),
)

hex_digit-IsHexDigit : (n : ℕ) → n < 16 → IsHexDigit (hex_digit n)
hex_digit-IsHexDigit n h = ground arith

hex_digit-injective : (m n : ℕ) → m < 16 → n < 16 → hex_digit m ≡ hex_digit n → m ≡ n
hex_digit-injective m n h k e = ground arith

abbrev pub IsByte : ℕ → Type 0
IsByte b = b < 256

high : (b : ℕ) → IsByte b → b / 16 < 16
high b h = ground arith

low : (b : ℕ) → b % 16 < 16
low b = ground arith

hex-IsHexDigit :
    (bs : List ℕ) → All IsByte bs → (length (hex bs) ≡ 2 * length bs) × All IsHexDigit (hex bs)
unfolding hex
hex-IsHexDigit [] h = (refl, tt)
hex-IsHexDigit (b ∷ bs) h =
    let (n, digits) = hex-IsHexDigit bs h.1 in
    (
      ground (arith, n),
      (hex_digit-IsHexDigit (b / 16) (high b h.0), (hex_digit-IsHexDigit (b % 16) (low b), digits)),
    )

hex-injective : (bs cs : List ℕ) → All IsByte bs → All IsByte cs → hex bs ≡ hex cs → bs ≡ cs
unfolding hex
hex-injective [] [] h k e = refl
hex-injective [] (c ∷ cs) h k e = absurd (ground (arith, e))
hex-injective (b ∷ bs) [] h k e = absurd (ground (arith, e))
hex-injective (b ∷ bs) (c ∷ cs) h k e =
    let first : hex_digit (b / 16) ≡ hex_digit (c / 16) = ground (arith, e) in
    let second : hex_digit (b % 16) ≡ hex_digit (c % 16) = ground (arith, e) in
    let rest : hex bs ≡ hex cs = ground (arith, e) in
    let tail = hex-injective bs cs h.1 k.1 rest in
    let above = hex_digit-injective (b / 16) (c / 16) (high b h.0) (high c k.0) first in
    let below = hex_digit-injective (b % 16) (c % 16) (low b) (low c) second in
    let same : b ≡ c = omega arith in ground (arith, same, tail)

-- Given three random bytes, a deploy id has the documented format, eight digits, six digits and six
-- hexadecimal digits with dashes between, and it differs from every id of the same time that other random
-- bytes give.
pub new_deploy_id-HasFormat :
    (now : Time) (random : List ℕ)
    → length random ≡ 3
    → All IsByte random
    → HasFormat (new_deploy_id now random)
      × ((other : List ℕ)
          → All IsByte other
          → new_deploy_id now random ≡ new_deploy_id now other
          → random ≡ other)
unfolding new_deploy_id
new_deploy_id-HasFormat now random n h =
    let date = compact_date now in
    let time = compact_time now in
    let (size, digits) = hex-IsHexDigit random h in
    (
      (
        date,
        time,
        hex random,
        refl,
        compact_date-digits now,
        compact_time-digits now,
        (ground (arith, size, n), digits),
      ),
      (λ other k e.
          let after_date =
            append_cancel_left date (b'-' ∷ (time ++ (b'-' ∷ hex random)))
              (b'-' ∷ (time ++ (b'-' ∷ hex other))) e in
          let after_time =
            append_cancel_left time (b'-' ∷ hex random) (b'-' ∷ hex other)
              (ground (arith, after_date)) in
          hex-injective random other h k (ground (arith, after_time))),
    )
