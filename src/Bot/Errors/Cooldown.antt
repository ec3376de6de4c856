-- ===== src/Bot/Errors/Cooldown.antt =====
-- What the reply to a cooldown says of the time.
use discord_downloader_bot.Prelude.{
  ℕ, ◌+◌, ◌*◌, ◌/◌, ◌%◌, ◌≤◌, ◌<◌, ◌≡◌, ap, ◌++◌, ◌∙◌, ◌↔◌, [], arith, inl, inr, ◌⊎◌,
}
use discord_downloader_bot.Rounding.{round_half_even}
use discord_downloader_bot.Data.{Fraction}
use discord_downloader_bot.Bot.Errors.{part, cooldown_clock, cooldown_parts}

pub round_half_even-cases :
    (num den : ℕ)
    → ((round_half_even num den ≡ num / den + 1) × (den ≤ 2 * (num % den)))
      ⊎ ((round_half_even num den ≡ num / den) × (2 * (num % den) ≤ den))
unfolding round_half_even
round_half_even-cases num den = ground arith

-- Rounding is off by half at most.
pub round_half_even_lem :
    (num den : ℕ)
    → 0 < den
    → (2 * (round_half_even num den * den) ≤ 2 * num + den)
      × (2 * num ≤ 2 * (round_half_even num den * den) + den)
round_half_even_lem num den pos = elim (round_half_even-cases num den) [
  | inl (e, h) ↦ rw e (ground arith)
  | inr (e, h) ↦ rw e (ground arith)
]

-- A quotient and a remainder determine each other.
mul_le : (a b c : ℕ) → a + 1 ≤ b → a * c + c ≤ b * c
mul_le a b c h = grind arith

unequal : (a b : ℕ) → (a ≡ b) ⊎ ((a + 1 ≤ b) ⊎ (b + 1 ≤ a))
unequal a b = ground arith

quotient_eq : (n k q r : ℕ) → n ≡ q * k + r → r < k → n / k * k ≡ q * k
quotient_eq n k q r e h = elim (unequal (n / k) q) [
  | inl x ↦ cc
  | inr (inl x) ↦ omega (arith, mul_le (n / k) q k x)
  | inr (inr x) ↦ omega (arith, mul_le q (n / k) k x)
]

remainder_eq : (n k q r : ℕ) → n ≡ q * k + r → r < k → n % k ≡ r
remainder_eq n k q r e h = omega (arith, quotient_eq n k q r e h)

split_days : (x : ℕ) → x ≡ x / 1440 * 1440 + (x / 60 % 24 * 60 + x % 60)
split_days x = omega arith

-- What is left of `num` after whole days, where `m` minutes are `d` days and `t` minutes.
day_lem :
    (num den m d t s : ℕ)
    → num ≡ m * (60 * den) + s
    → s < 60 * den
    → m ≡ d * 1440 + t
    → t < 1440
    → num % (86400 * den) ≡ t * (60 * den) + s
day_lem num den m d t s e h k l =
    remainder_eq num (86400 * den) d (t * (60 * den) + s)
      (e ∙ ap (λ x. x * (60 * den) + s) k ∙ distribute)
      (omega (arith, mul_le t 1440 (60 * den) (omega arith)))
  where
    distribute : (d * 1440 + t) * (60 * den) + s ≡ d * (86400 * den) + (t * (60 * den) + s)
    distribute = omega arith

at_least : (a b : ℕ) → (b ≤ a) ⊎ (a < b)
at_least a b = ground arith

seconds_le : (s den : ℕ) → 0 < den → s < 60 * den → round_half_even s den ≤ 60
seconds_le s den pos h = elim (round_half_even-cases s den) [
  | inl (e, _) ↦ omega (arith, below)
  | inr (e, _) ↦ omega (arith, below)
]
  where
    below : s / den < 60
    below = elim (at_least (s / den) 60) [
      | inl x ↦ omega (arith, mul_le 60 (s / den + 1) den (omega arith))
      | inr x ↦ x
    ]

-- What is left of a cooldown after whole days: whole minutes, and the rest.
left_lem :
    (f : Fraction)
    → 0 < f.den
    → let m = f.num / (60 * f.den) in
      f.num % (86400 * f.den) ≡ (m / 60 % 24 * 60 + m % 60) * (60 * f.den) + f.num % (60 * f.den)
left_lem f pos =
    let m = f.num / (60 * f.den) in
    day_lem f.num f.den m (m / 1440) (m / 60 % 24 * 60 + m % 60) (f.num % (60 * f.den))
      (omega arith) (omega arith) (split_days m) (omega arith)

-- Of the cooldown, less its whole days, the reply names the whole hours and minutes, and the rest in
-- seconds, rounded: the hours are below 24, the minutes below 60, the seconds at most 60, and the time
-- that is named is off by half a second at most.
pub cooldown_clock-within_half_second :
    (f : Fraction)
    → 0 < f.den
    → let c = cooldown_clock f in
      let named = (c.hours * 3600 + c.minutes * 60 + c.seconds) * f.den in
      let left = f.num % (86400 * f.den) in
      (c.hours < 24)
      × (c.minutes < 60)
      × (c.seconds ≤ 60)
      × (2 * named ≤ 2 * left + f.den)
      × (2 * left ≤ 2 * named + f.den)
unfolding cooldown_clock
cooldown_clock-within_half_second f pos =
    let m = f.num / (60 * f.den) in
    let s = f.num % (60 * f.den) in
    let s_lt : s < 60 * f.den = omega arith in
    let left = left_lem f pos in
    let r = round_half_even s f.den in
    let named : (m / 60 % 24 * 3600 + m % 60 * 60 + r) * f.den
        ≡ (m / 60 % 24 * 60 + m % 60) * (60 * f.den) + r * f.den =
      omega arith in
    let near = round_half_even_lem s f.den pos in
    (
      omega arith,
      omega arith,
      seconds_le s f.den pos s_lt,
      omega (arith, left, named, near),
      omega (arith, left, named, near),
    )

zero_quotient : (s k : ℕ) → s < k → s / k ≡ 0
zero_quotient s k h = elim (at_least (s / k) 1) [
  | inl x ↦ omega (arith, mul_le 0 (s / k) k x)
  | inr x ↦ omega arith
]

round_half_even-zero : (s den : ℕ) → 0 < den → (round_half_even s den ≡ 0) ↔ (2 * s ≤ den)
unfolding round_half_even
round_half_even-zero s den pos = (
  λ e. omega (arith, ap (λ r. r * den) e, (round_half_even_lem s den pos).1),
  λ h. ground (arith, below h),
)
  where
    below : 2 * s ≤ den → (s / den ≡ 0) × (s % den ≡ s)
    below h =
        (zero_quotient s den (omega arith), remainder_eq s den 0 s (omega arith) (omega arith))

no_parts :
    (a b c : ℕ)
    → (part a " hours" ++ (part b " minutes" ++ part c " seconds") ≡ [])
      ↔ ((a ≡ 0) × ((b ≡ 0) × (c ≡ 0)))
no_parts a b c = (λ e. ground arith, λ h. ground arith)

-- The reply to a cooldown names no time at all just where the cooldown, less its whole days, is half a
-- second at most.
pub cooldown_names_no_time :
    (f : Fraction) → 0 < f.den → (cooldown_parts f ≡ []) ↔ (2 * (f.num % (86400 * f.den)) ≤ f.den)
unfolding cooldown_parts cooldown_clock
cooldown_names_no_time f pos =
    let m = f.num / (60 * f.den) in
    let s = f.num % (60 * f.den) in
    let left = left_lem f pos in
    let parts = no_parts (m / 60 % 24) (m % 60) (round_half_even s f.den) in
    let seconds = round_half_even-zero s f.den pos in
    (
      λ e.
          let (no_hours, (no_minutes, no_seconds)) = parts.0 e in
          let minutes : (m / 60 % 24 * 60 + m % 60) * (60 * f.den) ≡ 0 =
            rw (no_hours, no_minutes) (omega arith) in
          omega (arith, left, minutes, seconds.0 no_seconds),
      λ h.
          let t = m / 60 % 24 * 60 + m % 60 in
          elim (at_least t 1) [
            | inl x ↦ omega (arith, left, mul_le 0 t (60 * f.den) x)
            | inr x ↦ parts.1 (omega arith, (omega arith, seconds.1 (omega (arith, left))))
          ],
    )
