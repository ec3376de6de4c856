-- ===== src/Keys/Digits.antt =====
-- The digits of a number in a text.
use Prim.Native.Char.{code}
use Prim.Native.String.{◌++◌ as append}
use text.Mathlib.TextLemmas.{nil-append, cons-append}
use discord_downloader_bot.Prelude.{
  ℕ, zero, suc, ◌+◌, ◌*◌, ◌/◌, ◌%◌, ◌≤◌, ◌<◌, String, ◌≡◌, refl, ap, ◌∙◌, Bool, true, false, List,
  [], ◌∷◌, ◌++◌, map, ltb, arith, if◌then◌else◌, length, length-append, All, Bool-cases, inl, inr,
  ◌⊎◌, ltb→lt,
}
use mathlib.Core.List.{map-append}
use discord_downloader_bot.Unicode.{codes}
use discord_downloader_bot.Download.Filters.Duration.{to_number}
use discord_downloader_bot.Keys.{digit, decimal_digits, decimal}

pub codes-append : (s t : String) → codes (append s t) ≡ codes s ++ codes t
codes-append String.[] t = rw nil-append refl
codes-append (String.◌∷◌ c s) t = rw (cons-append c s t) (ap (code c ∷◌) (codes-append s t))

-- The values of the digits, the most significant first.
pub digits : ℕ → ℕ → List ℕ
digits zero n = []
digits (suc f) n =
    let higher = digits f (n / 10) in (if ltb n 10 then [] else higher) ++ (n % 10 ∷ [])

abbrev pub char : ℕ → ℕ
char d = b'0' + d

codes-digit : (d : ℕ) → d < 10 → codes (digit d) ≡ char d ∷ []
codes-digit zero h = refl
codes-digit (suc zero) h = refl
codes-digit (suc (suc zero)) h = refl
codes-digit (suc (suc (suc zero))) h = refl
codes-digit (suc (suc (suc (suc zero)))) h = refl
codes-digit (suc (suc (suc (suc (suc zero))))) h = refl
codes-digit (suc (suc (suc (suc (suc (suc zero)))))) h = refl
codes-digit (suc (suc (suc (suc (suc (suc (suc zero))))))) h = refl
codes-digit (suc (suc (suc (suc (suc (suc (suc (suc zero)))))))) h = refl
codes-digit (suc (suc (suc (suc (suc (suc (suc (suc (suc zero))))))))) h = refl
codes-digit (suc (suc (suc (suc (suc (suc (suc (suc (suc (suc n)))))))))) h = ground arith

pub codes-decimal : (n : ℕ) → codes (decimal n) ≡ map char (digits (suc n) n)
unfolding decimal digits decimal_digits
codes-decimal n = go (suc n) n
  where
    higher :
        (b : Bool) (f m : ℕ)
        → codes (decimal_digits f m) ≡ map char (digits f m)
        → codes (if b then "" else decimal_digits f m) ≡ map char (if b then [] else digits f m)
    higher true f m e = refl
    higher false f m e = e

    go : (f n : ℕ) → codes (decimal_digits f n) ≡ map char (digits f n)
    go zero n = refl
    go (suc f) n =
        codes-append (if ltb n 10 then "" else decimal_digits f (n / 10)) (digit (n % 10))
        ∙ rw
            (
              codes-digit (n % 10) (omega arith),
              map-append char (if ltb n 10 then [] else digits f (n / 10)) (n % 10 ∷ []),
            )
            (ap (λ l. l ++ (char (n % 10) ∷ [])) (higher (ltb n 10) f (n / 10) (go f (n / 10))))

abbrev pub pow10 : ℕ → ℕ
pow10 zero = 1
pow10 (suc k) = 10 * pow10 k

-- The last digit alone, or after the digits before it.
digits-cases :
    (f n : ℕ)
    → ((n < 10) × (digits (suc f) n ≡ n % 10 ∷ []))
      ⊎ ((10 ≤ n) × (digits (suc f) n ≡ digits f (n / 10) ++ (n % 10 ∷ [])))
unfolding digits
digits-cases f n = elim (Bool-cases (ltb n 10)) [
  | inl h ↦ inl (ltb→lt n 10 h, rw h refl)
  | inr h ↦ inr (ground arith, rw h refl)
]

-- A number below a power of ten has no more digits than the power says.
pub digits-length : (f n k : ℕ) → n < pow10 (suc k) → length (digits f n) ≤ suc k
unfolding digits
digits-length zero n k l = omega arith
digits-length (suc f) n zero l = elim (digits-cases f n) [
  | inl (_, e) ↦ rw e (omega arith)
  | inr (h, e) ↦ omega arith
]
digits-length (suc f) n (suc k) l = elim (digits-cases f n) [
  | inl (_, e) ↦ rw e (omega arith)
  | inr (h, e) ↦
      rw (e, length-append (digits f (n / 10)) (n % 10 ∷ []))
        (omega (arith, digits-length f (n / 10) k (omega arith)))
]

pub digits-small : (f n : ℕ) → All (λ d. d < 10) (digits f n)
unfolding digits
digits-small zero n = tt
digits-small (suc f) n = elim (digits-cases f n) [
  | inl (_, e) ↦ rw e (omega arith, tt)
  | inr (h, e) ↦ rw e (with_last (digits f (n / 10)) (digits-small f (n / 10)))
]
  where
    with_last : (ds : List ℕ) → All (λ d. d < 10) ds → All (λ d. d < 10) (ds ++ (n % 10 ∷ []))
    with_last [] a = (omega arith, tt)
    with_last (d ∷ ds) (h, a) = (h, with_last ds a)

-- There is a first digit.
pub digits-cons : (f n : ℕ) → (d : ℕ) × (ds : List ℕ) × (digits (suc f) n ≡ d ∷ ds)
unfolding digits
digits-cons f n = elim (digits-cases f n) [
  | inl (_, e) ↦ (n % 10, [], e)
  | inr (h, e) ↦ let (d, ds, first) = before (digits f (n / 10)) in (d, ds, e ∙ first)
]
  where
    before : (l : List ℕ) → (d : ℕ) × (ds : List ℕ) × (l ++ (n % 10 ∷ []) ≡ d ∷ ds)
    before [] = (n % 10, [], refl)
    before (x ∷ l) = (x, l ++ (n % 10 ∷ []), refl)

to_number-append :
    (ds : List ℕ) (acc d : ℕ) → to_number acc (ds ++ (d ∷ [])) ≡ to_number acc ds * 10 + d
unfolding to_number
to_number-append [] acc d = refl
to_number-append (x ∷ ds) acc d = to_number-append ds (acc * 10 + x) d

-- The digits of a number are read as the number.
pub to_number-digits : (f n : ℕ) → n < f → to_number 0 (digits f n) ≡ n
unfolding to_number
to_number-digits zero n h = ground arith
to_number-digits (suc f) n h = elim (digits-cases f n) [
  | inl (l, e) ↦ rw e (omega arith)
  | inr (l, e) ↦
      rw
        (
          e,
          to_number-append (digits f (n / 10)) 0 (n % 10),
          to_number-digits f (n / 10) (omega arith),
        )
        (omega arith)
]
