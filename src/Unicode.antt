-- ===== src/Unicode.antt =====
-- Texts as lists of code points, and the tables of Python's `str` that the code relies on. The
-- white space of `\s` and `str.strip` is written out; the decimal digits of `\d` and the lower case
-- of `str.lower` are the interpreter's tables, a parameter.
use Prim.Native.Char.{code}
use discord_downloader_bot.Prelude.{
  ℕ, ◌+◌, ◌<◌, String, ◌≡◌, refl, arith, Bool, true, false, ◌&&◌, ◌||◌, Option, none, some, List,
  [], ◌∷◌, leb, ◌==◌, ==_iff,
}

abbrev pub codes : String → List ℕ
codes String.[] = []
codes (String.◌∷◌ c s) = code c ∷ codes s

abbrev pub codes_eq : List ℕ → List ℕ → Bool
codes_eq [] [] = true
codes_eq [] (b ∷ bs) = false
codes_eq (a ∷ as') [] = false
codes_eq (a ∷ as') (b ∷ bs) = a == b && codes_eq as' bs

abbrev pub is_prefix : List ℕ → List ℕ → Bool
is_prefix [] s = true
is_prefix (a ∷ p) [] = false
is_prefix (a ∷ p) (b ∷ s) = a == b && is_prefix p s

unfoldable pub is_space : ℕ → Bool
is_space c =
    leb 9 c && leb c 13
    || (leb 28 c && leb c 32
        || (c == 133
            || (c == 160
                || (c == 5760
                    || (leb 8192 c && leb c 8202
                        || (c == 8232
                            || (c == 8233 || (c == 8239 || (c == 8287 || c == 12288)))))))))

pub record Unicode : Type 0 where
  -- the value of a decimal digit (general category Nd)
  pub digit_value : ℕ → Option ℕ
  -- `str.lower` of one character
  pub lower : ℕ → List ℕ
  pub digit_lt : (c d : ℕ) → digit_value c ≡ some d → d < 10
  pub ascii_digit : (d : ℕ) → d < 10 → digit_value (b'0' + d) ≡ some d
  -- no letter and no white space is a digit
  pub letter_no_digit : (c : ℕ) → (leb b'a' c && leb c b'z') ≡ true → digit_value c ≡ none
  pub space_no_digit : (c : ℕ) → is_space c ≡ true → digit_value c ≡ none

pub codes_eq-eq : (a b : List ℕ) → codes_eq a b ≡ true → a ≡ b
codes_eq-eq [] [] h = refl
codes_eq-eq [] (y ∷ b) h = cc
codes_eq-eq (x ∷ a) [] h = cc
codes_eq-eq (x ∷ a) (y ∷ b) h =
    let both : ((x == y) ≡ true) × (codes_eq a b ≡ true) = ground arith in
    rw ((==_iff x y).0 both.0, codes_eq-eq a b both.1) refl

pub codes_eq_refl : (a : List ℕ) → codes_eq a a ≡ true
codes_eq_refl [] = refl
codes_eq_refl (x ∷ a) = ground (arith, codes_eq_refl a)
