-- ===== src/Storage/RoundTrip.antt =====
-- The name of a download, encoded for the header and decoded as a browser does: RFC 3986 and UTF-8.
use discord_downloader_bot.Prelude.{
  ℕ, zero, suc, ◌+◌, ◌-◌, ◌*◌, ◌/◌, ◌%◌, ◌<◌, ◌≡◌, refl, ap, ◌∙◌, Bool, true, false, ◌||◌, List, [],
  ◌∷◌, ◌++◌, all, All, ltb, leb, ◌==◌, arith, Bool-cases, inl, inr, ◌⊎◌, ◌≤◌, if◌then◌else◌,
}
use discord_downloader_bot.Storage.Disposition.{utf8, hex, percent, is_unreserved, quote}

-- What was read of an escape.
pub data Escape : Type 0 where
  plain after_percent : Escape
  after_digit : ℕ → Escape

abbrev pub unhex : ℕ → ℕ
unhex c = if leb c b'9' then c - b'0' else c - b'A' + 10

abbrev pub unquote_step : Escape → ℕ → List ℕ × Escape
unquote_step plain c = if c == b'%' then ([], after_percent) else (c ∷ [], plain)
unquote_step after_percent c = ([], after_digit (unhex c))
unquote_step (after_digit d) c = ((d * 16 + unhex c) ∷ [], plain)

unfoldable pub unquote_from : Escape → List ℕ → List ℕ
unquote_from e [] = []
unquote_from e (c ∷ s) = let (out, e') = unquote_step e c in out ++ unquote_from e' s

-- The bytes that a percent-encoded text stands for.
unfoldable pub unquote : List ℕ → List ℕ
unfolding unquote_from
unquote = unquote_from plain

-- The first argument is the number of bytes to come, the second what those before them amount to.
abbrev pub decode_step : ℕ → ℕ → ℕ → List ℕ × (ℕ × ℕ)
decode_step zero acc b =
    if ltb b 128
    then (b ∷ [], (0, 0))
    else if ltb b 224
    then ([], (1, b - 192))
    else if ltb b 240
    then ([], (2, b - 224))
    else ([], (3, b - 240))
decode_step (suc zero) acc b = ((acc * 64 + (b - 128)) ∷ [], (0, 0))
decode_step (suc (suc k)) acc b = ([], (suc k, acc * 64 + (b - 128)))

unfoldable pub decode_from : ℕ → ℕ → List ℕ → List ℕ
decode_from k acc [] = []
decode_from k acc (b ∷ s) =
    let (out, (k', acc')) = decode_step k acc b in out ++ decode_from k' acc' s

-- The code points that the bytes of a UTF-8 text stand for.
unfoldable pub decode : List ℕ → List ℕ
unfolding decode_from
decode = decode_from 0 0

abbrev encode : List ℕ → List ℕ
encode [] = []
encode (c ∷ s) = utf8 c ++ encode s

cons : {x y : ℕ} {s t : List ℕ} → x ≡ y → s ≡ t → x ∷ s ≡ y ∷ t
cons e f = rw (e, f) refl

unhex-hex : (d : ℕ) → d < 16 → unhex (hex d) ≡ d
unfolding hex
unhex-hex d h = ground arith

unquote-percent :
    (bs rest : List ℕ)
    → All (λ b. b < 256) bs
    → unquote_from plain (percent bs ++ rest) ≡ bs ++ unquote_from plain rest
unfolding percent unquote_from
unquote-percent [] rest a = refl
unquote-percent (b ∷ bs) rest (h, a) =
    rw (unhex-hex (b / 16) (omega arith), unhex-hex (b % 16) (omega arith))
      (cons (omega arith) (unquote-percent bs rest a))

unquote-unreserved :
    (c : ℕ) (rest : List ℕ)
    → is_unreserved c ≡ true
    → (unquote_from plain (c ∷ rest) ≡ c ∷ unquote_from plain rest) × (utf8 c ≡ c ∷ [])
unfolding is_unreserved unquote_from utf8
unquote-unreserved c rest h =
    let escape : (c == b'%') ≡ false = ground arith in
    let ascii : ltb c 128 ≡ true = ground arith in (rw escape refl, rw ascii refl)

-- The four lengths of a code point.
utf8-cases :
    (c : ℕ)
    → ((c < 128) × (utf8 c ≡ c ∷ []))
      ⊎ (((128 ≤ c) × (c < 2048) × (utf8 c ≡ (192 + c / 64) ∷ (128 + c % 64) ∷ []))
          ⊎ (((2048 ≤ c)
                × (c < 65536)
                × (utf8 c ≡ (224 + c / 4096) ∷ (128 + c / 64 % 64) ∷ (128 + c % 64) ∷ []))
              ⊎ ((65536 ≤ c)
                  × (utf8 c
                      ≡ (240 + c / 262144)
                        ∷ (128 + c / 4096 % 64)
                        ∷ (128 + c / 64 % 64)
                        ∷ (128 + c % 64)
                        ∷ []))))
unfolding utf8
utf8-cases c = ground arith

utf8-bytes : (c : ℕ) → c < 1114112 → All (λ b. b < 256) (utf8 c)
utf8-bytes c h = elim (utf8-cases c) [
  | inl (l, e) ↦ rw e (omega arith, tt)
  | inr (inl (l, m, e)) ↦ rw e (omega arith, (omega arith, tt))
  | inr (inr (inl (l, m, e))) ↦ rw e (omega arith, (omega arith, (omega arith, tt)))
  | inr (inr (inr (l, e))) ↦ rw e (omega arith, (omega arith, (omega arith, (omega arith, tt))))
]

-- A first byte says how many follow.
lead_0 : (b : ℕ) → b < 128 → decode_step 0 0 b ≡ (b ∷ [], (0, 0))
lead_0 b h = ground arith

lead_1 : (b : ℕ) → 128 ≤ b → b < 224 → decode_step 0 0 b ≡ ([], (1, b - 192))
lead_1 b h l = ground arith

lead_2 : (b : ℕ) → 224 ≤ b → b < 240 → decode_step 0 0 b ≡ ([], (2, b - 224))
lead_2 b h l = ground arith

lead_3 : (b : ℕ) → 240 ≤ b → decode_step 0 0 b ≡ ([], (3, b - 240))
lead_3 b h = ground arith

decode-utf8 :
    (c : ℕ) (rest : List ℕ)
    → c < 1114112
    → decode_from 0 0 (utf8 c ++ rest) ≡ c ∷ decode_from 0 0 rest
unfolding decode_from
decode-utf8 c rest h = elim (utf8-cases c) [
  | inl (l, e) ↦ rw (e, lead_0 c l) refl
  | inr (inl (l, m, e)) ↦
      rw (e, lead_1 (192 + c / 64) (omega arith) (omega arith)) (cons (omega arith) refl)
  | inr (inr (inl (l, m, e))) ↦
      rw (e, lead_2 (224 + c / 4096) (omega arith) (omega arith)) (cons (omega arith) refl)
  | inr (inr (inr (l, e))) ↦
      rw (e, lead_3 (240 + c / 262144) (omega arith)) (cons (omega arith) refl)
]

-- What a header takes as it is.
abbrev pub is_attribute_char : ℕ → Bool
is_attribute_char c = is_unreserved c || c == b'%'

hex-char : (d : ℕ) → d < 16 → is_attribute_char (hex d) ≡ true
unfolding hex is_unreserved
hex-char d h = ground arith

percent-chars : (bs : List ℕ) → All (λ b. b < 256) bs → all is_attribute_char (percent bs) ≡ true
unfolding percent is_unreserved
percent-chars [] a = refl
percent-chars (b ∷ bs) (h, a) =
    rw (hex-char (b / 16) (omega arith), hex-char (b % 16) (omega arith)) (percent-chars bs a)

all-append :
    (xs ys : List ℕ)
    → all is_attribute_char xs ≡ true
    → all is_attribute_char ys ≡ true
    → all is_attribute_char (xs ++ ys) ≡ true
all-append [] ys h k = k
all-append (x ∷ xs) ys h k = ground (arith, all-append xs ys)

unreserved-char : (c : ℕ) → is_unreserved c ≡ true → is_attribute_char c ≡ true
unreserved-char c r = rw r refl

quote-chars : (s : List ℕ) → All (λ c. c < 1114112) s → all is_attribute_char (quote s) ≡ true
unfolding quote
quote-chars [] a = refl
quote-chars (c ∷ s) (h, a) = elim (Bool-cases (is_unreserved c)) [
  | inl r ↦ rw r (all-append (c ∷ []) (quote s) (rw (unreserved-char c r) refl) (quote-chars s a))
  | inr r ↦ rw r (
      all-append (percent (utf8 c)) (quote s) (percent-chars (utf8 c) (utf8-bytes c h))
        (quote-chars s a))
]

-- The percent-encoding of a name of code points below 1114112 has only letters, digits, `_.-~` and `%`, and
-- what it decodes to, read as UTF-8, is the name.
pub decode-quote :
    (filename : List ℕ)
    → All (λ c. c < 1114112) filename
    → (all is_attribute_char (quote filename) ≡ true)
      × (decode (unquote (quote filename)) ≡ filename)
unfolding quote unquote decode
decode-quote filename a =
    (quote-chars filename a, ap (decode_from 0 0) (bytes filename a) ∙ points filename a)
  where
    bytes : (s : List ℕ) → All (λ c. c < 1114112) s → unquote_from plain (quote s) ≡ encode s
    bytes [] a = refl
    bytes (c ∷ s) (h, a) = elim (Bool-cases (is_unreserved c)) [
      | inl r ↦
          let (one, same) = unquote-unreserved c (quote s) r in
          rw (r, same) (one ∙ ap (c ∷◌) (bytes s a))
      | inr r ↦
          rw r (
            unquote-percent (utf8 c) (quote s) (utf8-bytes c h) ∙ ap (λ l. utf8 c ++ l) (bytes s a))
    ]

    points : (s : List ℕ) → All (λ c. c < 1114112) s → decode_from 0 0 (encode s) ≡ s
    points [] a = refl
    points (c ∷ s) (h, a) = decode-utf8 c (encode s) h ∙ ap (c ∷◌) (points s a)
