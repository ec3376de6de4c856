-- ===== src/Logging/Plain.antt =====
-- What the colours add to a line: nothing but ANSI sequences.
use discord_downloader_bot.Prelude.{
  ℕ, zero, suc, ◌-◌, Bool, true, false, not, ◌≡◌, refl, ap, ◌∙◌, some, List, [], ◌∷◌, ◌++◌, length,
  ◌==◌, all, is_some, ◌⊎◌, inl, inr, Bool-cases, ==_iff, arith, if◌then◌else◌,
}
use mathlib.Core.List.{append_assoc, append-nil}
use discord_downloader_bot.Logging.{
  LogRecord, spaces, gray, blue, yellow, red, black, bold, reset, green, padded, colors, format,
}

-- A terminal drops each escape character, with what follows it up to the letter `m`.
abbrev pub strip_from : Bool → List ℕ → List ℕ
strip_from escaped [] = []
strip_from true (c ∷ s) = strip_from (not (c == b'm')) s
strip_from false (c ∷ s) = (if c == 27 then [] else c ∷ []) ++ strip_from (c == 27) s

pub shown : List ℕ → List ℕ
shown = strip_from false

abbrev pub NoEscape : List ℕ → Type 0
NoEscape s = all (λ c. not (c == 27)) s ≡ true

shown-append : (s t : List ℕ) → NoEscape s → shown (s ++ t) ≡ s ++ shown t
unfolding shown
shown-append [] t h = refl
shown-append (c ∷ s) t h =
    let other : (c == 27) ≡ false = ground arith in
    rw other (ap (λ x. c ∷ x) (shown-append s t (ground (arith, h))))

NoEscape-append : (s t : List ℕ) → NoEscape s → NoEscape t → NoEscape (s ++ t)
NoEscape-append [] t h k = k
NoEscape-append (c ∷ s) t h k = ground (arith, NoEscape-append s t (ground (arith, h)) k)

NoEscape-spaces : (n : ℕ) → NoEscape (spaces n)
NoEscape-spaces zero = refl
NoEscape-spaces (suc n) = NoEscape-spaces n

shown-plain : (s : List ℕ) → NoEscape s → shown s ≡ s
unfolding shown
shown-plain [] h = refl
shown-plain (c ∷ s) h =
    let other : (c == 27) ≡ false = ground arith in
    rw other (ap (λ x. c ∷ x) (shown-plain s (ground (arith, h))))

-- The line with a colour, and the line without.
lined : List ℕ → LogRecord → List ℕ
lined color r =
    black
    ++ (bold
        ++ (r.asctime
            ++ (reset
                ++ (b' '
                    ∷ (color
                        ++ (padded r.levelname
                            ++ (reset
                                ++ (b' '
                                    ∷ (green
                                        ++ (bold
                                            ++ (r.name
                                                ++ (reset
                                                    ++ (b' '
                                                        ∷ (r.message ++ r.appended))))))))))))))

abbrev pub plain : LogRecord → List ℕ
plain r =
    r.asctime
    ++ (b' ' ∷ (padded r.levelname ++ (b' ' ∷ (r.name ++ (b' ' ∷ (r.message ++ r.appended))))))

-- No escape character stands in the parts of a record.
pub record IsPlain (r : LogRecord) : Type 0 where
  pub time : NoEscape r.asctime
  pub level : NoEscape r.levelname
  pub name : NoEscape r.name
  pub message : NoEscape r.message
  pub appended : NoEscape r.appended

shown-lined :
    (color : List ℕ) (r : LogRecord)
    → ((t : List ℕ) → shown (color ++ t) ≡ shown t)
    → IsPlain r
    → shown (lined color r) ≡ plain r
unfolding lined shown
shown-lined color r dropped p =
    let last =
      shown-plain (r.message ++ r.appended)
        (NoEscape-append r.message r.appended p.message p.appended) in
    let name = shown-append r.name _ p.name ∙ ap (λ t. r.name ++ (b' ' ∷ t)) last in
    let level =
      shown-append (padded r.levelname) _
        (NoEscape-append r.levelname _ p.level (NoEscape-spaces (8 - length r.levelname)))
      ∙ ap (λ t. padded r.levelname ++ (b' ' ∷ t)) name in
    shown-append r.asctime _ p.time ∙ ap (λ t. r.asctime ++ (b' ' ∷ t)) (dropped _ ∙ level)

level_cases :
    (n : ℕ) → is_some (colors n) ≡ true → (n ≡ 10) ⊎ (n ≡ 20) ⊎ (n ≡ 30) ⊎ (n ≡ 40) ⊎ (n ≡ 50)
unfolding colors
level_cases n known = elim (Bool-cases (n == 10)) [
  | inl e ↦ inl ((==_iff n 10).0 e)
  | inr a ↦ elim (Bool-cases (n == 20)) [
    | inl e ↦ inr (inl ((==_iff n 20).0 e))
    | inr b ↦ elim (Bool-cases (n == 30)) [
      | inl e ↦ inr (inr (inl ((==_iff n 30).0 e)))
      | inr c ↦ elim (Bool-cases (n == 40)) [
        | inl e ↦ inr (inr (inr (inl ((==_iff n 40).0 e))))
        | inr d ↦ elim (Bool-cases (n == 50)) [
          | inl e ↦ inr (inr (inr (inr ((==_iff n 50).0 e))))
          | inr e ↦ ground (arith, a, b, c, d, e)
        ]
      ]
    ]
  ]
]

-- Each level's line.
format-lined :
    (r : LogRecord)
    → is_some (colors r.levelno) ≡ true
    → (color : List ℕ) × (format r ≡ some (lined color r))
      × ((t : List ℕ) → shown (color ++ t) ≡ shown t)
unfolding format lined shown
format-lined r known = elim (level_cases r.levelno known) [
  | inl e ↦ (gray ++ bold, rw e (simp (append_assoc, append-nil) refl), λ t. refl)
  | inr (inl e) ↦ (blue ++ bold, rw e (simp (append_assoc, append-nil) refl), λ t. refl)
  | inr (inr (inl e)) ↦ (yellow ++ bold, rw e (simp (append_assoc, append-nil) refl), λ t. refl)
  | inr (inr (inr (inl e))) ↦ (red, rw e (simp (append_assoc, append-nil) refl), λ t. refl)
  | inr (inr (inr (inr e))) ↦ (red ++ bold, rw e (simp (append_assoc, append-nil) refl), λ t. refl)
]

-- A record of one of the five levels, with no escape character in its parts, is rendered to a text that
-- a terminal shows as the time, the level padded to 8 characters, the name and the message, and what is
-- appended.
pub format-shows_plain :
    (r : LogRecord)
    → is_some (colors r.levelno) ≡ true
    → IsPlain r
    → (text : List ℕ) × (format r ≡ some text) × (shown text ≡ plain r)
format-shows_plain r known p =
    let (color, made, dropped) = format-lined r known in
    (lined color r, made, shown-lined color r dropped p)
