-- ===== src/Bot/Presence/Picks.antt =====
-- The statuses that the bot shows, one after the other.
use discord_downloader_bot.Prelude.{
  ℕ, zero, suc, ◌<◌, String, ◌≡◌, refl, subst, ◌∙◌, eq_refl, Bool, true, false, ◌&&◌, Option, some,
  List, [], ◌∷◌, length, ltb, text_eq, arith, if◌then◌else◌,
}
use discord_downloader_bot.World.{out_of_fuel, ok, Env, History, random_choice, pure}
use discord_downloader_bot.World.Steps.{
  >>=-eq-ok, await_bind-eq-ok, await_bind-ok, pure-eq-ok, pure_lem, raise-≢-ok,
}
use discord_downloader_bot.Bot.Presence.{is_previous, pick, status_rounds}

-- No status is the one before it; the first one has `previous` before it.
abbrev pub NeverTwice : Option String → List String → Type 0
NeverTwice previous [] = Unit
NeverTwice previous (s ∷ l) = (is_previous s previous ≡ false) × NeverTwice (some s) l

pick-is_new :
    (fuel : ℕ) (statuses : List String) (previous : Option String) (env : Env) (h h' : History)
    (s : String)
    → 1 < length statuses
    → pick fuel statuses previous env h ≡ (ok s, h')
    → is_previous s previous ≡ false
unfolding pick
pick-is_new zero statuses previous env h h' s many e =
    elim (raise-≢-ok out_of_fuel s env h h' e) [ ]
pick-is_new (suc fuel) statuses previous env h h' s many e =
    let (choice, _, e₁) = await_bind-eq-ok (random_choice statuses) _ env h e in
    when choice (is_previous choice previous) refl _
      (λ k e'. pick-is_new fuel statuses previous env k h' s many e') e₁
  where
    when :
        (choice : String) (b : Bool)
        → is_previous choice previous ≡ b
        → (k : History)
        → ((k : History)
            → pick fuel statuses previous env k ≡ (ok s, h')
            → is_previous s previous ≡ false)
        → (if b && ltb 1 (length statuses) then pick fuel statuses previous else pure choice) env k
          ≡ (ok s, h')
        → is_previous s previous ≡ false
    when choice true same k later e = later k (
        subst (λ c. (if c then pick fuel statuses previous else pure choice) env k ≡ (ok s, h'))
          (at_least_two) e)
      where
        at_least_two : (true && ltb 1 (length statuses)) ≡ true
        at_least_two = ground arith
    when choice false new k later e =
        subst (λ t. is_previous t previous ≡ false) (pure-eq-ok choice s env k h' e) new

-- With two statuses or more, however many rounds `status_task` makes and whatever `random.choice` picks,
-- the bot never shows a status twice in a row.
pub status_rounds-NeverTwice :
    (n fuel : ℕ) (statuses : List String) (previous : Option String) (env : Env) (h h' : History)
    (l : List String)
    → 1 < length statuses
    → status_rounds n fuel statuses previous env h ≡ (ok l, h')
    → NeverTwice previous l
unfolding status_rounds
status_rounds-NeverTwice zero fuel statuses previous env h h' l many e =
    subst (NeverTwice previous) (pure-eq-ok [] l env h h' e) tt
status_rounds-NeverTwice (suc n) fuel (s ∷ t) previous env h h' l many e =
    let (status, h₁, e₁, k₁) = >>=-eq-ok _ _ env h e in
    let (_, h₂, _, k₂) = >>=-eq-ok _ _ env h₁ k₁ in
    let (rest, h₃, e₃, k₃) = >>=-eq-ok _ _ env h₂ k₂ in
    subst (NeverTwice previous) (pure-eq-ok (status ∷ rest) l env h₃ h' k₃) (
      pick-is_new fuel (s ∷ t) previous env h h₁ status many e₁,
      status_rounds-NeverTwice n fuel (s ∷ t) (some status) env h₂ h₃ rest many e₃,
    )
status_rounds-NeverTwice (suc n) fuel [] previous env h h' l many e = ground arith

-- The history after `random.choice` has picked from `statuses` a number of times.
abbrev pub draws : ℕ → List String → History → History
draws zero statuses h = h
draws (suc k) statuses h =
    draws k statuses (record { call = random_choice statuses; returned = true } ∷ h)

-- What `random.choice` picks next is `c`.
abbrev pub Draws : Env → List String → History → String → Type 0
Draws env statuses h c = env h (random_choice statuses) ≡ ok c

-- With two statuses or more: where one of the first `fuel` picks of `random.choice` is another status than
-- `s`, the one before, and the picks until then are `s`, the generator yields the first other one, and has
-- asked for no pick after it.
pub pick_returns :
    (k fuel : ℕ) (statuses : List String) (env : Env) (h : History) (s c : String)
    → k < fuel
    → 1 < length statuses
    → ((j : ℕ) → j < k → Draws env statuses (draws j statuses h) s)
    → Draws env statuses (draws k statuses h) c
    → text_eq c s ≡ false
    → pick fuel statuses (some s) env h ≡ (ok c, draws (suc k) statuses h)
unfolding pick
pick_returns k zero statuses env h s c lt many same new differs = ground arith
pick_returns zero (suc fuel) statuses env h s c lt many same new differs =
    await_bind-ok (random_choice statuses) _ env h c new ∙ rw differs (pure_lem c env _)
pick_returns (suc k) (suc fuel) statuses env h s c lt many same new differs =
    await_bind-ok (random_choice statuses) _ env h s (same 0 (omega arith))
    ∙ rw (eq_refl s, at_least_two)
        (pick_returns k fuel statuses env _ s c (omega arith) many
          (λ j l. same (suc j) (omega arith)) new differs)
  where
    at_least_two : ltb 1 (length statuses) ≡ true
    at_least_two = ground arith
