-- ===== src/Cogs/Download/Tokens.antt =====
-- The rate limit in front of the queue.
use discord_downloader_bot.Prelude.{
  ℕ, Bool, true, false, ◌≡◌, ◌≢◌, refl, ap, subst, ◌∙◌, Option, none, some, ◌==◌, if◌then◌else◌,
}
use discord_downloader_bot.World.{
  Exn, filter_parse_error, Result, ok, raised, Call, Env, History, kiq, defer, datetime_now, pure,
  ◌>>=◌,
}
use discord_downloader_bot.World.Trace.{
  Makes, Makes-mono, Answers, Makes-if, Makes-bind, Makes-bind_answer, Makes-await, Makes-raise,
  Makes-pure, Makes-context_send,
}
use discord_downloader_bot.World.Steps.{>>=-eq-ok, await_bind-eq-ok}
use discord_downloader_bot.Download.RateLimit.Bucket.{Verdict, allowed, retry_after}
use discord_downloader_bot.Download.RateLimit.Client.{acquire}
use discord_downloader_bot.Download.RateLimit.Calls.{is_limiter, acquire-Makes}
use discord_downloader_bot.Cogs.Context.{Guild, Context, Bot}
use discord_downloader_bot.Cogs.Download.Command.{
  Options, conflicting, check_durations, lacks_permission, limits, tell_to_wait, acquire_for,
  rate_limit, on_admitted, submit, on_parsed, download,
}

-- A call that enqueues no task.
abbrev pub enqueues_nothing : Call → Bool
enqueues_nothing (kiq _) = false
enqueues_nothing c = true

limiter_enqueues_nothing : (c : Call) → is_limiter c ≡ true → enqueues_nothing c ≡ true
limiter_enqueues_nothing (kiq _) e = cc
limiter_enqueues_nothing c e = refl

module _ (env : Env) where
  told_to_wait :
      (v : Verdict) (k h' : History) (b : Bool)
      → tell_to_wait v env k ≡ (ok (some b), h')
      → v ≡ allowed
  unfolding pure
  told_to_wait allowed k h' b e = refl
  told_to_wait (retry_after w) k h' b e =
      let (now, _, e₁) = await_bind-eq-ok datetime_now _ env k e in
      let (_, _, _, e₂) = >>=-eq-ok _ _ env _ e₁ in cc

  module _ (bot : Bot) (c : Context) (g : Guild) where
    -- Who is let through was granted a token.
    admitted_granted :
        (h : History) (b : Bool)
        → (c.author_id == g.owner_id) ≡ false
        → (acquire_for bot c (some g) env h).0 ≡ ok (some b)
        → (acquire bot.tries (limits bot.settings) g.id env h).0 ≡ ok allowed
    admitted_granted h b other e = split (c.author_id == g.owner_id) other e
      where
        split :
            (owner : Bool)
            → owner ≡ false
            → ((if owner then pure (some false) else (do
              verdict ← acquire bot.tries (limits bot.settings) g.id
              tell_to_wait verdict))
                env h).0
              ≡ ok (some b)
            → (acquire bot.tries (limits bot.settings) g.id env h).0 ≡ ok allowed
        split true q r = cc
        split false q r =
            let m = acquire bot.tries (limits bot.settings) g.id in
            let (v, k, e₁, e₂) =
              >>=-eq-ok m tell_to_wait env h (ap (λ x. (x, ((m >>= tell_to_wait) env h).1)) r) in
            ap (λ p. p.0) e₁ ∙ ap (λ (w : Verdict). ok w) (told_to_wait v k _ b e₂)

    rate-Makes : (o : Option Guild) → Makes enqueues_nothing env (acquire_for bot c o)
    rate-Makes none = Makes-pure _
    rate-Makes (some g') =
        Makes-if (c.author_id == g'.owner_id) _ _ (λ _. Makes-pure _)
          λ _.
            Makes-bind _ _
              (Makes-mono enqueues_nothing _ limiter_enqueues_nothing (acquire-Makes env _ _ _))
              waits
      where
        waits : (v : Verdict) → Makes enqueues_nothing env (tell_to_wait v)
        waits allowed = Makes-pure _
        waits (retry_after w) =
            Makes-bind {A = ℕ} _ _ (Makes-await datetime_now refl)
              λ now. Makes-bind _ _ (Makes-context_send _ _ refl) λ _. Makes-pure _

    -- Where the command is called in a guild by anyone but its owner, and the rate limiter grants no
    -- token, `/download` enqueues nothing.
    pub nothing_without_token :
        (o : Options)
        → c.guild ≡ some g
        → (c.author_id == g.owner_id) ≡ false
        → ((h : History) → (acquire bot.tries (limits bot.settings) g.id env h).0 ≢ ok allowed)
        → Makes enqueues_nothing env (download bot c o)
    unfolding download submit rate_limit
    nothing_without_token o here other never =
        Makes-bind {A = Unit {0}} _ _ (Makes-await (defer o.dm_me) refl) λ _.
          Makes-if (lacks_permission c) _ _ (λ _. Makes-context_send _ _ refl)
            λ _.
              Makes-if (conflicting o) _ _ (λ _. Makes-context_send _ _ refl)
                λ _. parsed (check_durations bot.unicode o)
      where
        next :
            (a : Option Bool)
            → Answers env (acquire_for bot c c.guild) a
            → Makes enqueues_nothing env (on_admitted c o a)
        next none told = Makes-pure tt
        next (some b) told = absurd (
            never told.history (
              admitted_granted told.history b other (
                subst (λ (x : Option Guild). (acquire_for bot c x env told.history).0 ≡ ok (some b))
                  here told.answer)))

        failed : (x : Exn) → Makes enqueues_nothing env (on_parsed bot c o (raised x))
        failed (filter_parse_error m) = Makes-context_send _ _ refl
        failed x = Makes-raise x

        parsed : (r : Result (Unit {0})) → Makes enqueues_nothing env (on_parsed bot c o r)
        parsed (ok _) = Makes-bind_answer _ _ (rate-Makes c.guild) next
        parsed (raised x) = failed x
