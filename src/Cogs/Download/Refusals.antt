-- ===== src/Cogs/Download/Refusals.antt =====
-- What `/download` does not do where it refuses.
use discord_downloader_bot.Prelude.{Bool, true, false, ◌≡◌, refl, arith, ◌||◌}
use discord_downloader_bot.World.{
  Exn, filter_parse_error, Result, ok, raised, Call, Env, defer, context_send,
}
use discord_downloader_bot.World.Trace.{
  Makes, Makes-if, Makes-bind, Makes-await, Makes-raise, Makes-context_send,
}
use discord_downloader_bot.Cogs.Context.{Context, Bot}
use discord_downloader_bot.Cogs.Download.Command.{
  Options, conflicting, check_durations, lacks_permission, on_parsed, download,
}

-- The answers to the user.
abbrev pub is_reply : Call → Bool
is_reply (defer _) = true
is_reply (context_send _ _) = true
is_reply c = false

-- A request that is refused before the rate limit.
abbrev pub is_raised : Result (Unit {0}) → Bool
is_raised (ok _) = false
is_raised (raised e) = true

module _ (env : Env) (bot : Bot) (c : Context) (o : Options) where
  invalid-Makes :
      (r : Result (Unit {0})) → is_raised r ≡ true → Makes is_reply env (on_parsed bot c o r)
  invalid-Makes (ok _) e = cc
  invalid-Makes (raised x) e = by_exception x
    where
      by_exception : (x : Exn) → Makes is_reply env (on_parsed bot c o (raised x))
      by_exception (filter_parse_error m) = Makes-context_send _ _ refl
      by_exception x = Makes-raise x

  -- Where the bot may not read the channel, or the filters exclude each other, or a duration is no
  -- duration, the command only answers the user: it takes no token, enqueues nothing and records
  -- nothing.
  pub refusal_only_replies :
      (lacks_permission c || (conflicting o || is_raised (check_durations bot.unicode o))) ≡ true
      → Makes is_reply env (download bot c o)
  unfolding download
  refusal_only_replies refused =
      Makes-bind {A = Unit {0}} _ _ (Makes-await (defer o.dm_me) refl) λ _.
        Makes-if (lacks_permission c) _ _ (λ _. Makes-context_send _ _ refl)
          λ may.
            Makes-if (conflicting o) _ _ (λ _. Makes-context_send _ _ refl)
              λ apart. invalid-Makes _ (ground (arith, refused))
