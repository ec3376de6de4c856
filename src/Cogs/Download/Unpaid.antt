-- ===== src/Cogs/Download/Unpaid.antt =====
-- Who passes the rate limit by: the owner of a guild, and anyone outside one.
use discord_downloader_bot.Prelude.{
  ℕ, String, Bool, true, false, not, ◌≡◌, refl, sym, subst, Option, none, some, all,
}
use discord_downloader_bot.Int.{ℤ}
use discord_downloader_bot.Data.{JobMeta, GuildSettings}
use discord_downloader_bot.World.{
  Exn, filter_parse_error, is_exception, Result, ok, raised, Call, RedisOp, set_meta, hset_bucket,
  Env, Exec, kiq, defer, datetime_now, redis_watch, redis_hmget, redis_execute, time, fetch_row,
  pure, ◌>>=◌,
}
use discord_downloader_bot.World.Trace.{
  Makes, Makes-if, Makes-bind, Makes-await, Makes-raise, Makes-pure, Makes-catch,
  Makes-context_send, Makes-redis_execute,
}
use discord_downloader_bot.Db.GuildSettings.{get}
use discord_downloader_bot.Download.Jobs.{record_job}
use discord_downloader_bot.Cogs.Context.{Guild, Context, Bot}
use discord_downloader_bot.Cogs.Download.Command.{
  Options, conflicting, check_durations, lacks_permission, bypasses, acquire_for, rate_limit,
  unavailable, enqueue, guild_settings_for, dropped, acknowledge, on_enqueued, on_admitted, submit,
  on_parsed, download,
}

-- No bucket, and no record that a token was taken.
abbrev pub unpaid_op : RedisOp → Bool
unpaid_op (set_meta k m ttl) = not m.enqueue_consumed_token
unpaid_op (hset_bucket k b) = false
unpaid_op op = true

abbrev pub is_unpaid : Call → Bool
is_unpaid (redis_watch k) = false
is_unpaid (redis_hmget k) = false
is_unpaid (redis_execute ops) = all unpaid_op ops
is_unpaid c = true

module _ (env : Env) where
  dropped-Makes : (e : Exn) → Makes is_unpaid env (dropped e)
  dropped-Makes e = Makes-if (is_exception e) _ _ (λ _. Makes-pure tt) (λ _. Makes-raise e)

  unavailable-Makes : (dm_me : Bool) (e : Exn) → Makes is_unpaid env (unavailable dm_me e)
  unavailable-Makes dm_me e =
      Makes-if (is_exception e) _ _
        (λ _. Makes-bind _ _ (Makes-context_send _ _ refl) (λ _. Makes-pure none))
        (λ _. Makes-raise e)

  module _ (c : Context) (o : Options) where
    settings-Makes : (g : Option Guild) → Makes is_unpaid env (guild_settings_for g)
    unfolding get
    settings-Makes none = Makes-pure _
    settings-Makes (some g) =
        Makes-bind {A = Option GuildSettings} _ _ (Makes-await (fetch_row g.id) refl)
          λ _. Makes-pure _

    record-Makes :
        (t : String) (m : JobMeta) (ttl : ℤ)
        → m.enqueue_consumed_token ≡ false
        → Makes is_unpaid env (record_job t m ttl)
    unfolding record_job
    record-Makes t m ttl free =
        Makes-bind {A = ℕ} _ _ (Makes-await time refl) λ now. Makes-redis_execute _ (rw free refl)

    enqueued-Makes : (t : Option String) → Makes is_unpaid env (on_enqueued c o false t)
    unfolding acknowledge
    enqueued-Makes none = Makes-pure tt
    enqueued-Makes (some t) = Makes-bind _ _ (settings-Makes c.guild) λ settings.
        Makes-bind {A = ℕ} _ _ (Makes-await datetime_now refl) λ now.
          Makes-bind _ _ (Makes-catch _ _ (record-Makes t _ _ refl) dropped-Makes)
            λ _. Makes-context_send _ _ refl

    admitted-Makes : Makes is_unpaid env (on_admitted c o (some false))
    unfolding enqueue
    admitted-Makes =
        Makes-bind _ _
          (Makes-catch _ _
            (Makes-bind {A = String} _ _ (Makes-await (kiq _) refl) λ t. Makes-pure (some t))
            (unavailable-Makes o.dm_me))
          enqueued-Makes

    -- The owner of a guild, and anyone outside one, touches no bucket of the rate limiter by /download, and
    -- no record that it writes says that a token was taken.
    pub bypass_takes_no_token :
        (bot : Bot) → bypasses c ≡ true → Makes is_unpaid env (download bot c o)
    unfolding download submit rate_limit pure ◌>>=◌
    bypass_takes_no_token bot passes =
        Makes-bind {A = Unit {0}} _ _ (Makes-await (defer o.dm_me) refl) λ _.
          Makes-if (lacks_permission c) _ _ (λ _. Makes-context_send _ _ refl)
            λ _.
              Makes-if (conflicting o) _ _ (λ _. Makes-context_send _ _ refl)
                λ _. parsed (check_durations bot.unicode o)
      where
        through :
            (g : Option Guild)
            → bypasses (record c { guild = g }) ≡ true
            → acquire_for bot c g ≡ pure (some false)
        through none e = refl
        through (some g) e = rw e refl

        failed : (x : Exn) → Makes is_unpaid env (on_parsed bot c o (raised x))
        failed (filter_parse_error m) = Makes-context_send _ _ refl
        failed x = Makes-raise x

        admitted : Makes is_unpaid env (pure (some false) >>= on_admitted c o)
        admitted = record { at = admitted-Makes.at }

        parsed : (r : Result (Unit {0})) → Makes is_unpaid env (on_parsed bot c o r)
        parsed (ok _) =
            subst (λ (m : Exec (Option Bool)). Makes is_unpaid env (m >>= on_admitted c o))
              (sym (through c.guild passes)) admitted
        parsed (raised x) = failed x
