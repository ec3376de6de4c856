-- ===== src/Cogs/Jobs/Found.antt =====
-- What /status and /cancel find after a job was recorded or forgotten: cogs/jobs.py with
-- download/jobs.py.
use discord_downloader_bot.Prelude.{
  all, true, ℕ, String, true, ◌≡◌, ◌≢◌, refl, sym, ap, subst, ◌∙◌, Option, none, some, ◌∷◌, ◌==◌,
  ==_iff,
}
use discord_downloader_bot.Int.{ℤ}
use discord_downloader_bot.Data.{JobMeta}
use discord_downloader_bot.Keys.{meta_key, user_jobs_key}
use discord_downloader_bot.World.{
  ok, Env, History, redis_get_meta, redis_latest, time, result, ◌>>=◌, pure, await,
}
use discord_downloader_bot.World.Steps.{await-eq-ok}
use discord_downloader_bot.Cogs.Jobs.Rights.{found_at}
use discord_downloader_bot.Download.Jobs.{record_job, get_job_meta, latest_job_for_user, forget_job}
use discord_downloader_bot.Download.Jobs.Index.{Index, member_of, best, index_of, KeepsIndex}
use discord_downloader_bot.Download.Jobs.Transactions.{
  recorded, forgotten, record-meta, record-latest, is_below, forget-meta, forget-other,
}
use discord_downloader_bot.Cogs.Context.{Context}
use discord_downloader_bot.Cogs.Jobs.Access.{resolve_job, target, can_act_on}

-- A caller's own job, where Redis answers with it.
own_job :
    (env : Env) (h : History) (c : Context) (t : String) (m : JobMeta)
    → (m.owner_user_id == c.author_id) ≡ true
    → env h (redis_latest (user_jobs_key c.author_id)) ≡ ok (some t)
    → env
        (record { call = redis_latest (user_jobs_key c.author_id); returned = true } ∷ h)
        (redis_get_meta (meta_key t))
      ≡ ok (some m)
    → result (resolve_job c none env h) ≡ ok (some (t, m))
unfolding resolve_job target latest_job_for_user get_job_meta can_act_on ◌>>=◌
own_job env h c t m own latest stored = simp (latest, stored, own) refl

module _ (env : Env) (i : Index) (redis : KeepsIndex env i) where
  -- Where Redis keeps the index, and every job of the user was recorded before the time that the clock
  -- gives, a job whose recording returns is the one that /status and /cancel then find for its owner, with
  -- its record.
  pub recorded_job_is_found :
      (t : String) (m : JobMeta) (ttl : ℤ) (c : Context) (now : ℕ) (h h' : History)
      → c.author_id ≡ m.owner_user_id
      → env h time ≡ ok now
      → all (is_below now (user_jobs_key m.owner_user_id)) (index_of i h).entries ≡ true
      → record_job t m ttl env h ≡ (ok tt, h')
      → result (resolve_job c none env h') ≡ ok (some (t, m))
  unfolding resolve_job target latest_job_for_user get_job_meta can_act_on
  recorded_job_is_found t m ttl c now h h' owner clock older done =
      let made = recorded env i t m ttl now h h' clock done in
      let told : env h' (redis_latest (user_jobs_key m.owner_user_id)) ≡ ok (some t) =
        redis.latest_of h' (user_jobs_key m.owner_user_id)
        ∙ ap (λ (x : Index). ok (member_of (best (user_jobs_key m.owner_user_id) x.entries))) made
        ∙ ap (λ (x : Option String). ok x) (record-latest (index_of i h) t m ttl now older) in
      own_job env h' c t m ((==_iff _ _).1 (sym owner))
        (subst (λ (x : ℕ). env h' (redis_latest (user_jobs_key x)) ≡ ok (some t)) (sym owner) told)
        (redis.meta_of _ (meta_key t)
          ∙ ap (λ (x : Index). ok (x.meta (meta_key t))) made
          ∙ ap (λ (x : Option JobMeta). ok x) (record-meta (index_of i h) t m ttl now))

  -- Looking for the job writes nothing.
  target-index :
      (c : Context) (o found : Option String) (h k : History)
      → target c o env h ≡ (ok found, k)
      → index_of i k ≡ index_of i h
  unfolding target latest_job_for_user pure
  target-index c none found h k e =
      let (_, end) = await-eq-ok (redis_latest (user_jobs_key c.author_id)) env h k found e in
      ap (index_of i) end
  target-index c (some t) found h k e = ap (λ p. index_of i p.1) (sym e)

  -- Where Redis keeps the index, a job that was forgotten is found by nobody, and the record of every
  -- other job is still there.
  pub forgotten_job_is_gone :
      (t u : String) (owner : ℕ) (c : Context) (o : Option String) (m : JobMeta)
      (h h' h'' : History)
      → u ≢ t
      → forget_job t owner env h ≡ (ok tt, h')
      → (resolve_job c o env h' ≢ (ok (some (t, m)), h''))
        × (result (get_job_meta u env h') ≡ result (get_job_meta u env h))
  unfolding get_job_meta await
  forgotten_job_is_gone t u owner c o m h h' h'' other done =
      let gone = forgotten env i t owner h h' done in
      (
        λ e.
            let (k, looked, stored, _) = found_at c env o t m h' h'' e in
            let none_there : (index_of i k).meta (meta_key t) ≡ none =
              ap (λ (x : Index). x.meta (meta_key t)) (target-index c o (some t) h' k looked ∙ gone)
              ∙ forget-meta (index_of i h) t owner in
            cc (redis.meta_of k (meta_key t)),
        redis.meta_of h' (meta_key u)
            ∙ ap (λ (x : Index). ok (x.meta (meta_key u))) gone
            ∙ ap (λ (x : Option JobMeta). ok x) (forget-other (index_of i h) t u owner other)
            ∙ sym (redis.meta_of h (meta_key u)),
      )
