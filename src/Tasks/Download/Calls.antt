-- ===== src/Tasks/Download/Calls.antt =====
-- What the phases of `download_channel_media` call.
use discord_downloader_bot.Prelude.{
  ℕ, String, Bool, true, false, ◌≡◌, refl, Option, none, some, arith, text_eq, eq_refl,
}
use discord_downloader_bot.Int.{ℤ}
use discord_downloader_bot.Data.{GuildSettings, Channel, TaskArgs}
use discord_downloader_bot.World.{
  Exn, Result, ok, raised, Call, Env, Exec, set_progress, fetch_channel, date_today, redis_get,
  redis_set, no_matching_attachments, upload_error, datetime_now,
}
use discord_downloader_bot.World.Trace.{
  Makes, Makes-mono, Makes-if, Makes-bind, Makes-catch, Makes-attempt, Makes-await, Makes-raise,
  Makes-lift, Makes-pure, Makes-redis_set, makes_rules,
}
use discord_downloader_bot.Keys.{archive_url_key}
use discord_downloader_bot.Download.Filters.Resolve.{ResolvedFilters}
use discord_downloader_bot.Download.ZipStream.Progress.{Snapshot}
use discord_downloader_bot.Download.ZipStream.Calls.{is_streaming, build_zip_stream-Makes}
use discord_downloader_bot.Download.Idempotency.{get_cached_archive_url, cache_archive_url}
use discord_downloader_bot.Storage.Calls.{is_storing, delete_blob-Makes, upload_and_sign-Makes}
use discord_downloader_bot.Tasks.Download.Upload.{
  Deps, report, archive_stream, cleanup, logged, on_empty, finish_upload, guarded_upload,
  upload_steps, fresh_upload, upload_phase, or_upload,
}

-- The calls of phase 1 for the task `t`: in Redis it writes the key of the URL and no other.
abbrev pub is_phase_1 : String → Call → Bool
is_phase_1 t (fetch_channel _) = true
is_phase_1 t date_today = true
is_phase_1 t (redis_get _) = true
is_phase_1 t (redis_set k _ _) = text_eq k (archive_url_key t)
is_phase_1 t c = is_storing c

storing_is_phase_1 : (t : String) (c : Call) → is_storing c ≡ true → is_phase_1 t c ≡ true
storing_is_phase_1 t (fetch_channel _) h = refl
storing_is_phase_1 t date_today h = refl
storing_is_phase_1 t (redis_get _) h = refl
storing_is_phase_1 t (redis_set k _ _) h = ground arith
storing_is_phase_1 t c h = h

report-Makes : (env : Env) (s : Snapshot) → Makes is_streaming env (report s)
unfolding report
report-Makes env s = search makes_rules

archive_stream-Makes :
    (env : Env) (deps : Deps) (c : Channel) (r : ResolvedFilters)
    → Makes is_streaming env (archive_stream deps c r)
unfolding archive_stream
archive_stream-Makes env deps c r =
    build_zip_stream-Makes env _ (report-Makes env) deps.snowflake c (some r.matches) r.before
      r.after

logged-Makes : (env : Env) (e : Exn) → Makes is_storing env (logged e)
logged-Makes env upload_error = search makes_rules
logged-Makes env _ = search makes_rules

cleanup-Makes : (env : Env) (key : String) → Makes is_storing env (cleanup key)
unfolding cleanup
cleanup-Makes env key = search (makes_rules, delete_blob-Makes, logged-Makes)

on_empty-Makes : (env : Env) (e : Exn) → Makes is_storing env (on_empty e)
on_empty-Makes env no_matching_attachments = search makes_rules
on_empty-Makes env _ = search makes_rules

finish_upload-Makes :
    (env : Env) (key : String) (r : Result (String × Bool))
    → Makes is_storing env (finish_upload key r)
finish_upload-Makes env key (ok (url, true)) = search (makes_rules, cleanup-Makes)
finish_upload-Makes env key (ok (url, false)) = search makes_rules
finish_upload-Makes env key (raised e) = search (makes_rules, cleanup-Makes)

guarded_upload-Makes :
    (env : Env) (key : String) (upload : Exec String)
    → Makes is_storing env upload
    → Makes is_storing env (guarded_upload key upload)
unfolding guarded_upload
guarded_upload-Makes env key upload made =
    Makes-bind _ _
      (Makes-attempt _
        (Makes-catch _ _ (Makes-bind _ _ made (λ url. Makes-pure _)) (on_empty-Makes env)))
      λ r. finish_upload-Makes env key r

or_upload-Makes :
    {P : Call → Bool} {env : Env} (upload : Exec String)
    → Makes P env upload
    → (cached : Option String) → Makes P env (or_upload upload cached)
or_upload-Makes upload made none = made
or_upload-Makes upload made (some url) = Makes-pure url

module _ (env : Env) (deps : Deps) (t : String) (args : TaskArgs) (settings : GuildSettings) where
  cache-Makes : (url : String) (ttl : ℤ) → Makes (is_phase_1 t) env (cache_archive_url t url ttl)
  unfolding cache_archive_url
  cache-Makes url ttl = Makes-redis_set (archive_url_key t) url ttl (eq_refl (archive_url_key t))

  upload_steps-Makes :
      (channel : Channel) → Makes (is_phase_1 t) env (upload_steps deps t args settings channel)
  unfolding upload_steps
  upload_steps-Makes channel =
      Makes-bind {A = Unit {0}} _ _ (Makes-await (set_progress _ _) refl) λ _.
        Makes-bind {A = ℕ} _ _ (Makes-await datetime_now refl) λ now.
          Makes-bind _ _ (Makes-lift _) λ resolved.
            Makes-bind {A = String} _ _ (Makes-await date_today refl) λ today.
              Makes-bind _ _
                (Makes-mono (is_phase_1 t) _ (storing_is_phase_1 t) (
                  guarded_upload-Makes env _ _ (
                    upload_and_sign-Makes env _ _ _ _ _ _
                      (archive_stream-Makes env deps channel resolved))))
                λ url. Makes-bind _ _ (cache-Makes url _) (λ _. Makes-pure url)

  fresh_upload-Makes : Makes (is_phase_1 t) env (fresh_upload deps t args settings)
  unfolding fresh_upload
  fresh_upload-Makes =
      Makes-bind {A = Channel} _ _ (Makes-await (fetch_channel args.channel_id) refl) λ channel.
        Makes-if channel.messageable _ _ (λ _. upload_steps-Makes channel) (λ _. Makes-raise _)

  pub upload_phase-Makes : Makes (is_phase_1 t) env (upload_phase deps t args settings)
  unfolding upload_phase get_cached_archive_url
  upload_phase-Makes =
      Makes-bind {A = Option String} _ _ (Makes-await (redis_get (archive_url_key t)) refl)
        (or_upload-Makes _ fresh_upload-Makes)
