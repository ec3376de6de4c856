-- ===== src/Tasks/Download/Retry.antt =====
-- What a retry of `download_channel_media` does not do again.
use discord_downloader_bot.Prelude.{
  ℕ, String, Bool, true, false, ◌≡◌, refl, ap, Option, none, some, arith, ◌∙◌, sym,
}
use discord_downloader_bot.Data.{GuildSettings, TaskArgs, Embed}
use discord_downloader_bot.World.{
  Exn, Result, ok, Call, Env, History, upload_blob, http_get, channel_history, delete_blob,
  fetch_row, redis_get, redis_exists, ◌>>=◌, await, raised,
}
use discord_downloader_bot.World.Trace.{
  Makes, Makes-mono, Makes-if, Makes-bind, Makes-bind_answer, Makes-catch, Makes-await, Makes-raise,
  Makes-pure, Makes-set_progress, Makes-redis_set, Makes-redis_execute,
}
use discord_downloader_bot.World.Steps.{ok-injective, >>=-eq-ok}
use discord_downloader_bot.Keys.{archive_url_key}
use discord_downloader_bot.Db.GuildSettings.{get}
use discord_downloader_bot.Download.Deliver.Calls.{
  is_delivery, dm_user-Makes, post_to_channel-Makes,
}
use discord_downloader_bot.Download.Idempotency.{
  get_cached_archive_url, is_delivered, mark_delivered,
}
use discord_downloader_bot.Download.Jobs.{forget_job}
use discord_downloader_bot.Tasks.Download.Upload.{Deps, upload_phase, fresh_upload, or_upload}
use discord_downloader_bot.Tasks.Download.Pipeline.{
  DownloadResult, settings_for, task_settings, send_in_mode, send_result, unless_delivered,
  deliver_phase, finish, ignored, download_channel_media,
}

-- The calls of a run that uploads nothing: no walk of the history, no download from the CDN, no
-- upload, no deletion.
abbrev pub skips_upload : Call → Bool
skips_upload (upload_blob _ _) = false
skips_upload (http_get _) = false
skips_upload (channel_history _ _ _) = false
skips_upload (delete_blob _) = false
skips_upload c = true

delivery_skips_upload : (c : Call) → is_delivery c ≡ true → skips_upload c ≡ true
delivery_skips_upload (upload_blob _ _) h = h
delivery_skips_upload (http_get _) h = h
delivery_skips_upload (channel_history _ _ _) h = h
delivery_skips_upload (delete_blob _) h = h
delivery_skips_upload c h = refl

-- The URL of what a run returns.
abbrev pub HasUrl : String → Result DownloadResult → Type 0
HasUrl url (ok r) = r.url ≡ url
HasUrl url (raised e) = Unit

pub settings_for-Makes :
    (env : Env) (guild_id : Option ℕ) (dm_me : Bool)
    → Makes skips_upload env (settings_for guild_id dm_me)
unfolding get
settings_for-Makes env none dm_me = Makes-pure _
settings_for-Makes env (some g) true = Makes-pure _
settings_for-Makes env (some g) false =
    Makes-bind {A = Option GuildSettings} _ _ (Makes-await (fetch_row g) refl) (λ row. Makes-pure _)

pub send_in_mode-Makes :
    (env : Env) (in_channel : Bool) (channel : Option ℕ) (u : ℕ) (embed : Embed)
    → Makes is_delivery env (send_in_mode in_channel channel u embed)
send_in_mode-Makes env true (some c) u embed = post_to_channel-Makes env c u embed
send_in_mode-Makes env true none u embed = dm_user-Makes env u embed
send_in_mode-Makes env false c u embed = dm_user-Makes env u embed

pub ignored-Makes : (P : Call → Bool) (env : Env) (e : Exn) → Makes P env (ignored e)
ignored-Makes P env e = Makes-if _ _ _ (λ _. Makes-pure tt) (λ _. Makes-raise e)

module _ (env : Env) (t : String) (args : TaskArgs) where
  unless_delivered-Makes :
      (url : String) (settings : GuildSettings) (delivered : Bool)
      → Makes skips_upload env (unless_delivered t url args settings delivered)
  unfolding mark_delivered send_result
  unless_delivered-Makes url settings true = Makes-pure tt
  unless_delivered-Makes url settings false = Makes-bind _ _ (Makes-set_progress _ _ refl) λ _.
      Makes-bind _ _
        (Makes-mono skips_upload _ delivery_skips_upload (send_in_mode-Makes env _ _ _ _))
        λ _. Makes-redis_set _ _ _ refl

  deliver_phase-Makes :
      (url : String) (settings : GuildSettings)
      → Makes skips_upload env (deliver_phase t url args settings)
  unfolding deliver_phase is_delivered
  deliver_phase-Makes url settings =
      Makes-bind {A = Bool} _ _ (Makes-await (redis_exists _) refl)
        (unless_delivered-Makes url settings)

  finish-Makes :
      (url : String) (settings : GuildSettings)
      → Makes skips_upload env (finish t url args settings)
  unfolding finish forget_job
  finish-Makes url settings = Makes-bind _ _ (Makes-set_progress _ _ refl) λ _.
      Makes-bind _ _ (Makes-catch _ _ (Makes-redis_execute _ refl) (ignored-Makes _ env))
        λ _. Makes-pure _

  finish_url :
      (url : String) (settings : GuildSettings) (h h' : History) (r : DownloadResult)
      → finish t url args settings env h ≡ (ok r, h')
      → r.url ≡ url
  unfolding finish ◌>>=◌
  finish_url url settings h h' r e = ground arith

  module _ (url : String)
      (cached : (h : History) → env h (redis_get (archive_url_key t)) ≡ ok (some url)) where
    upload_phase_cached :
        (deps : Deps) (settings : GuildSettings) (h : History)
        → (upload_phase deps t args settings env h).0 ≡ ok url
    unfolding upload_phase get_cached_archive_url ◌>>=◌
    upload_phase_cached deps settings h = rw (cached h)

    upload_phase-Makes_cached :
        (deps : Deps) (settings : GuildSettings)
        → Makes skips_upload env (upload_phase deps t args settings)
    unfolding upload_phase get_cached_archive_url await
    upload_phase-Makes_cached deps settings =
        Makes-bind_answer {A = Option String} _ _ (Makes-await (redis_get _) refl)
          λ o known. subst_answer o (sym known.answer ∙ cached known.history)
      where
        subst_answer :
            (o : Option String)
            → ◌≡◌ {A = Result (Option String)} (ok o) (ok (some url))
            → Makes skips_upload env (or_upload (fresh_upload deps t args settings) o)
        subst_answer none e = cc
        subst_answer (some v) e = Makes-pure v

    -- Where Redis holds the archive's URL of the task, a run of the task walks no history, downloads
    -- and uploads nothing and deletes nothing; and a result that it returns has that URL.
    pub retry_reuses_archive :
        (deps : Deps)
        → Makes skips_upload env (download_channel_media deps t args)
          × ((h : History) → HasUrl url (download_channel_media deps t args env h).0)
    unfolding download_channel_media task_settings
    retry_reuses_archive deps = (
      Makes-bind _ _ (Makes-set_progress _ _ refl) λ _.
          Makes-bind _ _ (settings_for-Makes env args.guild_id args.dm_me) λ settings.
            Makes-bind _ _ (upload_phase-Makes_cached deps settings)
              λ u. Makes-bind _ _ (deliver_phase-Makes u settings) λ _. finish-Makes u settings,
      λ h. has_url h (download_channel_media deps t args env h) refl,
    )
      where
        has_url :
            (h : History) (p : Result DownloadResult × History)
            → download_channel_media deps t args env h ≡ p
            → HasUrl url p.0
        has_url h (raised x, h') e = tt
        has_url h (ok r, h') e =
            let (_, _, _, e₁) = >>=-eq-ok _ _ env h e in
            let (settings, _, _, e₂) = >>=-eq-ok _ _ env _ e₁ in
            let (u, h₃, up, e₃) = >>=-eq-ok _ _ env _ e₂ in
            let (_, _, _, e₄) = >>=-eq-ok _ _ env _ e₃ in
            finish_url u settings _ _ r e₄
            ∙ ok-injective (sym (ap (λ p. p.0) up) ∙ upload_phase_cached deps settings _)
