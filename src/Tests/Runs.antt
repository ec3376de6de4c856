-- ===== src/Tests/Runs.antt =====
-- Examples of the task's runs, the walk of a channel and the keys.
use discord_downloader_bot.Prelude.{String, true, ◌≡◌, refl, none, [], ◌∷◌, ◌++◌, arith, any}
use discord_downloader_bot.Int.{pos}
use discord_downloader_bot.World.{
  ok, raised, azure_error, History, Exec, after, result, raise, http_get, redis_exists, Env, ◌>>=◌,
  redis_set,
}
use discord_downloader_bot.World.Trace.{Makes, Extends}
use discord_downloader_bot.Keys.{delivered_key}
use discord_downloader_bot.Download.ZipStream.Progress.{no_bounds}
use discord_downloader_bot.Download.ZipStream.Walk.{
  Walk, member, tick, visit, walk_attachments, walk_messages, start,
}
use discord_downloader_bot.Download.ZipStream.Tally.{
  Grown, answer, expected, expected_bytes, walk_holds_matches,
}
use discord_downloader_bot.Tasks.Download.Pipeline.{
  DownloadResult, download_channel_media, task_settings, deliver_phase, send_result,
  effective_delivery_mode, result_embed, finish,
}
use discord_downloader_bot.Tasks.Download.Upload.{upload_phase, guarded_upload}
use discord_downloader_bot.Tasks.Download.Cleanup.{deletion, failed_upload_is_deleted}
use discord_downloader_bot.Tasks.Download.Order.{MarksFollowSends, marks_follow_sends}
use discord_downloader_bot.Tasks.Download.Retry.{skips_upload, retry_reuses_archive, HasUrl}
use discord_downloader_bot.Data.{TaskArgs}
use discord_downloader_bot.Download.ZipStream.Pipeline.{stream_response}
use discord_downloader_bot.Download.ZipStream.Ends.{
  body_event, release_event, stream_always_releases,
}
use discord_downloader_bot.Tasks.Download.Skips.{
  sends_nothing, reads_no_settings, dm_me_reads_no_settings,
}
use discord_downloader_bot.Tasks.Download.Again.{marks, retries, retries_send_nothing}
use discord_downloader_bot.Tasks.Download.Once.{DeliversOnce, returned_run_has_delivered}
use discord_downloader_bot.Download.Idempotency.{
  get_cached_archive_url, is_delivered, mark_delivered,
}
use discord_downloader_bot.Download.Deliver.{dm_user}
use discord_downloader_bot.Download.Jobs.{forget_job}
use discord_downloader_bot.Tests.Values.{
  some_deps, some_args, picture, some_message, noon, status_of, all_well, remembers,
}

retry_reuses_archive_example :
    Makes skips_upload remembers (download_channel_media some_deps "t1" some_args)
    × ((h : History)
        → HasUrl "https://blob/old" (download_channel_media some_deps "t1" some_args remembers h).0)
retry_reuses_archive_example =
    retry_reuses_archive remembers "t1" some_args "https://blob/old" (λ h. refl) some_deps

marks_follow_sends_example :
    (new : History) × (after (download_channel_media some_deps "t1" some_args all_well [])
      ≡ new ++ [])
    × MarksFollowSends "t1" new
marks_follow_sends_example = marks_follow_sends "t1" all_well some_args some_deps []

failing : Exec String
failing = raise azure_error

failed_upload_is_deleted_example :
    (after (guarded_upload "k" failing all_well []) ≡ deletion all_well [] "k" ∷ [])
    × (result (guarded_upload "k" failing all_well []) ≡ raised azure_error)
unfolding failing raise
failed_upload_is_deleted_example =
    failed_upload_is_deleted all_well [] [] "k" failing azure_error refl (λ e. cc)

-- One of the two attachments is gone.
abbrev walked : Walk
walked = record {
  attachments_done = 1;
  bytes_streamed = 10;
  last_emit = noon;
  members = member picture some_message ∷ [];
}

cdn_all_well : (h : History) (url : String) → all_well h (http_get url) ≡ answer (status_of url)
cdn_all_well h url = ground arith

walk_holds_matches_example :
    Grown none status_of
      (start noon)
      walked
      (expected none status_of (some_message ∷ []))
      (expected_bytes none status_of (some_message ∷ []))
unfolding walk_messages ◌>>=◌ tick walk_attachments visit
walk_holds_matches_example =
    walk_holds_matches none status_of all_well cdn_all_well none no_bounds (some_message ∷ []) []
      (after (walk_messages none none no_bounds (some_message ∷ []) (start noon) all_well []))
      (start noon) walked refl

abbrev private_args : TaskArgs
private_args = record some_args { dm_me = true }

dm_me_reads_no_settings_example :
    Makes reads_no_settings all_well (download_channel_media some_deps "t1" private_args)
dm_me_reads_no_settings_example = dm_me_reads_no_settings "t1" all_well private_args some_deps refl

stream_always_releases_example : stream_response "u" 10 all_well [] ≡ (
  ok [],
  release_event all_well (body_event all_well [] "u" 10 ∷ []) "u"
      ∷ body_event all_well [] "u" 10
      ∷ [],
)
stream_always_releases_example = stream_always_releases all_well [] "u" 10

-- Redis keeps the delivered key of the task.
abbrev keeps_mark : Env
keeps_mark h (redis_exists _) = ok (any (marks "t1") h)
keeps_mark h c = all_well h c

-- A run has delivered before.
abbrev one_delivery : History
one_delivery =
    record { call = redis_set (delivered_key "t1") "1" (pos 86400); returned = true } ∷ []

one_delivery-marks : any (marks "t1") one_delivery ≡ true
unfolding delivered_key
one_delivery-marks = refl

retries_send_nothing_example :
    Extends sends_nothing one_delivery
      (after (retries 2 (download_channel_media some_deps "t1" some_args) keeps_mark one_delivery))
retries_send_nothing_example =
    retries_send_nothing "t1" keeps_mark some_args (λ h b seen e. cc) some_deps 2 one_delivery
      one_delivery-marks

-- What a run returns that finds its archive in the cache and sends a direct message.
abbrev sent_old : DownloadResult
sent_old = record { url = "https://blob/old"; delivery_mode = "dm"; status = "delivered" }

returned_run_has_delivered_example :
    DeliversOnce remembers "t1" []
      (after (download_channel_media some_deps "t1" private_args remembers []))
unfolding download_channel_media task_settings upload_phase get_cached_archive_url deliver_phase
    is_delivered mark_delivered send_result effective_delivery_mode result_embed dm_user finish
    forget_job ◌>>=◌
returned_run_has_delivered_example =
    returned_run_has_delivered "t1" remembers private_args some_deps []
      (after (download_channel_media some_deps "t1" private_args remembers [])) sent_old refl
