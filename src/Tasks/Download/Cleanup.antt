-- ===== src/Tasks/Download/Cleanup.antt =====
-- The `try`/`finally` around the upload: what is left behind, on every way out.
use discord_downloader_bot.Prelude.{String, ◌≡◌, ◌≢◌, ◌∷◌, arith}
use discord_downloader_bot.World.{
  Exn, no_matching_attachments, resource_not_found, azure_error, upload_error, Result, ok, raised,
  Event, Env, Exec, History, is_ok, delete_blob as delete_blob_call, ◌>>=◌, catch, raise, pure,
  after, result,
}
use discord_downloader_bot.Storage.Azure.{delete_blob, missing_is_success}
use discord_downloader_bot.Tasks.Download.Upload.{cleanup, logged, guarded_upload, empty_sentinel}

-- The deletion that the cleanup asks of Azure.
abbrev pub deletion : Env → History → String → Event
deletion env h key = record {
  call = delete_blob_call key;
  returned = is_ok (env h (delete_blob_call key));
}

-- How the cleanup ends: an error of Azure is no error of the cleanup.
abbrev pub outcome : Result (Unit {0}) → Result (Unit {0})
outcome (raised azure_error) = ok tt
outcome (raised resource_not_found) = ok tt
outcome (raised upload_error) = ok tt
outcome (raised e) = raised e
outcome (ok u) = ok tt

tidy : Exn → Env → History → Result (Unit {0}) × History
unfolding catch raise pure
tidy e env h = catch (missing_is_success e) logged env h

cleanup_lem :
    (env : Env) (h : History) (key : String)
    → cleanup key env h ≡ (outcome (env h (delete_blob_call key)), deletion env h key ∷ h)
unfolding cleanup delete_blob ◌>>=◌
cleanup_lem env h key = ground arith

module _ (env : Env) (h h' : History) (key : String) (upload : Exec String) where
  -- An upload that fails, with anything but the sign of an empty channel, is followed by one deletion
  -- of its blob, and the exception goes on; where the deletion raises more than an error of Azure,
  -- that exception takes its place.
  pub failed_upload_is_deleted :
      (e : Exn)
      → upload env h ≡ (raised e, h')
      → e ≢ no_matching_attachments
      → (after (guarded_upload key upload env h) ≡ deletion env h' key ∷ h')
        × (result (guarded_upload key upload env h)
            ≡ (elim (outcome (env h' (delete_blob_call key))) [
              | ok _ ↦ raised e
              | raised x ↦ raised x
            ]))
  unfolding guarded_upload ◌>>=◌
  failed_upload_is_deleted e failed other = ground (arith, cleanup_lem env h' key)

  -- An upload stopped by an empty channel: its blob is deleted, and where the deletion ends well, or with
  -- an error of Azure, the URL is the empty sentinel.
  pub empty_channel_is_sentinel :
      upload env h ≡ (raised no_matching_attachments, h')
      → outcome (env h' (delete_blob_call key)) ≡ ok tt
      → guarded_upload key upload env h ≡ (ok empty_sentinel, deletion env h' key ∷ h')
  unfolding guarded_upload ◌>>=◌
  empty_channel_is_sentinel e done = ground (arith, cleanup_lem env h' key)
