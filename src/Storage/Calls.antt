-- ===== src/Storage/Calls.antt =====
-- What the methods of storage/azure.py call.
use discord_downloader_bot.Prelude.{ℕ, String, Bool, true, ◌≡◌, refl, Option, List, arith}
use discord_downloader_bot.Int.{ℤ}
use discord_downloader_bot.Config.{Settings}
use discord_downloader_bot.World.{
  Exn, Call, Env, Exec, upload_blob, generate_blob_sas, delete_blob as delete_blob_call,
  datetime_now, azure_error, resource_not_found,
}
use discord_downloader_bot.World.Trace.{
  Makes, Makes-mono, Makes-if, Makes-bind, Makes-catch, Makes-await, Makes-lift, Makes-pure,
  makes_rules,
}
use discord_downloader_bot.Download.ZipStream.Walk.{Member}
use discord_downloader_bot.Download.ZipStream.Calls.{is_streaming}
use discord_downloader_bot.Storage.Azure.{
  ContainerClient, store_and_sign, upload_and_sign, delete_blob, missing_is_success,
}

-- The calls of an upload, those of its stream included.
abbrev pub is_storing : Call → Bool
is_storing (upload_blob _ _) = true
is_storing (generate_blob_sas _ _ _ _) = true
is_storing (delete_blob_call _) = true
is_storing c = is_streaming c

streaming_is_storing : (c : Call) → is_streaming c ≡ true → is_storing c ≡ true
streaming_is_storing (upload_blob _ _) h = refl
streaming_is_storing c h = ground arith

missing_is_success-Makes : (env : Env) (e : Exn) → Makes is_storing env (missing_is_success e)
missing_is_success-Makes env resource_not_found = search makes_rules
missing_is_success-Makes env azure_error = search makes_rules
missing_is_success-Makes env _ = search makes_rules

pub delete_blob-Makes : (env : Env) (name : String) → Makes is_storing env (delete_blob name)
unfolding delete_blob
delete_blob-Makes env name = search (makes_rules, missing_is_success-Makes)

module _ (env : Env) (s : Settings) (client : ContainerClient) (name : String)
    (stream : Exec (List Member)) (ttl : ℤ) (filename : Option (List ℕ))
    (made : Makes is_streaming env stream) where
  store_and_sign-Makes : Makes is_storing env (store_and_sign s client name stream ttl filename)
  unfolding store_and_sign
  store_and_sign-Makes =
      Makes-bind {A = String} _ _
        (Makes-catch {A = String} _ _
          (Makes-bind {B = String} _ _ (Makes-mono is_storing stream streaming_is_storing made)
            (λ _. Makes-await (upload_blob name "application/zip") refl))
          (λ e. Makes-lift _))
        λ url. Makes-bind {A = ℕ} _ _ (Makes-await datetime_now refl) λ now.
          Makes-bind {A = ℤ} _ _ (Makes-lift _) λ expiry.
            Makes-bind {A = Option (List ℕ)} _ _ (Makes-lift _) λ header.
              Makes-bind {A = String} _ _
                (Makes-catch {A = String} _ _ (search makes_rules) (λ e. Makes-lift _))
                λ token. Makes-pure _

  pub upload_and_sign-Makes :
      Makes is_storing env (upload_and_sign s client name stream ttl filename)
  unfolding upload_and_sign
  upload_and_sign-Makes =
      Makes-if client.has_account_key _ _ (λ _. store_and_sign-Makes) (λ _. search makes_rules)
