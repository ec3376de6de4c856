-- ===== src/Storage/Azure.antt =====
-- storage/azure.py: the one backend, Azure.
use discord_downloader_bot.Prelude.{
  ℕ, zero, suc, ◌-◌, String, Bool, false, ◌&&◌, not, Option, none, some, List, text_eq, get_or,
  if◌then◌else◌,
}
use Prim.Native.String.{count, ◌++◌}
use text.Mathlib.Text.{starts_with}
use discord_downloader_bot.Storage.Disposition.{format_content_disposition}
use discord_downloader_bot.Download.ZipStream.Walk.{Member}
use discord_downloader_bot.Int.{ℤ, pos, negsuc, add_ℤ, leb_ℤ}
use discord_downloader_bot.Config.{Settings}
use discord_downloader_bot.Storage.Base.{StorageBackend}
use discord_downloader_bot.World.{
  Exn, Result, ok, raised, azure_error, resource_not_found, upload_error, signed_url_error,
  overflow_error, Exec, await, pure, raise, lift, catch, ◌>>=◌, ◌>>◌, upload_blob,
  generate_blob_sas, delete_blob as delete_blob_call, datetime_now, Resource, releases,
}

-- The SDK's client of the container, which the backend holds: whether its credential has an account key,
-- and `BlobClient.from_blob_url(url, credential=token).url`.
pub record ContainerClient : Type 0 where
  pub has_account_key : Bool
  pub signed_url : String → String → String

-- `except AzureError as e: raise UploadError(…)`
abbrev pub to_upload_error {ℓ} : {A : Type ℓ} → Exn → Result A
to_upload_error azure_error = raised upload_error
to_upload_error resource_not_found = raised upload_error
to_upload_error e = raised e

abbrev pub to_signed_url_error {ℓ} : {A : Type ℓ} → Exn → Result A
to_signed_url_error azure_error = raised signed_url_error
to_signed_url_error resource_not_found = raised signed_url_error
to_signed_url_error e = raised e

-- `str.replace` of a text that is not empty. `skip` counts the characters of an occurrence that are
-- still to be passed over.
replace_from : String → String → ℕ → String → String
replace_from old new skip String.[] = ""
replace_from old new (suc skip) (String.◌∷◌ c s) = replace_from old new skip s
replace_from old new zero (String.◌∷◌ c s) =
    let here = starts_with (String.◌∷◌ c s) old in
    (if here then new else String.◌∷◌ c String.[])
    ++ replace_from old new (if here then count old - 1 else 0) s

unfoldable pub replace : String → String → String → String
unfolding replace_from
replace old new s = replace_from old new 0 s

-- A text that Python takes for true.
abbrev pub is_set : Option String → Bool
is_set none = false
is_set (some s) = not (text_eq s "")

-- The Azurite rewrite at the end of `upload_and_sign`.
unfoldable pub public_url : Settings → String → String
unfolding replace
public_url settings url =
    if text_eq settings.environment "dev"
      && (is_set settings.azure_int_url && is_set settings.azure_ext_url)
    then replace (get_or settings.azure_int_url "") (get_or settings.azure_ext_url "") url
    else url

-- `disposition` is `None` where no name for the download is given.
abbrev pub disposition : Option (List ℕ) → Result (Option (List ℕ))
disposition none = ok none
disposition (some filename) = elim (format_content_disposition filename) [
  | ok header ↦ ok (some header)
  | raised e ↦ raised e
]

-- `now + ttl`, in microseconds; a `datetime` has a year from 1 to 9999.
unfoldable pub expiry_of : ℕ → ℤ → Result ℤ
expiry_of now ttl =
    let t = add_ℤ (pos now) ttl in
    if leb_ℤ (negsuc 62135596799999999) t && leb_ℤ t (pos 253402300799999999)
    then ok t
    else raised overflow_error

-- `stream` is the `data` of the upload, which the SDK pulls to its end before it commits the blob; what
-- the stream raises comes out of the SDK's call. The life of the URL is in microseconds.
unfoldable pub store_and_sign :
    Settings → ContainerClient → String → Exec (List Member) → ℤ → Option (List ℕ) → Exec String
store_and_sign settings con_client name stream ttl download_filename = do
  blob_url ←
      catch (stream >> await (upload_blob name "application/zip")) (λ e. lift (to_upload_error e))
  now ← await datetime_now
  expiry ← lift (expiry_of now ttl)
  header ← lift (disposition download_filename)
  token ←
      catch (await (generate_blob_sas name now expiry header)) (λ e. lift (to_signed_url_error e))
  pure (public_url settings (con_client.signed_url blob_url token))

-- The account key comes first: without one nothing is uploaded.
unfoldable pub upload_and_sign :
    Settings → ContainerClient → String → Exec (List Member) → ℤ → Option (List ℕ) → Exec String
upload_and_sign settings con_client name stream ttl download_filename =
    if con_client.has_account_key
    then store_and_sign settings con_client name stream ttl download_filename
    else raise signed_url_error

-- `except ResourceNotFoundError: return`
abbrev pub missing_is_success : Exn → Exec (Unit {0})
missing_is_success resource_not_found = pure tt
missing_is_success azure_error = raise upload_error
missing_is_success e = raise e

unfoldable pub delete_blob : String → Exec (Unit {0})
delete_blob name = catch (await (delete_blob_call name)) missing_is_success

-- What `_build_client` asks of the SDK's client, in seconds and in numbers of tries.
pub record ClientOptions : Type 0 where
  pub connection_timeout : ℕ
  pub read_timeout : ℕ
  pub retry_total : ℕ
  pub retry_connect : ℕ
  pub retry_read : ℕ
  pub retry_status : ℕ

abbrev pub client_options : ClientOptions
client_options = record {
  connection_timeout = 20;
  read_timeout = 600;
  retry_total = 5;
  retry_connect = 3;
  retry_read = 3;
  retry_status = 3;
}

-- The SDK's `ContainerClient.from_connection_string`, which may raise.
abbrev pub FromConnectionString : Type 0
FromConnectionString = String → String → ClientOptions → Result ContainerClient

-- `_build_client`
unfoldable pub build_client : FromConnectionString → Settings → Result ContainerClient
build_client from_connection_string settings =
    from_connection_string settings.azure_conn_str settings.azure_container client_options

-- `AzureBlobBackend`, around its client.
abbrev pub azure : Settings → ContainerClient → StorageBackend
azure settings con_client = record {
  upload_and_sign = upload_and_sign settings con_client;
  delete_blob = delete_blob;
}

-- `AzureBlobBackend.__init__`
unfoldable pub init :
    FromConnectionString → Settings → Option ContainerClient → Result StorageBackend
unfolding build_client
init from_connection_string settings none = elim (build_client from_connection_string settings) [
  | ok client ↦ ok (azure settings client)
  | raised e ↦ raised e
]
init from_connection_string settings (some client) = ok (azure settings client)

-- `AzureBlobBackend.__aexit__`, which lets the exception that ends the context go on.
unfoldable pub aexit : Resource → Exec Bool
aexit con_client = do await (releases con_client); pure false
