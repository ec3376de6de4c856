-- ===== src/Storage/Contract.antt =====
-- What storage/base.py promises, and how far Azure's backend keeps it.
use discord_downloader_bot.Prelude.{
  ◌⊎◌, inl, inr, ℕ, String, Bool, true, false, ◌≡◌, refl, subst, text_eq, arith, ◌↔◌, Option, List,
  if◌then◌else◌,
}
use discord_downloader_bot.Int.{ℤ}
use discord_downloader_bot.Config.{Settings}
use discord_downloader_bot.World.{
  is_ok, ◌>>◌, upload_error, upload_blob, generate_blob_sas, Exn, azure_error, resource_not_found,
  signed_url_error, storage_config_error, Result, ok, raised, Env, History, Exec, result, await,
  pure, lift, raise, catch, ◌>>=◌, datetime_now, delete_blob as delete_blob_call,
}
use discord_downloader_bot.World.Steps.{ok-injective, >>=-eq-raised, await-eq-raised}
use discord_downloader_bot.Storage.Backend.{get_storage_backend}
use discord_downloader_bot.Download.ZipStream.Walk.{Member}
use discord_downloader_bot.Storage.Azure.{
  ContainerClient, FromConnectionString, build_client, init, azure, expiry_of, store_and_sign,
  disposition, upload_and_sign, delete_blob, missing_is_success, to_upload_error,
  to_signed_url_error,
}
use discord_downloader_bot.Storage.Base.{StorageBackend}

-- The exceptions that storage/base.py lets a backend raise.
abbrev pub is_storage_error : Exn → Bool
is_storage_error storage_config_error = true
is_storage_error upload_error = true
is_storage_error signed_url_error = true
is_storage_error _ = false

-- The exceptions of the SDK, which no caller is to know.
abbrev pub is_of_sdk : Exn → Bool
is_of_sdk azure_error = true
is_of_sdk resource_not_found = true
is_of_sdk _ = false

-- The exceptions that the arguments of an upload bring about: what the stream itself raises, the end of a life
-- that no `datetime` has, and a name with a lone surrogate.
pub data IsCallers (env : Env) (stream : Exec (List Member)) (ttl : ℤ) (filename : Option (List ℕ))
    : Exn → Type 0 where
  of_stream :
      {x : Exn} (k k' : History)
      → stream env k ≡ (raised x, k')
      → is_of_sdk x ≡ false
      → IsCallers env stream ttl filename x
  of_ttl : {x : Exn} (now : ℕ) → expiry_of now ttl ≡ raised x → IsCallers env stream ttl filename x
  of_name : {x : Exn} → disposition filename ≡ raised x → IsCallers env stream ttl filename x

-- What ends with an exception ends with one of these.
abbrev pub Only : {A : Type 0} → (Exn → Type 0) → Result A → Type 0
Only P (ok _) = Unit {0}
Only P (raised e) = P e

-- The blob is not there any more.
abbrev pub is_gone : Result (Unit {0}) → Bool
is_gone (ok _) = true
is_gone (raised resource_not_found) = true
is_gone (raised _) = false

-- What `StorageBackend` promises of a backend, as far as Azure's keeps it: an upload raises one of the three
-- exceptions, or what its own arguments bring about; a deletion raises one of the three, and to delete a blob
-- that is missing is a success.
pub record KeepsContract (env : Env) (backend : StorageBackend) : Type 0 where
  pub uploads :
      (name : String) (stream : Exec (List Member)) (ttl : ℤ) (filename : Option (List ℕ))
      (h : History)
      → Only
          (λ x. (is_storage_error x ≡ true) ⊎ IsCallers env stream ttl filename x)
          (result (backend.upload_and_sign name stream ttl filename env h))
  pub deletes :
      (name : String) (h : History)
      → Only (λ x. is_storage_error x ≡ true) (result (backend.delete_blob name env h))
  pub missing_is_success :
      (name : String) (h : History)
      → (result (backend.delete_blob name env h) ≡ ok tt)
        ↔ (is_gone (env h (delete_blob_call name)) ≡ true)

-- The SDK raises its own exceptions only, and the clock returns.
pub record SdkRaisesItsOwn (env : Env) : Type 0 where
  pub uploading :
      (h : History) (name kind : String) (x : Exn)
      → env h (upload_blob name kind) ≡ raised x
      → is_of_sdk x ≡ true
  pub signing :
      (h : History) (name : String) (now : ℕ) (expiry : ℤ) (header : Option (List ℕ)) (x : Exn)
      → env h (generate_blob_sas name now expiry header) ≡ raised x
      → is_of_sdk x ≡ true
  pub deleting :
      (h : History) (name : String) (x : Exn)
      → env h (delete_blob_call name) ≡ raised x
      → is_of_sdk x ≡ true
  pub clock : (h : History) → is_ok (env h datetime_now) ≡ true

module _ (P : Exn → Type 0) where
  Only-bind :
      {A B : Type 0} (m : Exec A) (f : A → Exec B) (env : Env) (h : History)
      → Only P (result (m env h))
      → ((a : A) (h' : History) → Only P (result (f a env h')))
      → Only P (result ((m >>= f) env h))
  unfolding ◌>>=◌
  Only-bind {A} {B} m f env h first rest = when (m env h) first
    where
      when :
          (p : Result A × History)
          → Only P p.0
          → Only P (result {A = B} (elim p.0 [ ok a ↦ f a env p.1 | raised e ↦ (raised e, p.1) ]))
      when (ok a, h') e = rest a h'
      when (raised x, h') e = e

  -- A `try` raises what its handler raises.
  Only-catch :
      {A : Type 0} (m : Exec A) (handler : Exn → Exec A) (env : Env) (h : History)
      → ((e : Exn) (h' : History) → m env h ≡ (raised e, h') → Only P (result (handler e env h')))
      → Only P (result (catch m handler env h))
  unfolding catch
  Only-catch {A} m handler env h caught = when (m env h) refl
    where
      when :
          (p : Result A × History)
          → m env h ≡ p
          → Only P (result {A = A} (elim p.0 [ ok a ↦ (ok a, p.1) | raised e ↦ handler e env p.1 ]))
      when (ok a, h') run = tt
      when (raised e, h') run = caught e h' run

  Only-returns : {A : Type 0} (r : Result A) → is_ok r ≡ true → Only P r
  Only-returns (ok a) e = tt
  Only-returns (raised x) e = cc

  Only-eq : {A : Type 0} (r : Result A) → ((x : Exn) → r ≡ raised x → P x) → Only P r
  Only-eq (ok a) e = tt
  Only-eq (raised x) e = e x refl

  upload-Only :
      (e : Exn)
      → P upload_error
      → (is_of_sdk e ≡ false → P e)
      → Only P (to_upload_error {A = String} e)
  upload-Only azure_error mine other = mine
  upload-Only resource_not_found mine other = mine
  upload-Only _ mine other = other refl

  signing-Only :
      (e : Exn)
      → P signed_url_error
      → (is_of_sdk e ≡ false → P e)
      → Only P (to_signed_url_error {A = String} e)
  signing-Only azure_error mine other = mine
  signing-Only resource_not_found mine other = mine
  signing-Only _ mine other = other refl

deletion-Only :
    (e : Exn) (env : Env) (h : History)
    → is_of_sdk e ≡ true
    → Only (λ x. is_storage_error x ≡ true) (result (missing_is_success e env h))
unfolding raise pure
deletion-Only azure_error env h s = refl
deletion-Only resource_not_found env h s = tt
deletion-Only _ env h s = cc

deleted_iff :
    (env : Env) (name : String) (h : History)
    → (result (delete_blob name env h) ≡ ok tt) ↔ (is_gone (env h (delete_blob_call name)) ≡ true)
unfolding delete_blob ◌>>=◌
deleted_iff env name h = ground arith

module _ (env : Env) (settings : Settings) (con_client : ContainerClient)
    (sdk : SdkRaisesItsOwn env) where
  module _ (name : String) (stream : Exec (List Member)) (ttl : ℤ)
      (filename : Option (List ℕ)) where
    abbrev Allowed : Exn → Type 0
    Allowed x = (is_storage_error x ≡ true) ⊎ IsCallers env stream ttl filename x

    -- Nothing but the stream raises an exception that is not the SDK's.
    from_stream :
        (h h' : History) (e : Exn)
        → (stream >> await (upload_blob name "application/zip")) env h ≡ (raised e, h')
        → is_of_sdk e ≡ false
        → Allowed e
    from_stream h h' e run other = elim (>>=-eq-raised stream _ env h h' e run) [
      | inl r ↦ inr (of_stream h h' r other)
      | inr (a, k, _, r) ↦
          let (refused, _) = await-eq-raised (upload_blob name "application/zip") env k h' e r in
          let own = sdk.uploading k name "application/zip" e refused in cc
    ]

    signing_is_sdk :
        (now : ℕ) (expiry : ℤ) (header : Option (List ℕ)) (h h' : History) (e : Exn)
        → await (generate_blob_sas name now expiry header) env h ≡ (raised e, h')
        → is_of_sdk e ≡ false
        → Allowed e
    signing_is_sdk now expiry header h h' e run other =
        let (refused, _) =
          await-eq-raised (generate_blob_sas name now expiry header) env h h' e run in
        let own = sdk.signing h name now expiry header e refused in cc

    store_and_sign-Only :
        (h : History)
        → Only Allowed (result (store_and_sign settings con_client name stream ttl filename env h))
    unfolding store_and_sign await lift pure
    store_and_sign-Only h =
        Only-bind Allowed {A = String} _ _ env h
          (Only-catch Allowed _ _ env h
            λ e k run. upload-Only Allowed e (inl refl) (from_stream h k e run))
          λ url h₁.
            Only-bind Allowed {A = ℕ} _ _ env h₁ (Only-returns Allowed _ (sdk.clock h₁)) λ now h₂.
              Only-bind Allowed {A = ℤ} _ _ env h₂
                (Only-eq Allowed (expiry_of now ttl) (λ x e. inr (of_ttl now e)))
                λ expiry h₃.
                  Only-bind Allowed {A = Option (List ℕ)} _ _ env h₃
                    (Only-eq Allowed (disposition filename) (λ x e. inr (of_name e)))
                    λ header h₄.
                      Only-bind Allowed {A = String} _ _ env h₄
                        (Only-catch Allowed _ _ env h₄ λ e k run.
                          signing-Only Allowed e (inl refl)
                            (signing_is_sdk now expiry header h₄ k e run))
                        λ token h₅. tt

    uploads-Only :
        (h : History)
        → Only Allowed (result (upload_and_sign settings con_client name stream ttl filename env h))
    unfolding upload_and_sign raise
    uploads-Only h = when con_client.has_account_key
      where
        when :
            (b : Bool)
            → Only Allowed (
                result (
                  (if b
                      then store_and_sign settings con_client name stream ttl filename
                      else raise signed_url_error)
                    env h))
        when true = store_and_sign-Only h
        when false = inl refl

  pub azure-KeepsContract : KeepsContract env (azure settings con_client)
  unfolding delete_blob
  azure-KeepsContract = record {
    uploads = λ name stream ttl filename h. uploads-Only name stream ttl filename h;
    deletes = λ name h. Only-catch _ _ _ env h λ e h' run.
        let (refused, _) = await-eq-raised (delete_blob_call name) env h h' e run in
        deletion-Only e env h' (sdk.deleting h name e refused);
    missing_is_success = λ name h. deleted_iff env name h;
  }

module _ (env : Env) (settings : Settings) (sdk : SdkRaisesItsOwn env) where
  -- The backend of a `get_storage_backend` that returned keeps it too.
  pub get_storage_backend-KeepsContract :
      (from_connection_string : FromConnectionString) (backend : StorageBackend)
      → get_storage_backend from_connection_string settings ≡ ok backend
      → KeepsContract env backend
  unfolding get_storage_backend init
  get_storage_backend-KeepsContract from_connection_string backend =
      when (text_eq settings.storage_backend "azure") (build_client from_connection_string settings)
    where
      when :
          (t : Bool) (r : Result ContainerClient)
          → ◌≡◌ {A = Result StorageBackend}
              (if t
                then elim r [ ok client ↦ ok (azure settings client) | raised e ↦ raised e ]
                else raised storage_config_error)
              (ok backend)
          → KeepsContract env backend
      when true (ok client) e =
          subst (KeepsContract env) (ok-injective e) (azure-KeepsContract env settings client sdk)
      when true (raised x) e = cc
      when false r e = cc
