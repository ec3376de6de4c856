-- ===== src/World/Trace.antt =====
-- Which calls a coroutine makes: one rule for each way to build a coroutine.
use discord_downloader_bot.Prelude.{
  ℕ, String, Option, ◌≡◌, refl, sym, ap, ◌∙◌, Bool, true, false, List, [], ◌∷◌, ◌++◌, map,
  if◌then◌else◌,
}
use mathlib.Core.List.{append_assoc}
use discord_downloader_bot.Int.{ℤ}
use discord_downloader_bot.World.{
  Exn, Result, ok, raised, Call, History, Env, Exec, await, pure, raise, lift, catch, attempt,
  ◌>>=◌, is_ok, after, RedisOp, set_progress, redis_set, redis_execute, channel_send, user_send,
  context_send, upsert_row, delete_blob, http_release, upload_blob, redis_get, generate_blob_sas,
}
use discord_downloader_bot.Data.{TaskState, ProgressMeta, Embed, GuildSettings}

-- The calls of a history.
abbrev pub calls : History → List Call
calls = map (λ e. e.call)

-- Every event of the list is of a call that `P` holds of.
abbrev pub Are : (Call → Bool) → History → Type 0
Are P [] = Unit
Are P (e ∷ es) = (P e.call ≡ true) × Are P es

Are-append : (P : Call → Bool) (xs ys : History) → Are P xs → Are P ys → Are P (xs ++ ys)
Are-append P [] ys hx hy = hy
Are-append P (x ∷ xs) ys hx hy = (hx.0, Are-append P xs ys hx.1 hy)

-- `h'` is `h` with more calls, all of them calls that `P` holds of.
abbrev pub Extends : (Call → Bool) → History → History → Type 0
Extends P h h' = (new : History) × (h' ≡ new ++ h) × Are P new

pub Extends-refl : (P : Call → Bool) (h : History) → Extends P h h
Extends-refl P h = ([], refl, tt)

pub Extends-trans :
    (P : Call → Bool) (h h' h'' : History) → Extends P h h' → Extends P h' h'' → Extends P h h''
Extends-trans P h h' h'' (xs, ex, ax) (ys, ey, ay) =
    (ys ++ xs, ey ∙ ap (◌++◌ ys) ex ∙ sym (append_assoc ys xs h), Are-append P ys xs ay ax)

pub Are-mono :
    (P Q : Call → Bool) (xs : History)
    → ((c : Call) → P c ≡ true → Q c ≡ true)
    → Are P xs
    → Are Q xs
Are-mono P Q [] k h = tt
Are-mono P Q (x ∷ xs) k h = (k x.call h.0, Are-mono P Q xs k h.1)

-- Against `env`, whatever came before, `m` makes only calls that `P` holds of.
pub record Makes (P : Call → Bool) (env : Env) {A : Type 0} (m : Exec A) : Type 0 where
  pub at : (h : History) → Extends P h (after (m env h))

pub Makes-mono :
    {P : Call → Bool} (Q : Call → Bool) {env : Env} {A : Type 0} (m : Exec A)
    → ((c : Call) → P c ≡ true → Q c ≡ true)
    → Makes P env m
    → Makes Q env m
Makes-mono {P} Q {env} m k made = record {
  at = λ h. let (new, e, a) = made.at h in (new, e, Are-mono P Q new k a);
}

-- `a` is what `m` returns at some point.
pub record Answers {A : Type 0} (env : Env) (m : Exec A) (a : A) : Type 0 where
  pub history : History
  pub answer : (m env history).0 ≡ ok a

module _ {P : Call → Bool} {env : Env} where
  pub Makes-await : (c : Call) → P c ≡ true → Makes P env (await c)
  unfolding await
  Makes-await c p = record {
    at = λ h. (record { call = c; returned = is_ok (env h c) } ∷ [], refl, (p, tt));
  }

  module _ {A : Type 0} where
    pub Makes-pure : (a : A) → Makes P env (pure a)
    unfolding pure
    Makes-pure a = record { at = λ h. Extends-refl P h }

    pub Makes-raise : (e : Exn) → Makes P env (raise {A = A} e)
    unfolding raise
    Makes-raise e = record { at = λ h. Extends-refl P h }

    pub Makes-lift : (r : Result A) → Makes P env (lift r)
    unfolding lift
    Makes-lift r = record { at = λ h. Extends-refl P h }

    pub Makes-attempt : (m : Exec A) → Makes P env m → Makes P env (attempt m)
    unfolding attempt
    Makes-attempt m km = record { at = km.at }

    pub Makes-if :
        (b : Bool) (m n : Exec A)
        → (b ≡ true → Makes P env m)
        → (b ≡ false → Makes P env n)
        → Makes P env (if b then m else n)
    Makes-if true m n km kn = km refl
    Makes-if false m n km kn = kn refl

    catch_at :
        (handler : Exn → Exec A) (h : History) (p : Result A × History)
        → Extends P h p.1
        → ((e : Exn) → Makes P env (handler e))
        → Extends P h
            (after {A = A} (elim p.0 [ ok a ↦ (ok a, p.1) | raised e ↦ handler e env p.1 ]))
    catch_at handler h (ok a, h') x k = x
    catch_at handler h (raised e, h') x k = Extends-trans P h h' _ x ((k e).at h')

    pub Makes-catch :
        (m : Exec A) (handler : Exn → Exec A)
        → Makes P env m
        → ((e : Exn) → Makes P env (handler e))
        → Makes P env (catch m handler)
    unfolding catch
    Makes-catch m handler km kh = record { at = λ h. catch_at handler h (m env h) (km.at h) kh }

  module _ {A B : Type 0} where
    bind_at :
        (f : A → Exec B) (h : History) (p : Result A × History)
        → Extends P h p.1
        → ((a : A) → p.0 ≡ ok a → Makes P env (f a))
        → Extends P h (after {A = B} (elim p.0 [ ok a ↦ f a env p.1 | raised e ↦ (raised e, p.1) ]))
    bind_at f h (ok a, h') x k = Extends-trans P h h' _ x ((k a refl).at h')
    bind_at f h (raised e, h') x k = x

    -- The rest of the block may use what the first step returned.
    pub Makes-bind_answer :
        (m : Exec A) (f : A → Exec B)
        → Makes P env m
        → ((a : A) → Answers env m a → Makes P env (f a))
        → Makes P env (m >>= f)
    unfolding ◌>>=◌
    Makes-bind_answer m f km kf = record {
      at = λ h. bind_at f h (m env h) (km.at h) (λ a e. kf a (record { history = h; answer = e }));
    }

    pub Makes-bind :
        (m : Exec A) (f : A → Exec B)
        → Makes P env m
        → ((a : A) → Makes P env (f a))
        → Makes P env (m >>= f)
    Makes-bind m f km kf = Makes-bind_answer m f km (λ a _. kf a)

-- Where a block's type is known, `Makes-await` is needed at the answer's type.
module _ {P : Call → Bool} {env : Env} where
  pub Makes-set_progress :
      (s : TaskState) (m : ProgressMeta)
      → P (set_progress s m) ≡ true
      → Makes P env {A = Unit {0}} (await (set_progress s m))
  Makes-set_progress s m p = Makes-await (set_progress s m) p

  pub Makes-redis_set :
      (k v : String) (ttl : ℤ)
      → P (redis_set k v ttl) ≡ true
      → Makes P env {A = Unit {0}} (await (redis_set k v ttl))
  Makes-redis_set k v ttl p = Makes-await (redis_set k v ttl) p

  pub Makes-redis_execute :
      (ops : List RedisOp)
      → P (redis_execute ops) ≡ true
      → Makes P env {A = Unit {0}} (await (redis_execute ops))
  Makes-redis_execute ops p = Makes-await (redis_execute ops) p

  pub Makes-channel_send :
      (id : ℕ) (embed : Embed)
      → P (channel_send id embed) ≡ true
      → Makes P env {A = Unit {0}} (await (channel_send id embed))
  Makes-channel_send id embed p = Makes-await (channel_send id embed) p

  pub Makes-user_send :
      (id : ℕ) (embed : Embed)
      → P (user_send id embed) ≡ true
      → Makes P env {A = Unit {0}} (await (user_send id embed))
  Makes-user_send id embed p = Makes-await (user_send id embed) p

  pub Makes-context_send :
      (embed : Embed) (ephemeral : Bool)
      → P (context_send embed ephemeral) ≡ true
      → Makes P env {A = Unit {0}} (await (context_send embed ephemeral))
  Makes-context_send embed ephemeral p = Makes-await (context_send embed ephemeral) p

  pub Makes-upsert_row :
      (row : GuildSettings)
      → P (upsert_row row) ≡ true
      → Makes P env {A = Unit {0}} (await (upsert_row row))
  Makes-upsert_row row p = Makes-await (upsert_row row) p

  pub Makes-delete_blob :
      (name : String)
      → P (delete_blob name) ≡ true
      → Makes P env {A = Unit {0}} (await (delete_blob name))
  Makes-delete_blob name p = Makes-await (delete_blob name) p

  pub Makes-http_release :
      (url : String)
      → P (http_release url) ≡ true
      → Makes P env {A = Unit {0}} (await (http_release url))
  Makes-http_release url p = Makes-await (http_release url) p

  pub Makes-upload_blob :
      (name type : String)
      → P (upload_blob name type) ≡ true
      → Makes P env {A = String} (await (upload_blob name type))
  Makes-upload_blob name type p = Makes-await (upload_blob name type) p

  pub Makes-generate_blob_sas :
      (name : String) (start : ℕ) (expiry : ℤ) (disposition : Option (List ℕ))
      → P (generate_blob_sas name start expiry disposition) ≡ true
      → Makes P env {A = String} (await (generate_blob_sas name start expiry disposition))
  Makes-generate_blob_sas name start expiry disposition p =
      Makes-await (generate_blob_sas name start expiry disposition) p

  pub Makes-redis_get :
      (k : String) → P (redis_get k) ≡ true → Makes P env {A = Option String} (await (redis_get k))
  Makes-redis_get k p = Makes-await (redis_get k) p

pub ruleset makes_rules = (
  Makes-await, Makes-pure, Makes-raise, Makes-lift, Makes-attempt, Makes-if, Makes-catch,
  Makes-bind, Makes-set_progress, Makes-redis_set, Makes-redis_execute, Makes-channel_send,
  Makes-user_send, Makes-context_send, Makes-upsert_row, Makes-delete_blob, Makes-http_release,
  Makes-upload_blob, Makes-generate_blob_sas, Makes-redis_get,
)
