-- ===== src/Cogs/Jobs/Rights.antt =====
-- Who may see and cancel a job, and what the job commands may change.
use discord_downloader_bot.Prelude.{
  ℕ, String, Bool, true, false, ◌≡◌, refl, ap, subst, ◌∙◌, Option, none, some, ◌==◌, arith,
  if◌then◌else◌,
}
use discord_downloader_bot.Data.{JobMeta}
use discord_downloader_bot.World.{
  ok, Env, History, is_bot_owner, redis_get_meta, ◌>>=◌, pure, await,
}
use discord_downloader_bot.World.Steps.{ok-injective, >>=-eq-ok, await_bind-eq-ok}
use discord_downloader_bot.Keys.{meta_key}
use discord_downloader_bot.Download.Jobs.{get_job_meta}
use discord_downloader_bot.Cogs.Context.{Guild, Context}
use discord_downloader_bot.Cogs.Jobs.Access.{
  owns_guild, can_act_on, target, authorised, with_target, resolve_job,
}

-- The caller asked for the job, or is the bot's owner, as Discord said at some time, or owns the guild
-- in which the job was asked for and the command is called.
pub data MayAct (c : Context) (meta : JobMeta) (env : Env) : Type 0 where
  requester : meta.owner_user_id ≡ c.author_id → MayAct c meta env
  bot_owner : (h : History) → env h (is_bot_owner c.author_id) ≡ ok true → MayAct c meta env
  guild_owner :
      (g : Guild)
      → c.guild ≡ some g
      → meta.guild_id ≡ some g.id
      → c.author_id ≡ g.owner_id
      → MayAct c meta env

module _ (c : Context) (env : Env) where
  owns_guild_lem :
      (meta : JobMeta) (o : Option Guild) (id : Option ℕ)
      → c.guild ≡ o
      → meta.guild_id ≡ id
      → owns_guild c o id ≡ true
      → MayAct c meta env
  owns_guild_lem meta none id e k q = cc
  owns_guild_lem meta (some g) none e k q = cc
  owns_guild_lem meta (some g) (some id) e k q =
      guild_owner g e (ground (arith, k, q)) (ground (arith, q))

  asked :
      (meta : JobMeta) (h : History) (b : Bool)
      → env h (is_bot_owner c.author_id) ≡ ok b
      → (if b then true else owns_guild c c.guild meta.guild_id) ≡ true
      → MayAct c meta env
  asked meta h true e q = bot_owner h e
  asked meta h false e q = owns_guild_lem meta c.guild meta.guild_id refl refl q

  can_act_on-MayAct :
      (meta : JobMeta) (h h' : History)
      → can_act_on c meta env h ≡ (ok true, h')
      → MayAct c meta env
  unfolding can_act_on pure
  can_act_on-MayAct meta h h' e = split (meta.owner_user_id == c.author_id) refl e
    where
      split :
          (b : Bool)
          → (meta.owner_user_id == c.author_id) ≡ b
          → (if b then pure true else (do
            of_bot ← await (is_bot_owner c.author_id)
            pure (if of_bot then true else owns_guild c c.guild meta.guild_id)))
              env h
            ≡ (ok true, h')
          → MayAct c meta env
      split true q r = requester (ground (arith, q))
      split false q r =
          let (b, told, rest) = await_bind-eq-ok (is_bot_owner c.author_id) _ env h r in
          asked meta h b told (ok-injective (ap (λ p. p.0) rest))

  authorised_lem :
      (t t' : String) (o : Option JobMeta) (meta : JobMeta) (h h' : History)
      → authorised c t o env h ≡ (ok (some (t', meta)), h')
      → (o ≡ some meta) × (t ≡ t') × MayAct c meta env
  unfolding pure
  authorised_lem t t' none meta h h' e = cc
  authorised_lem t t' (some m) meta h h' e =
      let (b, k, e₁, e₂) = >>=-eq-ok (can_act_on c m) _ env h e in
      split b k e₁ (ok-injective (ap (λ p. p.0) e₂))
    where
      split :
          (b : Bool) (k : History)
          → can_act_on c m env h ≡ (ok b, k)
          → ◌≡◌ {A = Option (String × JobMeta)} (if b then some (t, m) else none) (some (t', meta))
          → (some m ≡ some meta) × (t ≡ t') × MayAct c meta env
      split true k e₁ q =
          let same : m ≡ meta = cc in
          (
            ap some same,
            cc,
            subst (λ (x : JobMeta). MayAct c x env) same (can_act_on-MayAct m h k e₁),
          )
      split false k e₁ q = cc

  -- A job that the commands find is the one they look for, with the record that Redis answered.
  pub found_at :
      (asked_for : Option String) (t : String) (meta : JobMeta) (h h' : History)
      → resolve_job c asked_for env h ≡ (ok (some (t, meta)), h')
      → (k : History) × (target c asked_for env h ≡ (ok (some t), k))
        × (env k (redis_get_meta (meta_key t)) ≡ ok (some meta))
        × MayAct c meta env
  unfolding resolve_job get_job_meta pure
  found_at asked_for t meta h h' e =
      let (found, k, e₁, e₂) = >>=-eq-ok (target c asked_for) _ env h e in with_job found k e₁ e₂
    where
      with_job :
          (found : Option String) (k : History)
          → target c asked_for env h ≡ (ok found, k)
          → with_target c found env k ≡ (ok (some (t, meta)), h')
          → (k : History) × (target c asked_for env h ≡ (ok (some t), k))
            × (env k (redis_get_meta (meta_key t)) ≡ ok (some meta))
            × MayAct c meta env
      with_job none k e₁ e₂ = cc
      with_job (some t') k e₁ e₂ =
          let (o, stored, e₃) = await_bind-eq-ok (redis_get_meta (meta_key t')) _ env k e₂ in
          let (same, same_id, may) = authorised_lem t' t o meta _ h' e₃ in
          (
            k,
            subst (λ (x : String). target c asked_for env h ≡ (ok (some x), k)) same_id e₁,
            subst (λ (x : String). env k (redis_get_meta (meta_key x)) ≡ ok (some meta)) same_id
                (stored ∙ ap (λ (x : Option JobMeta). ok x) same),
            may,
          )

  -- A job that the commands find is one whose record Redis answered under the key of the task, and the
  -- caller asked for it, or is the bot's owner, or owns the guild of the job and calls the command there.
  pub found_job_is_authorised :
      (asked_for : Option String) (t : String) (meta : JobMeta) (h h' : History)
      → resolve_job c asked_for env h ≡ (ok (some (t, meta)), h')
      → ((k : History) × (env k (redis_get_meta (meta_key t)) ≡ ok (some meta))) × MayAct c meta env
  found_job_is_authorised asked_for t meta h h' e =
      let (k, _, stored, may) = found_at asked_for t meta h h' e in ((k, stored), may)
