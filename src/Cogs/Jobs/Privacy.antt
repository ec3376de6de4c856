-- ===== src/Cogs/Jobs/Privacy.antt =====
-- What the job commands show to a caller who may act on no job.
use discord_downloader_bot.Prelude.{
  String, Bool, true, false, ◌&&◌, ◌≡◌, refl, ap, Option, none, some, ◌==◌,
}
use discord_downloader_bot.Data.{JobMeta}
use discord_downloader_bot.World.{
  ok, await, Call, Env, History, after, is_bot_owner, redis_get_meta, redis_latest, defer,
  context_send,
}
use discord_downloader_bot.World.Trace.{
  Makes, Makes-mono, Makes-if, Makes-bind, Makes-bind_answer, Answers, Makes-await, Makes-pure,
  Makes-context_send,
}
use discord_downloader_bot.Embeds
use discord_downloader_bot.Embeds.Same.{same_embed, embed-same}
use discord_downloader_bot.Keys.{meta_key}
use discord_downloader_bot.Download.Jobs.{get_job_meta, latest_job_for_user}
use discord_downloader_bot.Cogs.Context.{Context, Bot}
use discord_downloader_bot.Cogs.Jobs.Access.{
  can_act_on, target, authorised, with_target, resolve_job,
}
use discord_downloader_bot.Cogs.Jobs.Rights.{MayAct, found_job_is_authorised}
use discord_downloader_bot.Cogs.Jobs.Status
use discord_downloader_bot.Cogs.Jobs.Cancel

-- The calls by which a job is looked up.
abbrev pub looks_up : Call → Bool
looks_up (redis_latest _) = true
looks_up (redis_get_meta _) = true
looks_up (is_bot_owner _) = true
looks_up call = false

-- The same, and the reply that there is no such job, to the caller alone.
abbrev pub refuses : Option String → Call → Bool
refuses asked_for (defer ephemeral) = ephemeral
refuses asked_for (context_send embed ephemeral) =
    same_embed embed (Embeds.job_not_found asked_for) && ephemeral
refuses asked_for call = looks_up call

looks_up-refuses :
    (asked_for : Option String) (call : Call) → looks_up call ≡ true → refuses asked_for call ≡ true
looks_up-refuses asked_for (redis_latest _) e = refl
looks_up-refuses asked_for (redis_get_meta _) e = refl
looks_up-refuses asked_for (is_bot_owner _) e = refl
looks_up-refuses asked_for (defer _) e = cc
looks_up-refuses asked_for (context_send _ _) e = cc
looks_up-refuses asked_for call e = e

-- No record that Redis holds is of a job that the caller may act on.
abbrev pub HasNoRights : Context → Env → Type 0
HasNoRights c env =
    (t : String) (meta : JobMeta) (k : History)
    → env k (redis_get_meta (meta_key t)) ≡ ok (some meta)
    → ¬ MayAct c meta env

module _ (env : Env) (c : Context) where
  pub resolve_job-Makes : (asked_for : Option String) → Makes looks_up env (resolve_job c asked_for)
  unfolding resolve_job target can_act_on get_job_meta latest_job_for_user
  resolve_job-Makes asked_for = Makes-bind {A = Option String} _ _ (target_Makes asked_for) with_job
    where
      target_Makes : (o : Option String) → Makes looks_up env (target c o)
      target_Makes none = Makes-await (redis_latest _) refl
      target_Makes (some t) = Makes-pure _

      with_meta : (t : String) (o : Option JobMeta) → Makes looks_up env (authorised c t o)
      with_meta t none = Makes-pure _
      with_meta t (some meta) =
          Makes-bind {A = Bool} _ _
            (Makes-if (meta.owner_user_id == c.author_id) _ _ (λ _. Makes-pure true)
              λ _. Makes-bind {A = Bool} _ _ (Makes-await (is_bot_owner _) refl) λ b. Makes-pure _)
            λ may. Makes-pure _

      with_job : (o : Option String) → Makes looks_up env (with_target c o)
      with_job none = Makes-pure _
      with_job (some t) =
          Makes-bind {A = Option JobMeta} _ _ (Makes-await (redis_get_meta _) refl)
            λ o. with_meta t o

  module _ (asked_for : Option String) (no_rights : HasNoRights c env) where
    -- Such a caller finds no job.
    finds_none :
        (t : String) (meta : JobMeta) → ¬ Answers env (resolve_job c asked_for) (some (t, meta))
    finds_none t meta answers =
        let ((k, stored), may) =
          found_job_is_authorised c env asked_for t meta answers.history _
            (ap (λ r. (r, after (resolve_job c asked_for env answers.history))) answers.answer) in
        no_rights t meta k stored may

    not_found-Makes :
        Makes
          (refuses asked_for)
          env
          {A = Unit {0}}
          (await (context_send (Embeds.job_not_found asked_for) true))
    not_found-Makes = Makes-context_send _ _ (rw (embed-same (Embeds.job_not_found asked_for)) refl)

    -- To a caller who may act on no job that Redis holds, `/status` and `/cancel` only look the job up and
    -- answer, to them alone, with the one message for what they asked, whether the job is missing or
    -- another's: the same title, description, colour, fields and footer.
    pub refused_learns_nothing :
        (bot : Bot)
        → Makes (refuses asked_for) env (Status.status c asked_for)
          × Makes (refuses asked_for) env (Cancel.cancel bot c asked_for)
    unfolding Status.status Cancel.cancel
    refused_learns_nothing bot = (
      Makes-bind _ _ (Makes-await (defer true) refl)
          λ _. Makes-bind_answer {A = Option (String × JobMeta)} _ _ looked shown,
      Makes-bind _ _ (Makes-await (defer true) refl)
          λ _. Makes-bind_answer {A = Option (String × JobMeta)} _ _ looked cancelled,
    )
      where
        looked : Makes (refuses asked_for) env (resolve_job c asked_for)
        looked =
            Makes-mono (refuses asked_for) _ (looks_up-refuses asked_for)
              (resolve_job-Makes asked_for)

        shown :
            (o : Option (String × JobMeta))
            → Answers env (resolve_job c asked_for) o
            → Makes (refuses asked_for) env (Status.on_resolved asked_for o)
        shown none answers = not_found-Makes
        shown (some (t, meta)) answers = elim (finds_none t meta answers) [ ]

        cancelled :
            (o : Option (String × JobMeta))
            → Answers env (resolve_job c asked_for) o
            → Makes (refuses asked_for) env (Cancel.on_resolved bot asked_for o)
        cancelled none answers = not_found-Makes
        cancelled (some (t, meta)) answers = elim (finds_none t meta answers) [ ]
