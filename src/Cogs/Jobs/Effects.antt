-- ===== src/Cogs/Jobs/Effects.antt =====
-- What the job commands may change.
use discord_downloader_bot.Prelude.{
  ℕ, String, Bool, true, false, ◌≡◌, ◌≢◌, refl, Bool-cases, inl, inr, Option, none, some, arith,
}
use discord_downloader_bot.Data.{JobMeta, ProgressMeta, Stamp, iso, unreadable}
use discord_downloader_bot.Embeds.{Age}
use discord_downloader_bot.World.{
  ok, History, await, Call, Env, is_bot_owner, redis_get_meta, redis_latest, defer, context_send,
  is_cancelled, is_ready, get_progress, datetime_now, cancel as cancel_call,
}
use discord_downloader_bot.World.Trace.{
  Makes, Makes-mono, Makes-if, Makes-bind, Makes-bind_answer, Answers, Makes-await, Makes-pure,
  Makes-context_send,
}
use discord_downloader_bot.Cogs.Context.{Context, Bot}
use discord_downloader_bot.Cogs.Jobs.Access.{resolve_job}
use discord_downloader_bot.Cogs.Jobs.Privacy.{looks_up, resolve_job-Makes}
use discord_downloader_bot.Cogs.Jobs.Status.{
  show_progress, heartbeat, on_progress, show_job, status,
}
use discord_downloader_bot.Cogs.Jobs.Status
use discord_downloader_bot.Cogs.Jobs.Cancel.{refund_eligible, cancel_job}

-- The calls that change nothing but what the user sees.
abbrev pub only_reads : Call → Bool
only_reads (defer _) = true
only_reads (context_send _ _) = true
only_reads (redis_latest _) = true
only_reads (redis_get_meta _) = true
only_reads (is_bot_owner _) = true
only_reads (is_cancelled _) = true
only_reads (is_ready _) = true
only_reads (get_progress _) = true
only_reads datetime_now = true
only_reads call = false

-- The same, and the request to cancel.
abbrev pub reads_or_cancels : Call → Bool
reads_or_cancels (cancel_call _) = true
reads_or_cancels call = only_reads call

reads_reads : (call : Call) → only_reads call ≡ true → reads_or_cancels call ≡ true
reads_reads (cancel_call _) e = refl
reads_reads call e = e

looks_up_reads : (call : Call) → looks_up call ≡ true → only_reads call ≡ true
looks_up_reads (redis_latest _) e = refl
looks_up_reads (redis_get_meta _) e = refl
looks_up_reads (is_bot_owner _) e = refl
looks_up_reads call e = ground arith

module _ (env : Env) where
  -- Why the token of a job is not given back: it took none, it has ended, or a worker has begun it.
  pub data KeepsToken (t : String) (meta : JobMeta) : Type 0 where
    free : meta.enqueue_consumed_token ≡ false → KeepsToken t meta
    finished : ((h : History) → env h (is_ready t) ≢ ok false) → KeepsToken t meta
    begun : ((h : History) → env h (get_progress t) ≢ ok none) → KeepsToken t meta

  resolve_job-reads :
      (c : Context) (asked_for : Option String) → Makes only_reads env (resolve_job c asked_for)
  resolve_job-reads c asked_for =
      Makes-mono only_reads _ looks_up_reads (resolve_job-Makes env c asked_for)

  show_progress-Makes :
      (t : String) (meta : JobMeta) (p : ProgressMeta)
      → Makes only_reads env (show_progress t meta p)
  unfolding show_progress
  show_progress-Makes t meta p =
      Makes-bind {A = Option Age} _ _ (age p.updated_at) λ a. Makes-context_send _ _ refl
    where
      age : (o : Option Stamp) → Makes only_reads env (heartbeat o)
      age none = Makes-pure _
      age (some (iso ts)) =
          Makes-bind {A = ℕ} _ _ (Makes-await datetime_now refl) λ now. Makes-pure _
      age (some (unreadable s)) = Makes-pure _

  show_job-Makes : (t : String) (meta : JobMeta) → Makes only_reads env (show_job t meta)
  unfolding show_job
  show_job-Makes t meta = Makes-bind {A = Bool} _ _ (Makes-await (is_cancelled t) refl) λ cancelled.
      Makes-if cancelled _ _ (λ _. Makes-context_send _ _ refl)
        λ _. Makes-bind {A = Bool} _ _ (Makes-await (is_ready t) refl) λ ready.
          Makes-if ready _ _ (λ _. Makes-context_send _ _ refl)
            λ _.
              Makes-bind {A = Option (Option ProgressMeta)} _ _ (Makes-await (get_progress t) refl)
                shown
    where
      shown : (o : Option (Option ProgressMeta)) → Makes only_reads env (on_progress t meta o)
      shown none = Makes-context_send _ _ refl
      shown (some none) = show_progress-Makes t meta _
      shown (some (some p)) = show_progress-Makes t meta p

  -- `/status` changes nothing: it reads Redis and the result backend, and answers the user.
  pub status_only_reads :
      (c : Context) (asked_for : Option String) → Makes only_reads env (status c asked_for)
  unfolding status
  status_only_reads c asked_for =
      Makes-bind {A = Unit {0}} _ _ (Makes-await (defer true) refl)
        λ _. Makes-bind {A = Option (String × JobMeta)} _ _ (resolve_job-reads c asked_for) shown
    where
      shown :
          (o : Option (String × JobMeta)) → Makes only_reads env (Status.on_resolved asked_for o)
      shown none = Makes-context_send _ _ refl
      shown (some (t, meta)) = show_job-Makes t meta

  not_eligible :
      (t : String) (meta : JobMeta) (ready : Bool) (p : Option (Option ProgressMeta))
      → KeepsToken t meta
      → Answers env (await (is_ready t)) ready
      → Answers env (await (get_progress t)) p
      → refund_eligible meta ready p ≡ false
  unfolding refund_eligible await
  not_eligible t meta ready p (free e) r q = rw e refl
  not_eligible t meta true p (finished k) r q = elim (Bool-cases meta.enqueue_consumed_token) [
    | inl e ↦ rw e refl
    | inr e ↦ rw e refl
  ]
  not_eligible t meta false p (finished k) r q = absurd (k r.history r.answer)
  not_eligible t meta ready none (begun k) r q = absurd (k q.history q.answer)
  not_eligible t meta ready (some p) (begun k) r q = ground arith

  -- The cancellation of a job that took no token, or that has ended, or that a worker has begun, gives
  -- no token back: it asks for the cancellation, reads, and answers the user, and touches no bucket.
  pub no_refund_once_begun :
      (bot : Bot) (t : String) (meta : JobMeta)
      → KeepsToken t meta
      → Makes reads_or_cancels env (cancel_job bot t meta)
  unfolding cancel_job
  no_refund_once_begun bot t meta keeps =
      Makes-bind {A = Unit {0}} _ _ (Makes-await (cancel_call t) refl) λ _.
        Makes-bind_answer {A = Bool} _ _ (Makes-await (is_ready t) refl) λ ready told.
          Makes-bind_answer {A = Option (Option ProgressMeta)} _ _
            (Makes-await (get_progress t) refl)
            λ p seen.
              Makes-bind {A = Unit {0}} _ _
                (rw (not_eligible t meta ready p keeps told seen) (Makes-pure tt))
                λ _. Makes-context_send _ _ refl
