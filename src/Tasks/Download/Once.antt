-- ===== src/Tasks/Download/Once.antt =====
-- A run that returns: one message, and the key that says so.
use discord_downloader_bot.Prelude.{
  ◌+◌, arith, Option, some, none, ℕ, String, Bool, true, false, ◌≡◌, refl, sym, ap, subst, ◌∙◌, ◌⊎◌,
  inl, inr, [], ◌∷◌, ◌++◌, any, any-append_left, any-append_right, eq_refl,
}
use mathlib.Core.List.{append_assoc}
use discord_downloader_bot.Data.{Embed, GuildSettings, TaskArgs, started, phase_only}
use discord_downloader_bot.World.{
  Result, ok, Call, Event, Env, Exec, History, redis_exists, redis_set, pure, await, ◌>>◌,
  set_progress,
}
use discord_downloader_bot.World.Trace.{
  Extends-trans, Extends-refl, Makes-redis_set, Extends, Makes, Makes-mono, Makes-set_progress,
}
use discord_downloader_bot.World.Count.{count, Counted, Makes-Counted, Counted-bind, count-Extends}
use discord_downloader_bot.Download.Deliver.Once.{dm_user-Counted, post_to_channel-Counted}
use discord_downloader_bot.Tasks.Download.Again.{marks}
use discord_downloader_bot.World.Steps.{>>=-eq-ok, await_bind-eq-ok, await-eq-ok}
use discord_downloader_bot.Keys.{delivered_key}
use discord_downloader_bot.Download.Deliver.Sent.{is_send, is_sent, Sent}
use discord_downloader_bot.Download.Idempotency.{is_delivered, mark_delivered}
use discord_downloader_bot.Tasks.Download.Upload.{Deps, ttl_seconds}
use discord_downloader_bot.Tasks.Download.Calls.{upload_phase-Makes}
use discord_downloader_bot.Tasks.Download.Order.{send_in_mode-Sent}
use discord_downloader_bot.Tasks.Download.Skips.{
  sends_nothing, phase_1_sends_nothing, finish_sends_nothing, settings-Makes_quiet,
  finish-Makes_any,
}
use discord_downloader_bot.Tasks.Download.Pipeline.{
  send_in_mode, DownloadResult, send_result, unless_delivered, task_settings, deliver_phase,
  download_channel_media,
}

send_in_mode-Counted :
    (env : Env) (b : Bool) (c : Option ℕ) (u : ℕ) (embed : Embed)
    → Counted is_send env 0 (send_in_mode b c u embed) (λ _. 1)
send_in_mode-Counted env true (some c) u embed = post_to_channel-Counted env c u embed
send_in_mode-Counted env true none u embed = dm_user-Counted env u embed
send_in_mode-Counted env false c u embed = dm_user-Counted env u embed

-- Between `h` and `h'` a message went out, and the delivered key was written.
abbrev pub Delivers : String → History → History → Type 0
Delivers t h h' =
    (new : History) × (h' ≡ new ++ h) × (any is_sent new ≡ true) × (any (marks t) new ≡ true)

Delivers-before :
    (t : String) (P : Call → Bool) (h h' h'' : History)
    → Extends P h h'
    → Delivers t h' h''
    → Delivers t h h''
Delivers-before t P h h' h'' (xs, ex, _) (ys, ey, s, m) = (
  ys ++ xs,
  ey ∙ ap (◌++◌ ys) ex ∙ sym (append_assoc ys xs h),
  any-append_left is_sent ys xs s,
  any-append_left (marks t) ys xs m,
)

Delivers-after :
    (t : String) (P : Call → Bool) (h h' h'' : History)
    → Delivers t h h'
    → Extends P h' h''
    → Delivers t h h''
Delivers-after t P h h' h'' (xs, ex, s, m) (ys, ey, _) = (
  ys ++ xs,
  ey ∙ ap (◌++◌ ys) ex ∙ sym (append_assoc ys xs h),
  any-append_right is_sent ys xs s,
  any-append_right (marks t) ys xs m,
)

-- Where a coroutine ended, from what it makes.
ended :
    {P : Call → Bool} {env : Env} {A : Type 0} (m : Exec A) (h h' : History) (r : Result A)
    → Makes P env m
    → m env h ≡ (r, h')
    → Extends P h h'
ended {P} m h h' r made e = subst (λ (k : History). Extends P h k) (ap (λ p. p.1) e) (made.at h)

module _ (t : String) (env : Env) (args : TaskArgs) (url : String) (settings : GuildSettings) where
  -- A send and a mark that both return.
  send_mark-Delivers :
      (h h' : History)
      → (send_result url args settings >> mark_delivered t (ttl_seconds settings)) env h
        ≡ (ok tt, h')
      → Delivers t h h'
  unfolding send_result mark_delivered
  send_mark-Delivers h h' e =
      let (_, k, e₁, e₂) = >>=-eq-ok _ _ env h e in
      let (xs, ex, s) =
        subst (λ (p : Result (Unit {0}) × History). Sent h p.1) e₁
          (send_in_mode-Sent t env h _ _ _ _ (ap (λ p. p.0) e₁)) in
      let (_, end) =
        await-eq-ok (redis_set (delivered_key t) "1" (ttl_seconds settings)) env k h' tt e₂ in
      let mark : Event = record {
        call = redis_set (delivered_key t) "1" (ttl_seconds settings);
        returned = true;
      } in
      (
        mark ∷ xs,
        end ∙ ap (λ (l : History). mark ∷ l) ex,
        any-append_right is_sent (mark ∷ []) xs s,
        rw (eq_refl (delivered_key t)) refl,
      )

  -- The sends are counted.
  undelivered-Counted :
      Counted is_send env 0 {A = Unit {0}} (unless_delivered t url args settings false) (λ _. 1)
  unfolding send_result mark_delivered
  undelivered-Counted =
      Counted-bind 0 (await (set_progress started (phase_only "deliver"))) _ (λ _. 0) (λ _. 1)
        (Makes-Counted 0 _ (Makes-set_progress _ _ refl))
        λ _.
          Counted-bind 0 _ _ (λ _. 1) (λ _. 1) (send_in_mode-Counted env _ _ _ _)
            λ _. Makes-Counted 1 _ (Makes-redis_set _ _ _ refl)

  undelivered-Delivers :
      (h h' : History)
      → unless_delivered t url args settings false env h ≡ (ok tt, h')
      → Delivers t h h'
  undelivered-Delivers h h' e =
      let (_, _, rest) = await_bind-eq-ok (set_progress started (phase_only "deliver")) _ env h e in
      Delivers-before t (λ _. true) h _ h'
        (
          record { call = set_progress started (phase_only "deliver"); returned = true } ∷ [],
          refl,
          (refl, tt),
        )
        (send_mark-Delivers _ h' rest)

-- One message more, with the key written; or none, where Redis told that the key is there.
abbrev pub DeliversOnce : Env → String → History → History → Type 0
DeliversOnce env t h h' =
    (Delivers t h h' × (count is_send h' ≡ 1 + count is_send h))
    ⊎ (((k : History) × (env k (redis_exists (delivered_key t)) ≡ ok true))
        × (count is_send h' ≡ count is_send h))

-- A stretch that sends nothing, before and after.
DeliversOnce-between :
    (env : Env) (t : String) (h k k' h' : History)
    → Extends sends_nothing h k
    → DeliversOnce env t k k'
    → Extends sends_nothing k' h'
    → DeliversOnce env t h h'
DeliversOnce-between env t h k k' h' x (inl (d, n)) y = inl (
  Delivers-before t sends_nothing h k h' x (Delivers-after t sends_nothing k k' h' d y),
  omega (arith, count-Extends is_send h k x, count-Extends is_send k' h' y, n),
)
DeliversOnce-between env t h k k' h' x (inr (told, n)) y =
    inr (told, omega (arith, count-Extends is_send h k x, count-Extends is_send k' h' y, n))

module _ (t : String) (env : Env) (args : TaskArgs) (url : String) (settings : GuildSettings) where
  deliver_phase-DeliversOnce :
      (h h' : History)
      → deliver_phase t url args settings env h ≡ (ok tt, h')
      → DeliversOnce env t h h'
  unfolding deliver_phase is_delivered pure
  deliver_phase-DeliversOnce h h' e =
      let (d, told, rest) = await_bind-eq-ok (redis_exists (delivered_key t)) _ env h e in
      DeliversOnce-between env t h (asked ∷ h) h' h' (asked ∷ [], refl, (refl, tt))
        (when d told rest) (Extends-refl sends_nothing h')
    where
      asked : Event
      asked = record { call = redis_exists (delivered_key t); returned = true }

      when :
          (d : Bool)
          → env h (redis_exists (delivered_key t)) ≡ ok d
          → unless_delivered t url args settings d env (asked ∷ h) ≡ (ok tt, h')
          → DeliversOnce env t (asked ∷ h) h'
      when true told rest = inr ((h, told), ap (count is_send) (sym (ap (λ p. p.1) rest)))
      when false told rest = inl (
        undelivered-Delivers t env args url settings (asked ∷ h) h' rest,
        omega (arith, (undelivered-Counted t env args url settings).at (asked ∷ h) h' tt rest),
      )

module _ (t : String) (env : Env) (args : TaskArgs) (deps : Deps) where
  -- A run of the task that returns has sent exactly one message and has written the delivered key of
  -- its task, or it has sent none, and Redis has told it that the key is there.
  pub returned_run_has_delivered :
      (h h' : History) (r : DownloadResult)
      → download_channel_media deps t args env h ≡ (ok r, h')
      → DeliversOnce env t h h'
  unfolding download_channel_media task_settings
  returned_run_has_delivered h h' r e =
      let (_, h₁, e₁, k₁) = >>=-eq-ok _ _ env h e in
      let (settings, h₂, e₂, k₂) = >>=-eq-ok _ _ env h₁ k₁ in
      let (url, h₃, e₃, k₃) = >>=-eq-ok _ _ env h₂ k₂ in
      let (_, h₄, e₄, k₄) = >>=-eq-ok _ _ env h₃ k₃ in
      let x₁ = ended _ h h₁ _ (Makes-set_progress {P = sends_nothing} _ _ refl) e₁ in
      let x₂ = ended _ h₁ h₂ _ (settings-Makes_quiet t env args args.guild_id args.dm_me) e₂ in
      let x₃ =
        ended _ h₂ h₃ _
          (Makes-mono sends_nothing _ (phase_1_sends_nothing t)
            (upload_phase-Makes env deps t args settings))
          e₃ in
      let x₄ =
        ended _ h₄ h' _
          (finish-Makes_any t env args sends_nothing url settings finish_sends_nothing) k₄ in
      DeliversOnce-between env t h h₃ h₄ h'
        (Extends-trans sends_nothing h h₁ h₃ x₁ (Extends-trans sends_nothing h₁ h₂ h₃ x₂ x₃))
        (deliver_phase-DeliversOnce t env args url settings h₃ h₄ e₄) x₄
