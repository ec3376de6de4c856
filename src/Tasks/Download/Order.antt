-- ===== src/Tasks/Download/Order.antt =====
-- The order of a run of `download_channel_media`: when a task counts as delivered, and what comes first.
use discord_downloader_bot.Prelude.{
  ℕ, String, Bool, true, false, not, ◌&&◌, ◌≡◌, refl, ap, ◌∙◌, sym, Option, none, some, [], ◌∷◌,
  ◌++◌, any, arith, text_eq, eq_iff, Bool-cases, inl, inr,
}
use mathlib.Core.List.{append_assoc, append_cancel_right}
use discord_downloader_bot.Int.{ℤ}
use discord_downloader_bot.Data.{GuildSettings, TaskArgs, Embed}
use discord_downloader_bot.World.{
  Result, ok, raised, Call, Event, Env, Exec, History, after, redis_exists, redis_set, fetch_row,
  ◌>>=◌, ◌>>◌, is_ok,
}
use discord_downloader_bot.World.Trace.{
  Are, Are-mono, Extends, Makes, Makes-mono, Makes-bind, Makes-await, Makes-pure, Makes-catch,
  Makes-set_progress, Makes-redis_execute,
}
use discord_downloader_bot.Keys.{archive_url_key, delivered_key}
use discord_downloader_bot.Keys.Distinct.{archive-ne-delivered}
use discord_downloader_bot.Download.Deliver.Calls.{is_delivery}
use discord_downloader_bot.Download.Deliver.Sent.{
  is_send, is_sent, Sent, any-append, dm_user-Sent, post_to_channel-Sent,
}
use discord_downloader_bot.Download.Idempotency.{is_delivered, mark_delivered}
use discord_downloader_bot.Download.Jobs.{forget_job}
use discord_downloader_bot.Db.GuildSettings.{get}
use discord_downloader_bot.Tasks.Download.Upload.{Deps}
use discord_downloader_bot.Tasks.Download.Calls.{is_phase_1, upload_phase-Makes}
use discord_downloader_bot.Tasks.Download.Retry.{send_in_mode-Makes, ignored-Makes}
use discord_downloader_bot.Tasks.Download.Pipeline.{
  settings_for, task_settings, send_in_mode, send_result, unless_delivered, deliver_phase, finish,
  download_channel_media,
}

-- The write that makes the task `t` count as delivered.
abbrev pub is_mark : String → Call → Bool
is_mark t (redis_set k _ _) = text_eq k (delivered_key t)
is_mark t _ = false

-- Every mark has a message before it that went out.
abbrev pub MarksFollowSends : String → History → Type 0
MarksFollowSends t [] = Unit
MarksFollowSends t (e ∷ es) =
    (is_mark t e.call ≡ true → any is_sent es ≡ true) × MarksFollowSends t es

-- The calls that neither mark nor send.
abbrev pub is_quiet : String → Call → Bool
is_quiet t c = not (is_mark t c) && not (is_send c)

MarksFollowSends-quiet :
    (t : String) (xs : History) → Are (λ c. not (is_mark t c)) xs → MarksFollowSends t xs
MarksFollowSends-quiet t [] h = tt
MarksFollowSends-quiet t (x ∷ xs) h = (λ m. ground (arith, h.0), MarksFollowSends-quiet t xs h.1)

MarksFollowSends-append :
    (t : String) (xs ys : History)
    → MarksFollowSends t xs
    → MarksFollowSends t ys
    → MarksFollowSends t (xs ++ ys)
MarksFollowSends-append t [] ys hx hy = hy
MarksFollowSends-append t (x ∷ xs) ys hx hy =
    (λ m. any-append xs ys (hx.0 m), MarksFollowSends-append t xs ys hx.1 hy)

-- A coroutine whose marks follow its own sends.
record Orders (t : String) (env : Env) {A : Type 0} (m : Exec A) : Type 0 where
  at : (h : History) → (new : History) × (after (m env h) ≡ new ++ h) × MarksFollowSends t new

phase_1_no_mark : (t : String) (c : Call) → is_phase_1 t c ≡ true → not (is_mark t c) ≡ true
phase_1_no_mark t (redis_set k _ _) h = elim (Bool-cases (text_eq k (delivered_key t))) [
  | inl e ↦ absurd (
      archive-ne-delivered t t
        (sym ((eq_iff k (archive_url_key t)).0 h) ∙ (eq_iff k (delivered_key t)).0 e))
  | inr e ↦ rw e
]
phase_1_no_mark t c h = refl

delivery_no_mark : (t : String) (c : Call) → is_delivery c ≡ true → not (is_mark t c) ≡ true
delivery_no_mark t (redis_set k _ _) h = cc
delivery_no_mark t c h = refl

module _ (t : String) (env : Env) where
  Orders-quiet : {A : Type 0} (m : Exec A) → Makes (λ c. not (is_mark t c)) env m → Orders t env m
  Orders-quiet m made = record {
    at = λ h. let (new, e, q) = made.at h in (new, e, MarksFollowSends-quiet t new q);
  }

  Orders-bind :
      {A B : Type 0} (m : Exec A) (f : A → Exec B)
      → Orders t env m
      → ((a : A) → Orders t env (f a))
      → Orders t env (m >>= f)
  unfolding ◌>>=◌
  Orders-bind {A} {B} m f om of = record { at = λ h. split h (m env h) (om.at h) }
    where
      split :
          (h : History) (p : Result A × History)
          → ((new : History) × (p.1 ≡ new ++ h) × MarksFollowSends t new)
          → (new : History) × (after {A = B}
                (elim p.0 [ ok a ↦ f a env p.1 | raised x ↦ (raised x, p.1) ])
              ≡ new ++ h)
            × MarksFollowSends t new
      split h (ok a, h') (xs, e, q) =
          let (ys, e', q') = (of a).at h' in
          (
            ys ++ xs,
            e' ∙ ap (◌++◌ ys) e ∙ sym (append_assoc ys xs h),
            MarksFollowSends-append t ys xs q' q,
          )
      split h (raised x, h') (xs, e, q) = (xs, e, q)

  pub send_in_mode-Sent :
      (h : History) (in_channel : Bool) (channel : Option ℕ) (u : ℕ) (embed : Embed)
      → (send_in_mode in_channel channel u embed env h).0 ≡ ok tt
      → Sent h (send_in_mode in_channel channel u embed env h).1
  send_in_mode-Sent h true (some c) u embed e = post_to_channel-Sent env h c u embed e
  send_in_mode-Sent h true none u embed e = dm_user-Sent env h u embed e
  send_in_mode-Sent h false c u embed e = dm_user-Sent env h u embed e

  Orders-send_mark :
      (send : Exec (Unit {0})) (ttl : ℤ)
      → Makes is_delivery env send
      → ((h : History) → (send env h).0 ≡ ok tt → Sent h (send env h).1)
      → Orders t env (send >> mark_delivered t ttl)
  unfolding ◌>>=◌ mark_delivered
  Orders-send_mark send ttl made sends = record {
    at = λ h. split h (send env h) (made.at h) (sends h);
  }
    where
      split :
          (h : History) (p : Result (Unit {0}) × History)
          → Extends is_delivery h p.1
          → (p.0 ≡ ok tt → Sent h p.1)
          → (new : History) × (after {A = Unit {0}}
                (elim p.0 [ ok a ↦ mark_delivered t ttl env p.1 | raised x ↦ (raised x, p.1) ])
              ≡ new ++ h)
            × MarksFollowSends t new
      split h (ok u, h') (xs, e, q) sent =
          let (ys, e', s) = sent refl in
          let same = append_cancel_right ys xs h (sym e' ∙ e) in
          let mark : Event = record {
            call = redis_set (delivered_key t) "1" ttl;
            returned = is_ok (env h' (redis_set (delivered_key t) "1" ttl));
          } in
          (
            mark ∷ xs,
            ap (λ (l : History). mark ∷ l) e,
            (
              λ m. ap (any is_sent) (sym same) ∙ s,
              MarksFollowSends-quiet t xs
                  (Are-mono is_delivery (λ c. not (is_mark t c)) xs (delivery_no_mark t) q),
            ),
          )
      split h (raised x, h') (xs, e, q) sent = (
        xs,
        e,
        MarksFollowSends-quiet t xs
            (Are-mono is_delivery (λ c. not (is_mark t c)) xs (delivery_no_mark t) q),
      )

  module _ (args : TaskArgs) where
    deliver_phase-Orders :
        (url : String) (settings : GuildSettings) → Orders t env (deliver_phase t url args settings)
    unfolding deliver_phase is_delivered send_result
    deliver_phase-Orders url settings =
        Orders-bind _ _ (Orders-quiet {A = Bool} _ (Makes-await (redis_exists _) refl))
          λ delivered. when delivered
      where
        when : (delivered : Bool) → Orders t env (unless_delivered t url args settings delivered)
        when true = Orders-quiet _ (Makes-pure tt)
        when false = Orders-bind _ _ (Orders-quiet _ (Makes-set_progress _ _ refl)) λ _.
            Orders-send_mark _ _ (send_in_mode-Makes env _ _ _ _) (λ h. send_in_mode-Sent h _ _ _ _)

    finish-Orders :
        (url : String) (settings : GuildSettings) → Orders t env (finish t url args settings)
    unfolding finish forget_job
    finish-Orders url settings = Orders-quiet _ (
        Makes-bind _ _ (Makes-set_progress _ _ refl) λ _.
          Makes-bind _ _ (Makes-catch _ _ (Makes-redis_execute _ refl) (ignored-Makes _ env))
            λ _. Makes-pure _)

    settings-Orders : Orders t env (task_settings args)
    unfolding task_settings get
    settings-Orders = Orders-quiet _ (go args.guild_id args.dm_me)
      where
        go :
            (g : Option ℕ) (dm_me : Bool)
            → Makes (λ c. not (is_mark t c)) env (settings_for g dm_me)
        go none dm_me = Makes-pure _
        go (some g) true = Makes-pure _
        go (some g) false =
            Makes-bind {A = Option GuildSettings} _ _ (Makes-await (fetch_row g) refl)
              (λ row. Makes-pure _)

    run-Orders : (deps : Deps) → Orders t env (download_channel_media deps t args)
    unfolding download_channel_media
    run-Orders deps = Orders-bind _ _ (Orders-quiet _ (Makes-set_progress _ _ refl)) λ _.
        Orders-bind _ _ settings-Orders λ settings.
          Orders-bind _ _
            (Orders-quiet _
              (Makes-mono _ _ (phase_1_no_mark t) (upload_phase-Makes env deps t args settings)))
            λ url.
              Orders-bind _ _ (deliver_phase-Orders url settings) λ _. finish-Orders url settings

    -- Whatever the services answer or raise, a run writes the delivered key of its task only after a
    -- message of the run went out: every such write among the calls of the run has, before it, a direct
    -- message or a post in a channel that returned.
    pub marks_follow_sends :
        (deps : Deps) (h : History)
        → (new : History) × (after (download_channel_media deps t args env h) ≡ new ++ h)
          × MarksFollowSends t new
    marks_follow_sends deps h = (run-Orders deps).at h
