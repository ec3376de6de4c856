-- ===== src/Worker/Healthcheck/Idle.antt =====
-- What the idle loop of the heartbeat does.
use discord_downloader_bot.Prelude.{
  ℕ, zero, suc, String, ◌≡◌, refl, ◌⊎◌, inl, inr, Bool, true, false, List, ◌∷◌,
}
use discord_downloader_bot.World.{
  redis_error, ok, raised, Call, Env, History, result, after, ◌>>=◌, redis_set, sleep,
}
use discord_downloader_bot.World.Trace.{calls}
use discord_downloader_bot.World.Steps.{>>=-ok, pure_lem, await_bind-ok}
use discord_downloader_bot.Worker.Healthcheck.{
  refresh, idle_loop, heartbeat_ttl_seconds, heartbeat_refresh_seconds,
}

-- The calls of a number of rounds, the newest first, before `l`.
abbrev pub beats : ℕ → String → List Call → List Call
beats zero key l = l
beats (suc n) key l =
    beats n key (redis_set key "1" heartbeat_ttl_seconds ∷ sleep heartbeat_refresh_seconds ∷ l)

-- Redis answers the write of the sentinel, or refuses it.
abbrev pub AnswersOrRefuses : Env → String → Type 0
AnswersOrRefuses env key =
    (h : History)
    → (env h (redis_set key "1" heartbeat_ttl_seconds) ≡ ok tt)
      ⊎ (env h (redis_set key "1" heartbeat_ttl_seconds) ≡ raised redis_error)

refresh-goes_on :
    (env : Env) (key : String) (h : History)
    → AnswersOrRefuses env key
    → (b : Bool) × (refresh true key env h
        ≡ (ok tt, record { call = redis_set key "1" heartbeat_ttl_seconds; returned = b } ∷ h))
unfolding refresh ◌>>=◌
refresh-goes_on env key h answers = elim (answers h) [
  | inl e ↦ (true, simp e refl)
  | inr e ↦ (false, simp e refl)
]

-- Where the sleeps return, and Redis answers each write of the sentinel or refuses it with an error of Redis,
-- the idle loop goes on for any number of rounds: it sleeps 30 seconds and then writes the sentinel, for 90
-- seconds, in each of them.
pub idle_loop-goes_on :
    (n : ℕ) (env : Env) (key : String) (h : History)
    → ((h : History) → env h (sleep heartbeat_refresh_seconds) ≡ ok tt)
    → AnswersOrRefuses env key
    → (result (idle_loop n true key env h) ≡ ok tt)
      × (calls (after (idle_loop n true key env h)) ≡ beats n key (calls h))
unfolding idle_loop
idle_loop-goes_on zero env key h sleeps answers = rw (pure_lem tt env h) (refl, refl)
idle_loop-goes_on (suc n) env key h sleeps answers =
    let slept : History = record { call = sleep heartbeat_refresh_seconds; returned = true } ∷ h in
    let (b, beat) = refresh-goes_on env key slept answers in
    let rest =
      idle_loop-goes_on n env key
        (record { call = redis_set key "1" heartbeat_ttl_seconds; returned = b } ∷ slept) sleeps
        answers in
    rw
      (
        await_bind-ok (sleep heartbeat_refresh_seconds) _ env h tt (sleeps h),
        >>=-ok _ (λ _. idle_loop n true key) env slept _ tt beat,
      )
      rest
