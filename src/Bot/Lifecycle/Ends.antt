-- ===== src/Bot/Lifecycle/Ends.antt =====
-- What the bot holds open after it has ended.
use discord_downloader_bot.Prelude.{
  Bool, true, false, ◌≡◌, refl, sym, ap, subst, ◌∙◌, ◌⊎◌, inl, inr, Option, none, some, List, [],
  ◌∷◌, ◌++◌, if◌then◌else◌, ℕ, arith,
}
use discord_downloader_bot.World.{
  Exn, wait_closed, extension_error, Result, ok, raised, Call, Env, History, Exec, after, await,
  ◌>>=◌, acquires, releases, Resource, db_pool, broker, app_redis, healthcheck_server, apply_schema,
  load_extension, start_status_task,
}
use discord_downloader_bot.World.Held.{is_held, still_held}
use discord_downloader_bot.World.Trace.{
  Are, Extends, makes_rules, Makes, Makes-pure, Makes-bind, Makes-catch, Makes-await,
}
use discord_downloader_bot.World.Steps.{
  ok-injective, await-eq-ok, await-eq-raised, await_bind-raised, pure_lem,
}
use discord_downloader_bot.Db.Pool.{build_pool}
use discord_downloader_bot.Bot.Lifecycle.Close.{
  IsBots, AllCloses, Tells, close-calls, stuck_close, close_calls-hold_none,
}
use discord_downloader_bot.Bot.Lifecycle.{
  BotState, initial, extension_of, not_loaded, load_if, load_cogs, setup_hook, close, step,
}

-- The calls that open or close neither the pool nor the client of Redis.
abbrev leaves : Call → Bool
leaves (acquires db_pool) = false
leaves (acquires app_redis) = false
leaves (releases r) = false
leaves _ = true

still_held-leaves :
    (c : Call) (b : Bool)
    → leaves c ≡ true
    → (still_held db_pool c b ≡ b) × (still_held app_redis c b ≡ b)
still_held-leaves c b e = ground arith

either : (b : Bool) {x y z : Bool} → x ≡ y → y ≡ z → (if b then x else y) ≡ z
either true e f = e ∙ f
either false e f = f

Tells-Extends : (s : BotState) (h h' : History) → Extends leaves h h' → Tells s h → Tells s h'
Tells-Extends s h h' (new, e, are) tells = subst (Tells s) (sym e) (go new are)
  where
    go : (new : History) → Are leaves new → Tells s (new ++ h)
    go [] are = tells
    go (x ∷ new) (a, are) =
        let before = go new are in
        let same = still_held-leaves x.call in
        record {
          pool = either x.returned (same _ a).0 before.pool;
          redis = either x.returned (same _ a).1 before.redis;
        }

-- However the step ends, the attributes say what is held.
abbrev Settles : Env → Exec (Result (Unit {0}) × BotState) → History → Type 0
Settles env m h =
    (p : Result (Unit {0}) × BotState) × (h' : History) × (m env h ≡ (ok p, h')) × Tells p.1 h'

step-Settles :
    {A : Type 0} (env : Env) (m : Exec A) (s : BotState)
    (next : Exec (Result (Unit {0}) × BotState)) (h : History)
    → ((e : Exn) (h' : History) → m env h ≡ (raised e, h') → Tells s h')
    → ((a : A) (h' : History) → m env h ≡ (ok a, h') → Settles env next h')
    → Settles env (step m s next) h
unfolding step ◌>>=◌
step-Settles {A} env m s next h bad good = when (m env h) refl
  where
    when : (p : Result A × History) → m env h ≡ p → Settles env (step m s next) h
    when (ok a, h') e = let (q, h'', run, tells) = good a h' e in (q, h'', rw e run, tells)
    when (raised x, h') e = ((raised x, s), h', rw e refl, bad x h' e)

-- A step that leaves the pool and the client of Redis alone.
neutral-Settles :
    {A : Type 0} (env : Env) (m : Exec A) (s : BotState)
    (next : Exec (Result (Unit {0}) × BotState)) (h : History)
    → Makes leaves env m
    → Tells s h
    → ((h' : History) → Tells s h' → Settles env next h')
    → Settles env (step m s next) h
neutral-Settles {A = A} env m s next h made tells rest =
    step-Settles env m s next h (λ e h' r. told h' r) (λ a h' r. rest h' (told h' r))
  where
    told : {r : Result A} (h' : History) → m env h ≡ (r, h') → Tells s h'
    told h' e = Tells-Extends s h h' (subst (Extends leaves h) (ap (λ p. p.1) e) (made.at h)) tells

load_cogs-Makes : (env : Env) (files : List (List ℕ)) → Makes leaves env (load_cogs files)
unfolding load_cogs
load_cogs-Makes env [] = Makes-pure tt
load_cogs-Makes env (file ∷ files) =
    Makes-bind _ _ (one (extension_of file)) (λ _. load_cogs-Makes env files)
  where
    caught : (e : Exn) → Makes leaves env (not_loaded e)
    caught extension_error = search makes_rules
    caught _ = search makes_rules

    one : (o : Option (List ℕ)) → Makes leaves env (load_if o)
    one none = Makes-pure tt
    one (some x) = Makes-catch _ _ (Makes-await (load_extension x) refl) caught

-- The pool is there in the end, or the opening of it raised.
build_pool-cases :
    (env : Env) (h : History)
    → ((h : History) → env h apply_schema ≡ ok tt)
    → (build_pool env h ≡ (
      ok tt,
      record { call = apply_schema; returned = true }
          ∷ record { call = acquires db_pool; returned = true }
          ∷ h,
    ))
      ⊎ ((x : Exn) × (build_pool env h
            ≡ (raised x, record { call = acquires db_pool; returned = false } ∷ h)))
unfolding build_pool ◌>>=◌
build_pool-cases env h applies = when (env h (acquires db_pool)) refl
  where
    when :
        (r : Result (Unit {0}))
        → env h (acquires db_pool) ≡ r
        → (build_pool env h ≡ (
          ok tt,
          record { call = apply_schema; returned = true }
              ∷ record { call = acquires db_pool; returned = true }
              ∷ h,
        ))
          ⊎ ((x : Exn) × (build_pool env h
                ≡ (raised x, record { call = acquires db_pool; returned = false } ∷ h)))
    when (ok a) e = inl (simp (e, applies) refl)
    when (raised x) e =
        inr (x, await_bind-raised (acquires db_pool) (λ _. await apply_schema) env h x e)

-- The steps that open: where one raises, nothing has changed.
build_pool-Settles :
    (env : Env) (s : BotState) (next : Exec (Result (Unit {0}) × BotState)) (h : History)
    → ((h : History) → env h apply_schema ≡ ok tt)
    → Tells s h
    → ((h' : History) → Tells (record s { db_pool = true }) h' → Settles env next h')
    → Settles env (step build_pool s next) h
unfolding build_pool ◌>>=◌
build_pool-Settles env s next h applies tells rest = step-Settles env build_pool s next h bad good
  where
    bad : (e : Exn) (h' : History) → build_pool env h ≡ (raised e, h') → Tells s h'
    bad e h' r = elim (build_pool-cases env h applies) [
      | inl q ↦ cc
      | inr (x, q) ↦
          subst (Tells s) (ap (λ p. p.1) (sym q ∙ r))
            (record { pool = tells.pool; redis = tells.redis })
    ]

    good : (a : Unit {0}) (h' : History) → build_pool env h ≡ (ok a, h') → Settles env next h'
    good a h' r = elim (build_pool-cases env h applies) [
      | inl q ↦ rest h' (
          subst (Tells (record s { db_pool = true })) (ap (λ p. p.1) (sym q ∙ r))
            (record { pool = refl; redis = tells.redis }))
      | inr (x, q) ↦ cc
    ]

redis-Settles :
    (env : Env) (s : BotState) (next : Exec (Result (Unit {0}) × BotState)) (h : History)
    → Tells s h
    → ((h' : History) → Tells (record s { redis = true }) h' → Settles env next h')
    → Settles env (step (await (acquires app_redis)) s next) h
unfolding await
redis-Settles env s next h tells rest = step-Settles env _ s next h bad good
  where
    bad : (e : Exn) (h' : History) → await (acquires app_redis) env h ≡ (raised e, h') → Tells s h'
    bad e h' r =
        let (_, end) = await-eq-raised (acquires app_redis) env h h' e r in
        subst (Tells s) (sym end) (record { pool = tells.pool; redis = tells.redis })

    good :
        (a : Unit {0}) (h' : History)
        → await (acquires app_redis) env h ≡ (ok a, h')
        → Settles env next h'
    good a h' r =
        let (_, end) = await-eq-ok (acquires app_redis) env h h' a r in
        rest h' (
          subst (Tells (record s { redis = true })) (sym end)
            (record { pool = tells.pool; redis = refl }))

setup_hook-Settles :
    (env : Env) (files : List (List ℕ)) (h : History)
    → ((h : History) → env h apply_schema ≡ ok tt)
    → Tells initial h
    → Settles env (setup_hook false files initial) h
unfolding setup_hook
setup_hook-Settles env files h applies tells =
    neutral-Settles env _ _ _ h (Makes-await (acquires broker) refl) tells λ h₁ t₁.
      build_pool-Settles env _ _ h₁ applies t₁ λ h₂ t₂. redis-Settles env _ _ h₂ t₂ λ h₃ t₃.
        neutral-Settles env _ _ _ h₃ (load_cogs-Makes env files) t₃ λ h₄ t₄.
          neutral-Settles env _ _ _ h₄ (Makes-await (acquires healthcheck_server) refl) t₄ λ h₅ t₅.
            neutral-Settles env _ _ _ h₅ (Makes-await start_status_task refl)
              (record { pool = t₅.pool; redis = t₅.redis }) λ h₆ t₆. (_, h₆, pure_lem _ env h₆, t₆)

-- The attributes say what is held at the end of a `setup_hook`, whichever step of it raised.
setup_hook-Tells :
    (env : Env) (files : List (List ℕ)) (h h' : History) (p : Result (Unit {0}) × BotState)
    → ((h : History) → env h apply_schema ≡ ok tt)
    → Tells initial h
    → setup_hook false files initial env h ≡ (ok p, h')
    → Tells p.1 h'
setup_hook-Tells env files h h' p applies tells ran =
    let (q, k, run, told) = setup_hook-Settles env files h applies tells in
    let both = sym run ∙ ran in
    let state : q ≡ p = ok-injective (ap (λ r. r.0) both) in
    subst (λ (s : BotState). Tells s h') (ap (λ r. r.1) state)
      (subst (Tells q.1) (ap (λ r. r.1) both) told)

-- Where the schema is applied, every release returns, and nothing of the bot's was open before: a `setup_hook`
-- that has ended without a server of the health check, since one of its steps raised, is undone by `close`,
-- after which the bot holds neither its broker nor its pool nor its client of Redis.
pub close_undoes_setup :
    (env : Env) (files : List (List ℕ)) (h h' : History) (p : Result (Unit {0}) × BotState)
    (r : Resource)
    → ((h : History) → env h apply_schema ≡ ok tt)
    → AllCloses env
    → is_held db_pool h ≡ false
    → is_held app_redis h ≡ false
    → IsBots r
    → setup_hook false files initial env h ≡ (ok p, h')
    → p.1.healthcheck_server ≡ false
    → is_held r (after (close false p.1 env h')) ≡ false
close_undoes_setup env files h h' p r applies closes pool redis its ran no_server =
    let tells =
      setup_hook-Tells env files h h' p applies (record { pool = pool; redis = redis }) ran in
    rw (close-calls env p.1 h' closes no_server) (close_calls-hold_none p.1 h' r tells its)

-- With a server, `close` waits for it first: where that wait ends with an exception, every resource is held
-- just as before.
pub stuck_close-keeps :
    (env : Env) (s : BotState) (h : History) (r : Resource) (x : Exn)
    → s.healthcheck_server ≡ true
    → env h (wait_closed healthcheck_server) ≡ raised x
    → is_held r (after (close false s env h)) ≡ is_held r h
stuck_close-keeps env s h r x server fails = rw (stuck_close env s h x server fails) refl
