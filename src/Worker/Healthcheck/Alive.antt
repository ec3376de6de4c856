-- ===== src/Worker/Healthcheck/Alive.antt =====
-- The heartbeat and the probe together: what Redis documents of keys that expire, and how many refused
-- writes a sentinel outlives.
use discord_downloader_bot.Prelude.{
  not, ◌&&◌, ◌||◌, ◌==◌, ℕ, zero, suc, ◌+◌, ◌*◌, ◌<◌, String, ◌≡◌, refl, ◌∙◌, sym, ap, Bool, true,
  false, List, [], ◌∷◌, any, inl, inr, eq_refl, subst, text_eq, if◌then◌else◌, arith, Option,
}
use Prim.Native.String.{◌++◌}
use Prim.Native.Char.{code}
use text.Mathlib.Text.{starts_with}
use text.Mathlib.TextPositions.{starts_with-append}
use text.Mathlib.TextLemmas.{append_assoc, nil-append, cons-append}
use discord_downloader_bot.Keys.{decimal}
use discord_downloader_bot.Int.{pos, leb_ℤ}
use discord_downloader_bot.World.{
  Result, ok, raised, Call, Event, Env, History, result, is_ok, after, ◌>>=◌, redis_set,
  redis_delete, sleep, scan_iter, aclose,
}
use discord_downloader_bot.World.Steps.{>>=-ok, pure_lem, await_bind-ok}
use discord_downloader_bot.Worker.Healthcheck.{
  refresh, idle_loop, heartbeat_ttl_seconds, heartbeat_refresh_seconds, heartbeat_key, process_role,
  init_key, main, check, exit_code,
}
use discord_downloader_bot.Worker.Healthcheck.Idle.{AnswersOrRefuses}
use discord_downloader_bot.Worker.Healthcheck.Probe.{probe_lem}

-- What an event, seen from `t` seconds later, says of a key; `older` is what the events before it say, from
-- a number of seconds later. A deletion counts also where it raised, a write only where it returned.
abbrev pub says : String → ℕ → Call → Bool → (ℕ → Bool) → Bool
says key t (sleep n) r older = older (t + n)
says key t (redis_set k v ttl) true older =
    if text_eq k key then leb_ℤ (pos (suc t)) ttl else older t
says key t (redis_delete k) r older = if text_eq k key then false else older t
says key t c r older = older t

-- The key is there `t` seconds after the history: its last write has not expired. Only sleeps take time.
pub lives : String → ℕ → History → Bool
lives key t [] = false
lives key t (e ∷ h) = says key t e.call e.returned (λ t'. lives key t' h)

written-lives :
    (key : String) (t : ℕ) (h : History)
    → t < 90
    → lives key t (record { call = redis_set key "1" heartbeat_ttl_seconds; returned = true } ∷ h)
      ≡ true
unfolding lives
written-lives key t h soon = rw (eq_refl key) (ground arith)

module _ (key : String) (env : Env)
    (sleeps : (h : History) → env h (sleep heartbeat_refresh_seconds) ≡ ok tt)
    (answers : AnswersOrRefuses env key) where
  refresh-lives :
      (t : ℕ) (h : History)
      → t < 90
      → lives key t h ≡ true
      → (h' : History) × (refresh true key env h ≡ (ok tt, h')) × (lives key t h' ≡ true)
  unfolding refresh ◌>>=◌ lives
  refresh-lives t h soon alive = elim (answers h) [
    | inl e ↦ (
      record { call = redis_set key "1" heartbeat_ttl_seconds; returned = true } ∷ h,
      simp e refl,
      written-lives key t h soon,
    )
    | inr e ↦ (
      record { call = redis_set key "1" heartbeat_ttl_seconds; returned = false } ∷ h,
      simp e refl,
      alive,
    )
  ]

  -- What is there long enough after a history is there after a number of rounds from it.
  idle_loop-lives :
      (n t : ℕ) (h : History)
      → t + heartbeat_refresh_seconds * n < 90
      → lives key (t + heartbeat_refresh_seconds * n) h ≡ true
      → (h' : History) × (idle_loop n true key env h ≡ (ok tt, h')) × (lives key t h' ≡ true)
  unfolding idle_loop lives
  idle_loop-lives zero t h soon alive =
      let same : t + heartbeat_refresh_seconds * 0 ≡ t = omega arith in
      (h, pure_lem tt env h, subst (λ x. lives key x h ≡ true) same alive)
  idle_loop-lives (suc n) t h soon alive =
      let slept : History =
        record { call = sleep heartbeat_refresh_seconds; returned = true } ∷ h in
      let later : ℕ = t + heartbeat_refresh_seconds * n in
      let same : t + heartbeat_refresh_seconds * suc n ≡ later + heartbeat_refresh_seconds =
        omega arith in
      let (k, beat, there) =
        refresh-lives later slept (omega arith) (subst (λ x. lives key x h ≡ true) same alive) in
      let (k', rest, still) = idle_loop-lives n t k (omega arith) there in
      (
        k',
        await_bind-ok (sleep heartbeat_refresh_seconds) _ env h tt (sleeps h)
            ∙ >>=-ok _ (λ _. idle_loop n true key) env slept k tt beat
            ∙ rest,
        still,
      )

abbrev pub pattern_of : String → String
pattern_of role = "taskiq:heartbeat:" ++ role ++ ":*"

-- The characters that a glob of Redis reads as more than themselves.
abbrev pub is_special : ℕ → Bool
is_special c = c == b'*' || (c == b'?' || (c == b'[' || (c == b']' || c == b'\\')))

unfoldable pub is_literal : String → Bool
is_literal String.[] = true
is_literal (String.◌∷◌ c s) = not (is_special (code c)) && is_literal s

-- `SCAN` with a literal text and `*` as its pattern lists a key that is there and starts with that text.
abbrev pub ScansPrefix : String → Env → Type 0
ScansPrefix key env =
    (h : History) (prefix : String) (keys : List String)
    → is_literal prefix ≡ true
    → starts_with key prefix ≡ true
    → lives key 0 h ≡ true
    → env h (scan_iter (prefix ++ "*")) ≡ ok keys
    → any (text_eq key) keys ≡ true

-- The pattern of the probe is that of the keys of its role.
abbrev pub prefix_of : String → String
prefix_of role = "taskiq:heartbeat:" ++ (role ++ ":")

pattern_lem : (role : String) → pattern_of role ≡ prefix_of role ++ "*"
pattern_lem role = sym (
    append_assoc "taskiq:heartbeat:" (role ++ ":") "*"
    ∙ ap (λ s. "taskiq:heartbeat:" ++ s) (append_assoc role ":" "*"))

key-starts :
    (role : String) (pid : ℕ) → starts_with (heartbeat_key role pid) (prefix_of role) ≡ true
unfolding heartbeat_key
key-starts role pid =
    let whole : prefix_of role ++ decimal pid
        ≡ "taskiq:heartbeat:" ++ (role ++ (":" ++ decimal pid)) =
      append_assoc "taskiq:heartbeat:" (role ++ ":") (decimal pid)
      ∙ ap (λ s. "taskiq:heartbeat:" ++ s) (append_assoc role ":" (decimal pid)) in
    subst (λ s. starts_with s (prefix_of role) ≡ true) whole
      (starts_with-append (prefix_of role) (decimal pid))

literal-append : (s t : String) → is_literal (s ++ t) ≡ is_literal s && is_literal t
unfolding is_literal
literal-append String.[] t = ap is_literal (nil-append t)
literal-append (String.◌∷◌ c s) t = rw (cons-append c s t, literal-append s t) (ground arith)

literal_lem : (role : String) → is_literal role ≡ true → is_literal (prefix_of role) ≡ true
unfolding is_literal
literal_lem role h =
    rw (literal-append "taskiq:heartbeat:" (role ++ ":"), literal-append role ":", h) refl

-- A scan and the closing of its client return.
pub record ScansReturn (role : String) (env : Env) : Type 0 where
  pub scans : (h : History) → is_ok (env h (scan_iter (pattern_of role))) ≡ true
  pub closes : (h : History) → env h aclose ≡ ok tt

listed-found :
    (key : String) (keys : List String) → any (text_eq key) keys ≡ true → exit_code keys ≡ 0
listed-found key [] h = cc
listed-found key (k ∷ ks) h = refl

module _ (role : String) (pid : ℕ) (env : Env) (literal : is_literal role ≡ true)
    (scans : ScansPrefix (heartbeat_key role pid) env) (returns : ScansReturn role env) where
  probe-finds :
      (h : History) → lives (heartbeat_key role pid) 0 h ≡ true → result (check role env h) ≡ ok 0
  probe-finds h alive = when _ refl (returns.scans h)
    where
      when :
          (r : Result (List String))
          → env h (scan_iter (pattern_of role)) ≡ r
          → is_ok r ≡ true
          → result (check role env h) ≡ ok 0
      when (ok keys) e s =
          let zero_code = listed-found _ keys (
            scans h (prefix_of role) keys (literal_lem role literal) (key-starts role pid) alive
              (subst (λ p. env h (scan_iter p) ≡ ok keys) (pattern_lem role) e)) in
          rw (probe_lem env h role, returns.closes _, e, zero_code) refl
      when (raised x) e s = cc

-- Where a write of the sentinel has returned, only sleeps take time, the sleeps return, Redis answers or
-- refuses each later write, keeps the sentinel until it expires, and lists it while it is there in a scan
-- for a literal text that it starts with, and the role of the process has no special character of a glob,
-- the probe of that role ends with 0 at once and after each of the next two rounds of the idle loop, even
-- where both their writes are refused.
pub beating_worker_is_healthy :
    (n : ℕ) (variable : Option String) (pid : ℕ) (env : Env) (h : History)
    → n < 3
    → ((k : History) → env k (sleep heartbeat_refresh_seconds) ≡ ok tt)
    → AnswersOrRefuses env (init_key variable pid)
    → is_literal (process_role variable) ≡ true
    → ScansPrefix (init_key variable pid) env
    → ScansReturn (process_role variable) env
    → let key = init_key variable pid in
      let written : Event = record {
        call = redis_set key "1" heartbeat_ttl_seconds;
        returned = true;
      } in
      result (main variable env (after (idle_loop n true key env (written ∷ h)))) ≡ ok 0
unfolding main init_key
beating_worker_is_healthy n variable pid env h few sleeps answers literal scans returns =
    let key = heartbeat_key (process_role variable) pid in
    let start : History =
      record { call = redis_set key "1" heartbeat_ttl_seconds; returned = true } ∷ h in
    let waited : ℕ = 0 + heartbeat_refresh_seconds * n in
    let soon : waited < 90 = omega arith in
    let (h', run, alive) =
      idle_loop-lives key env sleeps answers n 0 start soon (written-lives key waited h soon) in
    subst (λ k. result (check (process_role variable) env k) ≡ ok 0) (sym (ap after run))
      (probe-finds (process_role variable) pid env literal scans returns h' alive)
