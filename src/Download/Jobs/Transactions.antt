-- ===== src/Download/Jobs/Transactions.antt =====
-- What the two transactions of download/jobs.py do to the index.
use Prim.Native.Char.{Char, code}
use Prim.Native.String.{◌++◌}
use text.Mathlib.TextLemmas.{cons-append}
use discord_downloader_bot.Prelude.{
  Bool, true, not, Option-cases, ◌||◌, ltb, all, ℕ, String, false, ◌≡◌, ◌≢◌, refl, ap, ◌∙◌, inl,
  inr, none, some, List, [], ◌∷◌, text_eq, eq_iff, eq_refl, arith, Bool-cases,
}
use discord_downloader_bot.Int.{ℤ}
use discord_downloader_bot.Data.{JobMeta}
use discord_downloader_bot.Keys.{decimal, meta_key, user_jobs_key}
use discord_downloader_bot.Keys.Distinct.{keys_distinct}
use discord_downloader_bot.World.{
  ok, Env, History, redis_execute, time, set_meta, zadd, zrem, delete, expire, RedisOp,
}
use discord_downloader_bot.World.Steps.{await_bind-eq-ok, await-eq-ok}
use discord_downloader_bot.Download.Jobs.Index.{
  Entry, without, apply_op, best, member_of, Index, apply_all, index_of,
}
use discord_downloader_bot.Download.Jobs.{record_job, forget_job}

abbrev pub record_ops : String → JobMeta → ℤ → ℕ → List RedisOp
record_ops t m ttl now =
    set_meta (meta_key t) m ttl
    ∷ zadd (user_jobs_key m.owner_user_id) t now
    ∷ expire (user_jobs_key m.owner_user_id) ttl
    ∷ []

abbrev pub forget_ops : String → ℕ → List RedisOp
forget_ops t owner = delete (meta_key t) ∷ zrem (user_jobs_key owner) t ∷ []

-- A recording that returned has run its transaction, with the time that it read.
pub recorded :
    (env : Env) (i : Index) (t : String) (m : JobMeta) (ttl : ℤ) (now : ℕ) (h h' : History)
    → env h time ≡ ok now
    → record_job t m ttl env h ≡ (ok tt, h')
    → index_of i h' ≡ apply_all (record_ops t m ttl now) (index_of i h)
unfolding record_job
recorded env i t m ttl now h h' clock e =
    let (n, told, rest) = await_bind-eq-ok time _ env h e in
    let same : n ≡ now = cc in
    let (_, end) = await-eq-ok (redis_execute (record_ops t m ttl n)) env _ h' tt rest in
    ap (index_of i) end ∙ ap (λ (x : ℕ). apply_all (record_ops t m ttl x) (index_of i h)) same

pub forgotten :
    (env : Env) (i : Index) (t : String) (owner : ℕ) (h h' : History)
    → forget_job t owner env h ≡ (ok tt, h')
    → index_of i h' ≡ apply_all (forget_ops t owner) (index_of i h)
unfolding forget_job
forgotten env i t owner h h' e =
    let (_, end) = await-eq-ok (redis_execute (forget_ops t owner)) env h h' tt e in
    ap (index_of i) end

-- The first character of a text.
first : String → ℕ
first String.[] = 0
first (String.◌∷◌ c s) = code c

first-append : (c : Char) (s u : String) → first (String.◌∷◌ c s ++ u) ≡ code c
unfolding first
first-append c s u = rw cons-append refl

user_jobs-ne-meta : (o : ℕ) (t : String) → user_jobs_key o ≢ meta_key t
unfolding user_jobs_key meta_key
user_jobs-ne-meta o t e = omega (
  arith,
  first-append "u" "ser:" (decimal o ++ ":active_jobs"),
  first-append "t" "ask:" (t ++ ":meta"),
  ap first e,
)

text_eq-false : (s t : String) → s ≢ t → text_eq s t ≡ false
text_eq-false s t ne = elim (Bool-cases (text_eq s t)) [
  | inl same ↦ absurd (ne ((eq_iff s t).0 same))
  | inr other ↦ other
]

pub differs : (u t : String) → text_eq u t ≡ false → u ≢ t
differs u t other same = cc ((eq_iff u t).1 same)

module _ (t u : String) where
  pub other_meta_key : u ≢ t → text_eq (meta_key u) (meta_key t) ≡ false
  other_meta_key ne = text_eq-false _ _ (λ e. ne ((keys_distinct u t).3.0 e))

pub user_jobs_is_no_meta_key : (t : String) (o : ℕ) → text_eq (user_jobs_key o) (meta_key t) ≡ false
user_jobs_is_no_meta_key t o = text_eq-false _ _ (user_jobs-ne-meta o t)

-- What each transaction leaves in the index.
module _ (i : Index) (t : String) where
  pub record-meta :
      (m : JobMeta) (ttl : ℤ) (now : ℕ)
      → (apply_all (record_ops t m ttl now) i).meta (meta_key t) ≡ some m
  unfolding apply_op
  record-meta m ttl now = rw (eq_refl (meta_key t)) refl

  pub forget-meta : (owner : ℕ) → (apply_all (forget_ops t owner) i).meta (meta_key t) ≡ none
  unfolding apply_op
  forget-meta owner = rw (eq_refl (meta_key t)) refl

  pub forget-other :
      (u : String) (owner : ℕ)
      → u ≢ t
      → (apply_all (forget_ops t owner) i).meta (meta_key u) ≡ i.meta (meta_key u)
  unfolding apply_op
  forget-other u owner ne = rw (other_meta_key t u ne) refl

-- Every member of the set under `k` has a score below `now`.
abbrev pub is_below : ℕ → String → Entry → Bool
is_below now k e = not (text_eq e.key k) || ltb e.score now

all-without : (p q : Entry → Bool) (es : List Entry) → all p es ≡ true → all p (without q es) ≡ true
unfolding without
all-without p q [] h = refl
all-without p q (e ∷ es) h = ground (arith, all-without p q es)

best-below :
    (now : ℕ) (k : String) (es : List Entry) (e : Entry)
    → all (is_below now k) es ≡ true
    → best k es ≡ some e
    → ltb e.score now ≡ true
unfolding best
best-below now k [] e h found = cc
best-below now k (x ∷ es) e h found = elim (Option-cases (best k es)) [
  | inl r ↦ ground (arith, found, r, h, best-below now k es e)
  | inr (y, r) ↦ ground (arith, found, r, h, best-below now k es y, best-below now k es e)
]

-- A member that is put above all others stands first.
best-new :
    (now : ℕ) (k t : String) (es : List Entry)
    → all (is_below now k) es ≡ true
    → best k (record { key = k; member = t; score = now } ∷ es)
      ≡ some (record { key = k; member = t; score = now })
unfolding best
best-new now k t es h = elim (Option-cases (best k es)) [
  | inl r ↦ rw (eq_refl k, r) refl
  | inr (y, r) ↦ let below = best-below now k es y h r in rw (eq_refl k, r, below) refl
]

pub record-latest :
    (i : Index) (t : String) (m : JobMeta) (ttl : ℤ) (now : ℕ)
    → all (is_below now (user_jobs_key m.owner_user_id)) i.entries ≡ true
    → member_of
        (best (user_jobs_key m.owner_user_id) (apply_all (record_ops t m ttl now) i).entries)
      ≡ some t
unfolding apply_op
record-latest i t m ttl now h =
    ap member_of (best-new now (user_jobs_key m.owner_user_id) t _ (all-without _ _ i.entries h))
