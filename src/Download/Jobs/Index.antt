-- ===== src/Download/Jobs/Index.antt =====
-- What Redis documents of the commands that keep the index of jobs: a map of records, and sorted sets. No
-- key expires here: a theorem that uses it is about the time before the first expiry.
use discord_downloader_bot.Prelude.{
  ℕ, String, Bool, false, ◌≡◌, Option, none, some, List, [], ◌∷◌, ◌&&◌, ◌||◌, text_eq, ltb, ◌==◌,
  if◌then◌else◌,
}
use Prim.Native.String.{compare}
use text.Mathlib.Text.{is_lt}
use discord_downloader_bot.Data.{JobMeta}
use discord_downloader_bot.World.{
  RedisOp, set_meta, zadd, zrem, delete, ok, Call, Env, History, redis_execute, redis_delete,
  redis_get_meta, redis_latest,
}

-- A member of the sorted set under a key.
pub record Entry : Type 0 where
  pub key : String
  pub member : String
  pub score : ℕ

pub record Index : Type 0 where
  pub meta : String → Option JobMeta
  pub entries : List Entry

abbrev pub is_entry : String → String → Entry → Bool
is_entry k t e = text_eq e.key k && text_eq e.member t

unfoldable pub without : (Entry → Bool) → List Entry → List Entry
without p [] = []
without p (e ∷ es) = let rest = without p es in if p e then rest else e ∷ rest

unfoldable pub apply_op : RedisOp → Index → Index
unfolding without
apply_op (set_meta k m ttl) i = record i { meta = λ j. if text_eq j k then some m else i.meta j }
apply_op (delete k) i = record i {
  meta = λ j. if text_eq j k then none else i.meta j;
  entries = without (λ e. text_eq e.key k) i.entries;
}
apply_op (zadd k t s) i = record i {
  entries = record { key = k; member = t; score = s } ∷ without (is_entry k t) i.entries;
}
apply_op (zrem k t) i = record i { entries = without (is_entry k t) i.entries }
apply_op op i = i

abbrev pub apply_all : List RedisOp → Index → Index
apply_all [] i = i
apply_all (op ∷ ops) i = apply_all ops (apply_op op i)

abbrev pub apply_call : Call → Index → Index
apply_call (redis_execute ops) i = apply_all ops i
apply_call (redis_delete k) i = apply_op (delete k) i
apply_call c i = i

-- The index after a history that began with `i`. Of a transaction that raised, `ran` says whether Redis ran
-- it all the same, which a lost connection leaves open.
abbrev pub index_if : (History → Bool) → Index → History → Index
index_if ran i [] = i
index_if ran i (e ∷ h) =
    if e.returned || ran h then apply_call e.call (index_if ran i h) else index_if ran i h

-- The same, where what raised has done nothing.
abbrev pub index_of : Index → History → Index
index_of i h = index_if (λ k. false) i h

-- The order of `ZREVRANGE`: by score, and members of one score by their text.
abbrev pub stands_before : Entry → Entry → Bool
stands_before x y = ltb y.score x.score || x.score == y.score && is_lt (compare y.member x.member)

abbrev pub first_of : Entry → Option Entry → Entry
first_of x none = x
first_of x (some y) = if stands_before x y then x else y

unfoldable pub best : String → List Entry → Option Entry
best k [] = none
best k (e ∷ es) = let rest = best k es in if text_eq e.key k then some (first_of e rest) else rest

abbrev pub member_of : Option Entry → Option String
member_of none = none
member_of (some e) = some e.member

-- Redis answers from the index that the history of calls has made.
pub record KeepsIndex (env : Env) (i : Index) : Type 0 where
  pub meta_of : (h : History) (k : String) → env h (redis_get_meta k) ≡ ok ((index_of i h).meta k)
  pub latest_of :
      (h : History) (k : String)
      → env h (redis_latest k) ≡ ok (member_of (best k (index_of i h).entries))
