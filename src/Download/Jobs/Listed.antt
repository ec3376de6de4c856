-- ===== src/Download/Jobs/Listed.antt =====
-- The invariant of the index: no record without its entry under its owner.
use discord_downloader_bot.Prelude.{
  ◌∷◌, [], any, ◌||◌, suc, Bool, true, false, ℕ, String, ◌≡◌, refl, sym, ap, subst, ◌∙◌, inl, inr,
  none, some, List, text_eq, eq_iff, eq_refl, arith, if◌then◌else◌, Bool-cases,
}
use discord_downloader_bot.Int.{ℤ, pos}
use discord_downloader_bot.Data.{JobMeta}
use discord_downloader_bot.Keys.{meta_key, user_jobs_key}
use discord_downloader_bot.World.{
  Result, ok, raised, is_ok, Env, History, redis_execute, time, after, await, RedisOp,
}
use discord_downloader_bot.World.Steps.{await_bind-ok, await_bind-raised}
use discord_downloader_bot.Download.Jobs.Index.{
  Entry, is_entry, without, apply_op, Index, apply_all, index_if,
}
use discord_downloader_bot.Download.Jobs.{record_job, forget_job}
use discord_downloader_bot.Download.Jobs.Transactions.{
  record_ops, forget_ops, differs, other_meta_key, user_jobs_is_no_meta_key, record-meta,
  forget-meta, forget-other,
}

-- Every record is listed under its owner.
abbrev pub has_entry : List Entry → String → String → Bool
has_entry es k t = any (is_entry k t) es

abbrev pub IsListed : Index → Type 0
IsListed i =
    (u : String) (m : JobMeta)
    → i.meta (meta_key u) ≡ some m
    → has_entry i.entries (user_jobs_key m.owner_user_id) u ≡ true

-- The entries of one task stay where those of another are taken out, or a key that is no user's.
has_entry-without_other :
    (es : List Entry) (k j t u : String)
    → text_eq u t ≡ false
    → has_entry es k u ≡ true
    → has_entry (without (is_entry j t) es) k u ≡ true
unfolding without
has_entry-without_other [] k j t u ne h = h
has_entry-without_other (e ∷ es) k j t u ne h = ground (
  arith,
  ne,
  eq_iff e.member t,
  eq_iff e.member u,
  eq_iff u t,
  has_entry-without_other es k j t u ne,
)

has_entry-without_key :
    (es : List Entry) (k j u : String)
    → text_eq k j ≡ false
    → has_entry es k u ≡ true
    → has_entry (without (λ e. text_eq e.key j) es) k u ≡ true
unfolding without
has_entry-without_key [] k j u ne h = h
has_entry-without_key (e ∷ es) k j u ne h =
    ground
      (arith, ne, eq_iff e.key j, eq_iff e.key k, eq_iff k j, has_entry-without_key es k j u ne)

module _ (i : Index) (t : String) (listed : IsListed i) where
  record-IsListed :
      (m : JobMeta) (ttl : ℤ) (now : ℕ) → IsListed (apply_all (record_ops t m ttl now) i)
  unfolding apply_op
  record-IsListed m ttl now u n stored = elim (Bool-cases (text_eq u t)) [
    | inl same ↦
        let new : some m ≡ some n =
          sym (record-meta i t m ttl now)
          ∙ ap (λ (x : String). (apply_all (record_ops t m ttl now) i).meta (meta_key x))
              (sym ((eq_iff u t).0 same))
          ∙ stored in
        let owner : user_jobs_key n.owner_user_id ≡ user_jobs_key m.owner_user_id = cc in
        rw (owner, eq_refl (user_jobs_key m.owner_user_id), (eq_iff u t).0 same, eq_refl t) refl
    | inr different ↦
        let old : i.meta (meta_key u) ≡ some n =
          sym (rw (other_meta_key t u (differs u t different)) refl) ∙ stored in
        ground (
          arith,
          different,
          has_entry-without_other i.entries (user_jobs_key n.owner_user_id)
              (user_jobs_key m.owner_user_id) t u different (listed u n old),
        )
  ]

  forget-IsListed : (owner : ℕ) → IsListed (apply_all (forget_ops t owner) i)
  unfolding apply_op
  forget-IsListed owner u n stored = elim (Bool-cases (text_eq u t)) [
    | inl same ↦
        let gone : none ≡ some n =
          sym (forget-meta i t owner)
          ∙ ap (λ (x : String). (apply_all (forget_ops t owner) i).meta (meta_key x))
              (sym ((eq_iff u t).0 same))
          ∙ stored in
        cc
    | inr different ↦
        let old : i.meta (meta_key u) ≡ some n =
          sym (forget-other i t u owner (differs u t different)) ∙ stored in
        has_entry-without_other _ (user_jobs_key n.owner_user_id) (user_jobs_key owner) t u
          different
          (has_entry-without_key i.entries (user_jobs_key n.owner_user_id) (meta_key t) u
            (user_jobs_is_no_meta_key t n.owner_user_id) (listed u n old))
  ]

module _ (ran : History → Bool) (env : Env) (i : Index) where
  -- After a transaction, whether it raised or not, and whether Redis ran it or not.
  execute-IsListed :
      (h : History) (ops : List RedisOp)
      → IsListed (index_if ran i h)
      → IsListed (apply_all ops (index_if ran i h))
      → IsListed (index_if ran i (after (await (redis_execute ops) env h)))
  unfolding await
  execute-IsListed h ops before now = split (is_ok (env h (redis_execute ops)) || ran h)
    where
      split :
          (b : Bool) → IsListed (if b then apply_all ops (index_if ran i h) else index_if ran i h)
      split true = now
      split false = before

  -- While no key has expired, and with a time to live of at least a second, which Redis takes: whatever Redis
  -- and the clock answer or raise, and whether or not Redis ran a transaction that raised, recording a job
  -- and forgetting one leave each record in Redis listed under its owner, where each was listed before.
  pub jobs_stay-IsListed :
      (h : History) (t : String) (m : JobMeta) (seconds owner : ℕ)
      → IsListed (index_if ran i h)
      → IsListed (index_if ran i (after (record_job t m (pos (suc seconds)) env h)))
        × IsListed (index_if ran i (after (forget_job t owner env h)))
  unfolding record_job forget_job
  jobs_stay-IsListed h t m seconds owner listed = (
    clock (env h time) refl,
    execute-IsListed h (forget_ops t owner) listed
        (forget-IsListed (index_if ran i h) t listed owner),
  )
    where
      ttl : ℤ
      ttl = pos (suc seconds)

      told : Result (Unit {0}) × History → Type 0
      told p = IsListed (index_if ran i p.1)

      recorded_at :
          (now : ℕ) (k : History)
          → IsListed (index_if ran i k)
          → IsListed (index_if ran i (after (await (redis_execute (record_ops t m ttl now)) env k)))
      recorded_at now k before =
          execute-IsListed k (record_ops t m ttl now) before
            (record-IsListed (index_if ran i k) t before m ttl now)

      read : (b : Bool) → IsListed (if b then index_if ran i h else index_if ran i h)
      read true = listed
      read false = listed

      clock :
          (r : Result ℕ)
          → env h time ≡ r
          → IsListed (index_if ran i (after (record_job t m ttl env h)))
      clock (ok now) e =
          subst told (sym (await_bind-ok time _ env h now e)) (recorded_at now _ (read true))
      clock (raised x) e = subst told (sym (await_bind-raised time _ env h x e)) (read (ran h))
