-- ===== src/Cogs/Jobs/Access.antt =====
-- `_TASK_ID_RE`, `_resolve_job` and `_can_act_on` of cogs/jobs.py.
use discord_downloader_bot.Prelude.{
  ℕ, zero, suc, String, Bool, true, false, ◌&&◌, ◌||◌, Option, none, some, List, [], ◌∷◌, leb, ◌==◌,
  if◌then◌else◌,
}
use discord_downloader_bot.Data.{JobMeta}
use discord_downloader_bot.World.{Exec, await, pure, ◌>>=◌, is_bot_owner}
use discord_downloader_bot.Unicode.{codes}
use discord_downloader_bot.Download.Jobs.{get_job_meta, latest_job_for_user}
use discord_downloader_bot.Cogs.Context.{Guild, Context}

-- `[0-9a-f]` under IGNORECASE
unfoldable pub is_hex : ℕ → Bool
is_hex c = leb b'0' c && leb c b'9' || (leb b'a' c && leb c b'f' || leb b'A' c && leb c b'F')

-- `$` matches at the end, and before a newline at the end.
abbrev pub at_end : List ℕ → Bool
at_end [] = true
at_end (c ∷ []) = c == 10
at_end (c ∷ d ∷ s) = false

unfoldable pub hex_run : ℕ → List ℕ → Bool
hex_run zero s = at_end s
hex_run (suc n) [] = false
hex_run (suc n) (c ∷ s) = is_hex c && hex_run n s

-- `_TASK_ID_RE.match`
unfoldable pub is_task_id : String → Bool
unfolding hex_run is_hex
is_task_id s = hex_run 32 (codes s)

abbrev pub owns_guild : Context → Option Guild → Option ℕ → Bool
owns_guild c none guild_id = false
owns_guild c (some g) none = false
owns_guild c (some g) (some id) = id == g.id && c.author_id == g.owner_id

-- `_can_act_on`
unfoldable pub can_act_on : Context → JobMeta → Exec Bool
can_act_on c meta = if meta.owner_user_id == c.author_id then pure true else do
  bot_owner ← await (is_bot_owner c.author_id)
  pure (if bot_owner then true else owns_guild c c.guild meta.guild_id)

-- The id that the command is about.
unfoldable pub target : Context → Option String → Exec (Option String)
target c none = latest_job_for_user c.author_id
target c (some task_id) = pure (if is_task_id task_id then some task_id else none)

abbrev pub authorised : Context → String → Option JobMeta → Exec (Option (String × JobMeta))
authorised c task_id none = pure none
authorised c task_id (some meta) = do
  may ← can_act_on c meta
  pure (if may then some (task_id, meta) else none)

abbrev pub with_target : Context → Option String → Exec (Option (String × JobMeta))
with_target c none = pure none
with_target c (some task_id) = do meta ← get_job_meta task_id; authorised c task_id meta

-- `_resolve_job`
unfoldable pub resolve_job : Context → Option String → Exec (Option (String × JobMeta))
resolve_job c task_id = do found ← target c task_id; with_target c found
