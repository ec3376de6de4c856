-- ===== src/Tasks/Download/Filename.antt =====
-- `_display_filename` of tasks/download.py, on code points.
use discord_downloader_bot.Prelude.{
  ℕ, String, Bool, false, ◌||◌, Option, none, some, List, [], ◌∷◌, ◌++◌, ◌==◌, if◌then◌else◌,
}
use mathlib.Core.List.{reverse}
use Prim.Native.String.{◌++◌ as append}
use discord_downloader_bot.Unicode.{codes, is_space}
use discord_downloader_bot.Keys.{decimal}
use discord_downloader_bot.Data.{Channel}

-- The class `[\\/:*?"<>|\s]`.
unfoldable pub is_unsafe : ℕ → Bool
is_unsafe c =
    c == b'\\'
    || (c == b'/'
        || (c == b':'
            || (c == b'*'
                || (c == b'?'
                    || (c == b'"' || (c == b'<' || (c == b'>' || (c == b'|' || is_space c))))))))

-- `re.sub(class+, "-", s)`: a run of the class becomes one dash. `inside` is true in a run.
unfoldable pub dash_runs : Bool → List ℕ → List ℕ
unfolding is_unsafe
dash_runs inside [] = []
dash_runs inside (c ∷ s) =
    let rest = dash_runs (is_unsafe c) s in
    if is_unsafe c then (if inside then rest else b'-' ∷ rest) else c ∷ rest

abbrev pub drop_dashes : List ℕ → List ℕ
drop_dashes [] = []
drop_dashes (c ∷ s) = if c == b'-' then drop_dashes s else c ∷ s

-- `.strip("-")`
unfoldable pub strip_dashes : List ℕ → List ℕ
strip_dashes s = reverse (drop_dashes (reverse (drop_dashes s)))

-- `getattr(channel, "name", None) or f"id-{channel.id}"`
unfoldable pub raw_name : Channel → List ℕ
raw_name channel = or_id (codes (name_text channel.name))
  where
    name_text : Option String → String
    name_text none = ""
    name_text (some name) = name

    or_id : List ℕ → List ℕ
    or_id [] = codes (append "id-" (decimal channel.id))
    or_id (c ∷ s) = c ∷ s

abbrev pub or_unnamed : List ℕ → List ℕ
or_unnamed [] = codes "unnamed"
or_unnamed (c ∷ s) = c ∷ s

-- `today` is `date.today().isoformat()`.
unfoldable pub display_filename : Channel → List ℕ → List ℕ
unfolding dash_runs strip_dashes raw_name
display_filename channel today =
    codes "channel-"
    ++ (or_unnamed (strip_dashes (dash_runs false (raw_name channel)))
        ++ (codes "-" ++ (today ++ codes ".zip")))
