-- ===== src/Logging.antt =====
-- logging_setup.py: the coloured formatter, and the loggers that `init_logger` sets up. Texts are lists
-- of code points. Of the module `logging`, what the file uses of it: the table of loggers by name, the
-- names of the levels, and the rendering of a format in the style `{`.
pub mod Plain
pub mod Once
use discord_downloader_bot.Prelude.{
  ℕ, zero, suc, ◌-◌, String, Bool, true, false, Option, none, some, List, [], ◌∷◌, ◌++◌, length,
  ◌==◌, text_eq, if◌then◌else◌, get_or,
}
use discord_downloader_bot.Unicode.{codes, codes_eq, is_prefix}
use discord_downloader_bot.World.{Exn, value_error, Result, ok, raised}

-- An ANSI sequence: the escape character and what follows it.
abbrev pub ansi : String → List ℕ
ansi s = 27 ∷ codes s

abbrev pub black : List ℕ
black = ansi "[30m"

abbrev pub red : List ℕ
red = ansi "[31m"

abbrev pub green : List ℕ
green = ansi "[32m"

abbrev pub yellow : List ℕ
yellow = ansi "[33m"

abbrev pub blue : List ℕ
blue = ansi "[34m"

abbrev pub gray : List ℕ
gray = ansi "[38m"

abbrev pub reset : List ℕ
reset = ansi "[0m"

abbrev pub bold : List ℕ
bold = ansi "[1m"

-- `COLORS`, by the numbers of DEBUG, INFO, WARNING, ERROR and CRITICAL; `none` is a `KeyError`.
unfoldable pub colors : ℕ → Option (List ℕ)
colors levelno =
    if levelno == 10
    then some (gray ++ bold)
    else if levelno == 20
    then some (blue ++ bold)
    else if levelno == 30
    then some (yellow ++ bold)
    else if levelno == 40
    then some red
    else if levelno == 50
    then some (red ++ bold)
    else none

-- `str.replace` of a text that is not empty; the number is how much of a match is still to be passed.
unfoldable pub replace_from : List ℕ → List ℕ → ℕ → List ℕ → List ℕ
replace_from old new skip [] = []
replace_from old new (suc skip) (c ∷ s) = replace_from old new skip s
replace_from old new zero (c ∷ s) =
    let found = is_prefix old (c ∷ s) in
    (if found then new else c ∷ []) ++ replace_from old new (if found then length old - 1 else 0) s

unfoldable pub replace : List ℕ → List ℕ → List ℕ → List ℕ
unfolding replace_from
replace s old new = replace_from old new 0 s

-- What a record holds when it is rendered: `asctime` is its time in the format of the dates, and
-- `appended` is what `Formatter.format` adds for an exception or a stack.
pub record LogRecord : Type 0 where
  pub levelno : ℕ
  pub levelname : List ℕ
  pub name : List ℕ
  pub asctime : List ℕ
  pub message : List ℕ
  pub appended : List ℕ

abbrev pub spaces : ℕ → List ℕ
spaces zero = []
spaces (suc n) = b' ' ∷ spaces n

-- `{…:<8}`
abbrev pub padded : List ℕ → List ℕ
padded s = s ++ spaces (8 - length s)

-- A field of the format.
unfoldable pub field : LogRecord → List ℕ → List ℕ
field r name =
    if codes_eq name (codes "asctime")
    then r.asctime
    else if codes_eq name (codes "levelname:<8")
    then padded r.levelname
    else if codes_eq name (codes "name")
    then r.name
    else r.message

-- `str.format`: outside the braces, and inside them with the name so far.
unfoldable pub render_from : LogRecord → Option (List ℕ) → List ℕ → List ℕ
unfolding field
render_from r inside [] = []
render_from r none (c ∷ s) =
    let opens = c == b'{' in
    (if opens then [] else c ∷ []) ++ render_from r (if opens then some [] else none) s
render_from r (some name) (c ∷ s) =
    let closes = c == b'}' in
    (if closes then field r name else [])
    ++ render_from r (if closes then none else some (name ++ c ∷ [])) s

abbrev pub log_format : List ℕ
log_format =
    codes "(black){asctime}(reset) (levelcolor){levelname:<8}(reset) (green){name}(reset) {message}"

-- The format with the colour of a level.
unfoldable pub coloured : List ℕ → List ℕ
unfolding replace
coloured log_color =
    let blackened = replace log_format (codes "(black)") (black ++ bold) in
    let with_reset = replace blackened (codes "(reset)") reset in
    let with_level = replace with_reset (codes "(levelcolor)") log_color in
    replace with_level (codes "(green)") (green ++ bold)

abbrev pub format_with : LogRecord → Option (List ℕ) → Option (List ℕ)
format_with r none = none
format_with r (some log_color) = some (render_from r none (coloured log_color) ++ r.appended)

-- `LoggingFormatter.format`
unfoldable pub format : LogRecord → Option (List ℕ)
unfolding colors coloured render_from
format r = format_with r (colors r.levelno)

-- The formatter of a handler: the coloured one, or one that the caller gave.
pub data Formatter : Type 0 where
  logging_formatter : Formatter
  given : ℕ → Formatter

-- A logger, with the formatters of its handlers.
pub record Logger : Type 0 where
  pub level : ℕ
  pub handlers : List Formatter

-- The loggers by name.
abbrev pub Loggers : Type 0
Loggers = String → Option Logger

abbrev pub update : Loggers → String → Logger → Loggers
update s name l = λ n. if text_eq n name then some l else s n

-- `logging.getLogger`: the logger of the name, made without handlers at its first use.
abbrev pub get_logger : Loggers → String → Logger
get_logger s name = get_or (s name) (record { level = 0; handlers = [] })

-- `logging._nameToLevel`; `none` is a `ValueError`.
unfoldable pub level_number : String → Option ℕ
level_number name =
    if text_eq name "CRITICAL"
    then some 50
    else if text_eq name "FATAL"
    then some 50
    else if text_eq name "ERROR"
    then some 40
    else if text_eq name "WARN"
    then some 30
    else if text_eq name "WARNING"
    then some 30
    else if text_eq name "INFO"
    then some 20
    else if text_eq name "DEBUG"
    then some 10
    else if text_eq name "NOTSET"
    then some 0
    else none

unfoldable pub attach : Option Formatter → Logger → Logger
attach formatter l = elim l.handlers [
  | [] ↦ record l { handlers = get_or formatter logging_formatter ∷ [] }
  | _ ∷ _ ↦ l
]

abbrev pub configure : Loggers → String → Option Formatter → Option ℕ → Result Logger × Loggers
configure s name formatter none = (raised value_error, update s name (get_logger s name))
configure s name formatter (some level) =
    let l = attach formatter (record (get_logger s name) { level = level }) in
    (ok l, update s name l)

-- `init_logger`, with the LOGGING_LEVEL of the settings.
unfoldable pub init_logger : String → Loggers → String → Option Formatter → Result Logger × Loggers
unfolding level_number attach
init_logger logging_level s name formatter = configure s name formatter (level_number logging_level)
