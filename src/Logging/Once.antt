-- ===== src/Logging/Once.antt =====
-- However often `init_logger` is called, a logger has one handler.
use discord_downloader_bot.Prelude.{
  ℕ, String, ◌≡◌, refl, sym, ap, ◌∙◌, Option, none, some, List, [], ◌∷◌, text_eq, eq_iff, get_or,
  Bool-cases, inl, inr, if◌then◌else◌,
}
use discord_downloader_bot.Logging.{
  Formatter, logging_formatter, Logger, Loggers, level_number, attach, configure, get_logger,
  init_logger,
}

-- The calls that modules make as they are imported, one after the other, each whatever became of those
-- before.
pub init_all : String → List (String × Option Formatter) → Loggers → Loggers
init_all logging_level [] s = s
init_all logging_level ((name, formatter) ∷ calls) s =
    init_all logging_level calls (init_logger logging_level s name formatter).1

-- The formatter of the first call for a name.
abbrev pub first_for : String → List (String × Option Formatter) → Option Formatter
first_for name [] = none
first_for name ((n, formatter) ∷ calls) =
    let later = first_for name calls in
    if text_eq name n then some (get_or formatter logging_formatter) else later

abbrev pub set_up : ℕ → Formatter → Logger
set_up level formatter = record { level = level; handlers = formatter ∷ [] }

abbrev pub expected : ℕ → Option Formatter → Option Logger
expected level none = none
expected level (some formatter) = some (set_up level formatter)

module _ (logging_level : String) (level : ℕ)
    (known : level_number logging_level ≡ some level) where
  stepped :
      (s : Loggers) (n name : String) (formatter : Option Formatter)
      → (init_logger logging_level s n formatter).1 name ≡ (
          if text_eq name n
          then some (attach formatter (record (get_logger s n) { level = level }))
          else s name)
  unfolding init_logger
  stepped s n name formatter = ap (λ o. (configure s n formatter o).1 name) known

  -- A logger that is set up stays as it is.
  step-keeps :
      (s : Loggers) (n name : String) (formatter : Option Formatter) (f : Formatter)
      → s name ≡ some (set_up level f)
      → (init_logger logging_level s n formatter).1 name ≡ some (set_up level f)
  unfolding attach
  step-keeps s n name formatter f e = elim (Bool-cases (text_eq name n)) [
    | inl same ↦
        let here : s n ≡ some (set_up level f) = ap s (sym ((eq_iff name n).0 same)) ∙ e in
        stepped s n name formatter ∙ rw (same, here) refl
    | inr other ↦ stepped s n name formatter ∙ rw other e
  ]

  init_all-keeps :
      (calls : List (String × Option Formatter)) (s : Loggers) (name : String) (f : Formatter)
      → s name ≡ some (set_up level f)
      → init_all logging_level calls s name ≡ some (set_up level f)
  unfolding init_all
  init_all-keeps [] s name f e = e
  init_all-keeps ((n, formatter) ∷ calls) s name f e =
      init_all-keeps calls (init_logger logging_level s n formatter).1 name f
        (step-keeps s n name formatter f e)

  -- Where LOGGING_LEVEL is the name of a level, a logger that was not there before has, after any calls
  -- of init_logger, the formatter of the first call for its name as its only handler, and that level;
  -- without a call for its name it is still not there.
  pub init_all-first :
      (calls : List (String × Option Formatter)) (s : Loggers) (name : String)
      → s name ≡ none
      → init_all logging_level calls s name ≡ expected level (first_for name calls)
  unfolding init_all attach
  init_all-first [] s name e = e
  init_all-first ((n, formatter) ∷ calls) s name e = elim (Bool-cases (text_eq name n)) [
    | inl same ↦
        let here : s n ≡ none = ap s (sym ((eq_iff name n).0 same)) ∙ e in
        let made : (init_logger logging_level s n formatter).1 name
            ≡ some (set_up level (get_or formatter logging_formatter)) =
          stepped s n name formatter ∙ rw (same, here) refl in
        init_all-keeps calls (init_logger logging_level s n formatter).1 name _ made ∙ rw same refl
    | inr other ↦
        init_all-first calls (init_logger logging_level s n formatter).1 name
          (stepped s n name formatter ∙ rw other e)
        ∙ rw other refl
  ]
