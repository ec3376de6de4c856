-- ===== src/Bot/Lifecycle/Cogs.antt =====
-- Which extensions are loaded.
use mathlib.Core.List.{reverse, filter_map, append_assoc, reverse-cons}
use discord_downloader_bot.Prelude.{
  ℕ, ◌≡◌, refl, sym, ap, ◌∙◌, ◌↔◌, ◌⊎◌, inl, inr, Bool, true, false, none, some, List, [], ◌∷◌,
  ◌++◌, map, length, length-append, arith, Bool-cases, Option-cases,
}
use discord_downloader_bot.Unicode.{codes, codes_eq, is_prefix, codes_eq-eq}
use discord_downloader_bot.World.{
  extension_error, ok, raised, Call, Env, History, result, after, ◌>>=◌, load_extension,
}
use discord_downloader_bot.World.Trace.{calls}
use discord_downloader_bot.World.Steps.{>>=-ok, pure_lem}
use discord_downloader_bot.Bot.Lifecycle.{stem, extension_of, load_if, load_cogs}

stem-only : (file name : List ℕ) → stem file ≡ some name → file ≡ name ++ codes ".py"
unfolding stem
stem-only [] name e = cc
stem-only (c ∷ s) name e = elim (Bool-cases (codes_eq (c ∷ s) (codes ".py"))) [
  | inl h ↦
      let found : stem (c ∷ s) ≡ some [] = rw h refl in
      let empty : [] ≡ name = cc in
      codes_eq-eq (c ∷ s) (codes ".py") h ∙ ap (λ l. l ++ codes ".py") empty
  | inr h ↦ elim (Option-cases (stem s)) [
    | inl r ↦ let lost : stem (c ∷ s) ≡ none = rw (h, r) refl in cc
    | inr (t, r) ↦
        let found : stem (c ∷ s) ≡ some (c ∷ t) = rw (h, r) refl in
        let whole : c ∷ t ≡ name = cc in
        ap (c ∷◌) (stem-only s t r) ∙ ap (λ l. l ++ codes ".py") whole
  ]
]

stem-every : (name : List ℕ) → stem (name ++ codes ".py") ≡ some name
unfolding stem
stem-every [] = refl
stem-every (c ∷ name) = elim (Bool-cases (codes_eq (c ∷ (name ++ codes ".py")) (codes ".py"))) [
  | inl h ↦
      let same = ap length (codes_eq-eq (c ∷ (name ++ codes ".py")) (codes ".py") h) in
      let more = length-append name (codes ".py") in ground arith
  | inr h ↦ rw (h, stem-every name) refl
]

-- The extensions are those of the files `<name>.py` whose names do not begin with `_`.
pub extension_of_iff :
    (file extension : List ℕ)
    → (extension_of file ≡ some extension) ↔ (
        (name : List ℕ) × (file ≡ name ++ codes ".py")
        × (is_prefix (codes "_") file ≡ false)
        × (extension ≡ codes "downloader_bot.cogs." ++ name))
unfolding extension_of
extension_of_iff file extension = (only, every)
  where
    only :
        extension_of file ≡ some extension
        → (name : List ℕ) × (file ≡ name ++ codes ".py")
          × (is_prefix (codes "_") file ≡ false)
          × (extension ≡ codes "downloader_bot.cogs." ++ name)
    only e = elim (Bool-cases (is_prefix (codes "_") file)) [
      | inl h ↦ let lost : extension_of file ≡ none = rw h refl in cc
      | inr h ↦ elim (Option-cases (stem file)) [
        | inl r ↦ let lost : extension_of file ≡ none = rw (h, r) refl in cc
        | inr (t, r) ↦
            let found : extension_of file ≡ some (codes "downloader_bot.cogs." ++ t) =
              rw (h, r) refl in
            (t, stem-only file t r, h, cc)
      ]
    ]

    every :
        ((name : List ℕ) × (file ≡ name ++ codes ".py")
          × (is_prefix (codes "_") file ≡ false)
          × (extension ≡ codes "downloader_bot.cogs." ++ name))
        → extension_of file ≡ some extension
    every (name, e, f, g) =
        let found : stem file ≡ some name = ap stem e ∙ stem-every name in rw (f, found, g) refl

-- Each loading returns, or raises one of the four errors of an extension.
abbrev pub LoadsOrFails : Env → Type 0
LoadsOrFails env =
    (h : History) (x : List ℕ)
    → (env h (load_extension x) ≡ ok tt) ⊎ (env h (load_extension x) ≡ raised extension_error)

load_if-tries :
    (env : Env) (h : History) (x : List ℕ)
    → LoadsOrFails env
    → (b : Bool) × (load_if (some x) env h
        ≡ (ok tt, record { call = load_extension x; returned = b } ∷ h))
unfolding ◌>>=◌
load_if-tries env h x answers = elim (answers h x) [
  | inl e ↦ (true, simp e refl)
  | inr e ↦ (false, simp e refl)
]

load_cogs-step :
    (env : Env) (file : List ℕ) (files : List (List ℕ)) (h h' : History)
    → load_if (extension_of file) env h ≡ (ok tt, h')
    → load_cogs (file ∷ files) env h ≡ load_cogs files env h'
unfolding load_cogs
load_cogs-step env file files h h' run = >>=-ok _ (λ _. load_cogs files) env h h' tt run

skipped :
    (file : List ℕ) (files : List (List ℕ))
    → extension_of file ≡ none
    → filter_map extension_of (file ∷ files) ≡ filter_map extension_of files
unfolding filter_map
skipped file files r = rw r refl

kept :
    (file x : List ℕ) (files : List (List ℕ))
    → extension_of file ≡ some x
    → filter_map extension_of (file ∷ files) ≡ x ∷ filter_map extension_of files
unfolding filter_map
kept file x files r = rw r refl

-- Where each loading returns or raises one of the four errors of an extension, `load_cogs` returns, and has
-- tried the extension of each file that has one, once, in the order of the files.
pub load_cogs-tries_each :
    (env : Env) (files : List (List ℕ)) (h : History)
    → LoadsOrFails env
    → (result (load_cogs files env h) ≡ ok tt)
      × (calls (after (load_cogs files env h))
          ≡ reverse (map load_extension (filter_map extension_of files)) ++ calls h)
unfolding load_cogs filter_map
load_cogs-tries_each env [] h answers = rw (pure_lem tt env h) (refl, refl)
load_cogs-tries_each env (file ∷ files) h answers = elim (Option-cases (extension_of file)) [
  | inl r ↦
      let run : load_if (extension_of file) env h ≡ (ok tt, h) = rw r (pure_lem tt env h) in
      rw (load_cogs-step env file files h h run, skipped file files r)
        (load_cogs-tries_each env files h answers)
  | inr (x, r) ↦
      let (b, tried) = load_if-tries env h x answers in
      let h' : History = record { call = load_extension x; returned = b } ∷ h in
      let run : load_if (extension_of file) env h ≡ (ok tt, h') = rw r tried in
      let (returns, rest) = load_cogs-tries_each env files h' answers in
      rw (load_cogs-step env file files h h' run, kept file x files r)
        (returns, rest ∙ sym (next x (map load_extension (filter_map extension_of files))))
]
  where
    next :
        (x : List ℕ) (l : List Call)
        → reverse (load_extension x ∷ l) ++ calls h ≡ reverse l ++ (load_extension x ∷ calls h)
    next x l =
        ap (λ (k : List Call). k ++ calls h) (reverse-cons (load_extension x) l)
        ∙ append_assoc (reverse l) (load_extension x ∷ []) (calls h)
