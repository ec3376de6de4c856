-- ===== src/Storage/Header.antt =====
-- The Content-Disposition header of a download whose name is not ASCII, as a browser reads it.
use discord_downloader_bot.Prelude.{
  ℕ, ◌<◌, ◌≡◌, refl, true, false, List, [], ◌∷◌, ◌++◌, all, any, All, Bool-cases, inl, inr, length,
  arith,
}
use discord_downloader_bot.Unicode.{codes}
use discord_downloader_bot.World.{Result, ok, raised, value_error}
use discord_downloader_bot.Storage.Disposition.{
  is_ascii, ascii_replace, quote, is_surrogate, parse_quote, format_content_disposition,
}
use discord_downloader_bot.Storage.RoundTrip.{is_attribute_char, decode, unquote, decode-quote}

-- The header has an ASCII name as long as the file's, and an extended name that is made of attribute
-- characters and stands for the file's.
abbrev pub Names : List ℕ → List ℕ → Type 0
Names filename header =
    (fallback : List ℕ) × (encoded : List ℕ) × (header
      ≡ codes "attachment; filename=\"" ++ (fallback ++ (codes "\"; filename*=UTF-8''" ++ encoded)))
    × (is_ascii fallback ≡ true)
    × (length fallback ≡ length filename)
    × (all is_attribute_char encoded ≡ true)
    × (decode (unquote encoded) ≡ filename)

replaced-is_ascii : (s : List ℕ) → is_ascii (ascii_replace s) ≡ true
replaced-is_ascii [] = refl
replaced-is_ascii (c ∷ s) = ground (arith, replaced-is_ascii s)

length-replaced : (s : List ℕ) → length (ascii_replace s) ≡ length s
length-replaced [] = refl
length-replaced (c ∷ s) = omega (arith, length-replaced s)

-- What becomes of a name: a header that names it, or a UnicodeEncodeError for a lone surrogate in it.
abbrev pub Describes : List ℕ → Result (List ℕ) → Type 0
Describes filename (ok header) = (any is_surrogate filename ≡ false) × Names filename header
Describes filename (raised e) = (any is_surrogate filename ≡ true) × (e ≡ value_error)

-- For a name that is not ASCII, of code points below 1114112: where one of them is a surrogate,
-- UnicodeEncodeError is raised; else the header has an ASCII name of the same length, and an extended name of
-- letters, digits, `_.-~` and `%` that decodes, read as UTF-8, to the name.
pub format_content_disposition-Names :
    (filename : List ℕ)
    → is_ascii filename ≡ false
    → All (λ c. c < 1114112) filename
    → Describes filename (format_content_disposition filename)
unfolding format_content_disposition parse_quote
format_content_disposition-Names filename foreign a =
    elim (Bool-cases (any is_surrogate filename)) [
      | inl bad ↦ rw (foreign, bad) (bad, refl)
      | inr good ↦
          let (chars, back) = decode-quote filename a in
          rw (foreign, good)
            (
              good,
              (
                ascii_replace filename,
                quote filename,
                refl,
                replaced-is_ascii filename,
                length-replaced filename,
                chars,
                back,
              ),
            )
    ]
