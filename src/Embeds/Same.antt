-- ===== src/Embeds/Same.antt =====
-- Whether two messages are the same.
use discord_downloader_bot.Prelude.{
  Bool, true, false, ◌&&◌, ◌≡◌, refl, Option, none, some, List, [], ◌∷◌, text_eq, eq_refl, ◌==◌,
  arith,
}
use discord_downloader_bot.Data.{
  Piece, str, int, relative_time, capitalized, Colour, green, red, blurple, Field, Embed,
}

abbrev pub same_piece : Piece → Piece → Bool
same_piece (str a) (str b) = text_eq a b
same_piece (int a) (int b) = a == b
same_piece (relative_time a) (relative_time b) = a == b
same_piece (capitalized a) (capitalized b) = text_eq a b
same_piece a b = false

abbrev pub same_pieces : List Piece → List Piece → Bool
same_pieces [] [] = true
same_pieces (p ∷ ps) (q ∷ qs) = same_piece p q && same_pieces ps qs
same_pieces ps qs = false

abbrev pub same_text : Option (List Piece) → Option (List Piece) → Bool
same_text none none = true
same_text (some a) (some b) = same_pieces a b
same_text a b = false

abbrev pub same_colour : Colour → Colour → Bool
same_colour green green = true
same_colour red red = true
same_colour blurple blurple = true
same_colour a b = false

abbrev pub same_inline : Bool → Bool → Bool
same_inline true true = true
same_inline false false = true
same_inline a b = false

abbrev pub same_fields : List Field → List Field → Bool
same_fields [] [] = true
same_fields (f ∷ fs) (g ∷ gs) =
    (text_eq f.name g.name && (same_pieces f.value g.value && same_inline f.inline g.inline))
    && same_fields fs gs
same_fields fs gs = false

-- The title, the description, the colour, the fields and the footer are the same.
abbrev pub same_embed : Embed → Embed → Bool
same_embed a b =
    text_eq a.title b.title
    && (same_text a.description b.description
        && (same_colour a.colour b.colour
            && (same_fields a.fields b.fields && same_text a.footer b.footer)))

piece-same : (p : Piece) → same_piece p p ≡ true
piece-same (str a) = eq_refl a
piece-same (int a) = ground arith
piece-same (relative_time a) = ground arith
piece-same (capitalized a) = eq_refl a

pieces-same : (ps : List Piece) → same_pieces ps ps ≡ true
pieces-same [] = refl
pieces-same (p ∷ ps) = rw (piece-same p) (pieces-same ps)

text-same : (t : Option (List Piece)) → same_text t t ≡ true
text-same none = refl
text-same (some ps) = pieces-same ps

colour-same : (c : Colour) → same_colour c c ≡ true
colour-same green = refl
colour-same red = refl
colour-same blurple = refl

inline-same : (b : Bool) → same_inline b b ≡ true
inline-same true = refl
inline-same false = refl

fields-same : (fs : List Field) → same_fields fs fs ≡ true
fields-same [] = refl
fields-same (f ∷ fs) =
    rw (eq_refl f.name, pieces-same f.value, inline-same f.inline) (fields-same fs)

pub embed-same : (e : Embed) → same_embed e e ≡ true
embed-same e =
    rw (eq_refl e.title, text-same e.description, colour-same e.colour, fields-same e.fields)
      (text-same e.footer)
