-- ===== src/Keys/Distinct.antt =====
-- The Redis keys of a task never meet: not each other, nor those of another task.
use Prim.Native.Char.{Char, code}
use Prim.Native.String.{◌++◌}
use text.Mathlib.TextLemmas.{
  nil-append, cons-append, append_assoc, append_cancel_left, append_cancel_right,
}
use discord_downloader_bot.Prelude.{ℕ, String, ◌≡◌, ◌≢◌, sym, ap, ◌∙◌, arith, ◌↔◌}
use discord_downloader_bot.Keys.{meta_key, archive_url_key, delivered_key}

-- The last character of a text, or `d`.
last : String → ℕ → ℕ
last String.[] d = d
last (String.◌∷◌ c s) d = last s (code c)

last-append :
    (s : String) (c : Char) (u : String) (d : ℕ)
    → last (s ++ String.◌∷◌ c u) d ≡ last (String.◌∷◌ c u) d
unfolding last
last-append String.[] c u d = rw nil-append
last-append (String.◌∷◌ x s) c u d = rw cons-append (last-append s c u (code x))

abbrev end : String → ℕ
end k = last k 0

last_of_key :
    (t : String) (c : Char) (u : String)
    → last ("task:" ++ (t ++ String.◌∷◌ c u)) 0 ≡ last (String.◌∷◌ c u) 0
last_of_key t c u =
    ap end (sym (append_assoc "task:" t (String.◌∷◌ c u))) ∙ last-append ("task:" ++ t) c u 0

pub archive-ne-delivered : (s t : String) → archive_url_key s ≢ delivered_key t
unfolding last archive_url_key delivered_key
archive-ne-delivered s t e =
    omega (arith, last_of_key s ":" "archive_url", last_of_key t ":" "delivered", ap end e)

-- A key of a task is no key of another family, whatever the tasks, and no key of another task.
pub keys_distinct :
    (s t : String)
    → (meta_key s ≢ archive_url_key t)
      × (meta_key s ≢ delivered_key t)
      × (archive_url_key s ≢ delivered_key t)
      × ((meta_key s ≡ meta_key t) ↔ (s ≡ t))
      × ((archive_url_key s ≡ archive_url_key t) ↔ (s ≡ t))
      × ((delivered_key s ≡ delivered_key t) ↔ (s ≡ t))
unfolding last meta_key archive_url_key delivered_key
keys_distinct s t = (
  λ e. omega (arith, last_of_key s ":" "meta", last_of_key t ":" "archive_url", ap end e),
  λ e. omega (arith, last_of_key s ":" "meta", last_of_key t ":" "delivered", ap end e),
  archive-ne-delivered s t,
  (λ e. append_cancel_right s t ":meta" (append_cancel_left "task:" _ _ e), ap meta_key),
  (
    λ e. append_cancel_right s t ":archive_url" (append_cancel_left "task:" _ _ e),
    ap archive_url_key,
  ),
  (λ e. append_cancel_right s t ":delivered" (append_cancel_left "task:" _ _ e), ap delivered_key),
)
