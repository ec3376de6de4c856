-- ===== src/Download/Deliver/Sent.antt =====
-- A delivery that returns has sent the message.
use discord_downloader_bot.Prelude.{
  ℕ, Bool, true, false, ◌&&◌, ◌≡◌, refl, ap, ◌∙◌, sym, [], ◌∷◌, ◌++◌, any, arith,
}
use mathlib.Core.List.{append_assoc}
use discord_downloader_bot.Data.{Embed}
use discord_downloader_bot.World.{
  Exn, Result, ok, raised, Call, Event, Env, History, fetch_user, fetch_channel, user_send,
  channel_send, forbidden, not_found, type_error, ◌>>=◌, raise, catch, after, result,
}
use discord_downloader_bot.World.Trace.{Extends}
use discord_downloader_bot.Download.Deliver.{dm_user, send_to_channel, fall_back, post_to_channel}
use discord_downloader_bot.Download.Deliver.Calls.{is_delivery, send_to_channel-Makes}

abbrev pub is_send : Call → Bool
is_send (user_send _ _) = true
is_send (channel_send _ _) = true
is_send _ = false

-- A message that went out.
abbrev pub is_sent : Event → Bool
is_sent e = e.returned && is_send e.call

-- Between `h` and `h'` a message went out.
abbrev pub Sent : History → History → Type 0
Sent h h' = (new : History) × (h' ≡ new ++ h) × (any is_sent new ≡ true)

pub any-append : (xs ys : History) → any is_sent xs ≡ true → any is_sent (xs ++ ys) ≡ true
any-append [] ys h = cc
any-append (x ∷ xs) ys h = ground (arith, any-append xs ys)

Sent-after : (h h' h'' : History) (P : Call → Bool) → Extends P h h' → Sent h' h'' → Sent h h''
Sent-after h h' h'' P (xs, ex, _) (ys, ey, sent) =
    (ys ++ xs, ey ∙ ap (◌++◌ ys) ex ∙ sym (append_assoc ys xs h), any-append ys xs sent)

pub dm_user-Sent :
    (env : Env) (h : History) (u : ℕ) (embed : Embed)
    → (dm_user u embed env h).0 ≡ ok tt
    → Sent h (dm_user u embed env h).1
unfolding dm_user ◌>>=◌
dm_user-Sent env h u embed e = (
  record { call = user_send u embed; returned = true }
      ∷ record { call = fetch_user u; returned = true }
      ∷ [],
  ground arith,
  refl,
)

fall_back-Sent :
    (env : Env) (h : History) (u : ℕ) (embed : Embed) (x : Exn)
    → (fall_back u embed x env h).0 ≡ ok tt
    → Sent h (fall_back u embed x env h).1
unfolding raise
fall_back-Sent env h u embed not_found e = dm_user-Sent env h u embed e
fall_back-Sent env h u embed forbidden e = dm_user-Sent env h u embed e
fall_back-Sent env h u embed type_error e = dm_user-Sent env h u embed e
fall_back-Sent env h u embed _ e = cc

send_to_channel-Sent :
    (env : Env) (h : History) (c : ℕ) (embed : Embed)
    → (send_to_channel c embed env h).0 ≡ ok tt
    → Sent h (send_to_channel c embed env h).1
unfolding ◌>>=◌
send_to_channel-Sent env h c embed e = (
  record { call = channel_send c embed; returned = true }
      ∷ record { call = fetch_channel c; returned = true }
      ∷ [],
  ground arith,
  refl,
)

pub post_to_channel-Sent :
    (env : Env) (h : History) (c u : ℕ) (embed : Embed)
    → (post_to_channel c embed u env h).0 ≡ ok tt
    → Sent h (post_to_channel c embed u env h).1
unfolding post_to_channel catch
post_to_channel-Sent env h c u embed e =
    split (send_to_channel c embed env h) refl ((send_to_channel-Makes env c embed).at h)
      (send_to_channel-Sent env h c embed) e
  where
    split :
        (p : Result (Unit {0}) × History)
        → send_to_channel c embed env h ≡ p
        → Extends is_delivery h p.1
        → (p.0 ≡ ok tt → Sent h p.1)
        → (result {A = Unit {0}}
            (elim p.0 [ ok a ↦ (ok a, p.1) | raised x ↦ fall_back u embed x env p.1 ]))
          ≡ ok tt
        → Sent h (
            after {A = Unit {0}}
              (elim p.0 [ ok a ↦ (ok a, p.1) | raised x ↦ fall_back u embed x env p.1 ]))
    split (ok tt, h') q x s r = s refl
    split (raised x, h') q ext s r =
        Sent-after h h' _ is_delivery ext (fall_back-Sent env h' u embed x r)
