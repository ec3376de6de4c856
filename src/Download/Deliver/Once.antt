-- ===== src/Download/Deliver/Once.antt =====
-- A delivery that returns has sent one message, also by the fallback.
use discord_downloader_bot.Prelude.{
  ℕ, ◌≡◌, refl, sym, ap, Bool, true, false, inl, inr, arith, if◌then◌else◌,
}
use discord_downloader_bot.Data.{Embed}
use discord_downloader_bot.World.{
  Exn, forbidden, not_found, type_error, dm_unavailable, raised, History, Env, await, raise,
  fetch_user, user_send, fetch_channel, channel_send,
}
use discord_downloader_bot.World.Trace.{Makes-await}
use discord_downloader_bot.World.Steps.{>>=-eq-raised}
use discord_downloader_bot.World.Count.{
  count, Counted, Makes-Counted, Counted-bind, Counted-await, Counted-if, Counted-raise,
  Counted-catch_spared, await-spared,
}
use discord_downloader_bot.Download.Deliver.{
  wrap_forbidden, dm_user, fall_back, send_to_channel, post_to_channel,
}
use discord_downloader_bot.Download.Deliver.Sent.{is_send}

module _ (env : Env) where
  pub dm_user-Counted : (u : ℕ) (embed : Embed) → Counted is_send env 0 (dm_user u embed) (λ _. 1)
  unfolding dm_user
  dm_user-Counted u embed =
      Counted-bind 0 (await (fetch_user u)) _ (λ _. 0) (λ _. 1)
        (Makes-Counted 0 _ (Makes-await (fetch_user u) refl))
        λ _.
          Counted-catch_spared 0 _ _ (λ _. 1)
            (Counted-await 0 (user_send u embed) (λ _. 1) (λ _. refl))
            (await-spared is_send env (user_send u embed)) wrapped
    where
      wrapped : (x : Exn) → Counted is_send env 0 (wrap_forbidden x) (λ _. 1)
      wrapped forbidden = Counted-raise 0 dm_unavailable (λ _. 1)
      wrapped x = Counted-raise 0 x (λ _. 1)

  fall_back-Counted :
      (u : ℕ) (embed : Embed) (x : Exn) → Counted is_send env 0 (fall_back u embed x) (λ _. 1)
  fall_back-Counted u embed not_found = dm_user-Counted u embed
  fall_back-Counted u embed forbidden = dm_user-Counted u embed
  fall_back-Counted u embed type_error = dm_user-Counted u embed
  fall_back-Counted u embed x = Counted-raise 0 x (λ _. 1)

  send_to_channel-Counted :
      (c : ℕ) (embed : Embed) → Counted is_send env 0 (send_to_channel c embed) (λ _. 1)
  send_to_channel-Counted c embed =
      Counted-bind 0 (await (fetch_channel c)) _ (λ _. 0) (λ _. 1)
        (Makes-Counted 0 _ (Makes-await (fetch_channel c) refl))
        λ channel.
          Counted-if 0 channel.messageable _ _ (λ _. 1)
            (Counted-await 0 (channel_send c embed) (λ _. 1) (λ _. refl))
            (Counted-raise 0 type_error (λ _. 1))

  -- A post that raised has not been sent.
  send_to_channel-spared :
      (c : ℕ) (embed : Embed) (h k : History) (x : Exn)
      → send_to_channel c embed env h ≡ (raised x, k)
      → count is_send k ≡ count is_send h
  unfolding raise
  send_to_channel-spared c embed h k x e =
      elim (>>=-eq-raised (await (fetch_channel c)) _ env h k x e) [
        | inl q ↦ await-spared is_send env (fetch_channel c) h k x q
        | inr (channel, k', q, r) ↦ omega (
          arith,
          (Makes-Counted {P = is_send} 0 (await (fetch_channel c))
                (Makes-await (fetch_channel c) refl)).at
              h k' channel q,
          posted channel.messageable k' r,
        )
      ]
    where
      posted :
          (b : Bool) (k' : History)
          → (if b then await (channel_send c embed) else raise type_error) env k' ≡ (raised x, k)
          → count is_send k ≡ count is_send k'
      posted true k' r = await-spared is_send env (channel_send c embed) k' k x r
      posted false k' r = ap (count is_send) (sym (ap (λ p. p.1) r))

  pub post_to_channel-Counted :
      (c u : ℕ) (embed : Embed) → Counted is_send env 0 (post_to_channel c embed u) (λ _. 1)
  unfolding post_to_channel
  post_to_channel-Counted c u embed =
      Counted-catch_spared 0 _ _ (λ _. 1) (send_to_channel-Counted c embed)
        (send_to_channel-spared c embed) (fall_back-Counted u embed)
