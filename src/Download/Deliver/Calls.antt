-- ===== src/Download/Deliver/Calls.antt =====
-- What the functions of download/deliver.py call.
use discord_downloader_bot.Prelude.{ℕ, Bool, true, false}
use discord_downloader_bot.Data.{Embed}
use discord_downloader_bot.World.{
  Exn, Call, Env, fetch_user, fetch_channel, user_send, channel_send, forbidden, not_found,
  type_error,
}
use discord_downloader_bot.World.Trace.{Makes, makes_rules}
use discord_downloader_bot.Download.Deliver.{
  dm_user, post_to_channel, wrap_forbidden, fall_back, send_to_channel,
}

abbrev pub is_delivery : Call → Bool
is_delivery (fetch_user _) = true
is_delivery (fetch_channel _) = true
is_delivery (user_send _ _) = true
is_delivery (channel_send _ _) = true
is_delivery _ = false

wrap_forbidden-Makes : (P : Call → Bool) (env : Env) (e : Exn) → Makes P env (wrap_forbidden e)
wrap_forbidden-Makes P env forbidden = search makes_rules
wrap_forbidden-Makes P env _ = search makes_rules

pub dm_user-Makes : (env : Env) (u : ℕ) (embed : Embed) → Makes is_delivery env (dm_user u embed)
unfolding dm_user
dm_user-Makes env u embed = search (makes_rules, wrap_forbidden-Makes)

fall_back-Makes :
    (env : Env) (u : ℕ) (embed : Embed) (e : Exn) → Makes is_delivery env (fall_back u embed e)
fall_back-Makes env u embed not_found = dm_user-Makes env u embed
fall_back-Makes env u embed forbidden = dm_user-Makes env u embed
fall_back-Makes env u embed type_error = dm_user-Makes env u embed
fall_back-Makes env u embed _ = search makes_rules

pub post_to_channel-Makes :
    (env : Env) (c u : ℕ) (embed : Embed) → Makes is_delivery env (post_to_channel c embed u)
unfolding post_to_channel
post_to_channel-Makes env c u embed = search (makes_rules, fall_back-Makes)

pub send_to_channel-Makes :
    (env : Env) (c : ℕ) (embed : Embed) → Makes is_delivery env (send_to_channel c embed)
send_to_channel-Makes env c embed = search makes_rules
