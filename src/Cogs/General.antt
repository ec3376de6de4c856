-- ===== src/Cogs/General.antt =====
-- cogs/general.py and cogs/owner.py: `/invite`, and the registration of the slash commands.
use discord_downloader_bot.Prelude.{
  String, true, false, Option, none, some, [], ◌∷◌, text_eq, if◌then◌else◌,
}
use discord_downloader_bot.Data.{str, Embed}
use discord_downloader_bot.World.{
  Exn, forbidden, Exec, await, raise, catch, ◌>>◌, user_send, context_send, context_send_text,
  sync_global, sync_guild, copy_global_to,
}
use discord_downloader_bot.Embeds
use discord_downloader_bot.Config.{Settings}
use discord_downloader_bot.Cogs.Context.{Guild, Context}

-- `None` is rendered as "None".
abbrev pub link : Option String → String
link none = "None"
link (some url) = url

abbrev pub invite_embed : Settings → Embed
invite_embed s =
    Embeds.info "Bot Invite"
      (some (str "Invite me by clicking [here](" ∷ str (link s.invite_link) ∷ str ")." ∷ []))

abbrev pub reply_instead : Embed → Exn → Exec (Unit {0})
reply_instead embed forbidden = await (context_send embed true)
reply_instead embed e = raise e

unfoldable pub invite : Settings → Context → Exec (Unit {0})
invite s c =
    catch
      (do
        await (user_send c.author_id (invite_embed s))
        await (context_send_text "I sent you a private message!"))
      (reply_instead (invite_embed s))

abbrev pub sync_here : Option Guild → Exec (Unit {0})
sync_here none = await (
    context_send
      (Embeds.error "Command error"
        (some (str "Guild sync can only be run inside a server, not in DMs." ∷ [])))
      false)
sync_here (some g) = do
  await (copy_global_to g.id)
  await (sync_guild g.id)
  await (
      context_send
        (Embeds.info "Command sync"
          (some (str "Slash commands have been synchronized in this guild." ∷ [])))
        false)

-- `Owner.sync`, after the check of discord.py that the author is the bot's owner
unfoldable pub sync : Context → String → Exec (Unit {0})
sync c scope =
    if text_eq scope "global"
    then (do
      await sync_global
      await (
          context_send
            (Embeds.info "Command sync"
              (some (str "Slash commands have been globally synchronized." ∷ [])))
            false))
    else if text_eq scope "guild"
    then sync_here c.guild
    else await (
        context_send
          (Embeds.error "Command error" (
            some (
              str "Unknown scope `"
              ∷ str scope
              ∷ str "`. Must be one of: `global`, `guild`."
              ∷ [])))
          false)
