-- ===== src/Tests/Index.antt =====
-- Examples of the index of jobs, of the categories and of the loggers.
use discord_downloader_bot.Prelude.{
  true, ℕ, ◌+◌, String, ◌≡◌, ◌≢◌, refl, Option, none, some, List, [], ◌∷◌,
}
use discord_downloader_bot.Int.{pos}
use discord_downloader_bot.Unicode.{codes}
use discord_downloader_bot.World.{
  ok, Env, History, after, result, redis_get_meta, redis_latest, ◌>>=◌,
}
use discord_downloader_bot.World.Trace.{Makes}
use discord_downloader_bot.Download.Jobs.{record_job, forget_job, get_job_meta}
use discord_downloader_bot.Download.Jobs.Index.{
  Index, KeepsIndex, index_of, index_if, best, member_of,
}
use discord_downloader_bot.Download.Jobs.Listed.{IsListed, jobs_stay-IsListed}
use discord_downloader_bot.Download.Jobs.Transactions.{differs}
use discord_downloader_bot.Download.Filters.Categories.{accepted_in, categories_split}
use discord_downloader_bot.Cogs.Jobs.Access.{resolve_job}
use discord_downloader_bot.Cogs.Jobs.Found.{recorded_job_is_found, forgotten_job_is_gone}
use discord_downloader_bot.Cogs.Download.Command.{download}
use discord_downloader_bot.Cogs.Download.Unpaid.{is_unpaid, bypass_takes_no_token}
use discord_downloader_bot.Logging.{
  LogRecord, Formatter, given, Loggers, colors, format, level_number,
}
use discord_downloader_bot.Logging.Plain.{shown, plain, format-shows_plain}
use discord_downloader_bot.Logging.Once.{init_all, expected, first_for, init_all-first}
use discord_downloader_bot.Tests.Values.{ascii, picture, some_message, noon, all_well}
use discord_downloader_bot.Tests.Commands.{by_owner, some_bot, some_job, plain_options}

abbrev no_jobs : Index
no_jobs = record { meta = λ k. none; entries = [] }

-- Redis, where it holds nothing at first.
abbrev keeping : Env
keeping h (redis_get_meta k) = ok ((index_of no_jobs h).meta k)
keeping h (redis_latest k) = ok (member_of (best k (index_of no_jobs h).entries))
keeping h call = all_well h call

keeping-KeepsIndex : KeepsIndex keeping no_jobs
keeping-KeepsIndex = record { meta_of = λ h k. refl; latest_of = λ h k. refl }

abbrev recorded_history : History
recorded_history = after (record_job "t1" some_job (pos 86400) keeping [])

recorded_job_is_found_example :
    result (resolve_job by_owner none keeping recorded_history) ≡ ok (some ("t1", some_job))
unfolding record_job ◌>>=◌
recorded_job_is_found_example =
    recorded_job_is_found keeping no_jobs keeping-KeepsIndex "t1" some_job (pos 86400) by_owner noon
      [] recorded_history refl refl refl refl

abbrev forgotten_history : History
forgotten_history = after (forget_job "t1" 9 keeping recorded_history)

forgotten_job_is_gone_example :
    (resolve_job by_owner none keeping forgotten_history ≢ (ok (some ("t1", some_job)), []))
    × (result (get_job_meta "t2" keeping forgotten_history)
        ≡ result (get_job_meta "t2" keeping recorded_history))
unfolding forget_job ◌>>=◌
forgotten_job_is_gone_example =
    forgotten_job_is_gone keeping no_jobs keeping-KeepsIndex "t1" "t2" 9 by_owner none some_job
      recorded_history forgotten_history [] (differs "t2" "t1" refl) refl

jobs_stay-IsListed_example :
    IsListed
      (index_if (λ k. true) no_jobs (after (record_job "t1" some_job (pos 86400) keeping [])))
    × IsListed (index_if (λ k. true) no_jobs (after (forget_job "t1" 9 keeping [])))
jobs_stay-IsListed_example =
    jobs_stay-IsListed (λ k. true) keeping no_jobs [] "t1" some_job 86399 9 (λ u m e. cc)

bypass_takes_no_token_example : Makes is_unpaid all_well (download some_bot by_owner plain_options)
bypass_takes_no_token_example = bypass_takes_no_token all_well by_owner plain_options some_bot refl

categories_split_example :
    accepted_in ascii none none picture some_message (some "image")
      + accepted_in ascii none none picture some_message (some "video")
      + accepted_in ascii none none picture some_message (some "audio")
      + accepted_in ascii none none picture some_message (some "gif")
      + accepted_in ascii none none picture some_message (some "other")
    ≡ accepted_in ascii none none picture some_message none
categories_split_example = categories_split ascii none none picture some_message

abbrev some_record : LogRecord
some_record = record {
  levelno = 20;
  levelname = codes "INFO";
  name = codes "downloader_bot";
  asctime = codes "2023-11-14 22:13:20";
  message = codes "ready";
  appended = [];
}

format-shows_plain_example :
    (text : List ℕ) × (format some_record ≡ some text) × (shown text ≡ plain some_record)
unfolding colors
format-shows_plain_example =
    format-shows_plain some_record refl
      (record { time = refl; level = refl; name = refl; message = refl; appended = refl })

abbrev no_loggers : Loggers
no_loggers name = none

abbrev two_calls : List (String × Option Formatter)
two_calls = ("downloader_bot", none) ∷ ("downloader_bot", some (given 1)) ∷ []

init_all-first_example :
    init_all "INFO" two_calls no_loggers "downloader_bot"
    ≡ expected 20 (first_for "downloader_bot" two_calls)
unfolding level_number
init_all-first_example = init_all-first "INFO" 20 refl two_calls no_loggers "downloader_bot" refl
