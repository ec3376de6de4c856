-- ===== src/Config.antt =====
-- config.py: the settings that the bot and its workers share. A field of a closed set of words is a text.
use discord_downloader_bot.Prelude.{ℕ, ◌*◌, String, Option, none, List, []}

pub record Settings : Type 0 where
  pub token : String
  pub prefix : String
  pub invite_link : Option String
  pub logging_level : String
  pub environment : String
  pub allowed_media_types : List String
  pub storage_backend : String
  pub azure_conn_str : String
  pub azure_container : String
  pub azure_int_url : Option String
  pub azure_ext_url : Option String
  pub redis_url : String
  pub postgres_dsn : String
  pub attachment_chunk_size : ℕ
  pub guild_rate_limit_per_hour : ℕ
  pub guild_rate_limit_burst : ℕ
  pub taskiq_admin_url : Option String
  pub taskiq_admin_api_token : Option String
  pub taskiq_admin_broker_name : Option String
  pub rabbitmq_default_user : String
  pub rabbitmq_default_pass : String

-- The settings where the variables without a default are set, and no others.
abbrev pub defaults :
    (token prefix azure_conn_str postgres_dsn rabbitmq_user rabbitmq_pass : String) → Settings
defaults token prefix azure_conn_str postgres_dsn rabbitmq_user rabbitmq_pass = record {
  token = token;
  prefix = prefix;
  invite_link = none;
  logging_level = "INFO";
  environment = "prod";
  allowed_media_types = [];
  storage_backend = "azure";
  azure_conn_str = azure_conn_str;
  azure_container = "media";
  azure_int_url = none;
  azure_ext_url = none;
  redis_url = "redis://redis:6379/0";
  postgres_dsn = postgres_dsn;
  attachment_chunk_size = 64 * 1024;
  guild_rate_limit_per_hour = 5;
  guild_rate_limit_burst = 2;
  taskiq_admin_url = none;
  taskiq_admin_api_token = none;
  taskiq_admin_broker_name = none;
  rabbitmq_default_user = rabbitmq_user;
  rabbitmq_default_pass = rabbitmq_pass;
}
