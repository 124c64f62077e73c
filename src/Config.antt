-- ===== src/Config.antt =====
-- config/envs.go: the configuration that the program reads from its environment at the start. The
-- environment is a parameter, in which a variable that is not set is empty, and so are
-- strconv.ParseBool, strconv.Atoi and zerolog.ParseLevel.
pub mod Ready
pub mod Connections
use vaulthook.Prelude.{ℤ, String, Bool, Option, none, some, str_eq, if◌then◌else◌}

pub record Environment : Type 0 where
  pub getenv : String → String
  pub parse_bool : String → Option Bool
  pub parse_int : String → Option ℤ
  pub parse_level : String → Option ℤ

-- The panics, with the variable's name and the value that does not parse.
pub data Panic : Type 0 where
  unset : String → Panic
  no_bool no_int no_level : String → String → Panic

pub data Loaded (A : Type 0) : Type 0 where
  loaded : A → Loaded A
  panics : Panic → Loaded A

infixl 5 ◌>>=◌
abbrev pub ◌>>=◌ : {A B : Type 0} → Loaded A → (A → Loaded B) → Loaded B
loaded a >>= k = k a
panics p >>= k = panics p

pub record Config : Type 0 where
  pub db_type : String
  pub db_user : String
  pub db_password : String
  pub db_host : String
  pub db_port : ℤ
  pub db_name : String
  pub redis_url : String
  pub user_email : String
  pub user_password : String
  pub log_level : ℤ
  pub jwt_secret : String
  pub master_key : String
  pub is_development : Bool

-- The value of a variable, unless it is parsed to nothing.
abbrev pub parsed_or : {A : Type 0} → Panic → Option A → Loaded A
parsed_or p none = panics p
parsed_or p (some a) = loaded a

module _ (env : Environment) where
  unfoldable pub get_env_string : String → Loaded String
  get_env_string name =
      let value = env.getenv name in if str_eq value "" then panics (unset name) else loaded value

  unfoldable pub get_env_bool : String → Loaded Bool
  get_env_bool name =
      let value = env.getenv name in
      if str_eq value ""
      then panics (unset name)
      else parsed_or (no_bool name value) (env.parse_bool value)

  unfoldable pub get_env_int : String → Loaded ℤ
  get_env_int name =
      let value = env.getenv name in
      if str_eq value ""
      then panics (unset name)
      else parsed_or (no_int name value) (env.parse_int value)

  unfoldable pub get_env_level : String → Loaded ℤ
  get_env_level name =
      let value = env.getenv name in
      if str_eq value ""
      then panics (unset name)
      else parsed_or (no_level name value) (env.parse_level value)

  -- `initConfig`
  unfoldable pub init_config : Loaded Config
  unfolding get_env_string get_env_bool get_env_int get_env_level
  init_config = do
    db_type ← get_env_string "DB_TYPE"
    db_user ← get_env_string "DB_USER"
    db_password ← get_env_string "DB_PASSWORD"
    db_host ← get_env_string "DB_HOST"
    db_port ← get_env_int "DB_PORT"
    db_name ← get_env_string "DB_NAME"
    redis_url ← get_env_string "REDIS_URL"
    user_email ← get_env_string "USER_EMAIL"
    user_password ← get_env_string "USER_PASSWORD"
    log_level ← get_env_level "LOG_LEVEL"
    jwt_secret ← get_env_string "TOKEN_SECRET"
    master_key ← get_env_string "MASTER_KEY"
    is_development ← get_env_bool "IS_DEVELOPMENT"
    loaded (record {
      db_type = db_type;
      db_user = db_user;
      db_password = db_password;
      db_host = db_host;
      db_port = db_port;
      db_name = db_name;
      redis_url = redis_url;
      user_email = user_email;
      user_password = user_password;
      log_level = log_level;
      jwt_secret = jwt_secret;
      master_key = master_key;
      is_development = is_development;
    })
