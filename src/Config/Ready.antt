-- ===== src/Config/Ready.antt =====
-- What a start of the program has read (config/envs.go, initConfig).
use vaulthook.Prelude.{
  ◌≡◌, ◌≢◌, refl, sym, ◌∙◌, false≢true, String, true, false, Option, none, some, str_eq, eq_iff,
  Bool-cases, Option-cases, inl, inr,
}
use vaulthook.Config.{
  Environment, Panic, unset, no_bool, no_int, no_level, Loaded, loaded, panics, ◌>>=◌, Config,
  get_env_string, get_env_bool, get_env_int, get_env_level, init_config,
}

module _ (env : Environment) where
  -- The panic names a variable that is empty, or whose value does not parse.
  pub data Explained : Panic → Type 0 where
    missing : (name : String) → env.getenv name ≡ "" → Explained (unset name)
    not_bool :
        (name : String)
        → env.parse_bool (env.getenv name) ≡ none
        → Explained (no_bool name (env.getenv name))
    not_int :
        (name : String)
        → env.parse_int (env.getenv name) ≡ none
        → Explained (no_int name (env.getenv name))
    not_level :
        (name : String)
        → env.parse_level (env.getenv name) ≡ none
        → Explained (no_level name (env.getenv name))

  pub data Ends {A : Type 0} (P : A → Type 0) : Loaded A → Type 0 where
    ready : (a : A) → P a → Ends P (loaded a)
    explained : (p : Panic) → Explained p → Ends P (panics p)

  Ends-bind :
      {A B : Type 0} (P : A → Type 0) (Q : B → Type 0) (m : Loaded A) (k : A → Loaded B)
      → Ends P m
      → ((a : A) → P a → Ends Q (k a))
      → Ends Q (m >>= k)
  Ends-bind P Q _ k (ready a p) f = f a p
  Ends-bind P Q _ k (explained e x) f = explained e x

  abbrev pub IsGiven : String → String → Type 0
  IsGiven name value = (env.getenv name ≡ value) × (value ≢ "")

  abbrev pub IsParsed : {A : Type 0} → (String → Option A) → String → A → Type 0
  IsParsed parse name a = (env.getenv name ≢ "") × (parse (env.getenv name) ≡ some a)

  is_empty : (s : String) → str_eq s "" ≡ true → s ≡ ""
  is_empty s e = (eq_iff s "").0 e

  not_empty : (s : String) → str_eq s "" ≡ false → s ≢ ""
  not_empty s e h = false≢true (sym e ∙ (eq_iff s "").1 h)

  get_env_string-Ends : (name : String) → Ends (IsGiven name) (get_env_string env name)
  unfolding get_env_string
  get_env_string-Ends name = elim (Bool-cases (str_eq (env.getenv name) "")) [
    | inl e ↦ rw e (explained _ (missing name (is_empty _ e)))
    | inr e ↦ rw e (ready _ (refl, not_empty _ e))
  ]

  get_env_bool-Ends : (name : String) → Ends (IsParsed env.parse_bool name) (get_env_bool env name)
  unfolding get_env_bool
  get_env_bool-Ends name = elim (Bool-cases (str_eq (env.getenv name) "")) [
    | inl e ↦ rw e (explained _ (missing name (is_empty _ e)))
    | inr e ↦ elim (Option-cases (env.parse_bool (env.getenv name))) [
      | inl p ↦ rw (e, p) (explained _ (not_bool name p))
      | inr (a, p) ↦ rw (e, p) (ready a (not_empty _ e, p))
    ]
  ]

  get_env_int-Ends : (name : String) → Ends (IsParsed env.parse_int name) (get_env_int env name)
  unfolding get_env_int
  get_env_int-Ends name = elim (Bool-cases (str_eq (env.getenv name) "")) [
    | inl e ↦ rw e (explained _ (missing name (is_empty _ e)))
    | inr e ↦ elim (Option-cases (env.parse_int (env.getenv name))) [
      | inl p ↦ rw (e, p) (explained _ (not_int name p))
      | inr (a, p) ↦ rw (e, p) (ready a (not_empty _ e, p))
    ]
  ]

  get_env_level-Ends :
      (name : String) → Ends (IsParsed env.parse_level name) (get_env_level env name)
  unfolding get_env_level
  get_env_level-Ends name = elim (Bool-cases (str_eq (env.getenv name) "")) [
    | inl e ↦ rw e (explained _ (missing name (is_empty _ e)))
    | inr e ↦ elim (Option-cases (env.parse_level (env.getenv name))) [
      | inl p ↦ rw (e, p) (explained _ (not_level name p))
      | inr (a, p) ↦ rw (e, p) (ready a (not_empty _ e, p))
    ]
  ]

  -- Every variable is set, and those that are no texts are parsed.
  pub record Ready (c : Config) : Type 0 where
    pub db_type : IsGiven "DB_TYPE" c.db_type
    pub db_user : IsGiven "DB_USER" c.db_user
    pub db_password : IsGiven "DB_PASSWORD" c.db_password
    pub db_host : IsGiven "DB_HOST" c.db_host
    pub db_port : IsParsed env.parse_int "DB_PORT" c.db_port
    pub db_name : IsGiven "DB_NAME" c.db_name
    pub redis_url : IsGiven "REDIS_URL" c.redis_url
    pub user_email : IsGiven "USER_EMAIL" c.user_email
    pub user_password : IsGiven "USER_PASSWORD" c.user_password
    pub log_level : IsParsed env.parse_level "LOG_LEVEL" c.log_level
    pub jwt_secret : IsGiven "TOKEN_SECRET" c.jwt_secret
    pub master_key : IsGiven "MASTER_KEY" c.master_key
    pub is_development : IsParsed env.parse_bool "IS_DEVELOPMENT" c.is_development

  -- The program starts with a configuration in which every text is the value of its variable, and not
  -- empty, and the port, the log level and the development flag are what their variables parse to; or
  -- it panics over a variable that is empty or does not parse. There is no third end.
  pub init_config-Ends : Ends Ready (init_config env)
  unfolding init_config
  init_config-Ends = Ends-bind _ _ _ _ (get_env_string-Ends "DB_TYPE") λ a pa.
      Ends-bind _ _ _ _ (get_env_string-Ends "DB_USER") λ b pb.
        Ends-bind _ _ _ _ (get_env_string-Ends "DB_PASSWORD") λ c pc.
          Ends-bind _ _ _ _ (get_env_string-Ends "DB_HOST") λ d pd.
            Ends-bind _ _ _ _ (get_env_int-Ends "DB_PORT") λ e pe.
              Ends-bind _ _ _ _ (get_env_string-Ends "DB_NAME") λ f pf.
                Ends-bind _ _ _ _ (get_env_string-Ends "REDIS_URL") λ g pg.
                  Ends-bind _ _ _ _ (get_env_string-Ends "USER_EMAIL") λ h ph.
                    Ends-bind _ _ _ _ (get_env_string-Ends "USER_PASSWORD") λ i pi.
                      Ends-bind _ _ _ _ (get_env_level-Ends "LOG_LEVEL") λ j pj.
                        Ends-bind _ _ _ _ (get_env_string-Ends "TOKEN_SECRET") λ k pk.
                          Ends-bind _ _ _ _ (get_env_string-Ends "MASTER_KEY") λ l pl.
                            Ends-bind _ _ _ _ (get_env_bool-Ends "IS_DEVELOPMENT") λ m pm.
                              ready _ (record {
                                db_type = pa;
                                db_user = pb;
                                db_password = pc;
                                db_host = pd;
                                db_port = pe;
                                db_name = pf;
                                redis_url = pg;
                                user_email = ph;
                                user_password = pi;
                                log_level = pj;
                                jwt_secret = pk;
                                master_key = pl;
                                is_development = pm;
                              })
