-- ===== src/Server/Config.antt =====
-- internal/config/config.go: the settings, from the environment.
use Prim.Native.String
use card_payment_service.Prelude.{String}
use card_payment_service.Effect.{M, ok, pure, catch, ◌>>=◌}
use card_payment_service.Server.{Host, Process, load_file, call}

pub record Config : Type 0 where
  pub app_port : String
  pub db_host : String
  pub db_port : String
  pub db_user : String
  pub db_password : String
  pub db_name : String
  pub redis_host : String
  pub redis_port : String

module _ (h : Host) where
  -- `getEnv`
  unfoldable pub get_env : String → M (Process h) String
  get_env key p = (ok (h.getenv p.outside key), p)

  -- the settings of `Load`
  unfoldable pub read_config : M (Process h) Config
  read_config = do
    app_port ← get_env "APP_PORT"
    db_host ← get_env "DB_HOST"
    db_port ← get_env "DB_PORT"
    db_user ← get_env "DB_USER"
    db_password ← get_env "DB_PASSWORD"
    db_name ← get_env "DB_NAME"
    redis_host ← get_env "REDIS_HOST"
    redis_port ← get_env "REDIS_PORT"
    pure (record {
      app_port = app_port;
      db_host = db_host;
      db_port = db_port;
      db_user = db_user;
      db_password = db_password;
      db_name = db_name;
      redis_host = redis_host;
      redis_port = redis_port;
    })

  -- `Load`: a file that is not there is only logged.
  unfoldable pub load : M (Process h) Config
  load = do _ ← catch (call (load_file "env.local")) (λ _. pure tt) pure; read_config

-- `GetPostgreslDSN`
unfoldable pub get_postgres_dsn : Config → String
get_postgres_dsn c = String.◌++◌ "postgres://" (
    String.◌++◌ c.db_user (
      String.◌++◌ ":" (
        String.◌++◌ c.db_password (
          String.◌++◌ "@" (
            String.◌++◌ c.db_host (
              String.◌++◌ ":" (
                String.◌++◌ c.db_port
                  (String.◌++◌ "/" (String.◌++◌ c.db_name "?sslmode=disable")))))))))

-- `GetRedisAddr`
unfoldable pub get_redis_addr : Config → String
get_redis_addr c = String.◌++◌ c.redis_host (String.◌++◌ ":" c.redis_port)
