-- ===== src/Tests/Servers.antt =====
-- A start and a stop of the program, and its theorem at a concrete input.
use card_payment_service.Prelude.{
  ℕ, String, ◌≡◌, refl, Option, none, some, [], ◌∷◌, map, ◌==◌, if◌then◌else◌, ◌+◌,
}
use card_payment_service.Domain.{Error, message}
use card_payment_service.Effect
use card_payment_service.Effect.{ok}
use card_payment_service.Effect.Triple.{Ends}
use card_payment_service.Payment.Guards.{Never}
use card_payment_service.Server
use card_payment_service.Server.{
  Step, load_file, open_database, ping_redis, listen, shutdown, close_redis, sql_of_database,
  close_sql, Host, Process,
}
use card_payment_service.Server.Config
use card_payment_service.Server.Connections
use card_payment_service.Server.Main
use card_payment_service.Server.Main.{Ending, main}
use card_payment_service.Server.Main.Order.{Came, main_settles}

unfoldable server_run : Unit {0}
unfolding Effect.effects Effect.pure Effect.raise Effect.catch Server.call Config.get_env
    Config.read_config Config.load Config.get_postgres_dsn Config.get_redis_addr
    Connections.new_postgres Connections.close_db Connections.new_redis Main.then_cleanup
    Main.start_server Main.graceful_shutdown Main.run_server Main.with_database Main.main
server_run = tt

-- The call of a given number fails; each variable has its own name as its value.
abbrev demo_host : ℕ → Host
demo_host bad = record {
  Outside = ℕ;
  getenv = λ o name. name;
  run = λ s n. (if n == bad then some (message "refused") else none, n + 1);
}

abbrev dsn : String
dsn = "postgres://DB_USER:DB_PASSWORD@DB_HOST:DB_PORT/DB_NAME?sslmode=disable"

abbrev fresh : (bad : ℕ) → Process (demo_host bad)
fresh bad = record { outside = 0; steps = [] }

-- Redis does not answer.
no_redis : (main (demo_host 2) (fresh 2)).0 ≡ ok (Ending.fatal "failed to connect redis")
unfolding server_run
no_redis = refl

all_steps :
    map (λ (r : Step × Option Error). r.0) (main (demo_host 0) (fresh 0)).1.steps
    ≡ close_sql
      ∷ sql_of_database
      ∷ close_redis
      ∷ close_sql
      ∷ sql_of_database
      ∷ close_redis
      ∷ shutdown
      ∷ listen ":APP_PORT"
      ∷ ping_redis "REDIS_HOST:REDIS_PORT"
      ∷ open_database dsn
      ∷ load_file "env.local"
      ∷ []
unfolding server_run
all_steps = refl

main_settles_example :
    let (r, q) = main (demo_host 0) (fresh 0) in
    Ends (Came (demo_host 0) []) (λ _. Never) Never Never r q
main_settles_example = main_settles (demo_host 0) (fresh 0)
