-- ===== src/Server/Connections.antt =====
-- internal/infra/database/postgres.go and internal/infra/redis/redis.go: connections.
use card_payment_service.Effect.{M, pure, catch}
use card_payment_service.Server.{
  Host, Process, open_database, ping_redis, sql_of_database, close_sql, call,
}
use card_payment_service.Server.Config.{Config, get_postgres_dsn, get_redis_addr}

module _ (h : Host) where
  -- `NewPostgres`
  unfoldable pub new_postgres : Config → M (Process h) (Unit {0})
  new_postgres cfg = call (open_database (get_postgres_dsn cfg))

  -- `CloseDB`: both errors are only logged.
  unfoldable pub close_db : M (Process h) (Unit {0})
  close_db =
      catch (call sql_of_database) (λ _. pure tt) λ _. catch (call close_sql) (λ _. pure tt) pure

  -- `NewRedis`
  unfoldable pub new_redis : Config → M (Process h) (Unit {0})
  new_redis cfg = call (ping_redis (get_redis_addr cfg))
