-- ===== src/Server/Main.antt =====
-- cmd/server/main.go: the start, the wait for a signal, and the shutdown. `log.Fatal` ends the
-- program at once, so no deferred call runs after it.
pub mod Order
use Prim.Native.String
use card_payment_service.Prelude.{String}
use card_payment_service.Effect.{M, pure, catch, ◌>>=◌, ◌>>◌}
use card_payment_service.Server.{Host, Process, listen, shutdown, close_redis, call}
use card_payment_service.Server.Config.{Config, load}
use card_payment_service.Server.Connections.{new_postgres, close_db, new_redis}

pub data Ending : Type 0 where
  fatal : String → Ending
  exited : Ending

module _ (h : Host) where
  -- an error that is only logged
  abbrev pub logged : M (Process h) (Unit {0}) → M (Process h) (Unit {0})
  logged m = catch m (λ _. pure tt) pure

  -- the deferred call, where `main` returns
  unfoldable pub then_cleanup : M (Process h) (Unit {0}) → Ending → M (Process h) Ending
  then_cleanup cleanup (Ending.fatal text) = pure (Ending.fatal text)
  then_cleanup cleanup Ending.exited = cleanup >> pure Ending.exited

  -- `startServer` and the wait for a signal: the server's own error ends the program.
  unfoldable pub start_server : String → M (Process h) Ending → M (Process h) Ending
  start_server port rest =
      catch (call (listen (String.◌++◌ ":" port)))
        (λ _. pure (Ending.fatal "server failed to start")) (λ _. rest)

  -- `gracefulShutdown`, after the signal
  unfoldable pub graceful_shutdown : M (Process h) Ending
  graceful_shutdown = do
    _ ← logged (call shutdown)
    _ ← logged (call close_redis)
    _ ← close_db h
    pure Ending.exited

  -- `main` with both connections; the router that it makes is `initialize_router` of
  -- Http/Routes/Table, and makes no call of the host
  unfoldable pub run_server : Config → M (Process h) Ending
  run_server cfg = do
    ending ← start_server cfg.app_port graceful_shutdown
    then_cleanup (logged (call close_redis)) ending

  -- `main` with the database
  unfoldable pub with_database : Config → M (Process h) Ending
  with_database cfg = do
    ending ←
        catch (new_redis h cfg) (λ _. pure (Ending.fatal "failed to connect redis"))
          (λ _. run_server cfg)
    then_cleanup (close_db h) ending

  unfoldable pub main : M (Process h) Ending
  main = do
    cfg ← load h
    catch (new_postgres h cfg) (λ _. pure (Ending.fatal "failed to connect database"))
        (λ _. with_database cfg)
