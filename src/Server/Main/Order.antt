-- ===== src/Server/Main/Order.antt =====
-- The order in which `main` makes its calls, whichever of them fail.
use card_payment_service.Prelude.{◌≡◌, ◌⊎◌, refl, Option, none, some, List, [], ◌∷◌, inl, inr}
use Prim.Native.String
use card_payment_service.Domain.{Error}
use card_payment_service.Effect.{M, pure, effects}
use card_payment_service.Effect.Triple.{
  Ends, Triple, Triple-pure, Triple-catch, Triple-bind, Triple-before, Triple-assume, Triple-after,
}
use card_payment_service.Payment.Guards.{Never}
use card_payment_service.Server.{
  Step, load_file, open_database, ping_redis, listen, shutdown, close_redis, sql_of_database,
  close_sql, Host, Process, error_or_done, call,
}
use card_payment_service.Server.Config.{
  Config, get_env, read_config, load, get_postgres_dsn, get_redis_addr,
}
use card_payment_service.Server.Connections.{new_postgres, close_db, new_redis}
use card_payment_service.Server.Main.{
  Ending, logged, then_cleanup, start_server, graceful_shutdown, run_server, with_database, main,
}

abbrev pub Log : Type 1
Log = List (Step × Option Error) → Type 0

-- The newest call is `s`, however it was answered, and what is before it is as told.
abbrev pub Then : Step → Log → Log
Then s P [] = ⊥
Then s P (r ∷ older) = (r.0 ≡ s) × P older

-- The newest call is `s`, and it was answered without an error.
abbrev pub ThenDone : Step → Log → Log
ThenDone s P [] = ⊥
ThenDone s P (r ∷ older) = (r.0 ≡ s) × (r.1 ≡ none) × P older

-- The newest call is `s`, and it has failed.
abbrev pub ThenFailed : Step → Log → Log
ThenFailed s P [] = ⊥
ThenFailed s P (r ∷ older) = (r.0 ≡ s) × ((e : Error) × (r.1 ≡ some e)) × P older

-- `CloseDB` was called: it came to `sql.DB.Close`, or stopped at an error before.
abbrev pub Closed : Log → Log
Closed P steps =
    ThenFailed sql_of_database P steps ⊎ Then close_sql (ThenDone sql_of_database P) steps

module _ (h : Host) where
  abbrev On : Log → Process h → Type 0
  On P p = P p.steps

  error_or_done-Ends :
      (P : Log) (s : Step) (p : Process h) (o : h.Outside) (e : Option Error)
      → On P p
      → Ends {W = Process h}
          (λ _. On (ThenDone s P))
          (λ _. On (ThenFailed s P))
          (On (ThenFailed s P))
          Never
          (error_or_done e)
          (record { outside = o; steps = (s, e) ∷ p.steps })
  error_or_done-Ends P s p o none on = (refl, refl, on)
  error_or_done-Ends P s p o (some e) on = (refl, (e, refl), on)

  call-triple :
      (P : Log) (s : Step)
      → Triple
          (On P)
          (call s)
          (λ _. On (ThenDone s P))
          (λ _. On (ThenFailed s P))
          (On (ThenFailed s P))
          Never
  unfolding call
  call-triple P s = record { at = λ p on. error_or_done-Ends P s p _ _ on }

  done :
      (P : Log) (s : Step) (steps : List (Step × Option Error))
      → ThenDone s P steps
      → Then s P steps
  done P s [] on = on
  done P s (r ∷ older) on = (on.0, on.2)

  failed :
      (P : Log) (s : Step) (steps : List (Step × Option Error))
      → ThenFailed s P steps
      → Then s P steps
  failed P s [] on = on
  failed P s (r ∷ older) on = (on.0, on.2)

  logged-triple :
      (P : Log) (s : Step)
      → Triple (On P) (logged h (call s)) (λ _. On (Then s P)) (λ _. Never) Never Never
  logged-triple P s =
      Triple-catch (call-triple P s) (λ _. Triple-pure tt (λ p on. failed P s p.steps on))
        (λ _. Triple-pure tt (λ p on. done P s p.steps on))

  close_db-triple :
      (P : Log) → Triple (On P) (close_db h) (λ _. On (Closed P)) (λ _. Never) Never Never
  unfolding close_db
  close_db-triple P =
      Triple-catch (call-triple P sql_of_database) (λ _. Triple-pure tt (λ p on. inl on))
        λ _.
          Triple-after (logged-triple (ThenDone sql_of_database P) close_sql) (λ _ p on. inr on)
            (λ _ p e. e) (λ p e. e) (λ p e. e)

  -- The settings are the variables of the environment that are named for them.
  pub record IsRead (o : h.Outside) (cfg : Config) : Type 0 where
    pub app_port : cfg.app_port ≡ h.getenv o "APP_PORT"
    pub db_host : cfg.db_host ≡ h.getenv o "DB_HOST"
    pub db_port : cfg.db_port ≡ h.getenv o "DB_PORT"
    pub db_user : cfg.db_user ≡ h.getenv o "DB_USER"
    pub db_password : cfg.db_password ≡ h.getenv o "DB_PASSWORD"
    pub db_name : cfg.db_name ≡ h.getenv o "DB_NAME"
    pub redis_host : cfg.redis_host ≡ h.getenv o "REDIS_HOST"
    pub redis_port : cfg.redis_port ≡ h.getenv o "REDIS_PORT"

  read_config-triple :
      (P : Log)
      → Triple
          (On P)
          (read_config h)
          (λ cfg p. (o : h.Outside) × IsRead o cfg × On P p)
          (λ _. Never)
          Never
          Never
  unfolding read_config get_env pure effects
  read_config-triple P = record {
    at = λ p on. (
      p.outside,
      record {
        app_port = refl;
        db_host = refl;
        db_port = refl;
        db_user = refl;
        db_password = refl;
        db_name = refl;
        redis_host = refl;
        redis_port = refl;
      },
      on,
    );
  }

  abbrev Loaded : List (Step × Option Error) → Log
  Loaded before = Then (load_file "env.local") (λ steps. steps ≡ before)

  module _ (before : List (Step × Option Error)) (cfg : Config) where
    abbrev Asked : Log
    Asked = ThenDone (open_database (get_postgres_dsn cfg)) (Loaded before)

    abbrev Pinged : Log
    Pinged = ThenDone (ping_redis (get_redis_addr cfg)) Asked

    abbrev Served : Log
    Served = ThenDone (listen (String.◌++◌ ":" cfg.app_port)) Pinged

    abbrev Stopped : Log
    Stopped = Closed (Then close_redis (Then shutdown Served))

    -- The calls of a program that has come to an ending, newest first.
    abbrev pub Calls : Ending → Log
    Calls (Ending.fatal text) steps =
        ((text ≡ "failed to connect database")
          × ThenFailed (open_database (get_postgres_dsn cfg)) (Loaded before) steps)
        ⊎ ((text ≡ "failed to connect redis")
            × ThenFailed (ping_redis (get_redis_addr cfg)) Asked steps)
        ⊎ ((text ≡ "server failed to start")
            × ThenFailed (listen (String.◌++◌ ":" cfg.app_port)) Pinged steps)
    Calls Ending.exited steps = Closed (Then close_redis Stopped) steps

    abbrev After : Log → Ending → Log
    After P (Ending.fatal text) = Calls (Ending.fatal text)
    After P Ending.exited = P

    shutdown-triple :
        Triple
          (On Served)
          (graceful_shutdown h)
          (λ e. On (After Stopped e))
          (λ _. Never)
          Never
          Never
    unfolding graceful_shutdown
    shutdown-triple = Triple-bind (logged-triple Served shutdown) λ _.
        Triple-bind (logged-triple (Then shutdown Served) close_redis) λ _.
          Triple-bind (close_db-triple (Then close_redis (Then shutdown Served)))
            λ _. Triple-pure Ending.exited (λ p on. on)

    cleanup-triple :
        (P Q : Log) (cleanup : M (Process h) (Unit {0}))
        → Triple (On P) cleanup (λ _. On Q) (λ _. Never) Never Never
        → (e : Ending)
        → Triple
            (On (After P e))
            (then_cleanup h cleanup e)
            (λ e. On (After Q e))
            (λ _. Never)
            Never
            Never
    unfolding then_cleanup
    cleanup-triple P Q cleanup t (Ending.fatal text) = Triple-pure _ (λ p on. on)
    cleanup-triple P Q cleanup t Ending.exited =
        Triple-bind t λ _. Triple-pure Ending.exited (λ p on. on)

    server-triple :
        Triple
          (On Pinged)
          (run_server h cfg)
          (λ e. On (After (Then close_redis Stopped) e))
          (λ _. Never)
          Never
          Never
    unfolding run_server start_server
    server-triple =
        Triple-bind
          (Triple-catch (call-triple Pinged _)
            (λ _. Triple-pure (Ending.fatal _) (λ p on. inr (inr (refl, on))))
            (λ _. shutdown-triple))
          (cleanup-triple Stopped (Then close_redis Stopped) _ (logged-triple Stopped close_redis))

    database-triple :
        Triple
          (On Asked)
          (with_database h cfg)
          (λ e. On (After (Calls Ending.exited) e))
          (λ _. Never)
          Never
          Never
    unfolding with_database new_redis
    database-triple =
        Triple-bind
          (Triple-catch (call-triple Asked _)
            (λ _. Triple-pure (Ending.fatal _) (λ p on. inr (inl (refl, on)))) (λ _. server-triple))
          (cleanup-triple (Then close_redis Stopped) (Calls Ending.exited) _
            (close_db-triple (Then close_redis Stopped)))

  -- The calls of a run that began after `before` and has come to an ending, for the settings that
  -- it has read.
  abbrev pub Came : List (Step × Option Error) → Ending → Process h → Type 0
  Came before ending p =
      (cfg : Config) × (o : h.Outside) × IsRead o cfg × Calls before cfg ending p.steps

  Came-After :
      (before : List (Step × Option Error)) (cfg : Config) (o : h.Outside)
      → IsRead o cfg
      → (e : Ending) (p : Process h) → On (After before cfg (Calls before cfg Ending.exited) e) p
      → Came before e p
  Came-After before cfg o read (Ending.fatal text) p on = (cfg, o, read, on)
  Came-After before cfg o read Ending.exited p on = (cfg, o, read, on)

  -- How `main` ends, whichever of its calls fail. It loads the settings from the environment, then
  -- opens the database, then asks Redis, then serves, each of these only once the one before was
  -- answered without an error; the failure of one of the three is the last call, and ends the
  -- program with its own text. After
  -- a signal it shuts the server down, then closes Redis, then the database; and as both were
  -- deferred too, it closes Redis and the database once more. It never panics.
  pub main_settles :
      (p : Process h) → let (r, q) = main h p in Ends (Came p.steps) (λ _. Never) Never Never r q
  unfolding main load new_postgres
  main_settles p =
      (Triple-bind
          (Triple-bind (logged-triple (λ steps. steps ≡ p.steps) (load_file "env.local"))
            (λ _. read_config-triple (Loaded p.steps)))
          λ cfg. Triple-assume λ u read.
            Triple-before (λ v k. k.2)
              (Triple-catch (call-triple (Loaded p.steps) _)
                (λ _. Triple-pure (Ending.fatal _) (λ v on. (cfg, read.0, read.1, inl (refl, on))))
                (λ _.
                  Triple-after (database-triple p.steps cfg)
                    (λ e v on. Came-After p.steps cfg read.0 read.1 e v on) (λ e v n. n) (λ v n. n)
                    (λ v n. n)))).at
        p refl
