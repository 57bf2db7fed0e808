-- ===== src/Server.antt =====
-- cmd/server, internal/config, and the connections of internal/infra: how the program starts and
-- stops. This file has the host that it runs on, as parameters, and its state.
pub mod Config
pub mod Connections
pub mod Main
use card_payment_service.Prelude.{String, Option, none, some, List, ◌∷◌}
use card_payment_service.Domain.{Error}
use card_payment_service.Effect.{M, Result, ok, err}

-- The calls that the program makes of the host.
pub data Step : Type 0 where
  -- `godotenv.Load`, with the file
  load_file : String → Step
  -- `gorm.Open`, with the data source
  open_database : String → Step
  -- `Ping` of a new client, with the address
  ping_redis : String → Step
  -- `ListenAndServe` in the background, with the address, until a signal
  listen : String → Step
  -- `Server.Shutdown`
  shutdown : Step
  -- `redis.Client.Close`
  close_redis : Step
  -- `gorm.DB.DB` and `sql.DB.Close`
  sql_of_database : Step
  close_sql : Step

pub record Host : Type 1 where
  pub Outside : Type 0
  -- a variable of the environment, "" where there is none
  pub getenv : Outside → String → String
  -- the error of a call, if there is one
  pub run : Step → Outside → Option Error × Outside

-- `steps` is the model's own: the calls that were made and the errors they answered, newest first.
pub record Process (h : Host) : Type 0 where
  pub outside : h.Outside
  pub steps : List (Step × Option Error)

abbrev pub error_or_done : Option Error → Result (Unit {0})
error_or_done none = ok tt
error_or_done (some e) = err e

module _ {h : Host} where
  unfoldable pub call : Step → M (Process h) (Unit {0})
  call s p =
      let (error, after) = h.run s p.outside in
      (error_or_done error, record { outside = after; steps = (s, error) ∷ p.steps })
