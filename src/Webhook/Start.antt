-- ===== src/Webhook/Start.antt =====
-- tools/webhook-simulator/main.go: the settings that the program starts with.
use Prim.Native.String
use card_payment_service.Prelude.{String, str_eq, if◌then◌else◌}
use card_payment_service.Webhook.Simulator.{Simulator}

-- What `main` comes to: `log.Fatal` with a text, or a server at an address.
pub data Started : Type 0 where
  fatal : String → Started
  serving : Simulator → String → Started

-- `main`, up to `r.Run`, on what `os.Getenv` answers once `.env.local` is loaded
unfoldable pub start : (String → String) → Started
start getenv =
    let secret = getenv "SIMULATOR_WEBHOOK_SECRET" in
    let port = getenv "SIMULATOR_PORT" in
    if str_eq secret ""
    then Started.fatal "SIMULATOR_WEBHOOK_SECRET is required"
    else Started.serving (record { target_url = getenv "SIMULATOR_TARGET_URL"; secret = secret })
        (String.◌++◌ ":" (if str_eq port "" then "8081" else port))
