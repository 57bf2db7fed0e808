-- ===== src/Lib.antt =====
-- The card payment service: merchants register and are activated, and with an API key authorize,
-- charge, capture, void and refund card payments through a gateway.
--
-- Parts and files. Paths are from the repository's root.
-- * Domain (Domain/*) is internal/domain: entities, statuses and errors. Identifiers are 128-bit
--   values that are only compared, so Uuid is a number; times are nanoseconds; amounts are int64
--   values that the service passes on and compares, so they are integers.
-- * Effect is how Go code runs here: a call takes the state and gives a result and the state, also
--   after an error or a panic; a result is a value, an error, both, or a panic. Effect/Keeps and
--   Effect/Triple are the logics that the proofs use: a relation that a call keeps, and what holds
--   after each way to end.
-- * External/Table and External/Redis are the database and Redis as gorm and the client show them:
--   parameters, with their documented behaviour as the records TableLaws and RedisLaws. Any call
--   may fail; a database that answers refuses an insertion only for a clash, a text that does not
--   fit its column or a row that is not there, and an update only for such a text. A key of Redis
--   expires only when its time is over. External/Memory and External/RedisMemory are instances in
--   memory that satisfy the laws.
-- * Gateway is internal/gateway/gateway.go; Gateway/Mock and Gateway/TestCards are the mock
--   gateway.
-- * World is the whole state: five tables, Redis, what is outside (clock, random source, the
--   gateway's state). Two fields are the model's own: calls lists the requests sent to the
--   gateway, newest first, and background what was handed to `go`.
-- * Repository/Queries is internal/repository, one definition per method; Repository/Columns is
--   what the migrations say of the tables.
-- * Lock is internal/infra/redis/lock.go (Acquire, Release); Lock/Keys is what they do to the
--   keys.
-- * Payment/Types, Payment/Idempotency, Payment/Calls, Payment/Transactions and Payment/Service
--   are the files payment_types.go, payment_idempotency.go, payment_gateway.go,
--   payment_transaction.go and payment_service.go of internal/service. Authorize and Charge share
--   charge_with and charge_or_replay; Capture, Void and Refund share with_lock. Payment/History
--   runs requests and background saves one after the other.
-- * Payment/Lifecycle is the relation between statuses and its proof; Payment/Guards,
--   Payment/Settle and Payment/Settle/Refund say how the operations end; Payment/Replay is the
--   lookup of an idempotency key and what is saved under it; Payment/Authorize, Payment/Charge and
--   Payment/Exclusion are about Authorize, Charge and the lock; Payment/Exclusion/Interleaved and
--   Payment/Exclusion/Mutex are about requests that overlap, Payment/Footprint about the rows that
--   the operations leave alone, Payment/Funds about refunds over a history, and Payment/Answers
--   about Capture and Void on a database that answers.
-- * Merchant is merchant_service.go, merchant_apikey.go, merchant_mapper.go and merchant_types.go;
--   Auth is auth/service.go, and Auth/Onboarding the three calls from a registration to a key that
--   lets in; Crypto is pkg/crypto.go.
-- * Http is internal/response, internal/httpx and the DTOs; Http/Handlers is internal/handler with
--   the mapper; Http/Routes is internal/middleware and the payment routes of
--   internal/router/router.go, and Http/Routes/Table the routes as RegisterRoutes registers them,
--   on the engine that main.go makes (gin.Default, GinLogger, Recovery) and gin's groups, which
--   are a parameter; Http/Handlers/Merchants and Http/Routes/{Meta,Bound,Hold,Replayed,Guarded}
--   are about them. A request is gin's context: headers, path parameter, the body as it was bound,
--   and stored values.
-- * Webhook is tools/webhook-simulator: Webhook/Events is events.go, Webhook/Simulator is
--   simulator.go, Webhook/Routes is route.go and Webhook/Start the settings that main.go reads.
--   Its state is what is outside and posts, the model's own list of the requests handed to the
--   client.
-- * Server is cmd/server/main.go (Server/Main), internal/config (Server/Config) and the
--   connections of internal/infra (Server/Connections), on a host that is a parameter; steps is
--   the model's own list of the calls that were made and the errors they answered.
-- * Demo holds concrete parts, and Tests the runs and the theorems at concrete inputs.
--
-- How the parts interact. A request runs to its end before the next one starts in Payment/History;
-- a theorem about one request holds from any state, and so after any others. Requests that overlap
-- in time are modelled in Payment/Exclusion/Interleaved, one call of one request at a time, for
-- the lock that keeps them apart. A background save is an event of its own that may come at any
-- place. The loop of a batch is recursion on its items. The rounds of a decimal text are fuel: one
-- more than the number, which is enough, since reading the text gives the number back.
--
-- Not modelled: logging (GinLogger and gin's own logger run the rest and change nothing),
-- migrations, and how gin matches a path. A text that is no UTF-8 does not occur. The text that
-- JSON has, in the idempotency table and in a webhook, is a list of fields. Go's
-- `hex.EncodeToString` and `%d` are written out. SHA-256, HMAC, the clock, the random source, the
-- HTTP client, the parsing of UUIDs and the groups of gin are parameters.
pub mod Prelude
pub mod Domain
pub mod Effect
pub mod External
pub mod Gateway
pub mod World
pub mod Repository
pub mod Lock
pub mod Payment
pub mod Crypto
pub mod Merchant
pub mod Auth
pub mod Webhook
pub mod Http
pub mod Server
pub mod Demo
pub mod Tests
