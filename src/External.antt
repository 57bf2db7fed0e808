-- ===== src/External.antt =====
-- What the program calls and does not implement, as parameters: the tables behind gorm, Redis,
-- `uuid`, the clock, random bytes, the card library. `Table` and `Redis` come with the documented
-- behaviour that theorems assume, and with instances that show that it can hold.
pub mod Table
pub mod Redis
pub mod Memory
pub mod RedisMemory
