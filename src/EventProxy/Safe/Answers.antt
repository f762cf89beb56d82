-- ===== src/EventProxy/Safe/Answers.antt =====
-- Requests in a safe state of rybalko/31/server.c: `ReadFromClient` returns, and the state is safe again,
-- with arrays that may have grown.
use posix_threads.Common.{ℕ, Option}
use posix_threads.EventProxy.{Server}
use posix_threads.EventProxy.Safe.Handlers.{Returns}

-- The call ends, in a safe state of `nc` clients.
pub record Answered (nc : ℕ) (o : Option Server) : Type 0 where
  pub hosts_size : ℕ
  pub cache_size : ℕ
  pub result : Returns nc hosts_size cache_size o
