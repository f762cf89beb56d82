-- ===== src/EventProxy/Responses/Receives.antt =====
-- The bytes that `ReadFromHost` of rybalko/31/server.c puts behind a response.
use posix_threads.Common.{ℕ, ◌≡◌, Option, some, List, ◌++◌, get_elem?}
use posix_threads.EventProxy.{CacheItem, Server}
use posix_threads.EventProxy.Safe.{IsSafe}
use posix_threads.EventProxy.Responses.Room.{received, HasRoom}

module _ (nc nh nk : ℕ) where
  -- After the bytes: a safe state, in which item `c` holds what it held and `bytes` behind it.
  pub record Received (c : ℕ) (it : CacheItem) (bytes : List ℕ) (o : Option Server) : Type 0 where
    pub after : Server
    pub returns : o ≡ some after
    pub safe : IsSafe nc nh nk after
    pub item : CacheItem
    pub there : get_elem? after.cache c ≡ some item
    pub room : HasRoom item
    pub holds : received item ≡ received it ++ bytes
