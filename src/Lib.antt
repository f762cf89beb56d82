-- ===== src/Lib.antt =====
-- The POSIX threads exercises: a verification library of the C programs of this repository.
--
-- Modelled first is the caching HTTP proxy with a pool of threads,
-- matsko/33_proxy_with_thread_pool. Its main thread accepts connections and submits their
-- descriptors to a queue of tasks; each thread of the pool takes descriptors from the queue, keeps
-- its clients and servers in two arrays and their descriptors in a table for `poll`, and moves
-- requests and responses between clients, servers and a list of cache records that all threads
-- share. A record has subscribers, the eventfds that are written to when data arrives.
--
-- PoolProxy/TaskQueue models task_queue.c (initTaskQueue, submitTask, popTask, destroyTaskQueue) on
-- an explicit heap of nodes, whose lists are described in Chain/Linked. PoolProxy/PollTable models
-- the table for `poll` (initPollFds, reallocPollFds, addFdToPollFds, removeFromPollFds,
-- changeEventForFd, destroyPollFds): as a map from a descriptor to its events in Refines.
-- PoolProxy/Slots models the arrays of clients and servers, PoolProxy/Record one record of cache.h
-- and its subscribers, PoolProxy/World what one thread works on and how connections end
-- (disconnectClient, disconnectServer, freeCacheRecord), PoolProxy/Response the growing buffers,
-- and PoolProxy/Transfer the handlers readFromServer, writeToClient, writeToServer and shiftRequest
-- of proxy.c. PoolProxy/Cleanup models destroyClients and destroyServers, PoolProxy/Admission the
-- list of records of cache.c on a heap and findAndAddCacheRecord, PoolProxy/Request readFromClient,
-- and PoolProxy/Loop the loop of threadFunc: a list of what `poll` answers is worked through, and
-- each cell of the table goes to the handlers. Names are those of the source in snake case.
--
-- MessageQueue models korneshchuk/25: the linked queue of thread_safe_queue.c, the bounded queue of
-- texts of myQueue.c (my_msg_init, my_msg_put, my_msg_get, my_msg_drop), and in
-- MessageQueue/Threads the producers and consumers of main.c as a step relation, in which the wait
-- on a semaphore, the part under the mutex and the test of the loop are steps of one thread.
-- MessageQueue/Invariant counts the places of the queue, Acts keeps the count, Delivery and
-- Shutdown draw the conclusions.
--
-- LineList models the list that arkhipov/17 keeps sorted (compare_str, swap_with_next and sort_list
-- of LineListNode.h); characters are their codes, from 0 on.
--
-- TurnRing models the threads of arkhipov/14 that print in turn, each with its own semaphore: the
-- loop of worker as steps at sem_wait, printf and sem_post.
--
-- Philosophers models arkhipov/10, any number of philosophers with a waiter who lets all but one to
-- the table; a step is what one philosopher does up to the next lock, wait, unlock or post.
--
-- HashCache models arkhipov/32/cache.c, an array of chains of items by the hash of their key
-- (InitCache, GetHash, InsertCacheItem, GetOrCreateCacheItem, LookupAndClean, DeleteCache);
-- HashCache/Map is its view as a map.
--
-- UrlCache models shuvalov/31/http_socket/cache.c, a fixed array of responses by url (init_cache,
-- get, set, subscribe, unsubscribe, make_publisher); a pointer to a response is the index of its
-- node, which owns it. UrlCache/Nodes is about one call of set, UrlCache/Turns about many.
--
-- SocketTable models the arrays of clients and of servers of shuvalov/31/http_socket/http_socket.c
-- (init_clients, init_servers, add_fd_to_clients, add_fd_to_servers), once for both.
--
-- EventProxy models rybalko/31/server.c, a caching proxy that serves all its connections from
-- one loop around `poll`, with global arrays of polled descriptors (Descriptors), of clients,
-- hosts and cached items (Tables), which are linked by indices. Subscriptions and Endings model
-- AddSub, DeleteSub, NotifySub, DisconnectClient, DisconnectHost and CleanCacheItem, Eviction
-- GetOldestRecord and FreeMemoryForNewCacheRecord, Texts what is read out of requests and
-- headers, Requests and Responses the handlers ReadFromClient, WriteToClient, ReadFromHost,
-- WriteToHost and AcceptClient, and Loop one round of the loop and CleanUp. Safe says when no
-- index leads outside an array; Safe/Subs, Ends, Emptied, Clean, Adds and Handlers follow the
-- calls, and Grows, Places, Hosts, Serves, Readable and Answers those of ReadFromClient, which
-- may make an array larger; Labels, Links and Requested show what links a new request leaves,
-- and Accepts what AcceptClient does. A safe state polls some descriptor, as the program does from
-- its start, and its array of polled descriptors has no more than twice SERVER_FDS_AMOUNT and one
-- cells, which holds at the start and after ReallocServerFds. The hash is computed modulo 2 ^ 64, and `size_t`
-- subtraction wraps. The loop of FreeMemoryForNewCacheRecord has one pass for each item and one
-- more as fuel, since each pass takes the time from an item.
--
-- A result `none` of a handler is a bad memory access or the use of a destroyed lock, or in EventProxy also the exit after a
-- failed allocation. What `read`, `write`, `calloc`, `realloc` and the HTTP parser answer are
-- arguments. The int that counts the replacements of UrlCache has no result past 2 ^ 31; other
-- numbers are not bounded: the sizes double from 8192 and the code tests no overflow. A function that holds one mutex for its whole body is one step;
-- findAndAddCacheRecord unlocks the list between two nodes, and what other threads do there is
-- an argument. Loops over arrays recurse on the number of cells; the loops that free the queue
-- and the list and the search of the list are on fuel, for which one more than the number of
-- nodes is enough.
--
-- Not modelled: sockets, signals and logging, the start of a process and its clean-up but for
-- that of EventProxy, the vendored parser and logger, the proxies of matsko/31_cache_proxy and
-- matsko/32_multithread_proxy, which are earlier forms of the one of matsko/33, the event loop of
-- shuvalov/31, which waits for sockets around the arrays and the cache that are modelled, the
-- small programs on lists and on taking turns whose kinds are modelled once, and the exercises
-- that only create, join or cancel threads or compute pi in floating point.
pub mod Common
pub mod Chain
pub mod EventProxy
pub mod HashCache
pub mod LineList
pub mod MessageQueue
pub mod Philosophers
pub mod PoolProxy
pub mod SocketTable
mod Tests
pub mod TurnRing
pub mod UrlCache
