-- ===== src/PoolProxy/Cleanup/Servers.antt =====
-- `destroyServers` of matsko/33_proxy_with_thread_pool/proxy.c: the records of the servers that end no
-- longer name a server.
use posix_threads.Common.{
  ℕ, zero, suc, ◌≡◌, refl, sym, ◌∙◌, ap, inl, inr, Bool, true, false, ◌||◌, ◌&&◌, ◌==◌, not, Option,
  none, some, List, [], ◌∷◌, if◌then◌else◌, is_some, length, arith, ℤ, minus_one, ◌==ℤ◌, ==ℤ_iff,
  ==_iff, or_else, Bool-cases, Option-cases, ◌⊎◌,
}
use posix_threads.PoolProxy.PollTable.{remove_from_poll_fds}
use posix_threads.PoolProxy.PollTable.Invariant.{IsValid}
use posix_threads.PoolProxy.Slots.{ServerCell}
use posix_threads.PoolProxy.Record.{Record}
use posix_threads.PoolProxy.World.{World, drop_fd, update, put_record}
use posix_threads.PoolProxy.Cleanup.{release_server, release_servers, destroy_servers}
use posix_threads.PoolProxy.Cleanup.Releases.{
  holds_fd, Released, drop_fd-Released, Released-then, negative_other,
}

-- A connected server has a record in memory.
abbrev pub Has : (ℕ → Option Record) → Option ℕ → Type 0
Has records none = ⊥
Has records (some p) = is_some (records p) ≡ true

unfoldable pub AllServe : (ℕ → Option Record) → List ServerCell → Type 0
AllServe records [] = Unit
AllServe records (s ∷ cells) =
    (((s.fd ==ℤ minus_one) ≡ true) ⊎ Has records s.cache_record) × AllServe records cells

-- The record at `p` is that of the server, which is connected.
abbrev pub points_to : ℕ → Option ℕ → Bool
points_to p none = false
points_to p (some q) = q == p

abbrev pub serves : ℕ → ServerCell → Bool
serves p s = not (s.fd ==ℤ minus_one) && points_to p s.cache_record

unfoldable pub served : ℕ → List ServerCell → Bool
served p [] = false
served p (s ∷ cells) = serves p s || served p cells

abbrev pub unserved : Bool → Record → Record
unserved b r = if b then record r { server_index = minus_one } else r

-- What ending servers does: `gone` are their descriptors, `left` their records.
pub record Ended (gone : ℤ → Bool) (left : ℕ → Bool) (w w' : World) : Type 0 where
  pub released : Released gone w.table w'.table
  pub records :
      (p : ℕ) (r : Record) → w.records p ≡ some r → w'.records p ≡ some (unserved (left p) r)

Has-update :
    (records : ℕ → Option Record) (p : ℕ) (r : Record) (o : Option ℕ)
    → Has records o
    → Has (update records p (some r)) o
Has-update records p r none h = h
Has-update records p r (some q) h = ground arith

AllServe-update :
    (records : ℕ → Option Record) (p : ℕ) (r : Record) (cells : List ServerCell)
    → AllServe records cells
    → AllServe (update records p (some r)) cells
unfolding AllServe
AllServe-update records p r [] h = tt
AllServe-update records p r (s ∷ cells) h = (
  elim h.0 [ inl e ↦ inl e | inr k ↦ inr (Has-update records p r s.cache_record k) ],
  AllServe-update records p r cells h.1,
)

record_there :
    (records : ℕ → Option Record) (o : Option ℕ)
    → Has records o
    → (p : ℕ) × (r : Record) × (o ≡ some p) × (records p ≡ some r)
record_there records none h = absurd h
record_there records (some p) h = elim (Option-cases (records p)) [
  | inl e ↦ ground arith
  | inr (r, e) ↦ (p, r, refl, e)
]

unserved_same :
    (r r' : Record) → some r ≡ some r' → some (unserved true r) ≡ some (unserved true r')
unserved_same r r' e = ap (λ o. some (unserved true (or_else o r))) e

updated_record :
    (records : ℕ → Option Record) (p : ℕ) (r : Record) (o : Option ℕ)
    → o ≡ some p
    → records p ≡ some r
    → (q : ℕ) (r' : Record) → records q ≡ some r'
    → update records p (some (unserved true r)) q ≡ some (unserved (points_to q o) r')
updated_record records p r o here found q r' h = elim (Bool-cases (p == q)) [
  | inl e ↦
      let equal : p ≡ q = (==_iff p q).0 e in
      let one : some r ≡ some r' = sym found ∙ ap records equal ∙ h in
      let named : points_to q o ≡ true = rw here e in rw (e, named) (unserved_same r r' one)
  | inr e ↦ let named : points_to q o ≡ false = rw here e in rw (e, named) h
]

-- One server ends, and the others still have their records.
release_server-Ended :
    (s : ServerCell) (cells : List ServerCell) (w : World)
    → ((s.fd ==ℤ minus_one) ≡ true) ⊎ Has w.records s.cache_record
    → AllServe w.records cells
    → IsValid w.table
    → (w' : World) × (release_server s w ≡ some w')
      × Ended (λ j. s.fd ==ℤ j) (λ p. serves p s) w w'
      × AllServe w'.records cells
unfolding release_server
release_server-Ended s cells w has all v = elim (Bool-cases (s.fd ==ℤ minus_one)) [
  | inl e ↦ (
    w,
    rw e refl,
    record {
      released = record {
        valid = v;
        asks = λ j k. rw (negative_other s.fd j (ground (arith, ==ℤ_iff s.fd minus_one)) k) refl;
      };
      records = λ p r h. rw e h;
    },
    all,
  )
  | inr e ↦
      let (p, r, here, found) = record_there w.records s.cache_record (ground arith) in
      let there = drop_fd-Released w.table s.fd v in
      let moved : drop_fd w.table s.fd ≡ remove_from_poll_fds w.table s.fd = rw e refl in
      (
        put_record (record w { table = remove_from_poll_fds w.table s.fd }) p
            (record r { server_index = minus_one }),
        simp (e, here, found),
        record {
          released = rw moved at there;
          records = λ q r' h. rw e (updated_record w.records p r s.cache_record here found q r' h);
        },
        AllServe-update w.records p (record r { server_index = minus_one }) cells all,
      )
]

unserved_twice : (a b : Bool) (r : Record) → unserved b (unserved a r) ≡ unserved (a || b) r
unserved_twice true true r = refl
unserved_twice true false r = refl
unserved_twice false true r = refl
unserved_twice false false r = refl

Ended-then :
    (gone more : ℤ → Bool) (left others : ℕ → Bool) (w u v : World)
    → Ended gone left w u
    → Ended more others u v
    → Ended (λ j. gone j || more j) (λ p. left p || others p) w v
Ended-then gone more left others w u v a b = record {
  released = Released-then gone more w.table u.table v.table a.released b.released;
  records =
      λ p r h. b.records p _ (a.records p r h) ∙ ap some (unserved_twice (left p) (others p) r);
}

release_servers-Ended :
    (n : ℕ) (cells : List ServerCell) (w : World)
    → n ≡ length cells
    → AllServe w.records cells
    → IsValid w.table
    → (w' : World) × (release_servers n cells w ≡ some w')
      × Ended (λ j. holds_fd (λ s. s.fd) j cells) (λ p. served p cells) w w'
unfolding release_servers holds_fd served AllServe
release_servers-Ended zero [] w l all v =
    (w, refl, record { released = record { valid = v; asks = λ j h. refl }; records = λ p r h. h })
release_servers-Ended zero (s ∷ cells) w l all v = absurd (omega arith)
release_servers-Ended (suc n) [] w l all v = absurd (omega arith)
release_servers-Ended (suc n) (s ∷ cells) w l all v =
    let (u, e, one, rest) = release_server-Ended s cells w all.0 all.1 v in
    let (w', e', others) = release_servers-Ended n cells u (omega arith) rest one.released.valid in
    (w', rw e e', Ended-then _ _ _ _ w u w' one others)

-- `destroyServers` of an array of the kept size, whose connected servers have their records in
-- memory, with a valid poll table: it runs without a bad access, the table polls none of the
-- servers' descriptors and every other as before, the records of the connected servers name no
-- server, and all else in the records is as before.
pub destroy_servers-Ended :
    (w : World)
    → w.servers.size ≡ length w.servers.cells
    → AllServe w.records w.servers.cells
    → IsValid w.table
    → (w' : World) × (destroy_servers w ≡ some w')
      × Ended (λ j. holds_fd (λ s. s.fd) j w.servers.cells) (λ p. served p w.servers.cells) w w'
unfolding destroy_servers
destroy_servers-Ended w l all v =
    let (u, e, ended) = release_servers-Ended w.servers.size w.servers.cells w l all v in
    (
      record u { servers = record { cells = []; size = 0 } },
      rw e refl,
      record { released = ended.released; records = ended.records },
    )
