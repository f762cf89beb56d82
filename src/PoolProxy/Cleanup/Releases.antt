-- ===== src/PoolProxy/Cleanup/Releases.antt =====
-- At its end a pool thread polls none of the descriptors of its clients and servers, and no record
-- names one of its servers.
use posix_threads.Common.{
  ℕ, zero, suc, ◌≡◌, refl, inl, inr, Bool, true, false, ◌||◌, none, some, List, [], ◌∷◌,
  if◌then◌else◌, length, arith, ℤ, minus_one, is_neg, ◌==ℤ◌, ==ℤ_iff, Bool-cases,
}
use posix_threads.PoolProxy.PollTable.{PollTable, remove_from_poll_fds}
use posix_threads.PoolProxy.PollTable.Invariant.{IsValid, watched}
use posix_threads.PoolProxy.PollTable.Refines.{remove-Updated}
use posix_threads.PoolProxy.Slots.{ClientCell}
use posix_threads.PoolProxy.World.{World, drop_fd}
use posix_threads.PoolProxy.Cleanup.{release_clients, destroy_clients}

-- Some cell holds the descriptor.
unfoldable pub holds_fd : {A : Type 0} → (A → ℤ) → ℤ → List A → Bool
holds_fd fd_of j [] = false
holds_fd fd_of j (c ∷ cells) = (fd_of c ==ℤ j) || holds_fd fd_of j cells

-- `u` is `t` without the descriptors for which `gone` says so.
pub record Released (gone : ℤ → Bool) (t u : PollTable) : Type 0 where
  pub valid : IsValid u
  pub asks : (j : ℤ) → is_neg j ≡ false → watched j u ≡ (if gone j then none else watched j t)

remove_negative : (t : PollTable) (fd : ℤ) → is_neg fd ≡ true → remove_from_poll_fds t fd ≡ t
unfolding remove_from_poll_fds
remove_negative t fd h = rw h refl

drop_negative : (t : PollTable) (fd : ℤ) → is_neg fd ≡ true → drop_fd t fd ≡ t
drop_negative t fd h = elim (Bool-cases (fd ==ℤ minus_one)) [
  | inl e ↦ rw e refl
  | inr e ↦ rw e (remove_negative t fd h)
]

drop_positive :
    (t : PollTable) (fd : ℤ) → is_neg fd ≡ false → drop_fd t fd ≡ remove_from_poll_fds t fd
drop_positive t fd h =
    let other : (fd ==ℤ minus_one) ≡ false = ground (arith, ==ℤ_iff fd minus_one) in rw other refl

pub negative_other : (fd j : ℤ) → is_neg fd ≡ true → is_neg j ≡ false → (fd ==ℤ j) ≡ false
negative_other fd j h k = ground (arith, ==ℤ_iff fd j)

pub drop_fd-Released :
    (t : PollTable) (fd : ℤ) → IsValid t → Released (λ j. fd ==ℤ j) t (drop_fd t fd)
drop_fd-Released t fd v = elim (Bool-cases (is_neg fd)) [
  | inl h ↦
      rw (drop_negative t fd h)
        (record { valid = v; asks = λ j k. rw (negative_other fd j h k) refl })
  | inr h ↦
      let u = remove-Updated t fd v h in
      rw (drop_positive t fd h) (record { valid = u.valid; asks = u.asks })
]

pub Released-then :
    (gone more : ℤ → Bool) (t u w : PollTable)
    → Released gone t u
    → Released more u w
    → Released (λ j. gone j || more j) t w
Released-then gone more t u w a b = record {
  valid = b.valid;
  asks = λ j h. ground (arith, a.asks j h, b.asks j h);
}

release_clients-Released :
    (n : ℕ) (cells : List ClientCell) (t : PollTable)
    → n ≡ length cells
    → IsValid t
    → (u : PollTable) × (release_clients n cells t ≡ some u)
      × Released (λ j. holds_fd (λ c. c.fd) j cells) t u
unfolding release_clients holds_fd
release_clients-Released zero [] t l v = (t, refl, record { valid = v; asks = λ j h. refl })
release_clients-Released zero (c ∷ cells) t l v = absurd (omega arith)
release_clients-Released (suc n) [] t l v = absurd (omega arith)
release_clients-Released (suc n) (c ∷ cells) t l v =
    let one = drop_fd-Released t c.fd v in
    let (u, e, rest) = release_clients-Released n cells (drop_fd t c.fd) (omega arith) one.valid in
    (u, e, Released-then _ _ t (drop_fd t c.fd) u one rest)

-- `destroyClients` of an array of the kept size, with a valid poll table: it runs without a bad access, the
-- table stays valid and polls no descriptor of a client, and every other as before.
pub destroy_clients-Released :
    (w : World)
    → w.clients.size ≡ length w.clients.cells
    → IsValid w.table
    → (w' : World) × (destroy_clients w ≡ some w')
      × Released (λ j. holds_fd (λ c. c.fd) j w.clients.cells) w.table w'.table
unfolding destroy_clients
destroy_clients-Released w l v =
    let (u, e, r) = release_clients-Released w.clients.size w.clients.cells w.table l v in
    (record w { clients = record { cells = []; size = 0 }; table = u }, rw e refl, r)
