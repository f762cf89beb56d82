-- ===== src/EventProxy/Tables/Finds.antt =====
-- Descriptors of hosts and clients are found at the cells they were put into, and a request is found at the
-- item that was filled for it.
use posix_threads.Common.{
  ℕ, ◌≡◌, ◌<◌, refl, sym, ap, subst, ◌∙◌, inl, inr, true, false, some, List, if◌then◌else◌, length,
  ℤ, pos, minus_one, is_neg, ◌==ℤ◌, find_below, Option-cases, Bool-cases,
}
use posix_threads.PoolProxy.Slots.{Array, find_by_fd, find_free, realloc_array}
use posix_threads.PoolProxy.Slots.Table.{find_free-Taken}
use posix_threads.EventProxy.{Client, Server, empty_client}
use posix_threads.EventProxy.Tables.{
  client_has, set_client_fd, get_client_id, set_for_free_client_id, realloc_clients,
}

-- An array of the state, with its size.
abbrev sized {ℓ} : {A : Type ℓ} → List A → Array A
sized xs = record { cells = xs; size = length xs }

abbrev client_fd : Client → ℤ
client_fd c = c.fd

get_client_id_lem :
    (fd : ℤ) (s : Server) → get_client_id fd s ≡ find_by_fd client_fd (sized s.clients) fd
unfolding get_client_id find_by_fd
get_client_id_lem fd s = elim (Bool-cases (is_neg fd)) [
  | inl e ↦ rw e refl
  | inr e ↦ elim (Option-cases (find_below (client_has fd) (length s.clients) s.clients)) [
    | inl f ↦ rw (e, f) refl
    | inr (i, f) ↦ rw (e, f) refl
  ]
]

-- The same search in the other proxy's array.
abbrev searched : ℤ → Server → ℤ × Array Client
searched fd s = find_free client_fd empty_client set_client_fd (sized s.clients) fd

set_for_free_client_id_lem :
    (fd : ℤ) (s : Server)
    → is_neg fd ≡ false
    → set_for_free_client_id true fd s
      ≡ some ((searched fd s).0, record s { clients = (searched fd s).1.cells })
unfolding set_for_free_client_id realloc_clients find_free realloc_array
set_for_free_client_id_lem fd s valid =
    elim (Option-cases (find_below (client_has minus_one) (length s.clients) s.clients)) [
      | inl f ↦ rw (valid, f) refl
      | inr (i, f) ↦ rw (valid, f) refl
    ]

-- `SetForFreeClientId` of a descriptor that is not negative and that no client has, with a client array that
-- is not empty and memory at hand: the client at the answered index has the descriptor now, and every other
-- descriptor is found where it was.
pub set_for_free_client_id-Placed :
    (fd : ℤ) (s : Server)
    → 0 < length s.clients
    → is_neg fd ≡ false
    → get_client_id fd s ≡ minus_one
    → (i : ℕ) × (after : Server) × (set_for_free_client_id true fd s ≡ some (pos i, after))
      × (i < length after.clients)
      × ((j : ℤ)
          → is_neg j ≡ false
          → get_client_id j after ≡ (if fd ==ℤ j then pos i else get_client_id j s))
set_for_free_client_id-Placed fd s room valid absent =
    let t =
      find_free-Taken client_fd empty_client set_client_fd (λ x c. refl) refl (sized s.clients) fd
        (record { sized = refl; room = room }) valid (sym (get_client_id_lem fd s) ∙ absent) in
    let after = record s { clients = (searched fd s).1.cells } in
    let size : (searched fd s).1.size ≡ length after.clients = t.sized.sized in
    (
      t.index,
      after,
      set_for_free_client_id_lem fd s valid ∙ ap (λ x. some (x, after)) t.answer,
      subst (λ n. t.index < n) size t.inside,
      λ j asked.
          get_client_id_lem j after
          ∙ ap (λ n. find_by_fd client_fd (record { cells = after.clients; size = n }) j) (sym size)
          ∙ t.finds j asked
          ∙ ap (λ z. if fd ==ℤ j then pos t.index else z) (sym (get_client_id_lem j s)),
    )
