-- ===== src/PoolProxy/Record/Keeps.antt =====
-- What `addSubscriber` leaves alone in a record.
use posix_threads.Common.{
  ◌≡◌, refl, sym, subst, ◌∙◌, inl, inr, ◌==◌, ◌==ℤ◌, ◌||◌, true, false, Option, some, List, arith,
  ℤ, minus_one, pos, is_neg, find_below, replicate, Bool-cases, Option-cases,
}
use posix_threads.PoolProxy.Record.{Record, add_subscriber, first_cells, store_fd}

-- All but the array of subscribers is as it was.
abbrev pub Kept : Record → Record → Type 0
Kept r r' = r' ≡ record r { subscribers = r'.subscribers; subscribers_size = r'.subscribers_size }

store_fd-Kept : (fd : ℤ) (r : Record) (cells : List ℤ) → Kept r (store_fd fd r cells)
unfolding store_fd
store_fd-Kept fd r cells =
    elim (Option-cases
      (find_below (λ s. (s ==ℤ minus_one) || (s ==ℤ fd)) r.subscribers_size cells)) [
        | inl e ↦ rw (e, store_fd) refl
        | inr (i, e) ↦ rw (e, store_fd) refl
      ]

answered :
    (r r' : Record) {s : Record}
    → ◌≡◌ {A = Option (ℤ × Record)} (some (pos 0, s)) (some (pos 0, r'))
    → Kept r s
    → Kept r r'
answered r r' {s} h k = let e : s ≡ r' = cc in subst (λ x. Kept r x) e k

pub add_subscriber-Kept :
    (fd : ℤ) (r r' : Record)
    → is_neg fd ≡ false
    → r.valid ≡ true
    → add_subscriber true fd r ≡ some (pos 0, r')
    → Kept r r'
unfolding add_subscriber first_cells
add_subscriber-Kept fd r r' valid live h = elim (Bool-cases (r.subscribers_size == 0)) [
  | inl e ↦ answered r r' (sym (simp (valid, live, e) refl) ∙ h) (
      store_fd-Kept fd
        (record r { subscribers_size = 4; subscribers = some (replicate 4 minus_one) })
        (replicate 4 minus_one))
  | inr e ↦ elim (Option-cases r.subscribers) [
    | inl f ↦ ground arith
    | inr (cells, f) ↦
        answered r r' (sym (simp (valid, live, e, f) refl) ∙ h) (store_fd-Kept fd r cells)
  ]
]
