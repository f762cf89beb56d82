-- ===== src/EventProxy/Safe/Subs.antt =====
-- What `DeleteSub` and `NotifySub` of rybalko/31/server.c do to a safe state.
use posix_threads.Common.{
  ℕ, zero, suc, ◌+◌, ◌≡◌, refl, ap, ◌∙◌, inl, inr, true, ◌||◌, some, List, [], ◌∷◌, arith, ltb, leb,
  ◌==◌, get_elem?-some, length, sym, subst, take, Option-cases, Bool-cases, ℤ, pos, negsuc, is_neg,
}
use mathlib.Core.Option.{some-injective}
use posix_threads.EventProxy.{CacheItem, Server, within, sub_size}
use posix_threads.EventProxy.Descriptors.{set_event_for_fd}
use posix_threads.EventProxy.Subscriptions.{
  sub_cells, drop_client, count_cells, drop_from, delete_sub, notify_client, notify_all, notify_sub,
}
use posix_threads.EventProxy.Safe.{
  Every, Every-cons, taken_cells, IsSound, IsSafe, Goes, Goes-some, Goes-bind, core,
}
use posix_threads.EventProxy.Safe.Puts.{put_item-Goes, put_client-Goes, set_event-Goes}

length-drop_client : (p : ℤ) (n : ℕ) (xs : List ℤ) → length (drop_client p n xs) ≡ length xs
unfolding drop_client
length-drop_client p zero xs = refl
length-drop_client p (suc n) [] = refl
length-drop_client p (suc n) (x ∷ xs) = ap suc (length-drop_client p n xs)

-- The loop of `DeleteSub` empties as many cells as it counts.
pub taken-drop_client :
    (p n : ℕ) (xs : List ℤ)
    → taken_cells n (drop_client (pos p) n xs) + count_cells (pos p) n xs ≡ taken_cells n xs
unfolding drop_client count_cells taken_cells
taken-drop_client p zero xs = refl
taken-drop_client p (suc n) [] = refl
taken-drop_client p (suc n) (pos q ∷ xs) = ground (arith, taken-drop_client p n xs)
taken-drop_client p (suc n) (negsuc q ∷ xs) = ground (arith, taken-drop_client p n xs)

drop_client-Every :
    (nc n : ℕ) (p : ℤ) (xs : List ℤ)
    → Every (λ x. within nc x ≡ true) xs
    → Every (λ x. within nc x ≡ true) (drop_client p n xs)
unfolding drop_client
drop_client-Every nc zero p xs h = h
drop_client-Every nc (suc n) p [] h = h
drop_client-Every nc (suc n) p (x ∷ xs) h =
    Every-cons (λ x. within nc x ≡ true) _ _ (ground (arith, h 0 x refl))
      (drop_client-Every nc n p xs (λ j. h (suc j)))

drop_client-IsSound :
    (nc nh p : ℕ) (it : CacheItem) (cs : List ℤ)
    → IsSound nc nh it
    → it.subscribers ≡ some cs
    → IsSound nc nh (record it {
      subscribers = some (drop_client (pos p) it.subs_size cs);
      curr_subs = sub_size it.curr_subs (count_cells (pos p) it.subs_size cs);
    })
drop_client-IsSound nc nh p it cs v e = record {
  host = v.host;
  null = λ h. absurd (ground arith);
  idle = λ h. absurd (ground arith);
  fits = λ ds h.
      rw (sym (some-injective _ _ h), length-drop_client (pos p) it.subs_size cs) (v.fits cs e);
  counted = λ ds h.
      rw (sym (some-injective _ _ h))
        (ground (arith, v.counted cs e, taken-drop_client p it.subs_size cs));
  subs = λ ds h.
      subst (Every (λ x. within nc x ≡ true)) (some-injective _ _ h)
        (drop_client-Every nc it.subs_size (pos p) cs (v.subs cs e));
}

-- The item after `DeleteSub`: nothing is read outside its array.
pub record Dropped (nc nh p : ℕ) (it : CacheItem) : Type 0 where
  pub item : CacheItem
  pub returns : drop_from p it ≡ some item
  pub sound : IsSound nc nh item
  pub same_host : item.host_idx ≡ it.host_idx
  pub same_core : core item ≡ core it

drop_from-Dropped : (nc nh p : ℕ) (it : CacheItem) → IsSound nc nh it → Dropped nc nh p it
unfolding drop_from
drop_from-Dropped nc nh p it v = elim (Bool-cases (it.subs_size == 0)) [
  | inl z ↦ record { item = it; returns = rw z refl; sound = v; same_host = refl; same_core = refl }
  | inr z ↦ elim (Option-cases it.subscribers) [
    | inl e ↦ absurd (ground (arith, v.null e))
    | inr (cs, e) ↦
        let inside : leb it.subs_size (length cs) ≡ true = ground (arith, v.fits cs e) in
        record {
          item = record it {
            subscribers = some (drop_client (pos p) it.subs_size cs);
            curr_subs = sub_size it.curr_subs (count_cells (pos p) it.subs_size cs);
          };
          returns = rw (z, e) (rw inside refl);
          sound = drop_client-IsSound nc nh p it cs v e;
          same_host = refl;
          same_core = refl;
        }
  ]
]

module _ (nc nh nk : ℕ) (s : Server) (v : IsSafe nc nh nk s) where
  pub delete_sub-Goes : (p c : ℤ) → within nk c ≡ true → Goes nc nh nk s (delete_sub p c s)
  unfolding delete_sub
  delete_sub-Goes (negsuc p) c h = Goes-some nc nh nk s v
  delete_sub-Goes (pos p) (negsuc c) h = Goes-some nc nh nk s v
  delete_sub-Goes (pos p) (pos c) h =
      elim (Bool-cases (ltb (length s.cache) c || ltb (length s.clients) p)) [
        | inl e ↦ rw e (Goes-some nc nh nk s v)
        | inr e ↦
            let (it, at) = get_elem?-some s.cache c (ground (arith, v.cache_sized)) in
            let d = drop_from-Dropped nc nh p it (v.items c it at) in
            rw (e, at)
              (rw d.returns (
                put_item-Goes nc nh nk s v c it d.item at d.sound d.same_core
                  (λ h. d.same_host ∙ h)))
      ]

none-Every : (nc : ℕ) → Every (λ x. within nc x ≡ true) []
none-Every nc j x e = absurd (ground arith)

take-Every :
    (nc n : ℕ) (xs : List ℤ)
    → Every (λ x. within nc x ≡ true) xs
    → Every (λ x. within nc x ≡ true) (take n xs)
take-Every nc zero xs h = none-Every nc
take-Every nc (suc n) [] h = h
take-Every nc (suc n) (y ∷ xs) h =
    Every-cons (λ x. within nc x ≡ true) _ _ (h 0 y refl) (take-Every nc n xs (λ j. h (suc j)))

-- The cells that a loop over the subscribers of a sound item reads are inside its array.
pub sub_cells-Every :
    (nc nh : ℕ) (it : CacheItem)
    → IsSound nc nh it
    → (cs : List ℤ) × (sub_cells it ≡ some cs) × Every (λ x. within nc x ≡ true) cs
unfolding sub_cells
sub_cells-Every nc nh it v = elim (Bool-cases (it.subs_size == 0)) [
  | inl z ↦ ([], rw z refl, none-Every nc)
  | inr z ↦ elim (Option-cases it.subscribers) [
    | inl e ↦ absurd (ground (arith, v.null e))
    | inr (cs, e) ↦
        let inside : leb it.subs_size (length cs) ≡ true = ground (arith, v.fits cs e) in
        (
          take it.subs_size cs,
          rw (z, e) (rw inside refl),
          take-Every nc it.subs_size cs (v.subs cs e),
        )
  ]
]

module _ (nc nh nk : ℕ) where
  notify_client-Goes :
      (events p : ℕ) (s : Server)
      → IsSafe nc nh nk s
      → within nc (pos p) ≡ true
      → Goes nc nh nk s (notify_client events p s)
  unfolding notify_client
  notify_client-Goes events p s v h =
      let (c, at) = get_elem?-some s.clients p (ground (arith, v.clients_sized)) in
      rw at (
        Goes-bind nc nh nk s (set_event_for_fd c.fd events s) _
          (set_event-Goes nc nh nk s v c.fd events)
          (λ s' w. elim (Bool-cases (is_neg c.last_written_idx)) [
            | inl e ↦ rw e (
                put_client-Goes nc nh nk s' w p (record c { last_written_idx = pos 0 })
                  (v.clients p c at))
            | inr e ↦ rw e (Goes-some nc nh nk s' w)
          ]))

  pub notify_all-Goes :
      (events : ℕ) (cs : List ℤ) (s : Server)
      → IsSafe nc nh nk s
      → Every (λ x. within nc x ≡ true) cs
      → Goes nc nh nk s (notify_all events cs s)
  unfolding notify_all
  notify_all-Goes events [] s v h = Goes-some nc nh nk s v
  notify_all-Goes events (pos p ∷ cs) s v h =
      Goes-bind nc nh nk s (notify_client events p s) (notify_all events cs)
        (notify_client-Goes events p s v (h 0 (pos p) refl))
        (λ s' w. notify_all-Goes events cs s' w (λ j. h (suc j)))
  notify_all-Goes events (negsuc zero ∷ cs) s v h = notify_all-Goes events cs s v (λ j. h (suc j))
  notify_all-Goes events (negsuc (suc k) ∷ cs) s v h =
      absurd (ground (arith, h 0 (negsuc (suc k)) refl))

  pub notify_sub-Goes :
      (c events : ℕ) (s : Server)
      → IsSafe nc nh nk s
      → within nk (pos c) ≡ true
      → Goes nc nh nk s (notify_sub c events s)
  unfolding notify_sub
  notify_sub-Goes c events s v h =
      let (it, at) = get_elem?-some s.cache c (ground (arith, v.cache_sized)) in
      let (cs, reads, inside) = sub_cells-Every nc nh it (v.items c it at) in
      rw at (rw reads (notify_all-Goes events cs s v inside))
