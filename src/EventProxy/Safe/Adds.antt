-- ===== src/EventProxy/Safe/Adds.antt =====
-- What `AddSub` of rybalko/31/server.c does to a safe state: there always is a cell for the client.
use posix_threads.Common.{
  ℕ, ◌+◌, ◌≤◌, ◌<◌, ◌≡◌, refl, ap, ◌∙◌, sym, subst, inl, inr, true, false, ◌||◌, some, List, arith,
  ltb, ◌==◌, ==_iff, if◌then◌else◌, get_elem?, get_elem?-lt, get_elem?-modify,
  get_elem?-modify_self, length, modify, length-modify, Option-cases, Bool-cases, ℤ, pos, minus_one,
  ◌==ℤ◌, ==ℤ_iff, find_below, find_below-lt, find_below-passes,
}
use mathlib.Core.Option.{some-injective}
use posix_threads.EventProxy.{CacheItem, Server, within}
use posix_threads.EventProxy.Subscriptions.{
  put_item, first_subs, more_subs, free_for, store_at, store_sub, subscribe_to, add_sub,
}
use posix_threads.EventProxy.Safe.{Every, Every-modify, taken_cells, IsSound, IsSafe, put_item-Safe}
use posix_threads.EventProxy.Safe.Cells.{taken_full, taken-store}
use posix_threads.EventProxy.Safe.Ready.{Keeps, IsReady, first_subs-IsReady, more_subs-IsReady}

-- `jt` is `it` with client `p` in some cell that the loops read, and all that were there.
pub record Subscribed (nc nh p : ℕ) (it jt : CacheItem) : Type 0 where
  pub sound : IsSound nc nh jt
  pub cells : List ℤ
  pub array : jt.subscribers ≡ some cells
  pub index : ℕ
  pub inside : index < jt.subs_size
  pub there : get_elem? cells index ≡ some (pos p)
  pub keeps : Keeps it cells

store_sub_lem :
    (p : ℕ) (it : CacheItem) (cs : List ℤ)
    → it.subscribers ≡ some cs
    → store_sub p it ≡ store_at p it cs (find_below (free_for p) it.subs_size cs)
unfolding store_sub
store_sub_lem p it cs e = simp e

store_sub-Subscribed :
    (nc nh p : ℕ) (it jt : CacheItem) (cells : List ℤ)
    → IsSound nc nh it
    → p < nc
    → IsReady nc it jt cells
    → taken_cells jt.subs_size cells < jt.subs_size
    → (kt : CacheItem) × (store_sub p jt ≡ some kt) × Subscribed nc nh p it kt
unfolding store_at
store_sub-Subscribed nc nh p it jt cells v lt r spare =
    elim (Option-cases (find_below (free_for p) jt.subs_size cells)) [
      | inl e ↦ absurd (omega (arith, taken_full p jt.subs_size cells r.fits e))
      | inr (i, e) ↦
          let (x, at, free) = find_below-passes (free_for p) jt.subs_size cells i e in
          let below = find_below-lt (free_for p) jt.subs_size cells i e in
          let new = modify cells i (λ _. pos p) in
          let stored = taken-store p jt.subs_size i cells x below at free in
          (
            record jt {
              subscribers = some new;
              curr_subs = jt.curr_subs + (if x ==ℤ minus_one then 1 else 0);
            },
            store_sub_lem p jt cells r.array ∙ ap (store_at p jt cells) e ∙ rw at refl,
            record {
              sound = record {
                host = ap (within nh) r.same_host ∙ v.host;
                null = λ h. absurd (ground arith);
                idle = λ h. absurd (ground arith);
                fits = λ ds h.
                    subst (λ xs. jt.subs_size ≤ length xs) (some-injective _ _ h)
                      (omega (arith, r.fits, length-modify cells i (λ _. pos p)));
                counted = λ ds h.
                    subst
                      (λ xs.
                        taken_cells jt.subs_size xs
                        ≤ jt.curr_subs + (if x ==ℤ minus_one then 1 else 0))
                      (some-injective _ _ h) (omega (arith, stored, r.counted));
                subs = λ ds h. subst (Every (λ x. within nc x ≡ true)) (some-injective _ _ h) (
                    Every-modify (λ x. within nc x ≡ true) cells i (λ _. pos p) r.subs
                      (λ x f. ground arith));
              };
              cells = new;
              array = refl;
              index = i;
              inside = below;
              there = get_elem?-modify_self cells i (λ _. pos p) x at;
              keeps = λ ds j q f h bt. store_keeps cells i j p q x at free (r.keeps ds j q f h bt);
            },
          )
    ]
  where
    store_keeps :
        (cells : List ℤ) (i j p q : ℕ) (x : ℤ)
        → get_elem? cells i ≡ some x
        → free_for p x ≡ true
        → get_elem? cells j ≡ some (pos q)
        → get_elem? (modify cells i (λ _. pos p)) j ≡ some (pos q)
    store_keeps cells i j p q x at free bt = elim (Bool-cases (i == j)) [
      | inr apart ↦ get_elem?-modify cells i j (λ _. pos p) x at ∙ rw apart bt
      | inl same ↦
          let eq : x ≡ pos q =
            some-injective _ _ (sym at ∙ ap (get_elem? cells) ((==_iff i j).0 same) ∙ bt) in
          let own : pos p ≡ pos q = ground (arith, ==ℤ_iff x (pos p), ==ℤ_iff x minus_one) in
          get_elem?-modify cells i j (λ _. pos p) x at ∙ rw (same, own) refl
    ]

subscribe_to_lem :
    (p : ℕ) (it it1 it2 jt : CacheItem)
    → first_subs true (record it { curr_subs = it.curr_subs + 1 }) ≡ some it1
    → more_subs true it1 ≡ some it2
    → store_sub p it2 ≡ some jt
    → subscribe_to true p it ≡ some jt
unfolding subscribe_to
subscribe_to_lem p it it1 it2 jt e1 e2 e3 = rw e1 (rw e2 e3)

add_sub_lem :
    (p c : ℕ) (s : Server) (it jt : CacheItem)
    → (ltb (length s.cache) c || ltb (length s.clients) p) ≡ false
    → get_elem? s.cache c ≡ some it
    → it.valid ≡ true
    → subscribe_to true p it ≡ some jt
    → add_sub true (pos p) (pos c) s ≡ some (put_item c jt s)
unfolding add_sub
add_sub_lem p c s it jt guard at valid run = simp (guard, at, valid, run)

-- `AddSub` of a client and a valid item, both inside their arrays, in a safe state and with memory at hand,
-- finds a cell for the client: the state is safe again, differs in that item only, the client is among its
-- subscribers, and so is every client that was.
pub add_sub-Subscribed :
    (nc nh nk p c : ℕ) (s : Server) (it : CacheItem)
    → IsSafe nc nh nk s
    → p < nc
    → get_elem? s.cache c ≡ some it
    → it.valid ≡ true
    → (jt : CacheItem) × (add_sub true (pos p) (pos c) s ≡ some (put_item c jt s))
      × IsSafe nc nh nk (put_item c jt s)
      × Subscribed nc nh p it jt
add_sub-Subscribed nc nh nk p c s it v lt at valid =
    let sound = v.items c it at in
    let guard : (ltb (length s.cache) c || ltb (length s.clients) p) ≡ false =
      ground (arith, v.clients_sized, get_elem?-lt s.cache c it at) in
    let (it1, cs1, e1, r1) = first_subs-IsReady nc nh it sound in
    let (it2, cs2, e2, r2, spare) = more_subs-IsReady nc it it1 cs1 r1 in
    let (jt, e3, r3) = store_sub-Subscribed nc nh p it it2 cs2 sound lt r2 spare in
    (
      jt,
      add_sub_lem p c s it jt guard at valid (subscribe_to_lem p it it1 it2 jt e1 e2 e3),
      put_item-Safe nc nh nk s c jt v r3.sound,
      r3,
    )
