-- ===== src/EventProxy/Safe/Emptied.antt =====
-- The last part of `CleanCacheItem` of rybalko/31/server.c, which empties the item of its subscribers.
use posix_threads.Common.{
  ℕ, ◌≡◌, refl, ap, ◌∙◌, sym, subst, inl, inr, true, false, Option, none, some, List, arith,
  get_elem?, get_elem?-some, get_elem?-modify_self, modify_same, modify_twice, modify, is_some,
  Option-cases, ℤ, pos, minus_one,
}
use mathlib.Core.Option.{some-injective}
use posix_threads.EventProxy.{CacheItem, Server, within, empty_item}
use posix_threads.EventProxy.Subscriptions.{put_item}
use posix_threads.EventProxy.Endings.{clean_cells, clean_subs}
use posix_threads.EventProxy.Safe.{
  Every, taken_cells, IsSound, IsSafe, core, cores, cores-get, cores-modify_lem, Hostless,
  put_item-Safe,
}
use posix_threads.EventProxy.Safe.Subs.{sub_cells-Every}
use posix_threads.EventProxy.Safe.Ends.{disconnect_all-Goes}

abbrev unsized : CacheItem → CacheItem
unsized it = record it { subs_size = 0 }

rebuilt : CacheItem → ℤ → Option (List ℤ) → ℕ → ℕ → CacheItem
rebuilt it h cells n k = record it {
  host_idx = h;
  subscribers = cells;
  subs_size = n;
  curr_subs = k;
}

is_emptied :
    (it : CacheItem) (n : ℕ)
    → core it ≡ record empty_item { subs_size = n }
    → it.host_idx ≡ minus_one
    → it.subscribers ≡ none
    → it.subs_size ≡ 0
    → it.curr_subs ≡ 0
    → it ≡ empty_item
unfolding rebuilt
is_emptied it n c h s z k = λ i. rebuilt (c i) (h i) (s i) (z i) (k i)

pub same_core :
    (its js : List CacheItem) (c : ℕ) (it jt : CacheItem)
    → cores its ≡ cores js
    → get_elem? its c ≡ some it
    → get_elem? js c ≡ some jt
    → core it ≡ core jt
same_core its js c it jt e at bt =
    some-injective _ _
      (sym (cores-get its c it at) ∙ ap (λ xs. get_elem? xs c) e ∙ cores-get js c jt bt)

module _ (nc nh nk : ℕ) where
  -- `CleanCacheItem` for item `c` of `s` reads and writes inside the arrays only.
  pub record Cleaned (c : ℕ) (s : Server) (o : Option Server) : Type 0 where
    pub after : Server
    pub returns : o ≡ some after
    pub safe : IsSafe nc nh nk after
    pub item : CacheItem
    pub there : get_elem? after.cache c ≡ some item
    pub emptied : item ≡ empty_item
    pub others : cores after.cache ≡ modify (cores s.cache) c (λ _. empty_item)
    pub same_max : after.max_cache ≡ s.max_cache
    pub same_current : after.current_cache ≡ s.current_cache

  unsized-Safe :
      (c : ℕ) (s : Server) (it : CacheItem)
      → IsSafe nc nh nk s
      → get_elem? s.cache c ≡ some it
      → IsSafe nc nh nk (put_item c (record it { subs_size = 0 }) s)
  unfolding taken_cells
  unsized-Safe c s it v at =
      let w = v.items c it at in
      put_item-Safe nc nh nk s c (record it { subs_size = 0 }) v
        (record {
          host = w.host;
          null = λ h. refl;
          idle = w.idle;
          fits = λ cs h. omega arith;
          counted = λ cs h. omega arith;
          subs = w.subs;
        })

  -- The last writes of `CleanCacheItem`, for an item that is reset, has no host and counts no cells.
  finish-Safe :
      (c : ℕ) (s : Server) (it : CacheItem)
      → IsSafe nc nh nk s
      → record it { subscribers = none; curr_subs = 0 } ≡ empty_item
      → IsSafe nc nh nk (put_item c (record it { subscribers = none; curr_subs = 0 }) s)
  finish-Safe c s it v same =
      put_item-Safe nc nh nk s c (record it { subscribers = none; curr_subs = 0 }) v
        (subst (IsSound nc nh) (sym same) (record {
          host = refl;
          null = λ h. refl;
          idle = λ h. refl;
          fits = λ cs h. absurd (ground arith);
          counted = λ cs h. absurd (ground arith);
          subs = λ cs h. absurd (ground arith);
        }))

  -- An item without an array of subscribers.
  alone-Cleaned :
      (c : ℕ) (s : Server) (it : CacheItem) (n : ℕ)
      → IsSafe nc nh nk s
      → get_elem? s.cache c ≡ some it
      → it.subscribers ≡ none
      → core it ≡ record empty_item { subs_size = n }
      → it.host_idx ≡ minus_one
      → Cleaned c s (some s)
  alone-Cleaned c s it n v at alone reset unhosted =
      let w = v.items c it at in
      let empty = is_emptied it n reset unhosted alone (w.null alone) (w.idle alone) in
      record {
        after = s;
        returns = refl;
        safe = v;
        item = it;
        there = at;
        emptied = empty;
        others = sym (
            modify_same (cores s.cache) c empty_item
              (cores-get s.cache c it at ∙ ap (λ x. some (core x)) empty));
        same_max = refl;
        same_current = refl;
      }

  cells-Cleaned :
      (c : ℕ) (s : Server) (it : CacheItem) (n : ℕ) (cs : List ℤ)
      → IsSafe nc nh nk s
      → within nk (pos c) ≡ true
      → get_elem? s.cache c ≡ some it
      → Every (λ x. within nc x ≡ true) cs
      → core it ≡ record empty_item { subs_size = n }
      → Hostless c s
      → Cleaned c s (clean_cells c it cs s)
  unfolding clean_cells
  cells-Cleaned c s it n cs v inside at subs reset unhosted =
      let s1 = put_item c (record it { subs_size = 0 }) s in
      let at1 = get_elem?-modify_self s.cache c (λ _. record it { subs_size = 0 }) it at in
      let g = disconnect_all-Goes nc nh nk cs s1 (unsized-Safe c s it v at) subs in
      let (jt, bt) = get_elem?-some g.after.cache c (ground (arith, g.safe.cache_sized)) in
      let kept : core jt ≡ record (core it) { subs_size = 0 } =
        same_core g.after.cache s1.cache c jt _ g.same_cores bt at1 in
      let blank : core jt ≡ empty_item = kept ∙ ap unsized reset in
      let last : record jt { subscribers = none; curr_subs = 0 } ≡ empty_item =
        is_emptied (record jt { subscribers = none; curr_subs = 0 }) 0 blank
          (g.hostless c
            (λ x e. ap (λ y. y.host_idx) (some-injective _ _ (sym e ∙ at1)) ∙ unhosted it at) jt bt)
          refl (ap (λ x. x.subs_size) blank) refl in
      rw g.returns (
        rw bt (record {
          after = put_item c (record jt { subscribers = none; curr_subs = 0 }) g.after;
          returns = refl;
          safe = finish-Safe c g.after jt g.safe last;
          item = record jt { subscribers = none; curr_subs = 0 };
          there = get_elem?-modify_self g.after.cache c _ jt bt;
          emptied = last;
          others =
              cores-modify_lem g.after.cache c _
              ∙ ap (λ x. modify (cores g.after.cache) c (λ _. x)) (ap core last)
              ∙ ap (λ xs. modify xs c (λ _. empty_item))
                  (g.same_cores ∙ cores-modify_lem s.cache c _)
              ∙ modify_twice (cores s.cache) c _ _;
          same_max = g.same_max;
          same_current = g.same_current;
        }))

  pub clean_subs-Cleaned :
      (c : ℕ) (s : Server) (it : CacheItem) (n : ℕ)
      → IsSafe nc nh nk s
      → within nk (pos c) ≡ true
      → get_elem? s.cache c ≡ some it
      → core it ≡ record empty_item { subs_size = n }
      → Hostless c s
      → Cleaned c s (clean_subs c s)
  unfolding clean_subs
  clean_subs-Cleaned c s it n v inside at reset unhosted = elim (Option-cases it.subscribers) [
    | inl e ↦
        let absent : is_some it.subscribers ≡ false = ap is_some e in
        rw at (rw absent (alone-Cleaned c s it n v at e reset (unhosted it at)))
    | inr (ds, e) ↦
        let present : is_some it.subscribers ≡ true = ap is_some e in
        let (cs, reads, subs) = sub_cells-Every nc nh it (v.items c it at) in
        rw at (rw (present, reads) (cells-Cleaned c s it n cs v inside at subs reset unhosted))
  ]
