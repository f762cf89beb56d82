-- ===== src/EventProxy/Safe/Labels.antt =====
-- `AddSub` of rybalko/31/server.c leaves all of an item but its subscribers as it is.
use posix_threads.Common.{
  ℕ, ◌+◌, ◌≡◌, refl, ap, ◌∙◌, sym, inl, inr, Bool, true, false, Option, none, some, List, arith,
  leb, ltb, ◌==◌, ◌||◌, get_elem?, length, get_elem?-modify_self, ◌>>=◌, Bool-cases, Option-cases,
  ℤ, pos, find_below,
}
use mathlib.Core.Option.{some-injective}
use posix_threads.EventProxy.{CacheItem, Server}
use posix_threads.EventProxy.Subscriptions.{
  put_item, first_subs, double_subs, more_subs, free_for, store_at, store_sub, subscribe_to,
  add_sub,
}

-- All of an item but its subscribers.
abbrev pub labels : CacheItem → CacheItem
labels it = record it { subscribers = none; subs_size = 0; curr_subs = 0 }

abbrev Same : CacheItem → Option CacheItem → Type 0
Same it o = (jt : CacheItem) → o ≡ some jt → labels jt ≡ labels it

Same-some : (it jt : CacheItem) → labels jt ≡ labels it → Same it (some jt)
Same-some it jt h kt e = ap labels (sym (some-injective _ _ e)) ∙ h

Same-none : (it : CacheItem) → Same it none
Same-none it jt e = absurd (ground arith)

Same-bind :
    (it : CacheItem) (o : Option CacheItem) (f : CacheItem → Option CacheItem)
    → Same it o
    → ((x : CacheItem) → Same x (f x))
    → Same it (o >>= f)
Same-bind it none f h k = Same-none it
Same-bind it (some x) f h k = λ jt e. k x jt e ∙ h x refl

Same-with {ℓ} :
    {A : Type ℓ} (it : CacheItem) (o : Option A) (f : A → Option CacheItem)
    → ((x : A) → Same it (f x))
    → Same it (o >>= f)
Same-with it none f h = Same-none it
Same-with it (some x) f h = h x

first_subs-Same : (allocated : Bool) (it : CacheItem) → Same it (first_subs allocated it)
unfolding first_subs
first_subs-Same allocated it = elim (Bool-cases (it.subs_size == 0)) [
  | inr e ↦ rw (e, first_subs) (Same-some it it refl)
  | inl e ↦ elim (Bool-cases allocated) [
    | inl f ↦ rw (e, f, first_subs) (Same-some it _ refl)
    | inr f ↦ rw (e, f, first_subs) (Same-none it)
  ]
]

more_subs-Same : (allocated : Bool) (it : CacheItem) → Same it (more_subs allocated it)
unfolding more_subs double_subs
more_subs-Same allocated it = elim (Bool-cases (leb it.subs_size it.curr_subs)) [
  | inr e ↦ rw (e, more_subs) (Same-some it it refl)
  | inl e ↦ elim (Bool-cases allocated) [
    | inr f ↦ rw (e, f, more_subs) (Same-none it)
    | inl f ↦ rw (e, f, more_subs) (Same-with it it.subscribers _ (λ cs. Same-some it _ refl))
  ]
]

store_at-Same : (p : ℕ) (it : CacheItem) (cs : List ℤ) (o : Option ℕ) → Same it (store_at p it cs o)
unfolding store_at
store_at-Same p it cs none = elim (Bool-cases (leb it.subs_size (length cs))) [
  | inl e ↦ rw e (Same-some it it refl)
  | inr e ↦ rw e (Same-none it)
]
store_at-Same p it cs (some i) = elim (Option-cases (get_elem? cs i)) [
  | inl e ↦ rw e (Same-none it)
  | inr (x, e) ↦ rw e (Same-some it _ refl)
]

store_sub-Same : (p : ℕ) (it : CacheItem) → Same it (store_sub p it)
unfolding store_sub
store_sub-Same p it =
    Same-with it it.subscribers _
      (λ cs. store_at-Same p it cs (find_below (free_for p) it.subs_size cs))

subscribe_to-Same :
    (allocated : Bool) (p : ℕ) (it : CacheItem) → Same it (subscribe_to allocated p it)
unfolding subscribe_to
subscribe_to-Same allocated p it =
    Same-bind (record it { curr_subs = it.curr_subs + 1 }) _ _ (first_subs-Same allocated _)
      (λ x. Same-bind x _ _ (more_subs-Same allocated x) (store_sub-Same p))

pub add_sub-labels :
    (p c : ℕ) (s : Server) (it jt : CacheItem)
    → (ltb (length s.cache) c || ltb (length s.clients) p) ≡ false
    → get_elem? s.cache c ≡ some it
    → it.valid ≡ true
    → add_sub true (pos p) (pos c) s ≡ some (put_item c jt s)
    → labels jt ≡ labels it
unfolding add_sub
add_sub-labels p c s it jt guard at valid e = elim (Option-cases (subscribe_to true p it)) [
  | inl f ↦
      let bad : add_sub true (pos p) (pos c) s ≡ none = simp (guard, at, valid, f) in
      absurd (ground (arith, e, bad))
  | inr (kt, f) ↦
      let good : add_sub true (pos p) (pos c) s ≡ some (put_item c kt s) =
        simp (guard, at, valid, f) in
      let same : put_item c kt s ≡ put_item c jt s = some-injective _ _ (sym good ∙ e) in
      let cell : jt ≡ kt = some-injective _ _ (
        sym (get_elem?-modify_self s.cache c (λ _. jt) it at)
        ∙ ap (λ (x : Server). get_elem? x.cache c) (sym same)
        ∙ get_elem?-modify_self s.cache c (λ _. kt) it at) in
      ap labels cell ∙ subscribe_to-Same true p it kt f
]
