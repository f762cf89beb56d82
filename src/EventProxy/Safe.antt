-- ===== src/EventProxy/Safe.antt =====
-- The state of the proxy of rybalko/31/server.c in which no index leads outside an array, `server_fds`
-- included, and the calls that keep it so.
pub mod Puts
pub mod Subs
pub mod Adds
pub mod Ready
pub mod Cells
pub mod Ends
pub mod Grows
pub mod Places
pub mod Hosts
pub mod Serves
pub mod Readable
pub mod Answers
pub mod Labels
pub mod Links
pub mod Requested
pub mod Accepts
pub mod Handlers
pub mod Emptied
pub mod Clean
use posix_threads.Common.{
  ℕ, zero, suc, ◌+◌, ◌≤◌, ◌≡◌, refl, sym, ap, ◌∙◌, subst, Bool, true, Option, none, some, List, [],
  ◌∷◌, arith, if◌then◌else◌, get_elem?, length, modify, length-modify, ◌>>=◌, ℤ, minus_one, ◌==ℤ◌,
}
use mathlib.Core.Option.{some-injective}
use posix_threads.EventProxy.{Client, Host, CacheItem, Server, within, empty_item}
use posix_threads.EventProxy.Descriptors.Room.{Roomy}
use posix_threads.EventProxy.Subscriptions.{put_item}

module _ {ℓ κ} {A : Type ℓ} (P : A → Type κ) where
  abbrev pub Every : List A → Type (ℓ ⊔ κ)
  Every xs = (i : ℕ) (x : A) → get_elem? xs i ≡ some x → P x

  pub Every-modify :
      (xs : List A) (i : ℕ) (f : A → A)
      → Every xs
      → ((x : A) → get_elem? xs i ≡ some x → P (f x))
      → Every (modify xs i f)
  Every-modify [] i f h k j x e = absurd (ground arith)
  Every-modify (y ∷ xs) zero f h k zero x e = subst P (some-injective _ _ e) (k y refl)
  Every-modify (y ∷ xs) zero f h k (suc j) x e = h (suc j) x e
  Every-modify (y ∷ xs) (suc i) f h k zero x e = h zero x e
  Every-modify (y ∷ xs) (suc i) f h k (suc j) x e = Every-modify xs i f (λ j. h (suc j)) k j x e

  pub Every-cons : (y : A) (xs : List A) → P y → Every xs → Every (y ∷ xs)
  Every-cons y xs p h zero x e = subst P (some-injective _ _ e) p
  Every-cons y xs p h (suc i) x e = h i x e

-- The cells below `n` that hold a client.
unfoldable pub taken_cells : ℕ → List ℤ → ℕ
taken_cells zero xs = 0
taken_cells (suc n) [] = 0
taken_cells (suc n) (x ∷ xs) = (if x ==ℤ minus_one then 0 else 1) + taken_cells n xs

-- An item whose host and subscribers are among `nh` hosts and `nc` clients, whose array is as large as it
-- says, and which counts at least the cells in use.
pub record IsSound (nc nh : ℕ) (it : CacheItem) : Type 0 where
  pub host : within nh it.host_idx ≡ true
  pub null : it.subscribers ≡ none → it.subs_size ≡ 0
  pub idle : it.subscribers ≡ none → it.curr_subs ≡ 0
  pub fits : (cs : List ℤ) → it.subscribers ≡ some cs → it.subs_size ≤ length cs
  pub counted :
      (cs : List ℤ) → it.subscribers ≡ some cs → taken_cells it.subs_size cs ≤ it.curr_subs
  pub subs : (cs : List ℤ) → it.subscribers ≡ some cs → Every (λ x. within nc x ≡ true) cs

-- All of an item but its host and what its subscribers' cells hold.
abbrev pub core : CacheItem → CacheItem
core it = record it { host_idx = minus_one; subscribers = none; curr_subs = 0 }

-- Item `c` has no host.
abbrev pub Hostless : ℕ → Server → Type 0
Hostless c s = (it : CacheItem) → get_elem? s.cache c ≡ some it → it.host_idx ≡ minus_one

abbrev pub cores : List CacheItem → List CacheItem
cores [] = []
cores (it ∷ its) = core it ∷ cores its

pub cores-get :
    (its : List CacheItem) (c : ℕ) (it : CacheItem)
    → get_elem? its c ≡ some it
    → get_elem? (cores its) c ≡ some (core it)
cores-get [] c it e = absurd (ground arith)
cores-get (x ∷ its) zero it e = ap some (ap core (some-injective _ _ e))
cores-get (x ∷ its) (suc c) it e = cores-get its c it e

pub cores-modify :
    (its : List CacheItem) (c : ℕ) (it it' : CacheItem)
    → get_elem? its c ≡ some it
    → core it' ≡ core it
    → cores (modify its c (λ _. it')) ≡ cores its
cores-modify [] c it it' e h = refl
cores-modify (x ∷ its) zero it it' e h =
    ap (λ y. y ∷ cores its) (h ∙ ap core (some-injective _ _ (sym e)))
cores-modify (x ∷ its) (suc c) it it' e h = ap (◌∷◌ (core x)) (cores-modify its c it it' e h)

pub cores-modify_lem :
    (its : List CacheItem) (c : ℕ) (it : CacheItem)
    → cores (modify its c (λ _. it)) ≡ modify (cores its) c (λ _. core it)
cores-modify_lem [] c it = refl
cores-modify_lem (x ∷ its) zero it = refl
cores-modify_lem (x ∷ its) (suc c) it = ap (◌∷◌ (core x)) (cores-modify_lem its c it)

module _ (nc nh nk : ℕ) where
  pub record IsSafe (s : Server) : Type 0 where
    pub clients_sized : length s.clients ≡ nc
    pub hosts_sized : length s.hosts ≡ nh
    pub cache_sized : length s.cache ≡ nk
    pub clients : Every (λ (c : Client). within nk c.cache_idx ≡ true) s.clients
    pub hosts : Every (λ (h : Host). within nk h.cache_idx ≡ true) s.hosts
    pub items : Every (IsSound nc nh) s.cache
    pub polls : Roomy s

  -- One item is written.
  pub put_item-Safe :
      (s : Server) (c : ℕ) (it : CacheItem) → IsSafe s → IsSound nc nh it → IsSafe (put_item c it s)
  put_item-Safe s c it v sound = record {
    clients_sized = v.clients_sized;
    hosts_sized = v.hosts_sized;
    cache_sized = length-modify s.cache c (λ _. it) ∙ v.cache_sized;
    clients = v.clients;
    hosts = v.hosts;
    items = Every-modify (IsSound nc nh) s.cache c (λ _. it) v.items (λ x e. sound);
    polls = v.polls;
  }

  -- A call in state `s` that reads and writes inside the arrays only, and leaves what is cached, its sizes
  -- and its times as they are.
  pub record Goes (s : Server) (o : Option Server) : Type 0 where
    pub after : Server
    pub returns : o ≡ some after
    pub safe : IsSafe after
    pub same_cores : cores after.cache ≡ cores s.cache
    pub same_max : after.max_cache ≡ s.max_cache
    pub same_current : after.current_cache ≡ s.current_cache
    pub hostless : (c : ℕ) → Hostless c s → Hostless c after

  pub Goes-IsSafe : (s s' : Server) → Goes s (some s') → IsSafe s'
  Goes-IsSafe s s' g = subst IsSafe (sym (some-injective _ _ g.returns)) g.safe

  pub Goes-some : (s : Server) → IsSafe s → Goes s (some s)
  Goes-some s v = record {
    after = s;
    returns = refl;
    safe = v;
    same_cores = refl;
    same_max = refl;
    same_current = refl;
    hostless = λ c h. h;
  }

  pub Goes-bind :
      (s : Server) (o : Option Server) (f : Server → Option Server)
      → Goes s o
      → ((s' : Server) → IsSafe s' → Goes s' (f s'))
      → Goes s (o >>= f)
  Goes-bind s o f g h =
      let k = h g.after g.safe in
      record {
        after = k.after;
        returns = rw g.returns k.returns;
        safe = k.safe;
        same_cores = k.same_cores ∙ g.same_cores;
        same_max = k.same_max ∙ g.same_max;
        same_current = k.same_current ∙ g.same_current;
        hostless = λ c h. k.hostless c (g.hostless c h);
      }

  pub Goes-after :
      (s s1 : Server) (o : Option Server) → Goes s (some s1) → (IsSafe s1 → Goes s1 o) → Goes s o
  Goes-after s s1 o g k =
      let e : s1 ≡ g.after = some-injective _ _ g.returns in
      let r = k (subst IsSafe (sym e) g.safe) in
      record {
        after = r.after;
        returns = r.returns;
        safe = r.safe;
        same_cores = r.same_cores ∙ ap (λ x. cores x.cache) e ∙ g.same_cores;
        same_max = r.same_max ∙ ap (λ x. x.max_cache) e ∙ g.same_max;
        same_current = r.same_current ∙ ap (λ x. x.current_cache) e ∙ g.same_current;
        hostless = λ c h. r.hostless c (subst (Hostless c) (sym e) (g.hostless c h));
      }
