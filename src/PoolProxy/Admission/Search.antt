-- ===== src/PoolProxy/Admission/Search.antt =====
-- What `findAndAddCacheRecord` finds in a list whose records are all valid.
use posix_threads.Common.{
  same_chars, ℕ, zero, suc, ◌<◌, ◌≡◌, ◌↔◌, refl, ◌∙◌, subst, ap, inl, inr, Bool, true, false, ◌&&◌,
  Option, none, some, or_else, List, [], ◌∷◌, arith, ◌==◌, ==_iff, if◌then◌else◌, length,
  Bool-cases,
}
use posix_threads.Chain.{Cells, start}
use posix_threads.Chain.Linked.{Linked}
use posix_threads.PoolProxy.Record.{Record}
use posix_threads.PoolProxy.Record.Subscribers.{IsListening}
use posix_threads.PoolProxy.World.{update, ◌>>=◌}
use posix_threads.PoolProxy.Admission.{
  Cached, same_url, pass_node, look_at, found, going, hit, miss, search_list, Answers, found_from,
  find_and_add_cache_record,
}

-- A valid record whose url and array of subscribers have the sizes that are kept for them.
pub record IsGood (r : Record) : Type 0 where
  pub text : List ℕ
  pub live : r.valid ≡ true
  pub url : r.url ≡ some text
  pub size : r.url_len ≡ length text
  pub fits : IsListening r

abbrev pub IsKnown : (ℕ → Option Record) → ℕ → Type 0
IsKnown rs p = (r : Record) × (rs p ≡ some r) × IsGood r

abbrev pub AllKnown : (ℕ → Option Record) → Cells ℕ → Type 0
AllKnown rs [] = Unit
AllKnown rs ((a, p) ∷ cs) = IsKnown rs p × AllKnown rs cs

-- The list of records is `cs`: its nodes are chained in this order, and each record is known.
pub record IsCache (c : Cached) (cs : Cells ℕ) : Type 0 where
  pub linked : Linked c.nodes cs
  pub head : c.head ≡ start cs
  pub known : AllKnown c.world.records cs

-- Two texts of one length are the same up to a zero character.
unfoldable pub same_text : List ℕ → List ℕ → Bool
same_text u url = (length u == length url) && or_else (same_chars (length url) u url) false

unfoldable pub has_url : List ℕ → Option Record → Bool
has_url url none = false
has_url url (some r) = same_text (or_else r.url []) url

-- The first record with the url, if any, and the last node.
unfoldable pub first_with : (ℕ → Option Record) → List ℕ → Cells ℕ → Option ℕ
first_with rs url [] = none
first_with rs url ((a, p) ∷ cs) = if has_url url (rs p) then some p else first_with rs url cs

abbrev pub last_from : Option ℕ → Cells ℕ → Option ℕ
last_from prev [] = prev
last_from prev ((a, p) ∷ cs) = last_from (some a) cs

-- No zero character.
abbrev pub IsText : List ℕ → Type 0
IsText [] = Unit
IsText (x ∷ xs) = (0 < x) × IsText xs

same_chars-within :
    (n : ℕ) (xs ys : List ℕ)
    → length xs ≡ n
    → length ys ≡ n
    → same_chars n xs ys ≡ some (or_else (same_chars n xs ys) false)
unfolding same_chars
same_chars-within zero xs ys e f = refl
same_chars-within (suc n) [] ys e f = absurd (omega arith)
same_chars-within (suc n) (x ∷ xs) [] e f = absurd (omega arith)
same_chars-within (suc n) (x ∷ xs) (y ∷ ys) e f =
    ground (arith, same_chars-within n xs ys (omega arith) (omega arith))

same_chars-texts :
    (n : ℕ) (xs ys : List ℕ)
    → IsText xs
    → length xs ≡ n
    → length ys ≡ n
    → (or_else (same_chars n xs ys) false ≡ true) ↔ (xs ≡ ys)
unfolding same_chars
same_chars-texts zero [] [] t e f = ground arith
same_chars-texts zero [] (y ∷ ys) t e f = absurd (omega arith)
same_chars-texts zero (x ∷ xs) ys t e f = absurd (omega arith)
same_chars-texts (suc n) [] ys t e f = absurd (omega arith)
same_chars-texts (suc n) (x ∷ xs) [] t e f = absurd (omega arith)
same_chars-texts (suc n) (x ∷ xs) (y ∷ ys) t e f =
    ground (arith, same_chars-texts n xs ys t.1 (omega arith) (omega arith), ==_iff x y)

-- On a text the comparison of the code is equality.
pub same_text_iff : (u url : List ℕ) → IsText u → (same_text u url ≡ true) ↔ (u ≡ url)
unfolding same_text
same_text_iff u url t = elim (Bool-cases (length u == length url)) [
  | inl e ↦
      let same : length u ≡ length url = (==_iff _ _).0 e in
      rw e (same_chars-texts (length url) u url t same refl)
  | inr e ↦ ground (arith, ==_iff (length u) (length url))
]

pub same_url_lem :
    (url u : List ℕ) (r : Record)
    → r.url ≡ some u
    → r.url_len ≡ length u
    → same_url url r ≡ some (same_text u url)
unfolding same_url same_text
same_url_lem url u r has size = elim (Bool-cases (length u == length url)) [
  | inl e ↦
      let same : length u ≡ length url = (==_iff _ _).0 e in
      simp (has, size, e) (same_chars-within (length url) u url same refl)
  | inr e ↦ simp (has, size, e)
]

module _ (others : Cached → Cached) (quiet : (c : Cached) → others c ≡ c) (url : List ℕ)
    (c : Cached) where
  look_lem :
      (prev : Option ℕ) (a p : ℕ) (cs : Cells ℕ)
      → Linked c.nodes ((a, p) ∷ cs)
      → IsKnown c.world.records p
      → look_at others url c prev a ≡ (
          if has_url url (c.world.records p)
          then some (found c p)
          else some (going c (some a) (start cs)))
  unfolding look_at pass_node has_url
  look_lem prev a p cs l (r, at, g) =
      let same : same_url url r ≡ some (same_text g.text url) =
        same_url_lem url g.text r g.url g.size in
      elim (Bool-cases (same_text g.text url)) [
        | inl e ↦ rw (l.0, at, g.live, same, look_at) (simp (g.url, e))
        | inr e ↦ rw (l.0, at, g.live, same, look_at) (simp (g.url, e, quiet c, l.0))
      ]

  -- With the other threads quiet the search answers the first record with the url, or that there is none and the
  -- last node, and changes nothing.
  pub search_list_lem :
      (k : ℕ) (prev : Option ℕ) (cs : Cells ℕ)
      → length cs < k
      → Linked c.nodes cs
      → AllKnown c.world.records cs
      → search_list k others url c prev (start cs)
        ≡ some (elim (first_with c.world.records url cs) [
          | none ↦ miss c (last_from prev cs)
          | some p ↦ hit c p
        ])
  unfolding search_list first_with
  search_list_lem zero prev cs h l known = absurd (omega arith)
  search_list_lem (suc k) prev [] h l known = refl
  search_list_lem (suc k) prev ((a, p) ∷ cs) h l (one, known) =
      elim (Bool-cases (has_url url (c.world.records p))) [
        | inl e ↦ rw (look_lem prev a p cs l one, e, search_list) refl
        | inr e ↦
            rw (look_lem prev a p cs l one, e, search_list)
              (search_list_lem k (some a) cs (omega arith) l.2 known)
      ]

-- The record found is known, and has the url.
pub first_with-IsKnown :
    (rs : ℕ → Option Record) (url : List ℕ) (cs : Cells ℕ) (p : ℕ)
    → AllKnown rs cs
    → first_with rs url cs ≡ some p
    → IsKnown rs p × (has_url url (rs p) ≡ true)
unfolding first_with
first_with-IsKnown rs url [] p known e = absurd (ground arith)
first_with-IsKnown rs url ((a, q) ∷ cs) p (one, known) e = elim (Bool-cases (has_url url (rs q))) [
  | inl h ↦
      let same : q ≡ p = ground arith in
      (subst (λ x. IsKnown rs x) same one, subst (λ x. has_url url (rs x) ≡ true) same h)
  | inr h ↦ first_with-IsKnown rs url cs p known (ground arith)
]

-- Records stay known when a good one is stored.
pub IsKnown-update :
    (rs : ℕ → Option Record) (p q : ℕ) (r : Record)
    → IsGood r
    → IsKnown rs q
    → IsKnown (update rs p (some r)) q
IsKnown-update rs p q r g k = elim (Bool-cases (p == q)) [
  | inl e ↦ (r, rw e refl, g)
  | inr e ↦ rw e k
]

pub AllKnown-update :
    (rs : ℕ → Option Record) (p : ℕ) (r : Record) (cs : Cells ℕ)
    → IsGood r
    → AllKnown rs cs
    → AllKnown (update rs p (some r)) cs
AllKnown-update rs p r [] g k = tt
AllKnown-update rs p r ((a, q) ∷ cs) g (one, k) =
    (IsKnown-update rs p q r g one, AllKnown-update rs p r cs g k)

-- So what a request does depends on that answer alone.
pub find_and_add_lem :
    (k : ℕ) (others : Cached → Cached) (o : Answers) (c : Cached) (cs : Cells ℕ) (i n : ℕ)
    (url : List ℕ) (answer : Option ℕ)
    → ((x : Cached) → others x ≡ x)
    → length cs < k
    → IsCache c cs
    → first_with c.world.records url cs ≡ answer
    → find_and_add_cache_record k others o c i url n
      ≡ found_from o i url n (elim answer [ none ↦ miss c (last_from none cs) | some p ↦ hit c p ])
unfolding find_and_add_cache_record
find_and_add_lem k others o c cs i n url answer quiet fuel v e =
    ap (λ p. search_list k others url c none p >>= found_from o i url n) v.head
    ∙ rw (search_list_lem others quiet url c k none cs fuel v.linked v.known, e) refl
