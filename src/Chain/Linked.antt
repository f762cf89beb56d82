-- ===== src/Chain/Linked.antt =====
-- When the nodes of a list are in memory, distinct and chained in order.
use posix_threads.Common.{
  ℕ, ◌≡◌, refl, sym, ◌∙◌, ap, inl, inr, true, false, Option, none, some, [], ◌∷◌, ◌++◌, arith, ◌==◌,
  ==_iff, Bool-cases,
}
use mathlib.Core.Bool.{false≢true}
use posix_threads.Chain.{Heap, node, write, Cells, start, last, values, has}

module _ {ℓ} {A : Type ℓ} where
  abbrev pub Linked : Heap A → Cells A → Type ℓ
  Linked h [] = Unit
  Linked h ((a, v) ∷ cs) = (h a ≡ some (node v (start cs))) × (has a cs ≡ false) × Linked h cs

  -- A write elsewhere spares the list.
  pub Linked-write :
      (h : Heap A) (cs : Cells A) (a : ℕ) (c : Option _)
      → Linked h cs
      → has a cs ≡ false
      → Linked (write h a c) cs
  Linked-write h [] a c l out = tt
  Linked-write h ((b, v) ∷ cs) a c l out = ground (arith, Linked-write h cs a c)

  pub not-has : (h : Heap A) (cs : Cells A) (a : ℕ) → Linked h cs → h a ≡ none → has a cs ≡ false
  not-has h [] a l gone = refl
  not-has h ((b, v) ∷ cs) a l gone = ground (arith, not-has h cs a)

  pub has-append :
      (a b : ℕ) (v : A) (cs : Cells A)
      → has a cs ≡ false
      → (b == a) ≡ false
      → has a (cs ++ (b, v) ∷ []) ≡ false
  has-append a b v [] out ne = ground arith
  has-append a b v ((d, w) ∷ cs) out ne = ground (arith, has-append a b v cs)

  pub values-append :
      (cs : Cells A) (a : ℕ) (v : A) → values (cs ++ (a, v) ∷ []) ≡ values cs ++ v ∷ []
  values-append [] a v = refl
  values-append ((b, w) ∷ cs) a v = ap (◌∷◌ w) (values-append cs a v)

  pub last-append : (cs : Cells A) (a : ℕ) (v : A) → last (cs ++ (a, v) ∷ []) ≡ some a
  last-append [] a v = refl
  last-append (c ∷ []) a v = refl
  last-append (c ∷ d ∷ cs) a v = last-append (d ∷ cs) a v

  pub last-has : (t : ℕ) (c : ℕ × A) (cs : Cells A) → last (c ∷ cs) ≡ some t → has t (c ∷ cs) ≡ true
  last-has t (a, v) [] e = ground arith
  last-has t (a, v) ((b, w) ∷ cs) e = ground (arith, last-has t (b, w) cs)

  pub other_address :
      (t a : ℕ) (cs : Cells A) → has t cs ≡ true → has a cs ≡ false → (t == a) ≡ false
  other_address t a cs here gone = elim (Bool-cases (t == a)) [
    | inl e ↦ absurd (false≢true (sym gone ∙ ap (λ b. has b cs) (sym ((==_iff t a).0 e)) ∙ here))
    | inr e ↦ e
  ]

  pub start-append : (c : ℕ × A) (cs ds : Cells A) → start ((c ∷ cs) ++ ds) ≡ start (c ∷ cs)
  start-append (a, v) cs ds = refl

  -- A new node `f` is hung behind the last one, at `t`.
  pub Linked-append :
      (h : Heap A) (c : ℕ × A) (cs : Cells A) (t f : ℕ) (w v : A)
      → Linked h (c ∷ cs)
      → last (c ∷ cs) ≡ some t
      → h t ≡ some (node w none)
      → h f ≡ some (node v none)
      → has f (c ∷ cs) ≡ false
      → Linked (write h t (some (node w (some f)))) ((c ∷ cs) ++ (f, v) ∷ [])
  Linked-append h (a, u) [] t f w v l e at new out = ground arith
  Linked-append h (a, u) ((b, u') ∷ cs) t f w v l e at new out =
      let elsewhere : (t == a) ≡ false =
        other_address t a ((b, u') ∷ cs) (last-has t (b, u') cs e) l.1 in
      let apart : (a == f) ≡ false = ground arith in
      (
        rw elsewhere l.0,
        has-append a f v ((b, u') ∷ cs) l.1 (ground arith),
        Linked-append h (b, u') cs t f w v l.2 e at new (ground arith),
      )

  -- The last node of a list is in memory, and nothing follows it.
  pub last-node :
      (h : Heap A) (c : ℕ × A) (cs : Cells A)
      → Linked h (c ∷ cs)
      → (t : ℕ) × (w : A) × (last (c ∷ cs) ≡ some t) × (h t ≡ some (node w none))
  last-node h (a, v) [] l = (a, v, refl, l.0)
  last-node h (a, v) (d ∷ cs) l = last-node h d cs l.2
