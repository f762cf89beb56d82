-- ===== src/PoolProxy/Admission/Links.antt =====
-- A new node at the end of the list of records.
use posix_threads.Common.{
  ◌≡◌, refl, ◌∙◌, ℕ, Option, none, some, [], ◌∷◌, ◌++◌, arith, ◌==◌, ==_iff, if◌then◌else◌, true,
  false,
}
use posix_threads.Chain.{Node, node, write, Cells, start, last, has}
use posix_threads.Chain.Linked.{
  Linked, Linked-write, Linked-append, not-has, last-node, other_address, last-has,
}
use posix_threads.PoolProxy.Admission.{Cached, link_node}
use posix_threads.PoolProxy.Admission.Search.{last_from}

pub last_from-last :
    (prev : Option ℕ) (d : ℕ × ℕ) (cs : Cells ℕ) → last_from prev (d ∷ cs) ≡ last (d ∷ cs)
last_from-last prev (a, p) [] = refl
last_from-last prev (a, p) ((b, q) ∷ cs) = last_from-last (some a) (b, q) cs

itself : (f : ℕ) (a b : Option (Node ℕ)) → (if f == f then a else b) ≡ a
itself f a b = ground arith

elsewhere : (t f : ℕ) (cs : Cells ℕ) → has t cs ≡ true → has f cs ≡ false → (f == t) ≡ false
elsewhere t f cs here out =
    let apart = other_address t f cs here out in ground (arith, ==_iff f t, ==_iff t f)

-- `c'` is `c` with the nodes `cs` chained.
pub record Chained (c : Cached) (cs : Cells ℕ) (c' : Cached) : Type 0 where
  pub world : c'.world ≡ c.world
  pub head : c'.head ≡ start cs
  pub linked : Linked c'.nodes cs

pub link_node-Chained :
    (c : Cached) (cs : Cells ℕ) (f p : ℕ)
    → Linked c.nodes cs
    → c.head ≡ start cs
    → c.nodes f ≡ none
    → (c' : Cached) × (link_node c (last_from none cs) f p ≡ some c')
      × Chained c (cs ++ (f, p) ∷ []) c'
unfolding link_node
link_node-Chained c [] f p l h free =
    (_, refl, record { world = refl; head = refl; linked = (ground arith, refl, tt) })
link_node-Chained c (d ∷ cs) f p l h free =
    let out = not-has c.nodes (d ∷ cs) f l free in
    let (t, w, e, at) = last-node c.nodes d cs l in
    let h' = write c.nodes f (some (node p none)) in
    let other = elsewhere t f (d ∷ cs) (last-has t d cs e) out in
    let here : h' t ≡ some (node w none) = rw other at in
    (
      record c { nodes = write h' t (some (node w (some f))) },
      rw (last_from-last none d cs ∙ e, here, link_node) refl,
      record {
        world = refl;
        head = h;
        linked =
            Linked-append h' d cs t f w p (Linked-write c.nodes (d ∷ cs) f _ l out) e here
              (itself f _ _) out;
      },
    )
