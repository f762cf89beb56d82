-- ===== src/Chain.antt =====
-- Singly linked lists on an explicit heap: the nodes of matsko/33_proxy_with_thread_pool/task_queue.c
-- and of korneshchuk/25/thread_safe_queue.c. A node is a value and a pointer to the next node.
pub mod Linked
use posix_threads.Common.{
  ℕ, Bool, Option, none, some, List, [], ◌∷◌, ◌==◌, ◌||◌, false, if◌then◌else◌,
}

pub record Node {ℓ} (A : Type ℓ) : Type ℓ where
  pub value : A
  pub next : Option ℕ

-- `none` at an address: nothing is allocated there. A null pointer is `none` too.
abbrev pub Heap {ℓ} : Type ℓ → Type ℓ
Heap A = ℕ → Option (Node A)

-- A node that holds `value` and is followed by `next`.
abbrev pub node {ℓ} : {A : Type ℓ} → A → Option ℕ → Node A
node v p = record { value = v; next = p }

abbrev pub write {ℓ} : {A : Type ℓ} → Heap A → ℕ → Option (Node A) → Heap A
write h a c b = if a == b then c else h b

-- What a list stands for: the address and the value of each node, in order.
abbrev pub Cells {ℓ} : Type ℓ → Type ℓ
Cells A = List (ℕ × A)

module _ {ℓ} {A : Type ℓ} where
  abbrev pub start : Cells A → Option ℕ
  start [] = none
  start ((a, v) ∷ cs) = some a

  abbrev pub last : Cells A → Option ℕ
  last [] = none
  last ((a, v) ∷ []) = some a
  last (c ∷ d ∷ cs) = last (d ∷ cs)

  abbrev pub values : Cells A → List A
  values [] = []
  values ((a, v) ∷ cs) = v ∷ values cs

  abbrev pub has : ℕ → Cells A → Bool
  has a [] = false
  has a ((b, v) ∷ cs) = (b == a) || has a cs
