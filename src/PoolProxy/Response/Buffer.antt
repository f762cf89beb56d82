-- ===== src/PoolProxy/Response/Buffer.antt =====
-- The buffer of a response: what it has room for, and what widening it keeps.
use posix_threads.Common.{
  ℕ, zero, suc, ◌+◌, ◌-◌, ◌*◌, ◌≤◌, ◌<◌, ◌≡◌, refl, sym, ap, inl, inr, true, false, Option, none,
  some, or_else, List, [], ◌++◌, arith, leb, ◌==◌, take, drop, length, tabulate, take-length,
  take_within, take_all, length-take, length-drop, length-append, length-tabulate, length-replicate,
  Bool-cases, Option-cases,
}
use mathlib.Core.List.{append_assoc}
use posix_threads.PoolProxy.Record.{Record}
use posix_threads.PoolProxy.Response.{
  bufsiz, zeroed_buffer, copy_at, first_buffer, realloc_bytes, widen,
}

-- A buffer of the kept size with a cell to spare, or none yet.
abbrev pub Holds : ℕ → ℕ → Option (List ℕ) → Type 0
Holds size index none = (size ≡ 0) × (index ≡ 0)
Holds size index (some buf) = (size ≡ length buf) × (bufsiz ≤ size) × (index < size)

abbrev pub IsBuffered : Record → Type 0
IsBuffered r = Holds r.response_size r.response_index r.response

-- What has been received.
abbrev pub contents : Record → List ℕ
contents r = take r.response_index (or_else r.response [])

-- A record with the buffer `buf`.
pub record Ready (r : Record) (buf : List ℕ) : Type 0 where
  pub has : r.response ≡ some buf
  pub size : r.response_size ≡ length buf
  pub least : bufsiz ≤ r.response_size
  pub spare : r.response_index < r.response_size

pub copy_at_lem :
    (buf : List ℕ) (i : ℕ) (bytes : List ℕ)
    → i + length bytes ≤ length buf
    → (buf' : List ℕ) × (copy_at buf i bytes ≡ some buf')
      × (length buf' ≡ length buf)
      × (take (i + length bytes) buf' ≡ take i buf ++ bytes)
unfolding copy_at
copy_at_lem buf i bytes h =
    let tail = drop (i + length bytes) buf in
    (
      take i buf ++ (bytes ++ tail),
      ground arith,
      omega (
        arith,
        length-append (take i buf) (bytes ++ tail),
        length-append bytes tail,
        length-take i buf (omega arith),
        length-drop (i + length bytes) buf h,
      ),
      rw (← append_assoc) (
          take-length (i + length bytes) (take i buf ++ bytes) tail
            (omega (arith, length-append (take i buf) bytes, length-take i buf (omega arith)))),
    )

pub realloc_lem :
    (memory : ℕ → ℕ) (n : ℕ) (buf : List ℕ)
    → length buf ≤ n
    → realloc_bytes memory n (some buf) ≡ buf ++ tabulate memory (length buf) (n - length buf)
unfolding realloc_bytes
realloc_lem memory n buf h = take_all n _ (
    omega (
      arith,
      length-append buf (tabulate memory (length buf) (n - length buf)),
      length-tabulate memory (length buf) (n - length buf),
    ))

-- The three steps of `append_response`.
zeroed_length : length zeroed_buffer ≡ bufsiz
unfolding zeroed_buffer
zeroed_length = length-replicate {A = ℕ} bufsiz 0

-- `size` and `index` are those of a record with no buffer.
take_none : (index : ℕ) (buf : List ℕ) → index ≡ 0 → take index buf ≡ take index []
take_none zero buf e = refl
take_none (suc index) buf e = absurd (omega arith)

pub first_buffer-Ready :
    (r : Record)
    → IsBuffered r
    → (buf : List ℕ) × Ready (first_buffer r) buf
      × (take (first_buffer r).response_index buf ≡ contents r)
unfolding first_buffer
first_buffer-Ready r v = elim (Option-cases r.response) [
  | inl e ↦
      let gone : Holds r.response_size r.response_index none = rw e at v in
      let empty : (r.response_size == 0) ≡ true = ground arith in
      rw (empty, e)
        (
          zeroed_buffer,
          record { has = refl; size = sym zeroed_length; least = omega arith; spare = omega arith },
          take_none r.response_index zeroed_buffer gone.1,
        )
  | inr (buf, e) ↦
      let held : Holds r.response_size r.response_index (some buf) = rw e at v in
      let used : (r.response_size == 0) ≡ false = ground arith in
      rw (used, e) (buf, record { has = refl; size = held.0; least = held.1; spare = held.2 }, refl)
]

pub widen-Ready :
    (memory : ℕ → ℕ) (more : ℕ) (r : Record) (buf : List ℕ)
    → Ready r buf
    → more ≤ bufsiz
    → (buf' : List ℕ) × Ready (widen memory more r) buf'
      × (more + (widen memory more r).response_index < length buf')
      × (take (widen memory more r).response_index buf' ≡ take r.response_index buf)
unfolding widen
widen-Ready memory more r buf d h =
    elim (Bool-cases (leb r.response_size (more + r.response_index))) [
      | inl e ↦
          let new = tabulate memory (length buf) (r.response_size * 2 - length buf) in
          let longer : length (buf ++ new) ≡ r.response_size * 2 = omega (
            arith,
            d.size,
            length-append buf new,
            length-tabulate memory (length buf) (r.response_size * 2 - length buf),
          ) in
          rw (e, d.has)
            (
              buf ++ new,
              record {
                has =
                    ap some (realloc_lem memory (r.response_size * 2) buf (omega (arith, d.size)));
                size = sym longer;
                least = omega (arith, d.least);
                spare = omega (arith, d.spare);
              },
              omega (arith, longer, d.least, d.spare),
              take_within r.response_index buf new (omega (arith, d.size, d.spare)),
            )
      | inr e ↦ rw e (buf, d, ground arith, refl)
    ]
