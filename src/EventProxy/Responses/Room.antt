-- ===== src/EventProxy/Responses/Room.antt =====
-- The array of a response of rybalko/31/server.c, written to and made larger.
use posix_threads.Common.{
  ℕ, ◌+◌, ◌-◌, ◌*◌, ◌≤◌, ◌<◌, ◌≡◌, refl, ap, ◌∙◌, sym, true, some, or_else, List, [], ◌++◌, arith,
  leb, length, length-append, length-take, length-drop, length-tabulate, take, drop, tabulate,
  take-length, take_within,
}
use posix_threads.EventProxy.{CacheItem}
use posix_threads.EventProxy.Responses.{HostIo, widened, write_at}

-- What an item has of its response.
abbrev pub received : CacheItem → List ℕ
received it = take it.response_idx (or_else it.response [])

-- An item with an array of at least `BUFSIZ` cells, as many as it says, and not full.
pub record HasRoom (it : CacheItem) : Type 0 where
  pub cells : List ℕ
  pub array : it.response ≡ some cells
  pub sized : length cells ≡ it.response_size
  pub large : 8192 ≤ it.response_size
  pub below : it.response_idx < it.response_size

-- What `memcpy` leaves, as large as before, with the bytes behind the `i` first cells.
pub write_at-Written :
    (i : ℕ) (bytes cs : List ℕ)
    → i + length bytes ≤ length cs
    → (ds : List ℕ) × (write_at i bytes cs ≡ some ds)
      × (length ds ≡ length cs)
      × (take (i + length bytes) ds ≡ take i cs ++ bytes)
unfolding write_at
write_at-Written i bytes cs h =
    let fits : leb (i + length bytes) (length cs) ≡ true = ground arith in
    let front : length (take i cs) ≡ i = length-take i cs (omega arith) in
    let both : length (take i cs ++ bytes) ≡ i + length bytes =
      omega (arith, length-append (take i cs) bytes, front) in
    (
      take i cs ++ bytes ++ drop (i + length bytes) cs,
      rw fits refl,
      omega (
        arith,
        length-append (take i cs ++ bytes) (drop (i + length bytes) cs),
        both,
        length-drop (i + length bytes) cs h,
      ),
      take-length (i + length bytes) (take i cs ++ bytes) _ (sym both),
    )

pub widened-HasRoom :
    (io : HostIo) (it : CacheItem)
    → HasRoom it
    → HasRoom (widened io it) × (received (widened io it) ≡ received it)
widened-HasRoom io it v =
    let cells = or_else it.response [] in
    let same : cells ≡ v.cells = ap (λ o. or_else o []) v.array in
    let size : length cells ≡ it.response_size = ap length same ∙ v.sized in
    (
      record {
        cells = cells ++ tabulate io.heap (length cells) (it.response_size * 2 - length cells);
        array = refl;
        sized = omega (
          arith,
          length-append cells
              (tabulate io.heap (length cells) (it.response_size * 2 - length cells)),
          length-tabulate io.heap (length cells) (it.response_size * 2 - length cells),
          size,
        );
        large = omega (arith, v.large);
        below = omega (arith, v.below);
      },
      take_within it.response_idx cells _ (omega (arith, v.below, size)),
    )
