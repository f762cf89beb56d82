-- ===== src/EventProxy/Safe/Ready.antt =====
-- The allocations of `AddSub` of rybalko/31/server.c leave a cell to spare.
use posix_threads.Common.{
  ℕ, ◌+◌, ◌*◌, ◌≤◌, ◌<◌, ◌≡◌, refl, ◌∙◌, sym, subst, inl, inr, true, some, List, [], ◌++◌, arith,
  leb, ◌==◌, ==_iff, get_elem?, length, length-append, length-take, length-replicate, take,
  replicate, Option-cases, Bool-cases, ℤ, pos, minus_one,
}
use mathlib.Core.Option.{some-injective}
use posix_threads.EventProxy.{CacheItem, within}
use posix_threads.EventProxy.Subscriptions.{first_subs, double_subs, more_subs}
use posix_threads.EventProxy.Safe.{Every, taken_cells, IsSound}
use posix_threads.EventProxy.Safe.Cells.{
  taken-le, taken-fresh, taken-grow, empty-Every, append-Every, get_elem?-kept,
}

-- Every client that `it` had below its size, `jt` has in the same cell.
abbrev pub Keeps : CacheItem → List ℤ → Type 0
Keeps it cells =
    (ds : List ℤ) (j q : ℕ)
    → it.subscribers ≡ some ds
    → j < it.subs_size
    → get_elem? ds j ≡ some (pos q)
    → get_elem? cells j ≡ some (pos q)

-- An item with an array, after one or both of the allocations in `AddSub`, on the way from `it`.
pub record IsReady (nc : ℕ) (it jt : CacheItem) (cells : List ℤ) : Type 0 where
  pub same_host : jt.host_idx ≡ it.host_idx
  pub array : jt.subscribers ≡ some cells
  pub room : 0 < jt.subs_size
  pub fits : jt.subs_size ≤ length cells
  pub counted : taken_cells jt.subs_size cells < jt.curr_subs
  pub subs : Every (λ x. within nc x ≡ true) cells
  pub larger : it.subs_size ≤ jt.subs_size
  pub keeps : Keeps it cells

pub first_subs-IsReady :
    (nc nh : ℕ) (it : CacheItem)
    → IsSound nc nh it
    → (jt : CacheItem) × (cells : List ℤ) × (first_subs true
          (record it { curr_subs = it.curr_subs + 1 })
        ≡ some jt)
      × IsReady nc it jt cells
unfolding first_subs
first_subs-IsReady nc nh it v = elim (Bool-cases (it.subs_size == 0)) [
  | inl z ↦ (
    record it {
      curr_subs = it.curr_subs + 1;
      subs_size = 8;
      subscribers = some (replicate 8 minus_one);
    },
    replicate 8 minus_one,
    rw z refl,
    record {
      same_host = refl;
      array = refl;
      room = omega arith;
      fits = omega arith;
      counted = omega (arith, taken-fresh 8 8);
      subs = append-Every nc 0 8 [] (empty-Every nc);
      larger = ground (arith, ==_iff it.subs_size 0);
      keeps = λ ds j q e h at. absurd (ground (arith, ==_iff it.subs_size 0));
    },
  )
  | inr z ↦ elim (Option-cases it.subscribers) [
    | inl e ↦ absurd (ground (arith, v.null e))
    | inr (cs, e) ↦ (
      record it { curr_subs = it.curr_subs + 1 },
      cs,
      rw z refl,
      record {
        same_host = refl;
        array = e;
        room = ground arith;
        fits = v.fits cs e;
        counted = omega (arith, v.counted cs e);
        subs = v.subs cs e;
        larger = omega arith;
        keeps = λ ds j q f h at.
            subst (λ x. get_elem? x j ≡ some (pos q)) (some-injective _ _ (sym f ∙ e)) at;
      },
    )
  ]
]

-- After both allocations there is a cell to spare.
pub more_subs-IsReady :
    (nc : ℕ) (it jt : CacheItem) (cells : List ℤ)
    → IsReady nc it jt cells
    → (kt : CacheItem) × (ds : List ℤ) × (more_subs true jt ≡ some kt)
      × IsReady nc it kt ds
      × (taken_cells kt.subs_size ds < kt.subs_size)
unfolding more_subs double_subs
more_subs-IsReady nc it jt cells v = elim (Bool-cases (leb jt.subs_size jt.curr_subs)) [
  | inr e ↦ (jt, cells, rw e refl, v, ground (arith, v.counted))
  | inl e ↦
      let ds = take jt.subs_size cells ++ replicate jt.subs_size minus_one in
      let grown : taken_cells (jt.subs_size * 2) ds ≡ taken_cells jt.subs_size cells =
        taken-grow (jt.subs_size * 2) jt.subs_size jt.subs_size cells (omega arith) v.fits in
      let size : length ds ≡ jt.subs_size * 2 = omega (
        arith,
        length-append (take jt.subs_size cells) (replicate jt.subs_size minus_one),
        length-take jt.subs_size cells v.fits,
        length-replicate jt.subs_size minus_one,
      ) in
      (
        record jt { subs_size = jt.subs_size * 2; subscribers = some ds },
        ds,
        rw (e, v.array) refl,
        record {
          same_host = v.same_host;
          array = refl;
          room = omega (arith, v.room);
          fits = omega (arith, size);
          counted = omega (arith, grown, v.counted);
          subs = append-Every nc jt.subs_size jt.subs_size cells v.subs;
          larger = omega (arith, v.larger);
          keeps = λ xs j q f h at.
              get_elem?-kept jt.subs_size j cells (replicate jt.subs_size minus_one) (pos q)
                (omega (arith, v.larger)) (v.keeps xs j q f h at);
        },
        omega (arith, grown, v.room, taken-le jt.subs_size cells),
      )
]
