-- ===== src/SocketTable/Count.antt =====
-- The number that is kept is that of the cells in use, so a free cell is always found.
use posix_threads.Common.{
  ℕ, zero, suc, ◌+◌, ◌*◌, ◌≤◌, ◌<◌, ◌≡◌, refl, inl, inr, Bool, true, false, none, some, List, [],
  ◌∷◌, ◌++◌, arith, ◌==◌, ==_iff, if◌then◌else◌, get_elem?, modify, replicate, length,
  length-append, length-modify, length-replicate, ℤ, pos, minus_one, ◌==ℤ◌, find_below,
  find_below-lt, find_below-passes, find_below-none, get_elem?-modify, Option-cases, ap, sym, ◌∙◌,
  subst, ◌-◌, Bool-cases,
}
use mathlib.Core.List.{append-nil}
use posix_threads.SocketTable.{SocketArray, grow_sockets, take_socket, add_socket}

module _ {A : Type 0} (fd_of : A → ℤ) where
  abbrev pub used : List A → ℕ
  used [] = 0
  used (c ∷ cs) = (if fd_of c ==ℤ minus_one then 0 else 1) + used cs

  pub record IsCounted (a : SocketArray A) : Type 0 where
    pub sized : a.size ≡ length a.members
    pub room : 0 < a.size
    pub counted : a.current_number ≡ used a.members

  used-append : (xs ys : List A) → used (xs ++ ys) ≡ used xs + used ys
  used-append [] ys = omega arith
  used-append (x ∷ xs) ys = omega (arith, used-append xs ys)

  used_le : (xs : List A) → used xs ≤ length xs
  used_le [] = omega arith
  used_le (x ∷ xs) = ground (arith, used_le xs)

  -- With no free cell all are in use.
  used_all :
      (n : ℕ) (cs : List A)
      → n ≡ length cs
      → find_below (λ c. fd_of c ==ℤ minus_one) n cs ≡ none
      → used cs ≡ n
  unfolding find_below
  used_all zero [] l h = refl
  used_all zero (c ∷ cs) l h = absurd (omega arith)
  used_all (suc n) [] l h = absurd (omega arith)
  used_all (suc n) (c ∷ cs) l h =
      let (taken, rest) = find_below-none (λ c. fd_of c ==ℤ minus_one) n c cs h in
      rw taken (omega (arith, used_all n cs (omega arith) rest))

  used-modify :
      (cs : List A) (i : ℕ) (c : A) (enter : A → A)
      → get_elem? cs i ≡ some c
      → (fd_of c ==ℤ minus_one) ≡ true
      → (fd_of (enter c) ==ℤ minus_one) ≡ false
      → used (modify cs i enter) ≡ suc (used cs)
  used-modify [] i c enter at free taken = cc
  used-modify (d ∷ cs) zero c enter at free taken =
      let same : d ≡ c = ground arith in rw same (rw (taken, free) (omega arith))
  used-modify (d ∷ cs) (suc i) c enter at free taken =
      omega (arith, used-modify cs i c enter at free taken)

  module _ (fresh : A) (free : (fd_of fresh ==ℤ minus_one) ≡ true) where
    used-fresh : (n : ℕ) → used (replicate n fresh) ≡ 0
    used-fresh zero = refl
    used-fresh (suc n) = rw free (omega (arith, used-fresh n))

    -- The array has a free cell after it has grown, and nothing else is new.
    grow-IsCounted :
        (a : SocketArray A)
        → IsCounted a
        → (b : SocketArray A) × (grow_sockets fd_of fresh true a ≡ some b)
          × IsCounted b
          × (b.current_number ≡ a.current_number)
          × (used b.members < b.size)
          × (b.size ≡ (if a.current_number == a.size then a.size * 2 else a.size))
          × (b.members ≡ a.members ++ replicate (b.size - a.size) fresh)
    unfolding grow_sockets
    grow-IsCounted a v = elim (Bool-cases (a.current_number == a.size)) [
      | inl e ↦
          let more = used-append a.members (replicate a.size fresh) in
          let none_used = used-fresh a.size in
          (
            record a { members = a.members ++ replicate a.size fresh; size = a.size * 2 },
            rw e refl,
            record {
              sized = omega (
                arith,
                v.sized,
                length-append a.members (replicate a.size fresh),
                length-replicate a.size fresh,
              );
              room = omega (arith, v.room);
              counted = omega (arith, v.counted, more, none_used);
            },
            refl,
            omega (arith, v.room, v.counted, more, none_used, (==_iff a.current_number a.size).0 e),
            rw e refl,
            let more : a.size ≡ a.size * 2 - a.size = omega arith in
                ap (λ k. a.members ++ replicate k fresh) more,
          )
      | inr e ↦ (
        a,
        rw e refl,
        v,
        refl,
        ground (arith, used_le a.members, v.counted, v.sized),
        rw e refl,
        let no_more : 0 ≡ a.size - a.size = omega arith in
            sym (append-nil a.members) ∙ ap (λ k. a.members ++ replicate k fresh) no_more,
      )
    ]

    -- A cell inside the array that was free is now `enter`ed, and one more is in use; all other cells
    -- are those of `cells`.
    record Entered (enter : A → A) (a : SocketArray A) (i : ℕ) (b : SocketArray A) : Type 0 where
      inside : i < b.size
      counted : IsCounted b
      more : b.current_number ≡ suc a.current_number
      same_size : b.size ≡ a.size
      old : A
      at : get_elem? a.members i ≡ some old
      was_free : (fd_of old ==ℤ minus_one) ≡ true
      cells :
          (j : ℕ)
          → get_elem? b.members j ≡ (if i == j then some (enter old) else get_elem? a.members j)

    -- What the array is before a cell is taken: twice as large if all cells are in use, with fresh cells at
    -- the end.
    abbrev pub grown_size : SocketArray A → ℕ
    grown_size a = if a.current_number == a.size then a.size * 2 else a.size

    abbrev pub grown : SocketArray A → List A
    grown a = a.members ++ replicate (grown_size a - a.size) fresh

    -- The array has its size from `grown_size`, one of its cells, which was free, is `enter`ed, all others
    -- are as they were or fresh, and one more is in use.
    pub record Added (enter : A → A) (a : SocketArray A) (i : ℕ) (b : SocketArray A) : Type 0 where
      pub size : b.size ≡ grown_size a
      pub inside : i < b.size
      pub counted : IsCounted b
      pub more : b.current_number ≡ suc a.current_number
      pub old : A
      pub at : get_elem? (grown a) i ≡ some old
      pub was_free : (fd_of old ==ℤ minus_one) ≡ true
      pub cells :
          (j : ℕ)
          → get_elem? b.members j ≡ (if i == j then some (enter old) else get_elem? (grown a) j)

    take_socket-Entered :
        (enter : A → A) (a : SocketArray A)
        → ((c : A) → (fd_of (enter c) ==ℤ minus_one) ≡ false)
        → IsCounted a
        → used a.members < a.size
        → (i : ℕ) × (b : SocketArray A) × (take_socket fd_of fresh enter a ≡ (pos i, b))
          × Entered enter a i b
    unfolding take_socket
    take_socket-Entered enter a taken v some_free =
        let test : A → Bool = λ c. fd_of c ==ℤ minus_one in
        elim (Option-cases (find_below test a.size a.members)) [
          | inl e ↦ absurd (omega (arith, some_free, used_all a.size a.members v.sized e))
          | inr (i, e) ↦
              let (c, at, was) = find_below-passes test a.size a.members i e in
              (
                i,
                record a {
                  members = modify a.members i enter;
                  current_number = a.current_number + 1;
                },
                rw (e, take_socket) refl,
                record {
                  inside = find_below-lt test a.size a.members i e;
                  counted = record {
                    sized = omega (arith, v.sized, length-modify a.members i enter);
                    room = v.room;
                    counted =
                        omega (arith, v.counted, used-modify a.members i c enter at was (taken c));
                  };
                  more = omega arith;
                  same_size = refl;
                  old = c;
                  at = at;
                  was_free = was;
                  cells = λ j. get_elem?-modify a.members i j enter c at;
                },
              )
        ]

    -- Adding a descriptor other than -1 to an array whose number of used cells is the one that is kept, with memory
    -- at hand: the array doubles if all its cells are in use and else keeps its size; a cell inside it that was
    -- free is changed, every other cell is as it was, or fresh where the array has grown, and the number stays
    -- that of the used cells.
    pub add_socket-Added :
        (enter : A → A) (a : SocketArray A)
        → ((c : A) → (fd_of (enter c) ==ℤ minus_one) ≡ false)
        → IsCounted a
        → (i : ℕ) × (b : SocketArray A) × (add_socket fd_of fresh true enter a ≡ some (pos i, b))
          × Added enter a i b
    unfolding add_socket
    add_socket-Added enter a taken v =
        let (b, e, w, same, some_free, size, members) = grow-IsCounted a v in
        let (i, c, f, added) = take_socket-Entered enter b taken w some_free in
        let whole : b.members ≡ grown a =
          members ∙ ap (λ k. a.members ++ replicate (k - a.size) fresh) size in
        (
          i,
          c,
          rw (e, add_socket) (rw f refl),
          record {
            size = added.same_size ∙ size;
            inside = added.inside;
            counted = added.counted;
            more = omega (arith, added.more, same);
            old = added.old;
            at = ap (λ cs. get_elem? cs i) (sym whole) ∙ added.at;
            was_free = added.was_free;
            cells = λ j.
                subst
                  (λ cs.
                    get_elem? c.members j
                    ≡ (if i == j then some (enter added.old) else get_elem? cs j))
                  whole (added.cells j);
          },
        )
