-- ===== src/Larc/Steps.antt =====
-- src/algs/larc/larc_policy.c: the cases of `larc_transaction_commit` on a valid LARC.
use fomo.Base.{
  ℕ, ◌+◌, ◌<◌, ◌≡◌, refl, ap, ◌∙◌, Bool, true, false, Option, some, ltb, ◌==◌, Bool-cases, inl, inr,
  arith, ==_refl, length, length-remove-le, length-remove,
}
use fomo.Nucleus.{Result, Operation, lookup, cache_is_full}
use fomo.Nucleus.Valid.{in_cache_pool, live, oblock_of, lookup-live}
use fomo.Nucleus.Cached.{is_cached, is_cached-live, is_cached_unless}
use fomo.Larc.{Larc, q_list, g_list}
use fomo.Larc.Access.{make_room, leave_ghost, place, trim, stock, is_q, transaction_commit}
use fomo.Larc.Valid.{IsValid}
use fomo.Larc.Remove.{Removes, remove_entry-Removes, evict_cached, evict_ghost}
use fomo.Larc.Insert.{Holds, stock-Holds, shelve-Holds}
use fomo.Larc.Renew.{renew-Holds}
use fomo.Larc.Commit.{
  hit_transaction, ghost_transaction, new_transaction, filter_transaction, looked, looked-IsValid,
}
use fomo.Mstar.Policy.Size.{IsSized}

-- LARC with another size of its ghost queue.
abbrev pub sized : Larc → ℕ → Larc
sized l size = record l { g_size = size }

pub sized-IsValid :
    (l : Larc) (size : ℕ) → IsValid l → IsSized l.nucleus.meta_size size → IsValid (sized l size)
sized-IsValid l size v s = record {
  placed = record {
    nucleus = v.placed.nucleus;
    cached = v.placed.cached;
    ghosts = v.placed.ghosts;
    homes = v.placed.homes;
    still = v.placed.still;
    sized = s;
    room = v.placed.room;
    two = v.placed.two;
  };
  short = v.short;
}

-- An access that returns the operation and leaves LARC valid, with the block in the cache or not.
pub record Done (r : Option (Larc × Result)) (o : ℕ) (op : Operation) (cached : Bool) : Type 0 where
  pub after : Larc
  pub result : Result
  pub returns : r ≡ some (after, result)
  pub valid : IsValid after
  pub answer : result.op ≡ op
  pub holds : is_cached after.nucleus o ≡ cached

Holds-is_cached :
    (l l' : Larc) (o : ℕ) (cached : Bool) → Holds l l' o cached → is_cached l'.nucleus o ≡ cached
Holds-is_cached l l' o cached h =
    is_cached-live l'.nucleus o h.holder h.placed.nucleus h.holder_live h.holder_block
    ∙ h.holder_pool

module _ (l : Larc) (o size : ℕ) (result : Result) (v : IsValid l)
    (s : IsSized l.nucleus.meta_size size) where
  pub commit_hit :
      (e : ℕ)
      → live l.nucleus e ≡ true
      → oblock_of l.nucleus e ≡ o
      → in_cache_pool l.nucleus e ≡ true
      → Done (transaction_commit l (hit_transaction o size) result) o Operation.hit true
  unfolding transaction_commit make_room leave_ghost place trim is_q
  commit_hit e on block inside =
      let w = sized-IsValid l size v s in
      let (l', c, renewed, h, same, ghosts) =
        renew-Holds (sized l size) o e w.placed on inside block
          (record result { op = Operation.new }) in
      record {
        after = l';
        result = record result { cblock = c; op = Operation.hit };
        returns = rw renewed refl;
        valid = record {
          placed = h.placed;
          short = ground (arith, v.short, ap length ghosts, h.same_size);
        };
        answer = refl;
        holds = Holds-is_cached (sized l size) l' o true h;
      }

  pub commit_new :
      ((e : ℕ) → live l.nucleus e ≡ true → (oblock_of l.nucleus e == o) ≡ false)
      → cache_is_full l.nucleus ≡ false
      → Done (transaction_commit l (new_transaction o size) result) o Operation.new true
  unfolding transaction_commit make_room leave_ghost place trim is_q
  commit_new new room =
      let w = sized-IsValid l size v s in
      let (l', c, stocked, h, queues) =
        stock-Holds (sized l size) o w.placed new (record result { op = Operation.new }) room in
      record {
        after = l';
        result = record result { op = Operation.new; cblock = c };
        returns = rw stocked refl;
        valid = record {
          placed = h.placed;
          short = ground (arith, v.short, ap (λ q. length (q.items g_list)) queues, h.same_size);
        };
        answer = refl;
        holds = Holds-is_cached (sized l size) l' o true h;
      }

  -- The new block is in the ghost queue, which may be one too long before the last step.
  pub commit_filter :
      ((e : ℕ) → live l.nucleus e ≡ true → (oblock_of l.nucleus e == o) ≡ false)
      → Done
          (transaction_commit l
            (filter_transaction o size (ltb size (length (l.queues.items g_list) + 1)))
            result)
          o
          Operation.filter
          false
  unfolding transaction_commit make_room leave_ghost place trim is_q
  commit_filter new =
      let w = sized-IsValid l size v s in
      let (l', shelved, h, same, longer) =
        shelve-Holds (sized l size) o w.placed new (record result { op = Operation.new }) v.short in
      elim (Bool-cases (ltb size (length (l.queues.items g_list) + 1))) [
        | inr fits ↦ record {
          after = l';
          result = record result { op = Operation.filter };
          returns = rw (shelved, fits) refl;
          valid = record {
            placed = h.placed;
            short = ground (arith, longer, fits, h.same_size, s.most);
          };
          answer = refl;
          holds = Holds-is_cached (sized l size) l' o false h;
        }
        | inl over ↦
            let (a, l'', evicted, there, r) = evict_ghost l' h.placed (omega (arith, longer)) in
            record {
              after = l'';
              result = record result { op = Operation.filter };
              returns = rw (shelved, over, evicted) refl;
              valid = record {
                placed = r.placed;
                short = ground (
                  arith,
                  v.short,
                  longer,
                  ap length r.ghosts_left,
                  length-remove a (l'.queues.items g_list) h.placed.ghosts.distinct there,
                  h.same_size,
                  r.same_size,
                );
              };
              answer = refl;
              holds = is_cached_unless l''.nucleus o r.placed.nucleus (λ e on block. ground (
                arith,
                r.drops.drops_live e,
                r.drops.drops_cache e,
                r.drops.drops_oblock e,
                h.placed.nucleus.names e h.holder,
                h.holder_live,
                h.holder_block,
                h.holder_pool,
                ==_refl o,
              ));
            }
      ]

-- A block of the ghost queue goes from there to a cache with room.
module _ (l : Larc) (o : ℕ) (v : IsValid l) (e : ℕ) (on : live l.nucleus e ≡ true)
    (block : oblock_of l.nucleus e ≡ o) (outside : in_cache_pool l.nucleus e ≡ false) where
  ghost_left :
      (l' : Larc) × (leave_ghost l true o ≡ some l') × IsValid l' × Removes (looked l o) l' e
  unfolding leave_ghost lookup
  ghost_left =
      let w = looked-IsValid l o v in
      let (l', removed, r) = remove_entry-Removes (looked l o) e w.placed on in
      (
        l',
        rw (lookup-live l.nucleus o e v.placed.nucleus on block) removed,
        record {
          placed = r.placed;
          short = ground (
            arith,
            v.short,
            ap length r.ghosts_left,
            length-remove-le e (l.queues.items g_list),
            r.same_size,
          );
        },
        r,
      )

  ghost_moves :
      (result : Result)
      → cache_is_full l.nucleus ≡ false
      → (l' l'' : Larc) × (c : ℕ) × (leave_ghost l true o ≡ some l')
        × (stock l' o result ≡ some (l'', record result { cblock = c }))
        × IsValid l''
        × (is_cached l''.nucleus o ≡ true)
  unfolding lookup cache_is_full
  ghost_moves result room =
      let (l', left, w, r) = ghost_left in
      let new : (a : ℕ) → live l'.nucleus a ≡ true → (oblock_of l'.nucleus a == o) ≡ false =
        λ a there. ground (
          arith,
          r.drops.drops_live a,
          r.drops.drops_oblock a,
          v.placed.nucleus.names a e,
          on,
          block,
        ) in
      let (l'', c, stocked, h, queues) = stock-Holds l' o w.placed new result (r.keeps_room room) in
      (
        l',
        l'',
        c,
        left,
        stocked,
        record {
          placed = h.placed;
          short = ground (arith, w.short, ap (λ q. length (q.items g_list)) queues, h.same_size);
        },
        Holds-is_cached l' l'' o true h,
      )

module _ (l : Larc) (o size : ℕ) (result : Result) (v : IsValid l)
    (s : IsSized l.nucleus.meta_size size) (e : ℕ) (on : live l.nucleus e ≡ true)
    (block : oblock_of l.nucleus e ≡ o) (outside : in_cache_pool l.nucleus e ≡ false) where
  pub commit_ghost :
      cache_is_full l.nucleus ≡ false
      → Done (transaction_commit l (ghost_transaction o size false) result) o Operation.new true
  unfolding transaction_commit make_room place trim is_q
  commit_ghost room =
      let w = sized-IsValid l size v s in
      let (l', l'', c, left, stocked, valid, there) =
        ghost_moves (sized l size) o w e on block outside (record result { op = Operation.new })
          room in
      record {
        after = l'';
        result = record result { op = Operation.new; cblock = c };
        returns = rw (left, stocked) refl;
        valid = valid;
        answer = refl;
        holds = there;
      }

  -- To a full cache it comes in the place of the oldest entry that is not on the move.
  pub commit_replace :
      0 < l.queues.len q_list
      → Done (transaction_commit l (ghost_transaction o size true) result) o Operation.replace true
  unfolding transaction_commit make_room place trim is_q
  commit_replace some_in =
      let w = sized-IsValid l size v s in
      let (a, l', evicted, first, inside, r) =
        evict_cached (sized l size) (record result { op = Operation.new }) w.placed some_in in
      let valid : IsValid l' = record {
        placed = r.placed;
        short = ground (
          arith,
          v.short,
          ap length r.ghosts_left,
          length-remove-le a (l.queues.items g_list),
          r.same_size,
        );
      } in
      let noted : Result = record {
        op = Operation.replace;
        old_oblock = oblock_of l.nucleus a;
        cblock = result.cblock;
        dirty_eviction = (l.nucleus.mem.entry a).dirty;
      } in
      let (l'', l3, c, left, stocked, valid', there) =
        ghost_moves l' o valid e (ground (arith, r.drops.drops_live e, outside, inside))
          (ground (arith, r.drops.drops_oblock e, block))
          (ground (arith, r.drops.drops_cache e, outside)) noted (r.makes_room inside) in
      record {
        after = l3;
        result = record noted { cblock = c };
        returns = rw (evicted, left, stocked) refl;
        valid = valid';
        answer = refl;
        holds = there;
      }
