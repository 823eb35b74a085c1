-- ===== src/Core/Book/Consume.antt =====
-- `ConsumeLevel` takes from a queue in price/time priority.
use optimal_execution_platfo.Common.{
  append-nil, ℕ, zero, suc, ◌<◌, ◌≡◌, refl, sym, ap, ◌∙◌, Option, none, some, u64_mod, List, [],
  ◌∷◌, ◌++◌, arith, subst, Returns, ℕ_discrete, dec_le, length,
}
use optimal_execution_platfo.Common.Int.{ℤ}
use optimal_execution_platfo.Core.IdIndex.Erase.{forget}
use optimal_execution_platfo.Core.Order.{Side, Resting}
use optimal_execution_platfo.Core.Level.{LevelFifo}
use optimal_execution_platfo.Core.Level.Segment.{Queue}
use optimal_execution_platfo.Core.Ladder.{Band, width}
use optimal_execution_platfo.Core.Book.Stock.{Orders}
use optimal_execution_platfo.Core.Book.{Taking, consume_maker, next_maker, consume_level}
use optimal_execution_platfo.Core.Book.Priority.{
  Taken, fill_of, take_queue, take_queue_none, take_queue_all, take_queue_part,
}
use optimal_execution_platfo.Core.Book.Round.{Held, held-IsQueue, pop-Held, part-Held}

pub append-snoc :
    {A : Type 0} (xs : List A) (x : A) (ys : List A) → (xs ++ x ∷ []) ++ ys ≡ xs ++ x ∷ ys
append-snoc [] x ys = refl
append-snoc (w ∷ xs) x ys = ap (λ zs. w ∷ zs) (append-snoc xs x ys)

module _ (id : ℕ) (side : Side) (px : ℤ) where
  consume_level-stop :
      (fuel : ℕ) (t : Taking) → next_maker t ≡ none → consume_level (suc fuel) id side px t ≡ some t
  unfolding consume_level
  consume_level-stop fuel t e = rw (consume_level, e)

  consume_level-go :
      (fuel : ℕ) (t t' : Taking) (p : ℕ)
      → next_maker t ≡ some p
      → consume_maker id side px t p ≡ some t'
      → consume_level (suc fuel) id side px t ≡ consume_level fuel id side px t'
  unfolding consume_level
  consume_level-go fuel t t' p e e' = rw (consume_level, e, e')

  no_maker_left : (t : Taking) → t.remaining ≡ 0 → next_maker t ≡ none
  unfolding next_maker
  no_maker_left t h = ground arith

  no_order_left : (t : Taking) → t.level.head ≡ none → next_maker t ≡ none
  unfolding next_maker
  no_order_left t h = ground arith

  next_order :
      (t : Taking) (p : ℕ) → 0 < t.remaining → t.level.head ≡ some p → next_maker t ≡ some p
  unfolding next_maker
  next_order t p pos h = ground arith

  last_round :
      (fuel : ℕ) (t : Taking)
      → 0 < fuel
      → t.remaining ≡ 0
      → consume_level fuel id side px t ≡ some t
  last_round zero t pos h = absurd (omega arith)
  last_round (suc fuel) t pos h = consume_level-stop fuel t (no_maker_left t h)

-- What `ConsumeLevel` leaves, against what the queue says that the taker takes.
pub record Consumed (band : Band) (levels : Side → ℕ → LevelFifo) (A : Orders) (s : Side) (i : ℕ)
    (f : ℕ → Option ℕ) (t : Taking) (k : Taken) (t' : Taking) : Type 0 where
  pub fills : t'.fills ≡ t.fills ++ k.fills
  pub remaining : t'.remaining ≡ k.remaining
  pub capacity : t'.slab.capacity ≡ t.slab.capacity
  pub map : ℕ → Option ℕ
  pub free : List ℕ
  pub held : Held band levels A s i t' k.queue map free
  pub no_new_id : (j : ℕ) → f j ≡ none → map j ≡ none

module _ (id : ℕ) (side : Side) (px : ℤ) {band : Band} {levels : Side → ℕ → LevelFifo} {A : Orders}
    {s : Side} {i : ℕ} (hi : i < width band) where
  after_pop :
      {t : Taking} {f : ℕ → Option ℕ} {k : Taken} (r : Resting) (t' t'' : Taking)
      → t'.fills ≡ t.fills ++ fill_of id side px r r.qty ∷ []
      → t'.slab.capacity ≡ t.slab.capacity
      → Consumed band levels A s i (forget f r.id) t' k t''
      → Consumed band levels A s i f t
          (record {
            fills = fill_of id side px r r.qty ∷ k.fills;
            queue = k.queue;
            remaining = k.remaining;
          })
          t''
  after_pop {t} {f} {k} r t' t'' fs fits c = record {
    fills =
        c.fills
        ∙ ap (λ xs. xs ++ k.fills) fs
        ∙ append-snoc t.fills (fill_of id side px r r.qty) k.fills;
    remaining = c.remaining;
    capacity = c.capacity ∙ fits;
    map = c.map;
    free = c.free;
    held = c.held;
    no_new_id = λ j e. c.no_new_id j (ground arith);
  }

  -- `ConsumeLevel` ends normally when it may make one round more than there are orders. Its fills, in
  -- their order, what is left of the taker and of the queue are those of price/time priority, and the
  -- rest of the book is kept.
  pub consume_level-Consumed :
      (fuel : ℕ) (xs : Queue) {t : Taking} {f : ℕ → Option ℕ} {free : List ℕ}
      → Held band levels A s i t xs f free
      → length xs < fuel
      → t.remaining < u64_mod
      → Returns
          (consume_level fuel id side px t)
          (Consumed band levels A s i f t (take_queue id side px xs t.remaining))
  consume_level-Consumed zero xs st h word = absurd (omega arith)
  consume_level-Consumed (suc fuel) [] {t} {f} {free} st h word =
      let (end, _) = (held-IsQueue hi st).linked in
      (
        t,
        consume_level-stop id side px fuel t (no_order_left id side px t end),
        record {
          fills = sym (append-nil t.fills);
          remaining = refl;
          capacity = refl;
          map = f;
          free = free;
          held = st;
          no_new_id = λ j e. e;
        },
      )
  consume_level-Consumed (suc fuel) ((p, r) ∷ zs) {t} {f} {free} st h word =
      let (_, c, _, _) = (held-IsQueue hi st).linked in
      let C = Consumed band levels A s i f t in
      elim (ℕ_discrete t.remaining 0) [
        | yes end ↦ (
          t,
          consume_level-stop id side px fuel t (no_maker_left id side px t end),
          subst (λ k. C k t) (sym (take_queue_none id side px p r zs t.remaining end))
              (record {
                fills = sym (append-nil t.fills);
                remaining = end;
                capacity = refl;
                map = f;
                free = free;
                held = st;
                no_new_id = λ j e. e;
              }),
        )
        | no more ↦
            let pos : 0 < t.remaining = omega arith in
            let maker : next_maker t ≡ some p = next_order id side px t p pos c in
            elim (dec_le r.qty t.remaining) [
              | yes all ↦
                  let (t', run, (fs, left, fits, st')) = pop-Held id side px hi st word all in
                  let (t'', run', k) =
                    consume_level-Consumed fuel zs st' (omega arith) (omega (arith, left)) in
                  (
                    t'',
                    consume_level-go id side px fuel t t' p maker run ∙ run',
                    subst (λ k. C k t'')
                        (sym (take_queue_all id side px p r zs t.remaining pos all))
                        (after_pop r t' t'' fs fits (
                          subst
                            (λ n.
                              Consumed band levels A s i (forget f r.id) t'
                                (take_queue id side px zs n) t'')
                            left k)),
                  )
              | no short ↦
                  let (t', run, (fs, left, fits, st')) =
                    part-Held id side px hi st (omega arith) pos in
                  (
                    t',
                    consume_level-go id side px fuel t t' p maker run
                        ∙ last_round id side px fuel t' (omega arith) left,
                    subst (λ k. C k t')
                        (sym (take_queue_part id side px p r zs t.remaining pos (omega arith)))
                        (record {
                          fills = fs;
                          remaining = left;
                          capacity = fits;
                          map = f;
                          free = free;
                          held = st';
                          no_new_id = λ j e. e;
                        }),
                  )
            ]
      ]
