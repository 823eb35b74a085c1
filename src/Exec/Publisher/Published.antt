-- ===== src/Exec/Publisher/Published.antt =====
-- What a call of the publisher puts into the ring.
use optimal_execution_platfo.Common.{
  ℕ, zero, suc, ◌+◌, ◌-◌, ◌<◌, ◌≡◌, sym, ap, ◌∙◌, inl, inr, arith, Option, none, some, Bool, ◌&&◌,
  ltb, if◌then◌else◌, add64, sub64, u64_mod, List, [], ◌∷◌, ◌++◌, length, Returns, Bool-cases,
  subst,
}
use optimal_execution_platfo.Common.Int.{ℤ}
use optimal_execution_platfo.Core.Order.{Side, Fill}
use optimal_execution_platfo.Core.Level.Segment.{Queue}
use optimal_execution_platfo.Core.Ladder.{Band, width}
use optimal_execution_platfo.Core.Ladder.Price.{price_at}
use optimal_execution_platfo.Core.Book.{Book, add_limit, opposite, is_past}
use optimal_execution_platfo.Core.Book.Place.{change}
use optimal_execution_platfo.Core.Book.Stock.{Orders}
use optimal_execution_platfo.Core.Book.Invariant.{IsBook}
use optimal_execution_platfo.Core.Book.Priority.{take_queue}
use optimal_execution_platfo.Core.Book.Sweep.{best_first, Swept, sweep}
use optimal_execution_platfo.Core.Book.AddLimit.{Added, add_limit-Added}
use optimal_execution_platfo.Core.Ring.{Ring, try_push}
use optimal_execution_platfo.External.Event.{TelemetryEvent, fill_event, ack_event}
use optimal_execution_platfo.Exec.Publisher.{
  Publisher, emit, on_fills, acknowledge, publish_add_limit,
}

abbrev pub fills_total : List Fill → ℕ
fills_total [] = 0
fills_total (f ∷ fs) = f.qty + fills_total fs

fills_total-append : (fs gs : List Fill) → fills_total (fs ++ gs) ≡ fills_total fs + fills_total gs
fills_total-append [] gs = omega arith
fills_total-append (f ∷ fs) gs = omega (arith, fills_total-append fs gs)

-- A taker is filled by as much as it gives up.
take_queue-total :
    (id : ℕ) (side : Side) (px : ℤ) (xs : Queue) (n : ℕ)
    → let k = take_queue id side px xs n in fills_total k.fills + k.remaining ≡ n
take_queue-total id side px [] n = omega arith
take_queue-total id side px ((p, r) ∷ xs) zero = omega arith
take_queue-total id side px ((p, r) ∷ xs) (suc n) =
    ground (arith, take_queue-total id side px xs (suc n - r.qty))

pub sweep-total :
    (id : ℕ) (side : Side) (price : ℤ) (band : Band) (is : List ℕ) (A : Orders) (n : ℕ)
    → let r = sweep id side price band is A n in fills_total r.fills + r.remaining ≡ n
sweep-total id side price band [] A n = omega arith
sweep-total id side price band (i ∷ is) A n =
    let s = opposite side in
    let k = take_queue id side (price_at band i) (A s i) n in
    elim (Bool-cases (is_past side (price_at band i) price)) [
      | inl e ↦ rw e (sweep-total id side price band is A n)
      | inr e ↦ rw e (
          omega (
            arith,
            take_queue-total id side (price_at band i) (A s i) n,
            sweep-total id side price band is (change A s i k.queue) k.remaining,
            fills_total-append k.fills
                (sweep id side price band is (change A s i k.queue) k.remaining).fills,
          ))
    ]

-- One event for each fill, numbered and stamped in turn.
abbrev pub fill_events : (clock : ℕ → ℕ) → (seq reading : ℕ) → List Fill → List TelemetryEvent
fill_events clock seq reading [] = []
fill_events clock seq reading (f ∷ fs) =
    fill_event seq (clock reading) f ∷ fill_events clock (add64 seq 1) (reading + 1) fs

-- The sequence number after `n` more events.
abbrev pub seq_after : ℕ → ℕ → ℕ
seq_after seq zero = seq
seq_after seq (suc n) = seq_after (add64 seq 1) n

abbrev pub push_all : Ring TelemetryEvent → List TelemetryEvent → Ring TelemetryEvent
push_all q [] = q
push_all q (e ∷ es) = push_all (try_push q e).1 es

module _ (clock : ℕ → ℕ) where
  -- The publisher after these fills.
  abbrev pub after_fills : Publisher → List Fill → Publisher
  after_fills p fs = record p {
    ring = push_all p.ring (fill_events clock p.seq p.readings fs);
    seq = seq_after p.seq (length fs);
    readings = p.readings + length fs;
  }

  pub on_fills-after :
      (p : Publisher) (filled : ℕ) (fs : List Fill)
      → (on_fills clock p filled fs).0 ≡ after_fills p fs
  unfolding on_fills emit
  on_fills-after p filled [] = ap (λ n. record p { readings = n }) (omega arith)
  on_fills-after p filled (f ∷ fs) =
      let next : (p.readings + 1) + length fs ≡ p.readings + length (f ∷ fs) = omega arith in
      on_fills-after (emit clock p (λ seq ts. fill_event seq ts f)) (add64 filled f.qty) fs
      ∙ ap
          (λ n. record p {
            ring = push_all p.ring (fill_events clock p.seq p.readings (f ∷ fs));
            seq = seq_after p.seq (length (f ∷ fs));
            readings = n;
          })
          next

  pub on_fills-total :
      (p : Publisher) (filled : ℕ) (fs : List Fill)
      → filled + fills_total fs < u64_mod
      → (on_fills clock p filled fs).1 ≡ filled + fills_total fs
  unfolding on_fills
  on_fills-total p filled [] h = omega arith
  on_fills-total p filled (f ∷ fs) h =
      let next : add64 filled f.qty ≡ filled + f.qty = omega arith in
      on_fills-total (emit clock p (λ seq ts. fill_event seq ts f)) (add64 filled f.qty) fs
        (omega arith)
      ∙ omega arith

  -- The publisher after an order of which `left` was not filled.
  abbrev pub after_order : Publisher → Bool → ℕ → Side → ℤ → List Fill → (left : ℕ) → Publisher
  after_order p ok id side price fs left =
      let q = after_fills p fs in
      if ok && ltb 0 left
      then record q {
        ring = (try_push q.ring (ack_event q.seq (clock q.readings) id side price left)).1;
        seq = add64 q.seq 1;
        readings = q.readings + 1;
      }
      else q

  after_order-book :
      (p : Publisher) (ok : Bool) (id : ℕ) (side : Side) (price : ℤ) (fs : List Fill) (left : ℕ)
      → (after_order p ok id side price fs left).book ≡ p.book
  after_order-book p ok id side price fs left = elim (Bool-cases (ok && ltb 0 left)) [
    | inl e ↦ rw e
    | inr e ↦ rw e
  ]

  acknowledge-after :
      (p : Publisher) (ok : Bool) (id : ℕ) (side : Side) (price : ℤ) (qty filled left : ℕ)
      → filled + left ≡ qty
      → qty < u64_mod
      → acknowledge clock p ok id side price qty filled ≡ (
          if ok && ltb 0 left
          then record p {
            ring = (try_push p.ring (ack_event p.seq (clock p.readings) id side price left)).1;
            seq = add64 p.seq 1;
            readings = p.readings + 1;
          }
          else p)
  unfolding acknowledge emit
  acknowledge-after p ok id side price qty filled left e word =
      let test : ltb filled qty ≡ ltb 0 left = ground arith in
      let rest : sub64 qty filled ≡ left = omega arith in rw (test, rest)

  publish_add_limit-step :
      (p : Publisher) (id : ℕ) (side : Side) (price : ℤ) (qty : ℕ) (ok : Bool) (fills : List Fill)
      (b : Book)
      → add_limit p.book id side price qty ≡ some (ok, fills, b)
      → publish_add_limit clock p id side price qty ≡ (
          let (p', filled) = on_fills clock (record p { book = b }) 0 fills in
          some (ok, acknowledge clock p' ok id side price qty filled))
  unfolding publish_add_limit
  publish_add_limit-step p id side price qty ok fills b e = rw e

  -- What `TelemetryPublisher::AddLimit` answers and leaves, against the sweep `r` of the opposite side.
  abbrev pub Published :
      Publisher → (ℕ → Option ℕ) → ℕ → Side → ℤ → Swept → Bool × Publisher → Type 0
  Published p f id side price r (ok, p') =
      Added f p.book.band id side price r (ok, r.fills, p'.book)
      × (p' ≡ after_order (record p { book = p'.book }) ok id side price r.fills r.remaining)

  -- `TelemetryPublisher::AddLimit` of an order with a new id and a quantity from 1 to 2^64 - 1 ends
  -- normally on every book that satisfies its invariant, and does to the book what `AddLimit` does. It
  -- tries to push one event for each fill, in their order, and then, only if the call succeeded and a
  -- quantity was not filled, an ack with exactly that quantity; each event has the next sequence number,
  -- also when the ring drops it.
  pub publish_add_limit-Published :
      (p : Publisher) {A : Orders} {f : ℕ → Option ℕ} {free : List ℕ} (id : ℕ) (side : Side)
      (price : ℤ) (qty : ℕ)
      → IsBook p.book A f free
      → f id ≡ none
      → 0 < qty
      → qty < u64_mod
      → Returns (publish_add_limit clock p id side price qty) (
          Published p f id side price (
            sweep id side price p.book.band (best_first (opposite side) (width p.book.band)) A qty))
  publish_add_limit-Published p {A} {f} id side price qty k fresh pos word =
      let all = best_first (opposite side) (width p.book.band) in
      let r = sweep id side price p.book.band all A qty in
      let ((ok, fills, b), run, a) = add_limit-Added k id side price qty fresh pos word in
      let sum = sweep-total id side price p.book.band all A qty in
      let p₁ = record p { book = b } in
      let same = a.fills in
      let filled = on_fills-total p₁ 0 r.fills (omega arith) in
      let state = on_fills-after p₁ 0 r.fills in
      let q = after_order p₁ ok id side price r.fills r.remaining in
      let steps : acknowledge clock (on_fills clock p₁ 0 r.fills).0 ok id side price qty
            (on_fills clock p₁ 0 r.fills).1
          ≡ q =
        ap (λ n. acknowledge clock (on_fills clock p₁ 0 r.fills).0 ok id side price qty n) filled
        ∙ ap (λ s. acknowledge clock s ok id side price qty (0 + fills_total r.fills)) state
        ∙ acknowledge-after (after_fills p₁ r.fills) ok id side price qty (0 + fills_total r.fills)
            r.remaining (omega arith) word in
      let kept : q.book ≡ b = after_order-book p₁ ok id side price r.fills r.remaining in
      (
        (ok, q),
        publish_add_limit-step p id side price qty ok fills b run
            ∙ ap
                (λ fs.
                  let (p', n) = on_fills clock p₁ 0 fs in
                  some (ok, acknowledge clock p' ok id side price qty n))
                same
            ∙ ap (λ s. some (ok, s)) steps,
        (
          subst (λ b'. Added f p.book.band id side price r (ok, r.fills, b')) (sym kept)
              (subst (λ fs. Added f p.book.band id side price r (ok, fs, b)) same a),
          ap (λ b'. after_order (record p { book = b' }) ok id side price r.fills r.remaining)
              (sym kept),
        ),
      )
