-- ===== src/Core/Ring/Schedule.antt =====
-- The consumer's accesses, and whole schedules of both threads.
use optimal_execution_platfo.Common.{
  pick_then, pick_else, append_assoc, ℕ, suc, ◌+◌, ◌%◌, ◌^◌, ◌<◌, ◌≤◌, ◌≡◌, inl, inr, ℕ_discrete,
  refl, sym, ap, ◌∙◌, arith, false, ◌==◌, add64, u64_mod, List, [], ◌∷◌, ◌++◌, length,
  length-append, subst, Bool-cases,
}
use optimal_execution_platfo.Core.Ring.{
  Ring, slot_of, new_ring, size_approx, Pushing, no_push, push_called, push_read_w, push_read_r,
  push_stored, Popping, no_pop, pop_called, pop_read_r, pop_read_w, pop_copied, Threads, Turn,
  call_push, produce, call_pop, consume, consume_step, start_push, start_pop, turn, turns,
  idle_threads,
}
use optimal_execution_platfo.Core.Ring.Fifo.{IsRing, pop-IsRing, occupancy}
use optimal_execution_platfo.Core.Ring.Interleaving.{
  Producing, Consuming, Safe, Goes, release-Producing, produce_step-Safe,
}
use optimal_execution_platfo.Core.Ring.Width.{turns-bits, idle-bits}

module _ {ℓ} {A : Type ℓ} where
  cons_of_pos : (xs : List A) → 0 < length xs → (x : A) × (ys : List A) × (xs ≡ x ∷ ys)
  cons_of_pos [] h = absurd (omega arith)
  cons_of_pos (x ∷ xs) h = (x, xs, refl)

  -- The copy of the write index is ahead of the read index, so there is a value to take.
  not_empty :
      (q : Ring A) (at : ℕ) (xs : List A) (r w old : ℕ)
      → IsRing q at xs
      → r ≡ q.read_idx
      → w ≡ old % u64_mod
      → at ≤ old
      → old ≤ at + length xs
      → (r == w) ≡ false
      → 0 < length xs
  not_empty q at xs r w old k er ew lo hi h = elim (ℕ_discrete (length xs) 0) [
    | no more ↦ omega arith
    | yes none_left ↦
        let same : old ≡ at = omega arith in
        let e : r ≡ w = er ∙ k.read ∙ ap (λ p. p % u64_mod) (sym same) ∙ sym ew in
        absurd (ground arith)
  ]

  advance-Safe :
      (s : Threads A) (r : ℕ) (out : A) (ys xs : List A)
      → Safe s xs
      → r ≡ s.ring.read_idx
      → xs ≡ out ∷ ys
      → Safe
          (record s {
            ring = record s.ring { read_idx = add64 r 1 };
            consumer = no_pop;
            popped = s.popped ++ out ∷ [];
          })
          ys
  advance-Safe s r out ys xs k er e =
      let q = s.ring in
      let at = length s.popped in
      let (_, q') = pop-IsRing q at out ys (subst (IsRing q at) e k.ring) in
      let next : suc at ≡ length (s.popped ++ out ∷ []) =
        omega (arith, length-append s.popped (out ∷ [])) in
      let q'' = subst (λ i. IsRing (record q { read_idx = add64 i 1 }) (suc at) ys) (sym er) q' in
      record {
        ring = subst (λ n. IsRing (record q { read_idx = add64 r 1 }) n ys) next q'';
        order = k.order ∙ ap (λ t. s.popped ++ t) e ∙ sym (append_assoc s.popped (out ∷ []) ys);
        drops = k.drops;
        producer =
            subst (λ n. Producing (record q { read_idx = add64 r 1 }) n (length ys) s.producer) next
              (release-Producing q at (length ys) (add64 r 1) s.producer
                (subst (λ t. Producing q at (length t) s.producer) e k.producer));
        consumer = tt;
      }

  consume_step-Safe :
      (s : Threads A) (c : Popping A) (xs : List A)
      → s.consumer ≡ c
      → Safe s xs
      → Goes (consume_step s c)
  unfolding consume_step
  consume_step-Safe s no_pop xs e k = (xs, k)
  consume_step-Safe s pop_called xs e k = (
    xs,
    record {
      ring = k.ring;
      order = k.order;
      drops = k.drops;
      producer = k.producer;
      consumer = (refl, tt);
    },
  )
  consume_step-Safe s (pop_read_r r) xs e k =
      let (er, _) = subst (Consuming s.ring (length s.popped) xs) e k.consumer in
      (
        xs,
        record {
          ring = k.ring;
          order = k.order;
          drops = k.drops;
          producer = k.producer;
          consumer =
              (er, (length s.popped + length xs, k.ring.write, omega arith, omega arith), tt);
        },
      )
  consume_step-Safe s (pop_read_w r w) xs e k =
      let q = s.ring in
      let at = length s.popped in
      let (er, (old, ew, lo, hi), _) = subst (Consuming q at xs) e k.consumer in
      elim (Bool-cases (r == w)) [
        | inl none_left ↦ subst Goes (sym (pick_then _ _ none_left)) (
          xs,
          record {
            ring = k.ring;
            order = k.order;
            drops = k.drops;
            producer = k.producer;
            consumer = tt;
          },
        )
        | inr more ↦
            let (x, ys, e') = cons_of_pos xs (not_empty q at xs r w old k.ring er ew lo hi more) in
            let (first, _) = pop-IsRing q at x ys (subst (IsRing q at) e' k.ring) in
            let read : q.storage (slot_of q r) ≡ x = ap (λ i. q.storage (slot_of q i)) er ∙ first in
            subst Goes (sym (pick_else _ _ more)) (
              xs,
              record {
                ring = k.ring;
                order = k.order;
                drops = k.drops;
                producer = k.producer;
                consumer = (er, (ys, e' ∙ ap (λ x. x ∷ ys) (sym read)));
              },
            )
      ]
  consume_step-Safe s (pop_copied r out) xs e k =
      let (er, (ys, e')) = subst (Consuming s.ring (length s.popped) xs) e k.consumer in
      (ys, advance-Safe s r out ys xs k er e')

  start_push-Safe :
      (s : Threads A) (v : A) (p : Pushing A) (xs : List A) → Safe s xs → Goes (start_push s v p)
  start_push-Safe s v no_push xs k = (
    xs,
    record {
      ring = k.ring;
      order = k.order;
      drops = k.drops;
      producer = tt;
      consumer = k.consumer;
    },
  )
  start_push-Safe s v (push_called u) xs k = (xs, k)
  start_push-Safe s v (push_read_w u w) xs k = (xs, k)
  start_push-Safe s v (push_read_r u w r) xs k = (xs, k)
  start_push-Safe s v (push_stored u w) xs k = (xs, k)

  start_pop-Safe : (s : Threads A) (c : Popping A) (xs : List A) → Safe s xs → Goes (start_pop s c)
  start_pop-Safe s no_pop xs k = (
    xs,
    record {
      ring = k.ring;
      order = k.order;
      drops = k.drops;
      producer = k.producer;
      consumer = tt;
    },
  )
  start_pop-Safe s pop_called xs k = (xs, k)
  start_pop-Safe s (pop_read_r r) xs k = (xs, k)
  start_pop-Safe s (pop_read_w r w) xs k = (xs, k)
  start_pop-Safe s (pop_copied r out) xs k = (xs, k)

  turn-Safe : (s : Threads A) (t : Turn A) (xs : List A) → Safe s xs → Goes (turn s t)
  unfolding turn
  turn-Safe s (call_push v) xs k = start_push-Safe s v s.producer xs k
  turn-Safe s produce xs k = produce_step-Safe s s.producer xs refl k
  turn-Safe s call_pop xs k = start_pop-Safe s s.consumer xs k
  turn-Safe s consume xs k = consume_step-Safe s s.consumer xs refl k

  pub turns-Safe :
      (ts : List (Turn A)) (s : Threads A) (xs : List A) → Safe s xs → Goes (turns s ts)
  unfolding turns
  turns-Safe [] s xs k = (xs, k)
  turns-Safe (t ∷ ts) s xs k = let (ys, k') = turn-Safe s t xs k in turns-Safe ts (turn s t) ys k'

  pub start-Safe : (zeroed : A) (bits : ℕ) → bits ≤ 63 → Safe (idle_threads zeroed bits) []
  unfolding idle_threads new_ring
  start-Safe zeroed bits wide = record {
    ring = record { wide = wide; write = refl; read = refl; room = omega arith; stored = tt };
    order = refl;
    drops = refl;
    producer = tt;
    consumer = tt;
  }

  -- What has happened after a schedule.
  abbrev pub Delivered : ℕ → Threads A → Type ℓ
  Delivered bits s =
      (xs : List A) × (s.pushed ≡ s.popped ++ xs)
      × (length xs ≤ 2 ^ bits)
      × (size_approx s.ring ≡ length xs)
      × (s.ring.dropped_messages ≡ s.refused % u64_mod)

  -- After any interleaving of the accesses of one producer and one consumer, from a new ring of up to
  -- 2^63 slots on: the popped values are the pushed ones in their order, without loss or repetition, up to
  -- the values that are still in the ring; these are at most its capacity; `size_approx` counts them, also
  -- after the indices wrapped; and the drop counter counts the refused pushes, in a 64-bit word.
  pub turns-Delivered :
      (zeroed : A) (bits : ℕ) (ts : List (Turn A))
      → bits ≤ 63
      → Delivered bits (turns (idle_threads zeroed bits) ts)
  unfolding size_approx
  turns-Delivered zeroed bits ts wide =
      let (xs, k) = turns-Safe ts (idle_threads zeroed bits) [] (start-Safe zeroed bits wide) in
      let s = turns (idle_threads zeroed bits) ts in
      (
        xs,
        k.order,
        subst (λ b. length xs ≤ 2 ^ b)
            (turns-bits ts (idle_threads zeroed bits) ∙ idle-bits zeroed bits) k.ring.room,
        occupancy s.ring (length s.popped) xs k.ring,
        k.drops,
      )
