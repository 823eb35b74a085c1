-- ===== src/Core/Ring/Races.antt =====
-- The plain accesses of the two threads, those to the slots, do not race.
use optimal_execution_platfo.Common.{
  pick_then, pick_else, ℕ, ◌+◌, ◌-◌, ◌%◌, ◌<◌, ◌≤◌, ◌≡◌, ◌≢◌, ◌⊎◌, inl, inr, refl, sym, ap, ◌∙◌,
  arith, Option, none, some, if◌then◌else◌, ◌==◌, u64_mod, bit_and, List, [], length, subst,
  Bool-cases,
}
use optimal_execution_platfo.Common.Words.{pow-pos}
use optimal_execution_platfo.Core.Ring.{
  Ring, capacity, slot_of, is_full, Pushing, no_push, push_called, push_read_w, push_read_r,
  push_stored, Popping, no_pop, pop_called, pop_read_r, pop_read_w, pop_copied, Turn, turns,
  idle_threads,
}
use optimal_execution_platfo.Core.Ring.Window.{slot-word, mod_apart}
use optimal_execution_platfo.Core.Ring.Fifo.{IsRing}
use optimal_execution_platfo.Core.Ring.Interleaving.{Producing, Consuming, not_full}
use optimal_execution_platfo.Core.Ring.Schedule.{turns-Safe, start-Safe}

-- Not the same slot.
abbrev pub Apart : Option ℕ → Option ℕ → Type 0
Apart none j = Unit
Apart (some i) none = Unit
Apart (some i) (some j) = i ≢ j

Apart-none : (o : Option ℕ) → Apart o none
Apart-none none = tt
Apart-none (some i) = tt

module _ {ℓ} {A : Type ℓ} where
  -- The slot that the producer writes in its next step, and the slot that the consumer reads.
  abbrev pub next_write : Ring A → Pushing A → Option ℕ
  next_write q no_push = none
  next_write q (push_called v) = none
  next_write q (push_read_w v w) = none
  next_write q (push_read_r v w r) = if is_full q w r then none else some (slot_of q w)
  next_write q (push_stored v w) = none

  abbrev pub next_read : Ring A → Popping A → Option ℕ
  next_read q no_pop = none
  next_read q pop_called = none
  next_read q (pop_read_r r) = none
  next_read q (pop_read_w r w) = if r == w then none else some (slot_of q r)
  next_read q (pop_copied r out) = none

  abbrev WritesAt : Ring A → (at n : ℕ) → Option ℕ → Type 0
  WritesAt q at n o = (o ≡ none) ⊎ ((o ≡ some ((at + n) % capacity q)) × (n < capacity q))

  abbrev ReadsAt : Ring A → (at n : ℕ) → Option ℕ → Type 0
  ReadsAt q at n o = (o ≡ none) ⊎ ((o ≡ some (at % capacity q)) × (0 < n))

  -- The producer writes behind the last value, and only if there is room.
  next_write-WritesAt :
      (q : Ring A) (at : ℕ) (xs : List A) (p : Pushing A)
      → IsRing q at xs
      → Producing q at (length xs) p
      → WritesAt q at (length xs) (next_write q p)
  next_write-WritesAt q at xs no_push k h = inl refl
  next_write-WritesAt q at xs (push_called v) k h = inl refl
  next_write-WritesAt q at xs (push_read_w v w) k h = inl refl
  next_write-WritesAt q at xs (push_stored v w) k h = inl refl
  next_write-WritesAt q at xs (push_read_r v w r) k (ew, (old, er, le, near), _) =
      elim (Bool-cases (is_full q w r)) [
        | inl e ↦ inl (pick_then none (some (slot_of q w)) e)
        | inr e ↦
            let slot : slot_of q w ≡ (at + length xs) % capacity q =
              ap (λ w. bit_and w (capacity q - 1)) (ew ∙ k.write)
              ∙ slot-word q.bits (at + length xs) k.wide in
            inr (
              pick_else none (some (slot_of q w)) e ∙ ap some slot,
              not_full q at (length xs) w r old k.wide (ew ∙ k.write) er le near e,
            )
      ]

  -- The consumer reads the first value, and only if there is one.
  next_read-ReadsAt :
      (q : Ring A) (at : ℕ) (xs : List A) (c : Popping A)
      → IsRing q at xs
      → Consuming q at xs c
      → ReadsAt q at (length xs) (next_read q c)
  next_read-ReadsAt q at xs no_pop k h = inl refl
  next_read-ReadsAt q at xs pop_called k h = inl refl
  next_read-ReadsAt q at xs (pop_read_r r) k h = inl refl
  next_read-ReadsAt q at xs (pop_copied r out) k h = inl refl
  next_read-ReadsAt q at xs (pop_read_w r w) k (er, (old, ew, lo, hi), _) =
      elim (Bool-cases (r == w)) [
        | inl e ↦ inl (pick_then none (some (slot_of q r)) e)
        | inr e ↦
            let slot : slot_of q r ≡ at % capacity q =
              ap (λ w. bit_and w (capacity q - 1)) (er ∙ k.read) ∙ slot-word q.bits at k.wide in
            let other : r ≢ w = ground arith in
            let moved : old ≢ at =
              λ h. other (er ∙ k.read ∙ ap (λ i. i % u64_mod) (sym h) ∙ sym ew) in
            inr (pick_else none (some (slot_of q r)) e ∙ ap some slot, omega (arith, moved))
      ]

  At-Apart :
      (q : Ring A) (at n : ℕ) (o p : Option ℕ) → WritesAt q at n o → ReadsAt q at n p → Apart o p
  At-Apart q at n o p (inl e) r = subst (λ o. Apart o p) (sym e) tt
  At-Apart q at n o p (inr w) (inl e) = subst (Apart o) (sym e) (Apart-none o)
  At-Apart q at n o p (inr (e, room)) (inr (e', some_)) =
      subst (λ o. Apart o p) (sym e)
        (subst (Apart (some ((at + n) % capacity q))) (sym e') (λ h.
          mod_apart at (at + n) (capacity q) (pow-pos q.bits) (omega arith) (omega arith) (sym h)))

  -- After any interleaving of the accesses of one producer and one consumer, from a new ring of up to
  -- 2^63 slots on: if the next step of the producer writes a slot and the next step of the consumer reads
  -- one, these are two different slots, also after the indices wrapped.
  pub turns-Apart :
      (zeroed : A) (bits : ℕ) (ts : List (Turn A))
      → bits ≤ 63
      → let s = turns (idle_threads zeroed bits) ts in
        Apart (next_write s.ring s.producer) (next_read s.ring s.consumer)
  turns-Apart zeroed bits ts wide =
      let (xs, k) = turns-Safe ts (idle_threads zeroed bits) [] (start-Safe zeroed bits wide) in
      let s = turns (idle_threads zeroed bits) ts in
      let at = length s.popped in
      At-Apart s.ring at (length xs) (next_write s.ring s.producer) (next_read s.ring s.consumer)
        (next_write-WritesAt s.ring at xs s.producer k.ring k.producer)
        (next_read-ReadsAt s.ring at xs s.consumer k.ring k.consumer)
