-- ===== src/Core/Ring/Width.antt =====
-- No access changes the number of slots.
use optimal_execution_platfo.Common.{
  pick_then, pick_else, ℕ, ◌≡◌, inl, inr, refl, ap, ◌∙◌, ◌==◌, List, [], ◌∷◌, Bool-cases,
}
use optimal_execution_platfo.Core.Ring.{
  is_full, new_ring, Pushing, no_push, push_called, push_read_w, push_read_r, push_stored, Popping,
  no_pop, pop_called, pop_read_r, pop_read_w, pop_copied, Threads, Turn, call_push, produce,
  call_pop, consume, produce_step, consume_step, start_push, start_pop, turn, turns, idle_threads,
}

module _ {ℓ} {A : Type ℓ} where
  produce_step-bits : (s : Threads A) (p : Pushing A) → (produce_step s p).ring.bits ≡ s.ring.bits
  unfolding produce_step
  produce_step-bits s no_push = refl
  produce_step-bits s (push_called v) = refl
  produce_step-bits s (push_read_w v w) = refl
  produce_step-bits s (push_read_r v w r) = elim (Bool-cases (is_full s.ring w r)) [
    | inl full ↦ ap (λ (t : Threads A). t.ring.bits) (pick_then _ _ full)
    | inr room ↦ ap (λ (t : Threads A). t.ring.bits) (pick_else _ _ room)
  ]
  produce_step-bits s (push_stored v w) = refl

  consume_step-bits : (s : Threads A) (c : Popping A) → (consume_step s c).ring.bits ≡ s.ring.bits
  unfolding consume_step
  consume_step-bits s no_pop = refl
  consume_step-bits s pop_called = refl
  consume_step-bits s (pop_read_r r) = refl
  consume_step-bits s (pop_read_w r w) = elim (Bool-cases (r == w)) [
    | inl none_left ↦ ap (λ (t : Threads A). t.ring.bits) (pick_then _ _ none_left)
    | inr more ↦ ap (λ (t : Threads A). t.ring.bits) (pick_else _ _ more)
  ]
  consume_step-bits s (pop_copied r out) = refl

  start_push-bits :
      (s : Threads A) (v : A) (p : Pushing A) → (start_push s v p).ring.bits ≡ s.ring.bits
  start_push-bits s v no_push = refl
  start_push-bits s v (push_called u) = refl
  start_push-bits s v (push_read_w u w) = refl
  start_push-bits s v (push_read_r u w r) = refl
  start_push-bits s v (push_stored u w) = refl

  start_pop-bits : (s : Threads A) (c : Popping A) → (start_pop s c).ring.bits ≡ s.ring.bits
  start_pop-bits s no_pop = refl
  start_pop-bits s pop_called = refl
  start_pop-bits s (pop_read_r r) = refl
  start_pop-bits s (pop_read_w r w) = refl
  start_pop-bits s (pop_copied r out) = refl

  turn-bits : (s : Threads A) (t : Turn A) → (turn s t).ring.bits ≡ s.ring.bits
  unfolding turn
  turn-bits s (call_push v) = start_push-bits s v s.producer
  turn-bits s produce = produce_step-bits s s.producer
  turn-bits s call_pop = start_pop-bits s s.consumer
  turn-bits s consume = consume_step-bits s s.consumer

  pub turns-bits : (ts : List (Turn A)) (s : Threads A) → (turns s ts).ring.bits ≡ s.ring.bits
  unfolding turns
  turns-bits [] s = refl
  turns-bits (t ∷ ts) s = turns-bits ts (turn s t) ∙ turn-bits s t

  pub idle-bits : (zeroed : A) (bits : ℕ) → (idle_threads zeroed bits).ring.bits ≡ bits
  unfolding idle_threads new_ring
  idle-bits zeroed bits = refl
