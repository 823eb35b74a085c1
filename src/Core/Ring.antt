-- ===== src/Core/Ring.antt =====
-- cpp/core/spsc_ring.hpp: `SpscRing`, the single-producer single-consumer ring. `try_push` and `try_pop`
-- are whole calls. `turn` is one atomic access of a call, so that a list of turns is an interleaving of
-- the two threads; acquire and release make each access see the ones published before it.
pub mod Window
pub mod Fifo
pub mod Interleaving
pub mod Width
pub mod Schedule
pub mod Races
mod Tests
use optimal_execution_platfo.Common.{
  ℕ, suc, ◌+◌, ◌-◌, ◌^◌, Option, none, some, Bool, true, false, leb, ◌==◌, if◌then◌else◌, update,
  bit_and, add64, sub64, List, [], ◌∷◌, ◌++◌,
}

-- The members of `SpscRing`; `Capacity` is `2 ^ bits`.
pub record Ring {ℓ} (A : Type ℓ) : Type ℓ where
  pub bits : ℕ
  pub write_idx : ℕ
  pub read_idx : ℕ
  pub dropped_messages : ℕ
  pub storage : ℕ → A

abbrev pub capacity {ℓ} : {A : Type ℓ} → Ring A → ℕ
capacity q = 2 ^ q.bits

-- `i & kMask`
abbrev pub slot_of {ℓ} : {A : Type ℓ} → Ring A → ℕ → ℕ
slot_of q i = bit_and i (capacity q - 1)

-- What the calls do to the members, one access each.
module _ {ℓ} {A : Type ℓ} where
  -- The constructor; `zeroed` is the value-initialised payload.
  unfoldable pub new_ring : A → (bits : ℕ) → Ring A
  new_ring zeroed bits = record {
    bits = bits;
    write_idx = 0;
    read_idx = 0;
    dropped_messages = 0;
    storage = λ i. zeroed;
  }

  -- `dropped_messages_.fetch_add(1)`
  abbrev pub drop_one : Ring A → Ring A
  drop_one q = record q { dropped_messages = add64 q.dropped_messages 1 }

  -- `storage_[w & kMask] = value`
  abbrev pub put_slot : Ring A → ℕ → A → Ring A
  put_slot q w v = record q { storage = update q.storage (slot_of q w) v }

  -- `w - r >= Capacity`
  abbrev pub is_full : Ring A → ℕ → ℕ → Bool
  is_full q w r = leb (capacity q) (sub64 w r)

  -- `TryPush`
  unfoldable pub try_push : Ring A → A → Bool × Ring A
  try_push q v =
      let w = q.write_idx in
      let r = q.read_idx in
      if is_full q w r
      then (false, drop_one q)
      else (true, record (put_slot q w v) { write_idx = add64 w 1 })

  -- `TryPop`: `none` is false, and `some` what is written to `out`.
  unfoldable pub try_pop : Ring A → Option A × Ring A
  try_pop q =
      let r = q.read_idx in
      let w = q.write_idx in
      if r == w
      then (none, q)
      else (some (q.storage (slot_of q r)), record q { read_idx = add64 r 1 })

  -- `size_approx` and `empty_approx`
  unfoldable pub size_approx : Ring A → ℕ
  size_approx q = sub64 q.write_idx q.read_idx

  unfoldable pub empty_approx : Ring A → Bool
  empty_approx q = sub64 q.write_idx q.read_idx == 0

-- Where the producer stands in `TryPush`, with its local variables.
pub data Pushing {ℓ} (A : Type ℓ) : Type ℓ where
  no_push : Pushing A
  push_called : (value : A) → Pushing A
  push_read_w : (value : A) (w : ℕ) → Pushing A
  push_read_r : (value : A) (w r : ℕ) → Pushing A
  push_stored : (value : A) (w : ℕ) → Pushing A

-- Where the consumer stands in `TryPop`.
pub data Popping {ℓ} (A : Type ℓ) : Type ℓ where
  no_pop : Popping A
  pop_called : Popping A
  pop_read_r : (r : ℕ) → Popping A
  pop_read_w : (r w : ℕ) → Popping A
  pop_copied : (r : ℕ) (out : A) → Popping A

-- The ring, the two threads, and what their calls returned so far: the values whose push returned true,
-- the values that pops returned, and the number of refused pushes.
pub record Threads {ℓ} (A : Type ℓ) : Type ℓ where
  pub ring : Ring A
  pub producer : Pushing A
  pub consumer : Popping A
  pub pushed : List A
  pub popped : List A
  pub refused : ℕ

-- Who is next: a call starts, or a thread makes its next access.
pub data Turn {ℓ} (A : Type ℓ) : Type ℓ where
  call_push : (value : A) → Turn A
  produce : Turn A
  call_pop : Turn A
  consume : Turn A

module _ {ℓ} {A : Type ℓ} where
  -- The next access of `TryPush`.
  unfoldable pub produce_step : Threads A → Pushing A → Threads A
  produce_step s no_push = s
  produce_step s (push_called v) = record s { producer = push_read_w v s.ring.write_idx }
  produce_step s (push_read_w v w) = record s { producer = push_read_r v w s.ring.read_idx }
  produce_step s (push_read_r v w r) =
      if is_full s.ring w r
      then record s { ring = drop_one s.ring; producer = no_push; refused = s.refused + 1 }
      else record s { ring = put_slot s.ring w v; producer = push_stored v w }
  produce_step s (push_stored v w) = record s {
    ring = record s.ring { write_idx = add64 w 1 };
    producer = no_push;
    pushed = s.pushed ++ v ∷ [];
  }

  -- The next access of `TryPop`.
  unfoldable pub consume_step : Threads A → Popping A → Threads A
  consume_step s no_pop = s
  consume_step s pop_called = record s { consumer = pop_read_r s.ring.read_idx }
  consume_step s (pop_read_r r) = record s { consumer = pop_read_w r s.ring.write_idx }
  consume_step s (pop_read_w r w) =
      if r == w
      then record s { consumer = no_pop }
      else record s { consumer = pop_copied r (s.ring.storage (slot_of s.ring r)) }
  consume_step s (pop_copied r out) = record s {
    ring = record s.ring { read_idx = add64 r 1 };
    consumer = no_pop;
    popped = s.popped ++ out ∷ [];
  }

  -- A call starts only after the one before it returned.
  abbrev pub start_push : Threads A → A → Pushing A → Threads A
  start_push s v no_push = record s { producer = push_called v }
  start_push s v (push_called u) = s
  start_push s v (push_read_w u w) = s
  start_push s v (push_read_r u w r) = s
  start_push s v (push_stored u w) = s

  abbrev pub start_pop : Threads A → Popping A → Threads A
  start_pop s no_pop = record s { consumer = pop_called }
  start_pop s pop_called = s
  start_pop s (pop_read_r r) = s
  start_pop s (pop_read_w r w) = s
  start_pop s (pop_copied r out) = s

  unfoldable pub turn : Threads A → Turn A → Threads A
  turn s (call_push v) = start_push s v s.producer
  turn s produce = produce_step s s.producer
  turn s call_pop = start_pop s s.consumer
  turn s consume = consume_step s s.consumer

  unfoldable pub turns : Threads A → List (Turn A) → Threads A
  turns s [] = s
  turns s (t ∷ ts) = turns (turn s t) ts

  -- Two idle threads at a new ring.
  unfoldable pub idle_threads : A → ℕ → Threads A
  idle_threads zeroed bits = record {
    ring = new_ring zeroed bits;
    producer = no_push;
    consumer = no_pop;
    pushed = [];
    popped = [];
    refused = 0;
  }
