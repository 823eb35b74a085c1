-- ===== src/Core/Ring/Interleaving.antt =====
-- Any interleaving of a producer thread and a consumer thread at one ring.
use optimal_execution_platfo.Common.{
  pick_then, pick_else, append_assoc, ℕ, suc, ◌+◌, ◌-◌, ◌%◌, ◌<◌, ◌≤◌, ◌≡◌, inl, inr, refl, sym, ap,
  ◌∙◌, arith, false, add64, sub64, u64_mod, List, [], ◌∷◌, ◌++◌, length, length-append, update,
  update_self, subst, bit_and, Bool-cases,
}
use optimal_execution_platfo.Common.Words.{pow-pos}
use optimal_execution_platfo.Core.Ring.{
  Ring, capacity, slot_of, drop_one, put_slot, is_full, Pushing, no_push, push_called, push_read_w,
  push_read_r, push_stored, Popping, no_pop, pop_called, pop_read_r, pop_read_w, pop_copied,
  Threads, produce_step,
}
use optimal_execution_platfo.Core.Ring.Window.{slot-word}
use optimal_execution_platfo.Core.Ring.Fifo.{
  Stored, Stored-update, Stored-append, IsRing, distance-word,
}

module _ {ℓ} {A : Type ℓ} where
  -- What the producer knows at each point: its copy of the write index is right, and its copy of the
  -- read index was right when it was read.
  abbrev pub Producing : Ring A → (at n : ℕ) → Pushing A → Type ℓ
  Producing q at n no_push = Unit {ℓ}
  Producing q at n (push_called v) = Unit {ℓ}
  Producing q at n (push_read_w v w) = (w ≡ q.write_idx) × Unit {ℓ}
  Producing q at n (push_read_r v w r) =
      (w ≡ q.write_idx)
      × ((old : ℕ) × (r ≡ old % u64_mod) × (old ≤ at) × (at + n ≤ old + capacity q))
      × Unit {ℓ}
  Producing q at n (push_stored v w) =
      (w ≡ q.write_idx) × (n < capacity q) × (q.storage ((at + n) % capacity q) ≡ v)

  abbrev pub Consuming : Ring A → ℕ → List A → Popping A → Type ℓ
  Consuming q at xs no_pop = Unit {ℓ}
  Consuming q at xs pop_called = Unit {ℓ}
  Consuming q at xs (pop_read_r r) = (r ≡ q.read_idx) × Unit {ℓ}
  Consuming q at xs (pop_read_w r w) =
      (r ≡ q.read_idx)
      × ((old : ℕ) × (w ≡ old % u64_mod) × (at ≤ old) × (old ≤ at + length xs))
      × Unit {ℓ}
  Consuming q at xs (pop_copied r out) = (r ≡ q.read_idx) × ((ys : List A) × (xs ≡ out ∷ ys))

  -- The ring holds the pushed values that are not yet popped, in order.
  pub record Safe (s : Threads A) (xs : List A) : Type ℓ where
    pub ring : IsRing s.ring (length s.popped) xs
    pub order : s.pushed ≡ s.popped ++ xs
    pub drops : s.ring.dropped_messages ≡ s.refused % u64_mod
    pub producer : Producing s.ring (length s.popped) (length xs) s.producer
    pub consumer : Consuming s.ring (length s.popped) xs s.consumer

  abbrev pub Goes : Threads A → Type ℓ
  Goes s = (xs : List A) × Safe s xs

  -- The slot that the producer writes is free: the consumer has passed it.
  pub not_full :
      (q : Ring A) (at n w r old : ℕ)
      → q.bits ≤ 63
      → w ≡ (at + n) % u64_mod
      → r ≡ old % u64_mod
      → old ≤ at
      → at + n ≤ old + capacity q
      → is_full q w r ≡ false
      → n < capacity q
  not_full q at n w r old wide ew er le near h =
      let d = distance-word q.bits old (at + n) wide (omega arith) near in
      let e : sub64 w r ≡ sub64 ((at + n) % u64_mod) (old % u64_mod) =
        ap (λ w. sub64 w r) ew ∙ ap (sub64 ((at + n) % u64_mod)) er in
      let less : sub64 w r < capacity q = ground arith in omega arith

  store-Consuming :
      (q : Ring A) (at : ℕ) (xs : List A) (w : ℕ) (v : A) (c : Popping A)
      → Consuming q at xs c
      → Consuming (put_slot q w v) at xs c
  store-Consuming q at xs w v no_pop h = h
  store-Consuming q at xs w v pop_called h = h
  store-Consuming q at xs w v (pop_read_r r) h = h
  store-Consuming q at xs w v (pop_read_w r w') h = h
  store-Consuming q at xs w v (pop_copied r out) h = h

  drop-Consuming :
      (q : Ring A) (at : ℕ) (xs : List A) (c : Popping A)
      → Consuming q at xs c
      → Consuming (drop_one q) at xs c
  drop-Consuming q at xs no_pop h = h
  drop-Consuming q at xs pop_called h = h
  drop-Consuming q at xs (pop_read_r r) h = h
  drop-Consuming q at xs (pop_read_w r w') h = h
  drop-Consuming q at xs (pop_copied r out) h = h

  publish-Consuming :
      (q : Ring A) (at : ℕ) (xs : List A) (w : ℕ) (v : A) (c : Popping A)
      → Consuming q at xs c
      → Consuming (record q { write_idx = w }) at (xs ++ v ∷ []) c
  publish-Consuming q at xs w v no_pop h = tt
  publish-Consuming q at xs w v pop_called h = tt
  publish-Consuming q at xs w v (pop_read_r r) h = h
  publish-Consuming q at xs w v (pop_read_w r w') (e, (old, e', lo, hi), _) =
      (e, (old, e', lo, omega (arith, length-append xs (v ∷ []))), tt)
  publish-Consuming q at xs w v (pop_copied r out) (e, (ys, e')) =
      (e, (ys ++ v ∷ [], ap (λ t. t ++ v ∷ []) e'))

  -- After a pop the producer knows the same positions.
  pub release-Producing :
      (q : Ring A) (at n r : ℕ) (p : Pushing A)
      → Producing q at (suc n) p
      → Producing (record q { read_idx = r }) (suc at) n p
  release-Producing q at n r no_push h = tt
  release-Producing q at n r (push_called v) h = tt
  release-Producing q at n r (push_read_w v w) h = h
  release-Producing q at n r (push_read_r v w r') (e, (old, e', le, near), _) =
      (e, (old, e', omega arith, omega arith), tt)
  release-Producing q at n r (push_stored v w) (e, lt, e') =
      (e, omega arith, ap (λ p. q.storage (p % capacity q)) (omega arith) ∙ e')

  pub produce_step-Safe :
      (s : Threads A) (p : Pushing A) (xs : List A)
      → s.producer ≡ p
      → Safe s xs
      → Goes (produce_step s p)
  unfolding produce_step
  produce_step-Safe s no_push xs e k = (xs, k)
  produce_step-Safe s (push_called v) xs e k = (
    xs,
    record {
      ring = k.ring;
      order = k.order;
      drops = k.drops;
      producer = (refl, tt);
      consumer = k.consumer;
    },
  )
  produce_step-Safe s (push_read_w v w) xs e k =
      let (ew, _) = subst (Producing s.ring (length s.popped) (length xs)) e k.producer in
      (
        xs,
        record {
          ring = k.ring;
          order = k.order;
          drops = k.drops;
          producer =
              (ew, (length s.popped, k.ring.read, omega arith, omega (arith, k.ring.room)), tt);
          consumer = k.consumer;
        },
      )
  produce_step-Safe s (push_read_r v w r) xs e k =
      let q = s.ring in
      let at = length s.popped in
      let (ew, (old, er, le, near), _) = subst (Producing q at (length xs)) e k.producer in
      elim (Bool-cases (is_full q w r)) [
        | inl full ↦ subst Goes (sym (pick_then _ _ full)) (
          xs,
          record {
            ring = record {
              wide = k.ring.wide;
              write = k.ring.write;
              read = k.ring.read;
              room = k.ring.room;
              stored = k.ring.stored;
            };
            order = k.order;
            drops = omega (arith, k.drops);
            producer = tt;
            consumer = drop-Consuming q at xs s.consumer k.consumer;
          },
        )
        | inr room ↦
            let w_at = ew ∙ k.ring.write in
            let lt = not_full q at (length xs) w r old k.ring.wide w_at er le near room in
            let slot : slot_of q w ≡ (at + length xs) % capacity q =
              ap (λ w. bit_and w (capacity q - 1)) w_at
              ∙ slot-word q.bits (at + length xs) k.ring.wide in
            subst Goes (sym (pick_else _ _ room)) (
              xs,
              record {
                ring = record {
                  wide = k.ring.wide;
                  write = k.ring.write;
                  read = k.ring.read;
                  room = k.ring.room;
                  stored =
                      subst (λ p. Stored (update q.storage p v) (capacity q) at xs) (sym slot)
                        (Stored-update q.storage (capacity q) at (at + length xs) v xs
                          (pow-pos q.bits) (omega arith) (omega arith) k.ring.stored);
                };
                order = k.order;
                drops = k.drops;
                producer = (
                  ew,
                  lt,
                  ap (update q.storage (slot_of q w) v) (sym slot)
                      ∙ update_self q.storage (slot_of q w) v,
                );
                consumer = store-Consuming q at xs w v s.consumer k.consumer;
              },
            )
      ]
  produce_step-Safe s (push_stored v w) xs e k =
      let q = s.ring in
      let at = length s.popped in
      let (ew, lt, stored) = subst (Producing q at (length xs)) e k.producer in
      (
        xs ++ v ∷ [],
        record {
          ring = record {
            wide = k.ring.wide;
            write = omega (arith, ew, k.ring.write, length-append xs (v ∷ []));
            read = k.ring.read;
            room = omega (arith, length-append xs (v ∷ []));
            stored = Stored-append q.storage (capacity q) at v xs k.ring.stored stored;
          };
          order = ap (λ t. t ++ v ∷ []) k.order ∙ append_assoc s.popped xs (v ∷ []);
          drops = k.drops;
          producer = tt;
          consumer = publish-Consuming q at xs (add64 w 1) v s.consumer k.consumer;
        },
      )
