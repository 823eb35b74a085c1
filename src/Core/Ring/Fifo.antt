-- ===== src/Core/Ring/Fifo.antt =====
-- A ring whose calls do not overlap is a bounded first-in first-out queue.
use optimal_execution_platfo.Common.{
  ℕ, suc, ◌+◌, ◌-◌, ◌%◌, ◌^◌, ◌<◌, ◌≤◌, ◌≡◌, ◌≢◌, ◌⊎◌, inl, inr, ℕ_discrete, refl, sym, ap, ◌∙◌,
  arith, Option, none, some, Bool, true, false, ◌==◌, add64, sub64, u64_mod, List, [], ◌∷◌, ◌++◌,
  length, length-append, update, update_self, update_ne, subst, bit_and,
}
use native.Mathlib.Nat.{pow-le-pow_right}
use optimal_execution_platfo.Core.Ring.{
  Ring, capacity, slot_of, drop_one, put_slot, is_full, try_push, try_pop,
}
use optimal_execution_platfo.Core.Ring.Window.{slot-word, mod_apart}
use optimal_execution_platfo.Common.Words.{pow-pos}

-- The difference of two index words is the distance of their positions.
pub distance-word :
    (bits a b : ℕ)
    → bits ≤ 63
    → a ≤ b
    → b ≤ a + 2 ^ bits
    → sub64 (b % u64_mod) (a % u64_mod) + a ≡ b
distance-word bits a b wide le near =
    let few = pow-le-pow_right {n = 2} (omega arith) wide in omega arith

-- Two index words of near positions are equal only if the positions are.
pub same-word :
    (bits a b : ℕ) → bits ≤ 63 → a ≤ b → b ≤ a + 2 ^ bits → a % u64_mod ≡ b % u64_mod → a ≡ b
same-word bits a b wide le near e =
    let few = pow-le-pow_right {n = 2} (omega arith) wide in omega arith

module _ {ℓ} {A : Type ℓ} where
  -- The values at the positions from `at` on, in a buffer of `n` slots.
  abbrev pub Stored : (ℕ → A) → ℕ → ℕ → List A → Type ℓ
  Stored storage n at [] = Unit {ℓ}
  Stored storage n at (x ∷ xs) = (storage (at % n) ≡ x) × Stored storage n (suc at) xs

  -- A write to the slot of a position outside the window keeps the window.
  pub Stored-update :
      (storage : ℕ → A) (n at p : ℕ) (v : A) (xs : List A)
      → 0 < n
      → at + length xs ≤ p
      → p < at + n
      → Stored storage n at xs
      → Stored (update storage (p % n) v) n at xs
  Stored-update storage n at p v [] pos beyond near s = tt
  Stored-update storage n at p v (x ∷ xs) pos beyond near (e, s) = (
    update_ne storage (p % n) (at % n) v (λ h. mod_apart at p n pos (omega arith) near (sym h)) ∙ e,
    Stored-update storage n (suc at) p v xs pos (omega arith) (omega arith) s,
  )

  pub Stored-append :
      (storage : ℕ → A) (n at : ℕ) (v : A) (xs : List A)
      → Stored storage n at xs
      → storage ((at + length xs) % n) ≡ v
      → Stored storage n at (xs ++ v ∷ [])
  Stored-append storage n at v [] s e = (ap (λ i. storage (i % n)) (omega arith) ∙ e, tt)
  Stored-append storage n at v (x ∷ xs) (h, s) e =
      (h, Stored-append storage n (suc at) v xs s (ap (λ i. storage (i % n)) (omega arith) ∙ e))

  -- The ring holds the values `xs`, the first at position `at`.
  pub record IsRing (q : Ring A) (at : ℕ) (xs : List A) : Type ℓ where
    pub wide : q.bits ≤ 63
    pub write : q.write_idx ≡ (at + length xs) % u64_mod
    pub read : q.read_idx ≡ at % u64_mod
    pub room : length xs ≤ 2 ^ q.bits
    pub stored : Stored q.storage (2 ^ q.bits) at xs

  -- What `TryPush` answers and leaves.
  abbrev pub PushOutcome : Ring A → ℕ → List A → A → Bool × Ring A → Type ℓ
  PushOutcome q at xs v (ok, q') =
      ((length xs ≡ capacity q) × (ok ≡ false) × (q' ≡ drop_one q))
      ⊎ ((length xs < capacity q)
          × (ok ≡ true)
          × IsRing q' at (xs ++ v ∷ [])
          × (q'.dropped_messages ≡ q.dropped_messages))

  -- The value is stored in the slot after the last one, and then published.
  pub push-IsRing :
      (q : Ring A) (at : ℕ) (xs : List A) (v : A)
      → IsRing q at xs
      → length xs < capacity q
      → IsRing
          (record (put_slot q q.write_idx v) { write_idx = add64 q.write_idx 1 })
          at
          (xs ++ v ∷ [])
  push-IsRing q at xs v r h =
      let n = capacity q in
      let pos = pow-pos q.bits in
      let slot : slot_of q q.write_idx ≡ (at + length xs) % n =
        ap (λ w. bit_and w (n - 1)) r.write ∙ slot-word q.bits (at + length xs) r.wide in
      record {
        wide = r.wide;
        write = omega (arith, r.write, length-append xs (v ∷ []));
        read = r.read;
        room = omega (arith, length-append xs (v ∷ []));
        stored =
            subst (λ p. Stored (update q.storage p v) n at (xs ++ v ∷ [])) (sym slot)
              (Stored-append (update q.storage ((at + length xs) % n) v) n at v xs
                (Stored-update q.storage n at (at + length xs) v xs pos (omega arith) (omega arith)
                  r.stored)
                (update_self q.storage ((at + length xs) % n) v));
      }

  -- The occupancy that both calls and the observers compute.
  pub occupancy :
      (q : Ring A) (at : ℕ) (xs : List A)
      → IsRing q at xs
      → sub64 q.write_idx q.read_idx ≡ length xs
  occupancy q at xs r =
      let d =
        distance-word q.bits at (at + length xs) r.wide (omega arith) (omega (arith, r.room)) in
      let e : sub64 q.write_idx q.read_idx ≡ sub64 ((at + length xs) % u64_mod) (at % u64_mod) =
        ap (λ w. sub64 w q.read_idx) r.write ∙ ap (sub64 ((at + length xs) % u64_mod)) r.read in
      omega arith

  -- `TryPush` on a ring that holds `xs`: if it is full the call is refused, only the drop counter
  -- changes, and so the ring still holds `xs`; otherwise the value is the last one after it.
  pub try_push-PushOutcome :
      (q : Ring A) (at : ℕ) (xs : List A) (v : A)
      → IsRing q at xs
      → PushOutcome q at xs v (try_push q v)
  unfolding try_push
  try_push-PushOutcome q at xs v r =
      let few = occupancy q at xs r in
      elim (ℕ_discrete (length xs) (capacity q)) [
        | yes full ↦
            let test : is_full q q.write_idx q.read_idx ≡ true = rw few (ground arith) in
            inl (full, rw test refl, rw test refl)
        | no some_left ↦
            let test : is_full q q.write_idx q.read_idx ≡ false = rw few (ground (arith, r.room)) in
            let room : length xs < capacity q = omega (arith, r.room) in
            inr (room, rw test refl, rw test (push-IsRing q at xs v r room), rw test refl)
      ]

  -- What `TryPop` answers and leaves.
  abbrev pub PopOutcome : Ring A → ℕ → List A → Option A × Ring A → Type ℓ
  PopOutcome q at [] (out, q') = (out ≡ none) × (q' ≡ q)
  PopOutcome q at (x ∷ xs) (out, q') =
      (out ≡ some x) × IsRing q' (suc at) xs × (q'.dropped_messages ≡ q.dropped_messages)

  pub pop-IsRing :
      (q : Ring A) (at : ℕ) (x : A) (xs : List A)
      → IsRing q at (x ∷ xs)
      → (q.storage (slot_of q q.read_idx) ≡ x)
        × IsRing (record q { read_idx = add64 q.read_idx 1 }) (suc at) xs
  pop-IsRing q at x xs r =
      let slot : slot_of q q.read_idx ≡ at % capacity q =
        ap (λ w. bit_and w (capacity q - 1)) r.read ∙ slot-word q.bits at r.wide in
      (
        ap q.storage slot ∙ r.stored.0,
        record {
          wide = r.wide;
          write = r.write ∙ ap (λ p. p % u64_mod) (omega arith);
          read = omega (arith, r.read);
          room = omega (arith, r.room);
          stored = r.stored.1;
        },
      )

  -- `TryPop` on a ring that holds `xs`: with no value it returns false and changes nothing; otherwise it
  -- returns the first value, and the ring holds the others.
  pub try_pop-PopOutcome :
      (q : Ring A) (at : ℕ) (xs : List A) → IsRing q at xs → PopOutcome q at xs (try_pop q)
  unfolding try_pop
  try_pop-PopOutcome q at [] r =
      let e : q.read_idx ≡ q.write_idx =
        r.read ∙ sym (r.write ∙ ap (λ p. p % u64_mod) (omega arith)) in
      let test : (q.read_idx == q.write_idx) ≡ true = ground arith in (rw test refl, rw test refl)
  try_pop-PopOutcome q at (x ∷ xs) r =
      let ne : q.read_idx ≢ q.write_idx = λ e. absurd (
        omega (
          arith,
          same-word q.bits at (at + length (x ∷ xs)) r.wide (omega arith) (omega (arith, r.room))
              (sym r.read ∙ e ∙ r.write),
        )) in
      let test : (q.read_idx == q.write_idx) ≡ false = ground arith in
      let (out, r') = pop-IsRing q at x xs r in (rw test (ap some out), rw test r', rw test refl)
