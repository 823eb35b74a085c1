-- ===== src/Main/Sim/Sound.antt =====
-- The loop of the simulation never faults, and its books balance.
use optimal_execution_platfo.Common.{
  ◌∙◌, ap, Option, ◌>>=◌, ℕ, zero, suc, ◌+◌, ◌-◌, ◌%◌, ◌<◌, ◌≤◌, ◌≡◌, ◌⊎◌, refl, sym, ap, ◌∙◌, inl,
  inr, arith, none, some, Bool, true, false, ltb, leb, ◌==◌, if◌then◌else◌, add64, u64_mod, Returns,
  Bool-cases, ℕ_discrete, update, update_self, update_ne, subst, [],
}
use optimal_execution_platfo.Core.Order.{buy, sell, Memory}
use optimal_execution_platfo.Core.Slab.FreeList.{countdown}
use optimal_execution_platfo.Core.Book.{Book, open_order_count}
use optimal_execution_platfo.Core.Book.{Book}
use optimal_execution_platfo.Main.Sim.Start.{
  default_book-IsSmall, default_book, new_book-default_book, default_book-IsBook,
}
use optimal_execution_platfo.External.Event.{TelemetryEvent}
use optimal_execution_platfo.Exec.Publisher.{Publisher}
use optimal_execution_platfo.Exec.Publisher.Held.{Absent, Absent-back, Tracks}
use optimal_execution_platfo.Exec.Publisher.Tracked.{publish_add-Tracks, publish_cancel-Tracks}
use optimal_execution_platfo.Main.Random.{next_random, is_odd}
use optimal_execution_platfo.Main.Sim.{
  book_capacity, Sim, start_sim, swap, draw_quantity, draw_price, cancel_back, cancel_random,
  note_added, add_random, add_or_evict, sim_step, run_ops, run_main,
}

-- The book is sound, and each of its orders is among the ids in `resting`; an id that was added is there
-- or was cancelled; and at most `ops` ids were given out.
pub record Driven (ops : ℕ) (s : Sim) : Type 0 where
  pub tracks : Tracks s.resting s.count s.next_id s.publisher.book
  pub balance : s.count + s.cancels ≡ s.adds
  pub given : s.adds < s.next_id
  pub few : s.next_id ≤ ops + 1

-- A swap keeps the ids.
Absent-swap : (a : ℕ → ℕ) (n i k j : ℕ) → i < n → k < n → Absent (swap a i k) n j → Absent a n j
unfolding swap
Absent-swap a n i k j hi hk h m hm e = elim (ℕ_discrete m i) [
  | yes same ↦ h k hk (update_self (update a i (a k)) k (a i) ∙ ap a (sym same) ∙ e)
  | no ne ↦ elim (ℕ_discrete m k) [
    | yes same ↦ elim (ℕ_discrete i k) [
      | yes same' ↦ ne (same ∙ sym same')
      | no ne' ↦ h i hi (
          update_ne (update a i (a k)) k i (a i) (λ e. ne' (sym e))
          ∙ update_self a i (a k)
          ∙ ap a (sym same)
          ∙ e)
    ]
    | no ne' ↦ h m hm (
        update_ne (update a i (a k)) k m (a i) (λ e. ne' (sym e))
        ∙ update_ne a i m (a k) (λ e. ne (sym e))
        ∙ e)
  ]
]

swap-Tracks :
    (a : ℕ → ℕ) (n next i k : ℕ) (b : Book)
    → i < n
    → k < n
    → Tracks a n next b
    → Tracks (swap a i k) n next b
swap-Tracks a n next i k b hi hk t = record {
  orders = t.orders;
  map = t.map;
  free = t.free;
  book = t.book;
  small = t.small;
  tracked = λ id h. t.tracked id (Absent-swap a n i k id hi hk h);
  fresh = t.fresh;
}

pub later-Driven : (n : ℕ) (s : Sim) → Driven n s → Driven (suc n) s
later-Driven n s d = record {
  tracks = d.tracks;
  balance = d.balance;
  given = d.given;
  few = omega (arith, d.few);
}

module _ (clock : ℕ → ℕ) (n : ℕ) (word : n + 2 < u64_mod) where
  cancel_back-Driven :
      (s : Sim) → Driven n s → 0 < s.count → Returns (cancel_back clock s) (Driven n)
  unfolding cancel_back
  cancel_back-Driven s d full =
      let (out, run, t) =
        publish_cancel-Tracks clock s.resting s.resting s.count (s.count - 1) s.next_id s.publisher
          (s.resting (s.count - 1)) d.tracks
          (λ j ne h. Absent-back s.resting s.count j full ne h) in
      (
        record s { publisher = out.1; count = s.count - 1; cancels = add64 s.cancels 1 },
        rw run,
        record {
          tracks = t;
          balance = omega (arith, d.balance, d.given, d.few);
          given = d.given;
          few = d.few;
        },
      )

  cancel_random-Driven :
      (s : Sim) → Driven n s → 0 < s.count → Returns (cancel_random clock s) (Driven n)
  unfolding cancel_random
  cancel_random-Driven s d full =
      let i = next_random s.rng % s.count in
      cancel_back-Driven
        (record s { rng = next_random s.rng; resting = swap s.resting i (s.count - 1) })
        record {
          tracks =
              swap-Tracks s.resting s.count s.next_id i (s.count - 1) s.publisher.book (grind arith)
                (omega arith) d.tracks;
          balance = d.balance;
          given = d.given;
          few = d.few;
        }
        full

  note_added-Driven :
      (s : Sim) (r : ℕ) (ok : Bool) (p : Publisher)
      → Driven n s
      → Tracks (update s.resting s.count s.next_id) (suc s.count) (suc s.next_id) p.book
      → (ok ≡ true) ⊎ Tracks s.resting s.count (suc s.next_id) p.book
      → Driven
          (suc n)
          (note_added (record s { rng = r; next_id = add64 s.next_id 1 }) s.next_id ok p)
  note_added-Driven s r true p d pushed kept =
      let next : suc s.next_id ≡ add64 s.next_id 1 = omega (arith, d.few) in
      let count : suc s.count ≡ s.count + 1 = omega arith in
      record {
        tracks =
            subst (λ m. Tracks (update s.resting s.count s.next_id) m (add64 s.next_id 1) p.book)
              count
              (subst (λ m. Tracks (update s.resting s.count s.next_id) (suc s.count) m p.book) next
                pushed);
        balance = omega (arith, d.balance, d.given, d.few);
        given = omega (arith, d.given, d.few);
        few = omega (arith, d.few);
      }
  note_added-Driven s r false p d pushed kept =
      let next : suc s.next_id ≡ add64 s.next_id 1 = omega (arith, d.few) in
      let t : Tracks s.resting s.count (suc s.next_id) p.book = elim kept [
        | inl e ↦ absurd (cc e)
        | inr t ↦ t
      ] in
      record {
        tracks = subst (λ m. Tracks s.resting s.count m p.book) next t;
        balance = d.balance;
        given = omega (arith, d.given, d.few);
        few = omega (arith, d.few);
      }

  draw_quantity_bounds : (r : ℕ) → (0 < draw_quantity r) × (draw_quantity r < u64_mod)
  unfolding draw_quantity
  draw_quantity_bounds r = omega arith

  add_random-Driven : (s : Sim) → Driven n s → Returns (add_random clock s) (Driven (suc n))
  unfolding add_random
  add_random-Driven s d =
      let r₁ = next_random s.rng in
      let r₂ = next_random r₁ in
      let r₃ = next_random r₂ in
      let is_buy = is_odd r₁ in
      let (low, high) = draw_quantity_bounds r₃ in
      let ((ok, p), run, (pushed, kept)) =
        publish_add-Tracks clock s.resting s.count s.next_id s.publisher
          (if is_buy then buy else sell) (draw_price is_buy r₂) (draw_quantity r₃) d.tracks low
          high in
      (_, rw run refl, note_added-Driven s r₃ ok p d pushed kept)

  add_or_evict-Driven : (s : Sim) → Driven n s → Returns (add_or_evict clock s) (Driven (suc n))
  unfolding add_or_evict
  add_or_evict-Driven s d =
      elim (Bool-cases (leb (book_capacity - 4) (open_order_count s.publisher.book))) [
        | inr e ↦ let (s', run, d') = add_random-Driven s d in (s', rw e run, d')
        | inl e ↦ elim (Bool-cases (ltb 0 s.count)) [
          | inr none_left ↦ (s, rw (e, none_left), later-Driven n s d)
          | inl full ↦
              let (s', run, d') = cancel_back-Driven s d (ground arith) in
              (s', rw (e, full) run, later-Driven n s' d')
        ]
      ]

  at_rng : (s : Sim) (r : ℕ) → Driven n s → Driven n (record s { rng = r })
  at_rng s r d = record { tracks = d.tracks; balance = d.balance; given = d.given; few = d.few }

  sim_step-Driven : (s : Sim) → Driven n s → Returns (sim_step clock s) (Driven (suc n))
  unfolding sim_step
  sim_step-Driven s d =
      let s₁ = record s { rng = next_random s.rng } in
      let d₁ = at_rng s (next_random s.rng) d in
      elim (Bool-cases (ltb 0 s.count)) [
        | inr empty ↦ let (s', run, d') = add_or_evict-Driven s d in (s', rw empty run, d')
        | inl full ↦ elim (Bool-cases (next_random s.rng % 4 == 0)) [
          | inl hit ↦
              let (s', run, d') = cancel_random-Driven s₁ d₁ (ground arith) in
              (s', rw (full, hit) run, later-Driven n s' d')
          | inr miss ↦
              let (s', run, d') = add_or_evict-Driven s₁ d₁ in (s', rw (full, miss) run, d')
        ]
      ]

module _ (clock : ℕ → ℕ) where
  run_ops-step :
      (m : ℕ) (s s' s'' : Sim)
      → sim_step clock s ≡ some s'
      → run_ops clock m s' ≡ some s''
      → run_ops clock (suc m) s ≡ some s''
  unfolding run_ops
  run_ops-step m s s' s'' e e' = rw (e, e')

  run_ops-Driven :
      (m n : ℕ) (s : Sim)
      → m + n + 2 < u64_mod
      → Driven n s
      → Returns (run_ops clock m s) (Driven (m + n))
  unfolding run_ops
  run_ops-Driven zero n s word d = (s, refl, subst (λ k. Driven k s) (omega arith) d)
  run_ops-Driven (suc m) n s word d =
      let (s', run, d') = sim_step-Driven clock n (omega arith) s d in
      let (s'', run', d'') = run_ops-Driven m (suc n) s' (omega arith) d' in
      (s'', run_ops-step m s s' s'' run run', subst (λ k. Driven k s'') (omega arith) d'')

  run_main-step :
      (raw : Memory) (zeroed : TelemetryEvent) (seed ops : ℕ) (s : Sim)
      → run_ops clock ops (start_sim (default_book raw) zeroed seed) ≡ some s
      → run_main clock raw zeroed seed ops ≡ some s
  run_main-step raw zeroed seed ops s run =
      ap (λ (o : Option Book). o >>= λ b. run_ops clock ops (start_sim b zeroed seed))
        (new_book-default_book raw)
      ∙ run

  -- The loop of `main`, from the empty book on and for every seed and clock, ends normally for up to
  -- 2^64 - 3 operations: no `AddLimit` or `Cancel` faults or loops. Then the book satisfies its invariant;
  -- every order that rests in it is in `resting` and has an id below `next_id`; the added orders are those
  -- in `resting` and those whose cancel was counted; and at most one id was given out for each operation.
  pub simulation-Driven :
      (raw : Memory) (zeroed : TelemetryEvent) (seed ops : ℕ)
      → ops + 2 < u64_mod
      → Returns (run_main clock raw zeroed seed ops) (Driven ops)
  simulation-Driven raw zeroed seed ops word =
      let s₀ = start_sim (default_book raw) zeroed seed in
      let start : Driven 0 s₀ = record {
        tracks = record {
          orders = λ side i. [];
          map = λ id. none;
          free = countdown book_capacity;
          book = default_book-IsBook raw;
          small = default_book-IsSmall raw;
          tracked = λ id h. refl;
          fresh = λ id h. refl;
        };
        balance = omega arith;
        given = omega arith;
        few = omega arith;
      } in
      let (s, run, d) = run_ops-Driven ops 0 s₀ (omega arith) start in
      (s, run_main-step raw zeroed seed ops s run, subst (λ k. Driven k s) (omega arith) d)
