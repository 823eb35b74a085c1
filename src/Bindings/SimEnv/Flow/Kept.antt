-- ===== src/Bindings/SimEnv/Flow/Kept.antt =====
-- The synthetic orders never fault, and their ids are kept for the reset.
use optimal_execution_platfo.Common.{
  ◌^◌, ℕ, zero, suc, ◌+◌, ◌-◌, ◌%◌, ◌<◌, ◌≤◌, ◌≡◌, ◌⊎◌, refl, sym, ◌∙◌, inl, inr, arith, some, Bool,
  true, false, ltb, leb, if◌then◌else◌, add64, u64_mod, Returns, Bool-cases, update, subst,
}
use optimal_execution_platfo.Common.Int.{
  pos, pos_part, neg_part, ◌+ℤ◌, ◌-ℤ◌, fits_int64, +ℤ_parts, -ℤ_parts, one_part, ℤ,
}
use optimal_execution_platfo.Core.Order.{buy, sell}
use optimal_execution_platfo.Core.Book.{open_order_count}
use optimal_execution_platfo.Exec.Publisher.{Publisher, publish_cancel}
use optimal_execution_platfo.Exec.Publisher.Held.{Absent-back, Tracks}
use optimal_execution_platfo.Exec.Publisher.Tracked.{publish_add-Tracks, publish_cancel-Tracks}
use optimal_execution_platfo.Main.Random.{next_random, is_odd}
use optimal_execution_platfo.Bindings.SimEnv.Flow.{
  book_capacity, Market, flow_price, flow_quantity, note_flow, is_expired, expire_from, expire,
  make_room, flow_order, background_flow,
}

-- The book is sound, each of its orders is among `resting_ids`, and at most `given` ids were given out.
pub record Kept (given : ℕ) (m : Market) : Type 0 where
  pub tracks : Tracks m.resting_ids m.resting_count m.next_id m.publisher.book
  pub few : m.next_id ≤ given + 1

-- A mid that is 5 ticks away from the ends of the signed 64-bit numbers.
abbrev pub IsMid : ℤ → Type 0
IsMid p = (pos_part p + 6 ≤ 2 ^ 63) × (neg_part p + 5 ≤ 2 ^ 63)

module _ (clock : ℕ → ℕ) where
  expire_from-step :
      (fuel step_idx : ℕ) (m : Market) (out : Bool × Publisher)
      → is_expired step_idx m ≡ true
      → publish_cancel clock m.publisher (m.bg_ids m.bg_head) ≡ some out
      → expire_from clock (suc fuel) step_idx m
        ≡ expire_from clock fuel step_idx (record m { publisher = out.1; bg_head = m.bg_head + 1 })
  unfolding expire_from
  expire_from-step fuel step_idx m out e run = rw (e, run)

  -- The loop ends before its fuel does: each round takes one id.
  expire_from-Kept :
      (fuel step_idx given : ℕ) (m : Market)
      → m.bg_count ≤ fuel + m.bg_head
      → Kept given m
      → Returns (expire_from clock fuel step_idx m) (Kept given)
  unfolding expire_from
  expire_from-Kept zero step_idx given m enough k =
      let test : is_expired step_idx m ≡ false = ground arith in (m, rw test, k)
  expire_from-Kept (suc fuel) step_idx given m enough k =
      elim (Bool-cases (is_expired step_idx m)) [
        | inr e ↦ (m, rw e, k)
        | inl e ↦
            let (out, run, t) =
              publish_cancel-Tracks clock m.resting_ids m.resting_ids m.resting_count
                m.resting_count m.next_id m.publisher (m.bg_ids m.bg_head) k.tracks (λ j ne h. h) in
            let m₁ = record m { publisher = out.1; bg_head = m.bg_head + 1 } in
            let (m', run', k') =
              expire_from-Kept fuel step_idx given m₁ (omega arith)
                record { tracks = t; few = k.few } in
            (m', expire_from-step fuel step_idx m out e run ∙ run', k')
      ]

  pub expire-Kept :
      (step_idx given : ℕ) (m : Market)
      → Kept given m
      → Returns (expire clock step_idx m) (Kept given)
  expire-Kept step_idx given m k =
      expire_from-Kept (m.bg_count - m.bg_head) step_idx given m (omega arith) k

  make_room-Tracks :
      (next : ℕ) (m : Market)
      → Tracks m.resting_ids m.resting_count next m.publisher.book
      → Returns (make_room clock m) λ m'.
        Tracks m'.resting_ids m'.resting_count next m'.publisher.book × (m'.next_id ≡ m.next_id)
  unfolding make_room
  make_room-Tracks next m t =
      elim (Bool-cases (leb (book_capacity - 8) (open_order_count m.publisher.book))) [
        | inr e ↦ (m, rw e, (t, refl))
        | inl e ↦ elim (Bool-cases (ltb 0 m.resting_count)) [
          | inr none_left ↦ (m, rw (e, none_left), (t, refl))
          | inl full ↦
              let (out, run, t') =
                publish_cancel-Tracks clock m.resting_ids m.resting_ids m.resting_count
                  (m.resting_count - 1) next m.publisher (m.resting_ids (m.resting_count - 1)) t
                  (λ j ne h. Absent-back m.resting_ids m.resting_count j (ground arith) ne h) in
              (
                record m { publisher = out.1; resting_count = m.resting_count - 1 },
                rw (e, full, run),
                (t', refl),
              )
        ]
      ]

  -- The price of a synthetic order is a signed 64-bit number.
  flow_price-Returns :
      (arrival_mid : ℤ) (is_buy : Bool) (depth : ℕ)
      → IsMid arrival_mid
      → depth < 5
      → (px : ℤ) × (flow_price arrival_mid is_buy depth ≡ some px)
  unfolding flow_price
  flow_price-Returns mid true depth (high, low) h =
      let below = mid -ℤ pos 1 in
      let e = -ℤ_parts mid (pos 1) in
      let e' = -ℤ_parts below (pos depth) in
      let first : fits_int64 below ≡ true = ground (arith, e, one_part below, one_part mid) in
      let second : fits_int64 (below -ℤ pos depth) ≡ true =
        ground (arith, e, e', one_part (below -ℤ pos depth), one_part below, one_part mid) in
      (below -ℤ pos depth, rw (first, second) refl)
  flow_price-Returns mid false depth (high, low) h =
      let above = mid +ℤ pos 1 in
      let e = +ℤ_parts mid (pos 1) in
      let e' = +ℤ_parts above (pos depth) in
      let first : fits_int64 above ≡ true = ground (arith, e, one_part above, one_part mid) in
      let second : fits_int64 (above +ℤ pos depth) ≡ true =
        ground (arith, e, e', one_part (above +ℤ pos depth), one_part above, one_part mid) in
      (above +ℤ pos depth, rw (first, second) refl)

  flow_quantity_bounds : (r : ℕ) → (0 < flow_quantity r) × (flow_quantity r < u64_mod)
  unfolding flow_quantity
  flow_quantity_bounds r = omega arith

  note_flow-Kept :
      (given id step_idx : ℕ) (m : Market) (ok : Bool) (p : Publisher)
      → m.next_id ≡ suc id
      → id ≤ given + 1
      → Tracks (update m.resting_ids m.resting_count id) (suc m.resting_count) (suc id) p.book
      → (ok ≡ true) ⊎ Tracks m.resting_ids m.resting_count (suc id) p.book
      → Kept (suc given) (note_flow m step_idx id ok p)
  note_flow-Kept given id step_idx m true p next few pushed kept =
      let count : suc m.resting_count ≡ m.resting_count + 1 = omega arith in
      record {
        tracks =
            subst (λ n. Tracks (update m.resting_ids m.resting_count id) n m.next_id p.book) count
              (subst
                (λ n.
                  Tracks (update m.resting_ids m.resting_count id) (suc m.resting_count) n p.book)
                (sym next) pushed);
        few = omega (arith, next);
      }
  note_flow-Kept given id step_idx m false p next few pushed kept =
      let t : Tracks m.resting_ids m.resting_count (suc id) p.book = elim kept [
        | inl e ↦ absurd (cc e)
        | inr t ↦ t
      ] in
      record {
        tracks = subst (λ n. Tracks m.resting_ids m.resting_count n p.book) (sym next) t;
        few = omega (arith, next);
      }

  flow_order-Kept :
      (arrival_mid : ℤ) (step_idx given : ℕ) (m : Market)
      → given + 2 < u64_mod
      → IsMid arrival_mid
      → Kept given m
      → Returns (flow_order clock arrival_mid step_idx m) (Kept (suc given))
  unfolding flow_order
  flow_order-Kept arrival_mid step_idx given m word mid k =
      let r₁ = next_random m.rng in
      let r₂ = next_random r₁ in
      let r₃ = next_random r₂ in
      let is_buy = is_odd r₁ in
      let (px, priced) = flow_price-Returns arrival_mid is_buy (r₂ % 5) mid (omega arith) in
      let (low, high) = flow_quantity_bounds r₃ in
      let (m₁, run, (t, same)) =
        make_room-Tracks m.next_id (record m { rng = r₃; next_id = add64 m.next_id 1 }) k.tracks in
      let ((ok, p), run', (pushed, kept)) =
        publish_add-Tracks clock m₁.resting_ids m₁.resting_count m.next_id m₁.publisher
          (if is_buy then buy else sell) px (flow_quantity r₃) t low high in
      (
        note_flow m₁ step_idx m.next_id ok p,
        rw (priced, run, run'),
        note_flow-Kept given m.next_id step_idx m₁ ok p (same ∙ omega (arith, k.few)) k.few pushed
            kept,
      )

  background_flow-step :
      (arrival_mid : ℤ) (step_idx n : ℕ) (m m' : Market)
      → flow_order clock arrival_mid step_idx m ≡ some m'
      → background_flow clock arrival_mid step_idx (suc n) m
        ≡ background_flow clock arrival_mid step_idx n m'
  unfolding background_flow
  background_flow-step arrival_mid step_idx n m m' e = rw e

  pub background_flow-Kept :
      (arrival_mid : ℤ) (step_idx n given : ℕ) (m : Market)
      → n + given + 2 < u64_mod
      → IsMid arrival_mid
      → Kept given m
      → Returns (background_flow clock arrival_mid step_idx n m) (Kept (n + given))
  unfolding background_flow
  background_flow-Kept arrival_mid step_idx zero given m word mid k =
      (m, refl, subst (λ g. Kept g m) (omega arith) k)
  background_flow-Kept arrival_mid step_idx (suc n) given m word mid k =
      let (m₁, run, k₁) = flow_order-Kept arrival_mid step_idx given m (omega arith) mid k in
      let (m₂, run', k₂) =
        background_flow-Kept arrival_mid step_idx n (suc given) m₁ (omega arith) mid k₁ in
      (
        m₂,
        background_flow-step arrival_mid step_idx n m m₁ run ∙ run',
        subst (λ g. Kept g m₂) (omega arith) k₂,
      )
