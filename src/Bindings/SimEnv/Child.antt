-- ===== src/Bindings/SimEnv/Child.antt =====
-- The child order of a step.
use optimal_execution_platfo.Common.{
  ◌||◌, true, if◌then◌else◌, ℕ, suc, ◌+◌, ◌*◌, ◌<◌, ◌≤◌, ◌≡◌, refl, sym, ap, ◌∙◌, inl, inr, arith,
  some, Bool, false, ◌&&◌, ltb, ◌==◌, add64, u64_mod, Returns, Bool-cases, update, subst, List,
}
use optimal_execution_platfo.Common.Int.{
  pos, ◌+ℤ◌, ◌-ℤ◌, to_int64, fits_int64, +ℤ_parts, -ℤ_parts, one_part, ℤ,
}
use optimal_execution_platfo.Core.Order.{buy, sell, Fill}
use optimal_execution_platfo.Core.Ladder.{width}
use optimal_execution_platfo.Core.Book.{has_best, best_price, Book, add_limit, opposite}
use optimal_execution_platfo.Core.Book.Sweep.{best_first, sweep}
use optimal_execution_platfo.Core.Book.AddLimit.{add_limit-Added}
use optimal_execution_platfo.Core.Book.Around.{best_first-Each}
use optimal_execution_platfo.Bindings.SimEnv.Cash.{AllLow, sweep-AllLow, pos-sum, fills_cash-IsCash}
use optimal_execution_platfo.Exec.Double.{Doubles}
use optimal_execution_platfo.Exec.RlPolicy.{Floats, clamp_unit_f}
use optimal_execution_platfo.Exec.Publisher.{Publisher, on_fills, acknowledge}
use optimal_execution_platfo.Exec.Publisher.Published.{fills_total, sweep-total, on_fills-total}
use optimal_execution_platfo.Exec.Publisher.Held.{
  Tracks, Grown, Added-Grown, Grown-push, Grown-keep,
}
use optimal_execution_platfo.Exec.Publisher.Tracked.{on_fills_book, acknowledge_book}
use optimal_execution_platfo.Bindings.SimEnv.Flow.{Market, expire, background_flow}
use optimal_execution_platfo.Bindings.SimEnv.Flow.Kept.{Kept, expire-Kept, background_flow-Kept}
use optimal_execution_platfo.Bindings.SimEnv.{
  RewardFloats, fills_cash, SimEnv, is_terminal, child_quantity, child_price, idle_step,
  settle_child, note_child, send_child, child_step, step_impl,
}
use optimal_execution_platfo.Bindings.SimEnv.Sound.{
  Accounts, IsEnv, Follows, Stepped, Fits, idle_step-IsEnv, settle_child-IsEnv,
}

picked :
    (b : Bool) (x y : ℤ)
    → fits_int64 y ≡ true
    → (z : ℤ) × ((if b then some x else to_int64 y) ≡ some z)
picked true x y e = (x, refl)
picked false x y e = (y, rw e refl)

-- The child's id is noted exactly if something of it may rest.
note_child-Kept :
    {d : Doubles} {fl : Floats d} (rf : RewardFloats fl) (given : ℕ) (m : Market) (p : Publisher)
    {remaining : ℕ} {ok : Bool} (filled qty : ℕ) (b : Book)
    → (k : Kept given m) → given + 2 < u64_mod
    → Grown k.tracks.map m.next_id remaining ok b
    → p.book ≡ b
    → filled + remaining ≡ qty
    → Kept (given + 1) (
        note_child rf
          (record m { publisher = p; next_id = add64 m.next_id 1 })
          m.next_id
          (ok && ltb filled qty))
note_child-Kept rf given m p {ok = ok} filled qty b k word g same sum =
    let next : suc m.next_id ≡ add64 m.next_id 1 = omega (arith, k.few) in
    let count : suc m.resting_count ≡ m.resting_count + 1 = omega arith in
    let few : add64 m.next_id 1 ≤ given + 1 + 1 = omega (arith, k.few) in
    let m₁ : Market = record m { publisher = p; next_id = add64 m.next_id 1 } in
    let ids = update m.resting_ids m.resting_count m.next_id in
    let pushed : Tracks ids (m.resting_count + 1) (add64 m.next_id 1) p.book =
      subst (λ b. Tracks ids (m.resting_count + 1) (add64 m.next_id 1) b) (sym same)
        (subst (λ n. Tracks ids n (add64 m.next_id 1) b) count
          (subst (λ n. Tracks ids (suc m.resting_count) n b) next
            (Grown-push m.resting_ids m.resting_count m.next_id k.tracks g))) in
    elim (Bool-cases (ok && ltb filled qty)) [
      | inl e ↦
          subst (λ t. Kept (given + 1) (note_child rf m₁ m.next_id t)) (sym e)
            record { tracks = pushed; few = few }
      | inr e ↦
          let kept : Tracks m.resting_ids m.resting_count (suc m.next_id) b =
            elim (Grown-keep m.resting_ids m.resting_count m.next_id k.tracks g) [
              | inl t ↦ t
              | inr (took, left) ↦ absurd (ground arith)
            ] in
          subst (λ t. Kept (given + 1) (note_child rf m₁ m.next_id t)) (sym e)
            record {
              tracks =
                  subst (λ b. Tracks m.resting_ids m.resting_count (add64 m.next_id 1) b) (sym same)
                    (subst (λ n. Tracks m.resting_ids m.resting_count n b) next kept);
              few = few;
            }
    ]

module _ {d : Doubles} {fl : Floats d} (rf : RewardFloats fl) (clock : ℕ → ℕ) where
  send_child-step :
      (e : SimEnv rf) (qty : ℕ) (px : ℤ) (ok : Bool) (fills : List Fill) (b : Book)
      (cash all_cash : ℤ)
      → fills_cash (pos 0) fills ≡ some cash
      → to_int64 (e.cash_from_fills +ℤ cash) ≡ some all_cash
      → add_limit e.market.publisher.book e.market.next_id sell px qty ≡ some (ok, fills, b)
      → send_child rf clock e qty px ≡ (
          let m = e.market in
          let p = m.publisher in
          let q = on_fills clock (record p { book = b; seq = e.fused_seq }) 0 fills in
          let p₂ = acknowledge clock q.0 ok m.next_id sell px qty q.1 in
          let m₁ : Market = record m {
            publisher = record p₂ { seq = p.seq };
            next_id = add64 m.next_id 1;
          } in
          some (
            settle_child rf e
              (note_child rf m₁ m.next_id (ok && ltb q.1 qty))
              p₂.seq
              q.1
              cash
              all_cash))
  unfolding send_child
  send_child-step e qty px ok fills b cash all_cash sold summed run = rw (run, sold, summed)

  module _ (e : SimEnv rf) (k : Accounts rf e) (early : e.step_idx < e.horizon_steps)
      (kept : Kept (13 * e.step_idx + 12) e.market) where
    send_child-IsEnv :
        (qty : ℕ) (px : ℤ)
        → 0 < qty
        → qty ≤ e.remaining
        → Returns (send_child rf clock e qty px) λ (reward, e'). IsEnv rf e' × Follows rf e e'
    send_child-IsEnv qty px some_ le =
        let m = e.market in
        let p = m.publisher in
        let t = kept.tracks in
        let word : qty < u64_mod = omega (arith, k.conserved, k.parent_word) in
        let fresh = t.fresh m.next_id (omega arith) in
        let ((ok, fills, b), run, a) =
          add_limit-Added t.book m.next_id sell px qty fresh some_ word in
        let best = best_first (opposite sell) (width p.book.band) in
        let r = sweep m.next_id sell px p.book.band best t.orders qty in
        let sum = sweep-total m.next_id sell px p.book.band best t.orders qty in
        let same_total : fills_total fills ≡ fills_total r.fills = ap fills_total a.fills in
        let p₀ = record p { book = b; seq = e.fused_seq } in
        let total = on_fills-total clock p₀ 0 fills (omega arith) in
        let g = Added-Grown t.map p.book.band m.next_id sell px r ok fills b fresh t.small a in
        let q = on_fills clock p₀ 0 fills in
        let low : AllLow fills = subst AllLow (sym a.fills) (
          sweep-AllLow m.next_id sell px p.book.band best t.orders qty t.small
            (best_first-Each (opposite sell) (width p.book.band))) in
        let (c₀, start, bound₀) = k.cash in
        let (c, sold, bound) =
          fills_cash-IsCash fills 0 low (omega (arith, k.conserved, k.parent_word)) in
        let room : fits_int64 (pos (c₀ + c)) ≡ true = ground (arith, k.conserved, k.parent_word) in
        let sum_ : e.cash_from_fills +ℤ pos c ≡ pos (c₀ + c) =
          ap (λ x. x +ℤ pos c) start ∙ pos-sum c₀ c in
        let summed : to_int64 (e.cash_from_fills +ℤ pos c) ≡ some (pos (c₀ + c)) =
          rw (sum_, room) refl in
        let p₂ = acknowledge clock q.0 ok m.next_id sell px qty q.1 in
        let book_kept : p₂.book ≡ b =
          acknowledge_book clock q.0 ok m.next_id sell px qty q.1
          ∙ on_fills_book clock p₀ 0 fills in
        let m' =
          note_child-Kept rf (13 * e.step_idx + 12) m (record p₂ { seq = p.seq }) q.1 qty b kept
            (omega (arith, k.ids_word)) g book_kept (omega arith) in
        let m₁ : Market = record m {
          publisher = record p₂ { seq = p.seq };
          next_id = add64 m.next_id 1;
        } in
        (
          _,
          send_child-step e qty px ok fills b (pos c) (pos (c₀ + c)) sold summed run,
          settle_child-IsEnv rf e k early (note_child rf m₁ m.next_id (ok && ltb q.1 qty)) p₂.seq
              q.1 (pos c) (pos (c₀ + c))
              (subst (λ n. Kept n (note_child rf m₁ m.next_id (ok && ltb q.1 qty))) (omega arith)
                m')
              (omega arith) (c₀ + c, refl, omega arith),
        )

    child_price-Returns :
        (aggression : fl.Float) → (px : ℤ) × (child_price rf e aggression ≡ some px)
    unfolding child_price
    child_price-Returns aggression =
        let b = e.market.publisher.book in
        let mid = e.arrival_mid in
        let (high, low) = k.mid in
        let below : fits_int64 (mid -ℤ pos 1) ≡ true =
          ground (arith, -ℤ_parts mid (pos 1), one_part (mid -ℤ pos 1), one_part mid) in
        let above : fits_int64 (mid +ℤ pos 1) ≡ true =
          ground (arith, +ℤ_parts mid (pos 1), one_part (mid +ℤ pos 1), one_part mid) in
        let (bid, is_bid) = picked (has_best b buy) (best_price b buy) (mid -ℤ pos 1) below in
        let (ask, is_ask) = picked (has_best b sell) (best_price b sell) (mid +ℤ pos 1) above in
        (
          (if is_terminal rf e || rf.at_most_f rf.half_f aggression then bid else ask),
          rw (is_bid, is_ask) refl,
        )

    child_quantity-le :
        (x : fl.Float)
        → Fits rf e.parent_qty x
        → child_quantity rf e (clamp_unit_f fl x) ≤ e.remaining
    unfolding child_quantity
    child_quantity-le x fits = elim (Bool-cases (is_terminal rf e)) [
      | inl t ↦ rw t (omega arith)
      | inr t ↦ rw t (fits e.remaining (omega (arith, k.conserved)))
    ]

    child_step-IsEnv :
        (x : fl.Float) (aggression : fl.Float)
        → Fits rf e.parent_qty x
        → Returns
            (child_step rf clock e (clamp_unit_f fl x) aggression)
            λ (reward, e'). IsEnv rf e' × Follows rf e e'
    unfolding child_step
    child_step-IsEnv x aggression fits =
        let qty = child_quantity rf e (clamp_unit_f fl x) in
        let le = child_quantity-le x fits in
        elim (Bool-cases (qty == 0)) [
          | inl nothing ↦ (idle_step rf e, rw nothing, idle_step-IsEnv rf e k early kept)
          | inr something ↦
              let (px, priced) = child_price-Returns aggression in
              let (out, run, sound) = send_child-IsEnv qty px (ground arith) le in
              (out, rw (something, priced) run, sound)
        ]

  step_impl-step :
      (e : SimEnv rf) (x y : fl.Float) (m m' : Market)
      → e.done ≡ false
      → expire clock e.step_idx e.market ≡ some m
      → background_flow clock e.arrival_mid e.step_idx 12 m ≡ some m'
      → step_impl rf clock e x y ≡ child_step rf clock (record e { market = m' }) x y
  unfolding step_impl
  step_impl-step e x y m m' go e₁ e₂ = rw (go, e₁, e₂)

  pub step_impl-IsEnv :
      (e : SimEnv rf) (x aggression : fl.Float)
      → IsEnv rf e
      → Fits rf e.parent_qty x
      → Returns
          (step_impl rf clock e (clamp_unit_f fl x) aggression)
          λ (reward, e'). IsEnv rf e' × Stepped rf e e'
  unfolding step_impl
  step_impl-IsEnv e x aggression k fits = elim (Bool-cases e.done) [
    | inl over ↦ (
      (fl.zero_f, e),
      rw over,
      (k, record { same_parent = refl; same_horizon = refl; on = inl over }),
    )
    | inr go ↦
        let c = k.accounts in
        let early : e.step_idx < e.horizon_steps = ground (arith, c.going) in
        let (m, run, kept) = expire-Kept clock e.step_idx (13 * e.step_idx) e.market k.kept in
        let (m', run', kept') =
          background_flow-Kept clock e.arrival_mid e.step_idx 12 (13 * e.step_idx) m
            (omega (arith, c.ids_word)) c.mid kept in
        let e₁ : SimEnv rf = record e { market = m' } in
        let kept₁ : Kept (13 * e.step_idx + 12) m' = subst (λ n. Kept n m') (omega arith) kept' in
        let c₁ : Accounts rf e₁ = record {
          conserved = c.conserved;
          parent_word = c.parent_word;
          cash = c.cash;
          within = c.within;
          going = c.going;
          ids_word = c.ids_word;
          mid = c.mid;
        } in
        let (out, ran, (sound, f)) = child_step-IsEnv e₁ c₁ early kept₁ x aggression fits in
        (
          out,
          step_impl-step e (clamp_unit_f fl x) aggression m m' go run run' ∙ ran,
          (
            sound,
            record {
              same_parent = f.same_parent;
              same_horizon = f.same_horizon;
              on = inr (go, f.moved);
            },
          ),
        )
  ]
