-- ===== src/Exec/Publisher/Tracked.antt =====
-- A client that keeps the ids of its orders in a vector, and numbers them upwards.
use optimal_execution_platfo.Common.{
  ℕ, suc, ◌<◌, ◌≡◌, ◌≢◌, ◌⊎◌, refl, sym, ap, ◌∙◌, inl, inr, arith, Option, none, some, Bool, true,
  ◌&&◌, ltb, u64_mod, List, ◌∷◌, Returns, Bool-cases, ℕ_discrete, update, update_ne, subst,
}
use optimal_execution_platfo.Common.Int.{ℤ}
use optimal_execution_platfo.Core.Order.{Side, Fill, Resting}
use optimal_execution_platfo.Core.IdIndex.Erase.{forget}
use optimal_execution_platfo.Core.Ladder.{width}
use optimal_execution_platfo.Core.Book.{Book, opposite}
use optimal_execution_platfo.Core.Book.Invariant.{IsBook}
use optimal_execution_platfo.Core.Book.Cancel.{Cancelled}
use optimal_execution_platfo.Core.Book.Sweep.{best_first, sweep}
use optimal_execution_platfo.Exec.Publisher.{
  Publisher, emit, on_fills, acknowledge, publish_add_limit, publish_cancel,
}
use optimal_execution_platfo.Exec.Publisher.Published.{on_fills-after, publish_add_limit-Published}
use optimal_execution_platfo.Exec.Publisher.Withdrawn.{Withdrawn, publish_cancel-Withdrawn}
use optimal_execution_platfo.Exec.Publisher.Held.{
  IsSmall, Absent, Tracks, Added-Grown, Grown-push, Grown-keep,
}

-- After a cancel of `id` the client may forget that id.
pub Cancelled-Tracks :
    (a a' : ℕ → ℕ) (n n' next : ℕ) (b : Book) (id : ℕ) (t : Tracks a n next b) (o : Option ℕ)
    (told : Option Resting) (b' : Book)
    → ((j : ℕ) → j ≢ id → Absent a' n' j → Absent a n j)
    → t.map id ≡ o
    → Cancelled b t.orders t.map t.free id o (told, b')
    → Tracks a' n' next b'
Cancelled-Tracks a a' n n' next b id t none told b' cover known (_, e) = record {
  orders = t.orders;
  map = t.map;
  free = t.free;
  book = subst (λ b. IsBook b t.orders t.map t.free) (sym e) t.book;
  small = subst (λ b. IsSmall b.band) (sym e) t.small;
  tracked = λ j h. elim (ℕ_discrete j id) [
    | yes same ↦ ap t.map same ∙ known
    | no ne ↦ t.tracked j (cover j ne h)
  ];
  fresh = t.fresh;
}
Cancelled-Tracks a a' n n' next b id t (some p) told b' cover known
      (i, r, ys, zs, _, _, _, _, _, k', same_band) =
    record {
      orders = _;
      map = forget t.map id;
      free = p ∷ t.free;
      book = k';
      small = subst IsSmall (sym same_band) t.small;
      tracked = λ j h. elim (ℕ_discrete j id) [
        | yes same ↦ ground arith
        | no ne ↦ update_ne t.map id j none (λ e. ne (sym e)) ∙ t.tracked j (cover j ne h)
      ];
      fresh = λ j h. ground (arith, t.fresh j h);
    }

module _ (clock : ℕ → ℕ) where
  pub publish_add-Tracks :
      (a : ℕ → ℕ) (n next : ℕ) (p : Publisher) (side : Side) (price : ℤ) (qty : ℕ)
      → (t : Tracks a n next p.book) → 0 < qty
      → qty < u64_mod
      → Returns (publish_add_limit clock p next side price qty) λ (ok, p').
        Tracks (update a n next) (suc n) (suc next) p'.book
        × ((ok ≡ true) ⊎ Tracks a n (suc next) p'.book)
  publish_add-Tracks a n next p side price qty t pos word =
      let ((ok, p'), run, (added, _)) =
        publish_add_limit-Published clock p next side price qty t.book (t.fresh next (omega arith))
          pos word in
      let r =
        sweep next side price p.book.band (best_first (opposite side) (width p.book.band)) t.orders
          qty in
      let g =
        Added-Grown t.map p.book.band next side price r ok r.fills p'.book
          (t.fresh next (omega arith)) t.small added in
      let keep : (ok ≡ true) ⊎ Tracks a n (suc next) p'.book = elim (Grown-keep a n next t g) [
        | inl k ↦ inr k
        | inr (yes_, _) ↦ inl yes_
      ] in
      ((ok, p'), run, (Grown-push a n next t g, keep))

  Withdrawn-Tracks :
      (a a' : ℕ → ℕ) (n n' next : ℕ) (p : Publisher) (id : ℕ) (t : Tracks a n next p.book)
      (o : Option ℕ) (ok : Bool) (p' : Publisher)
      → ((j : ℕ) → j ≢ id → Absent a' n' j → Absent a n j)
      → t.map id ≡ o
      → Withdrawn clock p t.orders t.map t.free id o (ok, p')
      → Tracks a' n' next p'.book
  Withdrawn-Tracks a a' n n' next p id t none ok p' cover known (_, e) =
      Cancelled-Tracks a a' n n' next p.book id t none none p'.book cover known
        (refl, ap (λ (q : Publisher). q.book) e)
  Withdrawn-Tracks a a' n n' next p id t (some s) ok p' cover known (r, _, c, _) =
      Cancelled-Tracks a a' n n' next p.book id t (some s) (some r) p'.book cover known c

  pub publish_cancel-Tracks :
      (a a' : ℕ → ℕ) (n n' next : ℕ) (p : Publisher) (id : ℕ)
      → Tracks a n next p.book
      → ((j : ℕ) → j ≢ id → Absent a' n' j → Absent a n j)
      → Returns (publish_cancel clock p id) λ (ok, p'). Tracks a' n' next p'.book
  publish_cancel-Tracks a a' n n' next p id t cover =
      let ((ok, p'), run, w) = publish_cancel-Withdrawn clock p id t.book in
      ((ok, p'), run, Withdrawn-Tracks a a' n n' next p id t (t.map id) ok p' cover refl w)

-- The book stays as it is while events are published.
module _ (clock : ℕ → ℕ) where
  pub on_fills_book :
      (p : Publisher) (filled : ℕ) (fs : List Fill) → (on_fills clock p filled fs).0.book ≡ p.book
  on_fills_book p filled fs = ap (λ (q : Publisher). q.book) (on_fills-after clock p filled fs)

  pub acknowledge_book :
      (p : Publisher) (ok : Bool) (id : ℕ) (side : Side) (price : ℤ) (qty filled : ℕ)
      → (acknowledge clock p ok id side price qty filled).book ≡ p.book
  unfolding acknowledge emit
  acknowledge_book p ok id side price qty filled = elim (Bool-cases (ok && ltb filled qty)) [
    | inl e ↦ rw e
    | inr e ↦ rw e
  ]
