-- ===== src/Core/Book/Uncrossed/Calm.antt =====
-- A sound book that is not crossed, and what each call makes of it.
use optimal_execution_platfo.Common.{
  ℕ, ◌<◌, ◌≡◌, sym, ap, ◌∙◌, inl, inr, arith, Option, none, some, Bool, true, false, ◌==◌,
  if◌then◌else◌, List, [], ◌∷◌, ◌++◌, Bool-cases, update, subst,
}
use optimal_execution_platfo.Common.Int.{ℤ}
use optimal_execution_platfo.Common.Slots.{has}
use optimal_execution_platfo.Core.IdIndex.Erase.{forget}
use optimal_execution_platfo.Core.Order.{Side, buy, sell, Fill, Resting}
use optimal_execution_platfo.Core.Level.Segment.{Queue}
use optimal_execution_platfo.Core.Ladder.{Band, width, in_band, idx}
use optimal_execution_platfo.Core.Ladder.Price.{price_at}
use optimal_execution_platfo.Core.Book.{Book, opposite, is_past}
use optimal_execution_platfo.Core.Book.Place.{change, change_other, place-cases}
use optimal_execution_platfo.Core.Book.Stock.{Orders}
use optimal_execution_platfo.Core.Book.Invariant.{IsBook, is_nil, is_nil-append}
use optimal_execution_platfo.Core.Book.Sweep.{best_first, sweep}
use optimal_execution_platfo.Core.Book.Rest.{Rested, RestOutcome}
use optimal_execution_platfo.Core.Book.Cancel.{Cancelled}
use optimal_execution_platfo.Core.Book.AddLimit.{Added, remainder}
use optimal_execution_platfo.Core.Book.Session.{IsSeen}
use optimal_execution_platfo.Core.Book.Uncrossed.Clear.{
  Shrinks, Shrinks-change, In-best_first, sweep-Shrinks, sweep-clears, past-buy, past-sell,
}

-- In a band of `n` prices every bid stands below every ask.
abbrev pub Uncrossed : ℕ → Orders → Type 0
Uncrossed n A =
    (i j : ℕ) → i < n → j < n → is_nil (A buy i) ≡ false → is_nil (A sell j) ≡ false → i < j

pub Shrinks-Uncrossed : (n : ℕ) (A B : Orders) → Shrinks A B → Uncrossed n A → Uncrossed n B
Shrinks-Uncrossed n A B h u i j hi hj bid ask = u i j hi hj (still buy i bid) (still sell j ask)
  where
    still : (s : Side) (i : ℕ) → is_nil (B s i) ≡ false → is_nil (A s i) ≡ false
    still s i e = elim (Bool-cases (is_nil (A s i))) [
      | inr full ↦ full
      | inl empty ↦ absurd (cc (h s i empty, e))
    ]

-- Every level of the other side that the price reaches is empty.
abbrev pub Cleared : Band → Side → ℤ → Orders → Type 0
Cleared band side price A =
    (j : ℕ)
    → j < width band
    → is_past side (price_at band j) price ≡ false
    → is_nil (A (opposite side) j) ≡ true

-- Then an order at that price crosses none.
change-Uncrossed :
    (band : Band) (side : Side) (price : ℤ) (A : Orders) (q : Queue)
    → in_band band price ≡ true
    → Cleared band side price A
    → Uncrossed (width band) A
    → Uncrossed (width band) (change A side (idx band price) q)
change-Uncrossed band buy price A q inside c u i j hi hj bid ask =
    elim (place-cases buy (idx band price) buy i) [
      | inr other ↦
          u i j hi hj (sym (ap is_nil (change_other A buy (idx band price) q buy i other)) ∙ bid)
            ask
      | inl (_, same) ↦ elim (Bool-cases (is_past buy (price_at band j) price)) [
        | inl past ↦ subst (λ k. k < j) same (past-buy band price j inside past)
        | inr near ↦ absurd (cc (c j hj near, ask))
      ]
    ]
change-Uncrossed band sell price A q inside c u i j hi hj bid ask =
    elim (place-cases sell (idx band price) sell j) [
      | inr other ↦
          u i j hi hj bid
            (sym (ap is_nil (change_other A sell (idx band price) q sell j other)) ∙ ask)
      | inl (_, same) ↦ elim (Bool-cases (is_past sell (price_at band i) price)) [
        | inl past ↦ subst (λ k. i < k) same (past-sell band price i inside past)
        | inr near ↦ absurd (cc (c i hi near, bid))
      ]
    ]

-- A sound book, all of whose ids were seen, that is not crossed.
pub record IsCalm (seen : List ℕ) (b : Book) : Type 0 where
  pub orders : Orders
  pub map : ℕ → Option ℕ
  pub free : List ℕ
  pub book : IsBook b orders map free
  pub known : IsSeen seen map
  pub uncrossed : Uncrossed (width b.band) orders

Rested-IsCalm :
    (b : Book) (A : Orders) (f : ℕ → Option ℕ) (side : Side) (price : ℤ) (id qty : ℕ)
    (free : List ℕ) (seen : List ℕ) (ok : Bool) (b' : Book)
    → IsBook b A f free
    → IsSeen seen f
    → in_band b.band price ≡ true
    → Cleared b.band side price A
    → Uncrossed (width b.band) A
    → Rested b A f (remainder id side price qty) (idx b.band price) free (ok, b')
    → IsCalm (id ∷ seen) b'
Rested-IsCalm b A f side price id qty [] seen ok b' k s inside c u (_, e) = record {
  orders = A;
  map = f;
  free = [];
  book = subst (λ b. IsBook b A f []) (sym e) k;
  known = λ j h. s j (ground arith);
  uncrossed = subst (λ b. Uncrossed (width b.band) A) (sym e) u;
}
Rested-IsCalm b A f side price id qty (p ∷ free) seen ok b' k s inside c u (_, k', same) = record {
  orders =
      change A side (idx b.band price)
        (A side (idx b.band price) ++ (p, remainder id side price qty) ∷ []);
  map = update f id (some p);
  free = free;
  book = k';
  known = λ j h. let old : has j seen ≡ false = ground arith in ground (arith, s j old);
  uncrossed =
      subst
        (λ band. Uncrossed (width band) (
          change A side (idx b.band price)
            (A side (idx b.band price) ++ (p, remainder id side price qty) ∷ [])))
        (sym same)
        (change-Uncrossed b.band side price A
          (A side (idx b.band price) ++ (p, remainder id side price qty) ∷ []) inside c u);
}

-- The same of `AddLimit`, against the sweep of the other side.
pub Added-IsCalm :
    (A : Orders) (f : ℕ → Option ℕ) (band : Band) (id : ℕ) (side : Side) (price : ℤ) (qty : ℕ)
    (ok : Bool) (fills : List Fill) (b' : Book) (seen : List ℕ)
    → IsSeen seen f
    → Uncrossed (width band) A
    → Added f band id side price
        (sweep id side price band (best_first (opposite side) (width band)) A qty)
        (ok, fills, b')
    → IsCalm (id ∷ seen) b'
Added-IsCalm A f band id side price qty ok fills b' seen s u a =
    let all = best_first (opposite side) (width band) in
    let r = sweep id side price band all A qty in
    let m = a.matched in
    let still : IsSeen seen a.map = λ j h. a.no_new_id j (s j h) in
    let u₁ : Uncrossed (width m.band) r.orders =
      subst (λ band. Uncrossed (width band) r.orders) (sym a.band_kept)
        (Shrinks-Uncrossed (width band) A r.orders (sweep-Shrinks id side price band all A qty)
          u) in
    let filled = (ok ≡ true) × (b' ≡ m) in
    let rested =
      RestOutcome m r.orders a.map (remainder id side price r.remaining) a.free (ok, b') in
    let unchanged : b' ≡ m → IsCalm (id ∷ seen) b' = λ (e : b' ≡ m). record {
      orders = r.orders;
      map = a.map;
      free = a.free;
      book = subst (λ b. IsBook b r.orders a.map a.free) (sym e) a.book;
      known = λ j h. still j (ground arith);
      uncrossed = subst (λ b. Uncrossed (width b.band) r.orders) (sym e) u₁;
    } in
    elim (Bool-cases (r.remaining == 0)) [
      | inl e ↦ unchanged (subst (λ t. if t then filled else rested) e a.outcome).1
      | inr e ↦
          let left : 0 < r.remaining = ground arith in
          let out : RestOutcome m r.orders a.map (remainder id side price r.remaining) a.free
              (ok, b') =
            subst (λ t. if t then filled else rested) e a.outcome in
          let c : Cleared m.band side price r.orders =
            subst (λ band. Cleared band side price r.orders) (sym a.band_kept)
              (λ j hj near.
                sweep-clears id side price band all A qty j
                  (In-best_first (opposite side) j (width band) hj) near left) in
          let into =
            Rested m r.orders a.map (remainder id side price r.remaining) (idx m.band price) a.free
              (ok, b') in
          let refused = ◌≡◌ {A = Bool × Book} (ok, b') (false, m) in
          elim (Bool-cases (in_band m.band price)) [
            | inl inside ↦
                Rested-IsCalm m r.orders a.map side price id r.remaining a.free seen ok b' a.book
                  still inside c u₁ (subst (λ t. if t then into else refused) inside out)
            | inr outside ↦
                let same : ◌≡◌ {A = Bool × Book} (ok, b') (false, m) =
                  subst (λ t. if t then into else refused) outside out in
                unchanged (ap (λ (o : Bool × Book). o.1) same)
          ]
    ]

pub Cancelled-IsCalm :
    (b : Book) (seen : List ℕ) (k : IsCalm seen b) (id : ℕ) (p : Option ℕ) (told : Option Resting)
    (b' : Book)
    → Cancelled b k.orders k.map k.free id p (told, b')
    → IsCalm seen b'
Cancelled-IsCalm b seen k id none told b' (_, e) = subst (IsCalm seen) (sym e) k
Cancelled-IsCalm b seen k id (some p) told b' (i, r, ys, zs, _, at, _, _, _, k', same) = record {
  orders = _;
  map = forget k.map id;
  free = p ∷ k.free;
  book = k';
  known = λ j h. ground (arith, k.known j h);
  uncrossed =
      subst (λ band. Uncrossed (width band) (change k.orders r.side i (ys ++ zs))) (sym same)
        (Shrinks-Uncrossed (width b.band) k.orders (change k.orders r.side i (ys ++ zs))
          (Shrinks-change k.orders r.side i (ys ++ zs)
            (λ e. absurd (cc (e, ap is_nil at, is_nil-append ys (p, r) zs))))
          k.uncrossed);
}
