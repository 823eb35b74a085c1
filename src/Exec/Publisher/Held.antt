-- ===== src/Exec/Publisher/Held.antt =====
-- The ids that a client holds, next to those that rest in the book.
use optimal_execution_platfo.Common.{
  ◌≤◌, ◌^◌, ℕ, suc, ◌-◌, ◌<◌, ◌≤◌, ◌≡◌, ◌≢◌, ◌⊎◌, sym, ap, ◌∙◌, inl, inr, arith, Option, none, some,
  Bool, true, false, ◌==◌, if◌then◌else◌, List, [], ◌∷◌, Bool-cases, ℕ_discrete, update,
  update_self, update_ne, subst,
}
use optimal_execution_platfo.Common.Int.{pos, ℤ}
use optimal_execution_platfo.Core.Order.{Side, Fill, Resting}
use optimal_execution_platfo.Core.Ladder.{width, Band, in_band, idx}
use optimal_execution_platfo.Core.Book.{Book}
use optimal_execution_platfo.Core.Book.Stock.{Orders}
use optimal_execution_platfo.Core.Book.Invariant.{IsBook}
use optimal_execution_platfo.Core.Book.Rest.{Rested, RestOutcome}
use optimal_execution_platfo.Core.Book.Sweep.{Swept}
use optimal_execution_platfo.Core.Book.AddLimit.{Added, remainder}

-- The id is not among the first `n` of the vector.
abbrev pub Absent : (ℕ → ℕ) → ℕ → ℕ → Type 0
Absent a n id = (i : ℕ) → i < n → a i ≢ id

-- A band of at most 2^14 prices from 0 on, as the default one.
abbrev pub IsSmall : Band → Type 0
IsSmall band = (band.min_price ≡ pos 0) × (width band ≤ 2 ^ 14)

-- The book satisfies its invariant; its orders are among the `n` ids of the vector `a`, and all of them
-- have ids below `next`.
pub record Tracks (a : ℕ → ℕ) (n next : ℕ) (b : Book) : Type 0 where
  pub orders : Orders
  pub map : ℕ → Option ℕ
  pub free : List ℕ
  pub book : IsBook b orders map free
  pub small : IsSmall b.band
  pub tracked : (id : ℕ) → Absent a n id → map id ≡ none
  pub fresh : (id : ℕ) → next ≤ id → map id ≡ none

-- The orders after `AddLimit`: at most the new id came, and only if its call succeeded with a rest.
pub record Grown (f : ℕ → Option ℕ) (id remaining : ℕ) (ok : Bool) (b : Book) : Type 0 where
  pub orders : Orders
  pub map : ℕ → Option ℕ
  pub free : List ℕ
  pub book : IsBook b orders map free
  pub small : IsSmall b.band
  pub others : (j : ℕ) → j ≢ id → f j ≡ none → map j ≡ none
  pub came : (map id ≡ none) ⊎ ((ok ≡ true) × (0 < remaining))

Rested-Grown :
    (b : Book) (A : Orders) (f g : ℕ → Option ℕ) (r : Resting) (i : ℕ) (free : List ℕ) (ok : Bool)
    (b' : Book)
    → IsBook b A g free
    → ((j : ℕ) → f j ≡ none → g j ≡ none)
    → f r.id ≡ none
    → 0 < r.qty
    → IsSmall b.band
    → Rested b A g r i free (ok, b')
    → Grown f r.id r.qty ok b'
Rested-Grown b A f g r i [] ok b' k none_new fresh some_ small (no_room, e) = record {
  small = subst (λ b. IsSmall b.band) (sym e) small;
  orders = A;
  map = g;
  free = [];
  book = subst (λ b. IsBook b A g []) (sym e) k;
  others = λ j ne h. none_new j h;
  came = inl (none_new r.id fresh);
}
Rested-Grown b A f g r i (p ∷ free) ok b' k none_new fresh some_ small (rests, k', same) = record {
  small = subst IsSmall (sym same) small;
  orders = _;
  map = update g r.id (some p);
  free = free;
  book = k';
  others = λ j ne h. update_ne g r.id j (some p) (λ e. ne (sym e)) ∙ none_new j h;
  came = inr (rests, some_);
}

pub Added-Grown :
    (f : ℕ → Option ℕ) (band : Band) (id : ℕ) (side : Side) (price : ℤ) (r : Swept) (ok : Bool)
    (fills : List Fill) (b' : Book)
    → f id ≡ none
    → IsSmall band
    → Added f band id side price r (ok, fills, b')
    → Grown f id r.remaining ok b'
Added-Grown f band id side price r ok fills b' fresh small a =
    let kept : IsSmall a.matched.band = subst IsSmall (sym a.band_kept) small in
    let o = remainder id side price r.remaining in
    let filled = (ok ≡ true) × (b' ≡ a.matched) in
    let rested = RestOutcome a.matched r.orders a.map o a.free (ok, b') in
    elim (Bool-cases (r.remaining == 0)) [
      | inl e ↦
          let out : (ok ≡ true) × (b' ≡ a.matched) =
            subst (λ t. if t then filled else rested) e a.outcome in
          record {
            orders = r.orders;
            map = a.map;
            free = a.free;
            book = subst (λ b. IsBook b r.orders a.map a.free) (sym out.1) a.book;
            small = subst (λ b. IsSmall b.band) (sym out.1) kept;
            others = λ j ne h. a.no_new_id j h;
            came = inl (a.no_new_id id fresh);
          }
      | inr e ↦
          let some_ : 0 < r.remaining = ground arith in
          let out : RestOutcome a.matched r.orders a.map o a.free (ok, b') =
            subst (λ t. if t then filled else rested) e a.outcome in
          let into = Rested a.matched r.orders a.map o (idx a.matched.band price) a.free (ok, b') in
          let refused = ◌≡◌ {A = Bool × Book} (ok, b') (false, a.matched) in
          elim (Bool-cases (in_band a.matched.band price)) [
            | inl c ↦
                Rested-Grown a.matched r.orders f a.map o (idx a.matched.band price) a.free ok b'
                  a.book a.no_new_id fresh some_ kept
                  (subst (λ t. if t then into else refused) c out)
            | inr c ↦
                let same : ◌≡◌ {A = Bool × Book} (ok, b') (false, a.matched) =
                  subst (λ t. if t then into else refused) c out in
                record {
                  orders = r.orders;
                  map = a.map;
                  free = a.free;
                  book =
                      subst (λ b. IsBook b r.orders a.map a.free)
                        (sym (ap (λ (o : Bool × Book). o.1) same)) a.book;
                  small =
                      subst (λ b. IsSmall b.band) (sym (ap (λ (o : Bool × Book). o.1) same)) kept;
                  others = λ j ne h. a.no_new_id j h;
                  came = inl (a.no_new_id id fresh);
                }
          ]
    ]

-- What the vector forgets when its last id is taken.
pub Absent-back : (a : ℕ → ℕ) (n j : ℕ) → 0 < n → j ≢ a (n - 1) → Absent a (n - 1) j → Absent a n j
Absent-back a n j full ne h i hi e = elim (ℕ_discrete i (n - 1)) [
  | yes same ↦ ne (sym e ∙ ap a same)
  | no other ↦ h i (omega arith) e
]

Absent-push : (a : ℕ → ℕ) (n v id : ℕ) → Absent (update a n v) (suc n) id → Absent a n id × (id ≢ v)
Absent-push a n v id h = (
  λ i hi e. h i (omega arith) (update_ne a n i v (omega arith) ∙ e),
  λ e. h n (omega arith) (update_self a n v ∙ sym e),
)

module _ (a : ℕ → ℕ) (n next : ℕ) {b b' : Book} (t : Tracks a n next b) {remaining : ℕ} {ok : Bool}
    (g : Grown t.map next remaining ok b') where
  -- The client may note the new id in any case.
  pub Grown-push : Tracks (update a n next) (suc n) (suc next) b'
  Grown-push = record {
    orders = g.orders;
    map = g.map;
    free = g.free;
    book = g.book;
    small = g.small;
    tracked =
        λ id h. let (old, ne) = Absent-push a n next id h in g.others id ne (t.tracked id old);
    fresh = λ id h. g.others id (omega arith) (t.fresh id (omega arith));
  }

  -- It need not, unless the order rests.
  pub Grown-keep : (Tracks a n (suc next) b') ⊎ ((ok ≡ true) × (0 < remaining))
  Grown-keep = elim g.came [
    | inr rests ↦ inr rests
    | inl e ↦ inl record {
      orders = g.orders;
      map = g.map;
      free = g.free;
      book = g.book;
      small = g.small;
      tracked = λ id h. elim (ℕ_discrete id next) [
        | yes same ↦ ap g.map same ∙ e
        | no ne ↦ g.others id ne (t.tracked id h)
      ];
      fresh = λ id h. g.others id (omega arith) (t.fresh id (omega arith));
    }
  ]
