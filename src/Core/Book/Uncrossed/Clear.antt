-- ===== src/Core/Book/Uncrossed/Clear.antt =====
-- A sweep that leaves a part of the taker clears every level that it may take from.
use optimal_execution_platfo.Common.{
  ℕ, zero, suc, ◌<◌, ◌≡◌, refl, sym, ap, ◌∙◌, inl, inr, ◌⊎◌, arith, true, false, ltb, List, [], ◌∷◌,
  ◌++◌, Bool-cases, ℕ_discrete, subst,
}
use optimal_execution_platfo.Common.Int.{ℤ, ltb_ℤ}
use optimal_execution_platfo.Core.Order.{Side, buy, sell}
use optimal_execution_platfo.Core.Level.Segment.{Queue}
use optimal_execution_platfo.Core.Ladder.{Band, in_band, idx}
use optimal_execution_platfo.Core.Ladder.Price.{price_at, price_at-idx, ltb-price_at}
use optimal_execution_platfo.Core.Book.{opposite, is_past}
use optimal_execution_platfo.Core.Book.Place.{change, change_self, change_other, place-cases}
use optimal_execution_platfo.Core.Book.Stock.{Orders}
use optimal_execution_platfo.Core.Book.Invariant.{is_nil}
use optimal_execution_platfo.Core.Book.Priority.{take_queue}
use optimal_execution_platfo.Core.Book.Sweep.{
  upto, downto, best_first, sweep, take_queue_filled, sweep-le,
}

-- Orders rest only where they did before.
abbrev pub Shrinks : (A B : Orders) → Type 0
Shrinks A B = (s : Side) (i : ℕ) → is_nil (A s i) ≡ true → is_nil (B s i) ≡ true

pub Shrinks-change :
    (A : Orders) (s : Side) (i : ℕ) (q : Queue)
    → (is_nil (A s i) ≡ true → is_nil q ≡ true)
    → Shrinks A (change A s i q)
Shrinks-change A s i q h s' i' e = elim (place-cases s i s' i') [
  | inr other ↦ ap is_nil (change_other A s i q s' i' other) ∙ e
  | inl (es, ei) ↦
      subst (λ t. is_nil (change A s i q t i') ≡ true) es
        (subst (λ j. is_nil (change A s i q s j) ≡ true) ei
          (ap is_nil (change_self A s i q)
            ∙ h (
                subst (λ j. is_nil (A s j) ≡ true) (sym ei)
                  (subst (λ t. is_nil (A t i') ≡ true) (sym es) e))))
]

take_queue_nil :
    (id : ℕ) (side : Side) (px : ℤ) (xs : Queue) (n : ℕ)
    → is_nil xs ≡ true
    → is_nil (take_queue id side px xs n).queue ≡ true
take_queue_nil id side px [] n h = refl
take_queue_nil id side px (x ∷ xs) n h = absurd (cc h)

abbrev pub In : ℕ → List ℕ → Type 0
In i [] = ⊥
In i (j ∷ js) = (i ≡ j) ⊎ In i js

In-append_left : (i : ℕ) (js ks : List ℕ) → In i js → In i (js ++ ks)
In-append_left i [] ks h = absurd h
In-append_left i (j ∷ js) ks (inl e) = inl e
In-append_left i (j ∷ js) ks (inr h) = inr (In-append_left i js ks h)

In-append_right : (i : ℕ) (js ks : List ℕ) → In i ks → In i (js ++ ks)
In-append_right i [] ks h = h
In-append_right i (j ∷ js) ks h = inr (In-append_right i js ks h)

In-upto : (i n : ℕ) → i < n → In i (upto n)
In-upto i zero h = absurd (omega arith)
In-upto i (suc n) h = elim (ℕ_discrete i n) [
  | yes e ↦ In-append_right i (upto n) (n ∷ []) (inl e)
  | no ne ↦ In-append_left i (upto n) (n ∷ []) (In-upto i n (omega arith))
]

In-downto : (i n : ℕ) → i < n → In i (downto n)
In-downto i zero h = absurd (omega arith)
In-downto i (suc n) h = elim (ℕ_discrete i n) [
  | yes e ↦ inl e
  | no ne ↦ inr (In-downto i n (omega arith))
]

pub In-best_first : (s : Side) (i n : ℕ) → i < n → In i (best_first s n)
In-best_first buy i n h = In-downto i n h
In-best_first sell i n h = In-upto i n h

module _ (id : ℕ) (side : Side) (price : ℤ) (band : Band) where
  pub sweep-Shrinks :
      (is : List ℕ) (A : Orders) (n : ℕ) → Shrinks A (sweep id side price band is A n).orders
  sweep-Shrinks [] A n s j e = e
  sweep-Shrinks (i ∷ is) A n s j e =
      let o = opposite side in
      let k = take_queue id side (price_at band i) (A o i) n in
      elim (Bool-cases (is_past side (price_at band i) price)) [
        | inl past ↦ rw past (sweep-Shrinks is A n s j e)
        | inr near ↦ rw near (
            sweep-Shrinks is (change A o i k.queue) k.remaining s j (
              Shrinks-change A o i k.queue (take_queue_nil id side (price_at band i) (A o i) n) s j
                e))
      ]

  pub sweep-clears :
      (is : List ℕ) (A : Orders) (n j : ℕ)
      → In j is
      → is_past side (price_at band j) price ≡ false
      → 0 < (sweep id side price band is A n).remaining
      → is_nil ((sweep id side price band is A n).orders (opposite side) j) ≡ true
  sweep-clears [] A n j h near left = absurd h
  sweep-clears (i ∷ is) A n j h near left =
      let o = opposite side in
      let k = take_queue id side (price_at band i) (A o i) n in
      let B = change A o i k.queue in
      elim (Bool-cases (is_past side (price_at band i) price)) [
        | inl past ↦ elim h [
          | inl same ↦ absurd (cc (past, near, ap (λ i. is_past side (price_at band i) price) same))
          | inr later ↦ rw past (sweep-clears is A n j later near (rw past at left))
        ]
        | inr near_i ↦
            let left' : 0 < (sweep id side price band is B k.remaining).remaining =
              rw near_i at left in
            elim h [
              | inr later ↦ rw near_i (sweep-clears is B k.remaining j later near left')
              | inl same ↦
                  let took : is_nil k.queue ≡ true = elim (Bool-cases (is_nil k.queue)) [
                    | inl e ↦ e
                    | inr e ↦ absurd (
                        omega (
                          arith,
                          take_queue_filled id side (price_at band i) (A o i) n e,
                          sweep-le id side price band is B k.remaining,
                        ))
                  ] in
                  let here : is_nil (B o j) ≡ true =
                    subst (λ j. is_nil (B o j) ≡ true) (sym same)
                      (ap is_nil (change_self A o i k.queue) ∙ took) in
                  rw near_i (sweep-Shrinks is B k.remaining o j here)
            ]
      ]

-- A level that is past the taker's price lies on its far side.
pub past-buy :
    (band : Band) (price : ℤ) (j : ℕ)
    → in_band band price ≡ true
    → is_past buy (price_at band j) price ≡ true
    → idx band price < j
unfolding is_past
past-buy band price j inside h =
    let e : ltb_ℤ (price_at band (idx band price)) (price_at band j) ≡ true =
      ap (λ p. ltb_ℤ p (price_at band j)) (price_at-idx band price inside) ∙ h in
    let f : ltb (idx band price) j ≡ true = sym (ltb-price_at band (idx band price) j) ∙ e in
    ground (arith, f)

pub past-sell :
    (band : Band) (price : ℤ) (j : ℕ)
    → in_band band price ≡ true
    → is_past sell (price_at band j) price ≡ true
    → j < idx band price
unfolding is_past
past-sell band price j inside h =
    let e : ltb_ℤ (price_at band j) (price_at band (idx band price)) ≡ true =
      ap (λ p. ltb_ℤ (price_at band j) p) (price_at-idx band price inside) ∙ h in
    let f : ltb j (idx band price) ≡ true = sym (ltb-price_at band j (idx band price)) ∙ e in
    ground (arith, f)
