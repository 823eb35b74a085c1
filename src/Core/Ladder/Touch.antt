-- ===== src/Core/Ladder/Touch.antt =====
-- The incremental best price of a ladder is that of a scan of all its levels.
use optimal_execution_platfo.Common.{
  ℕ, ◌<◌, ◌≡◌, ◌≢◌, refl, sym, ◌∙◌, ap, inl, inr, ◌⊎◌, true, false, not, ◌||◌, if◌then◌else◌, ltb,
  ◌==◌, arith, update, update_self, update_ne, u64_mod, sub64, Returns, Bool-cases, subst,
  ℕ_discrete,
}
use optimal_execution_platfo.Common.Int.{ℤ, eqb_ℤ}
use optimal_execution_platfo.Common.Tally.{
  tally, tally_same, tally_rise, tally-le, tally_found, tally_pos,
}
use optimal_execution_platfo.Core.Order.{Side, buy, sell}
use optimal_execution_platfo.Core.Level.{LevelFifo, is_empty}
use optimal_execution_platfo.Core.Ladder.{
  Band, Ladder, width, put_level, improves, mark_level_live, mark_level_emptied,
}
use optimal_execution_platfo.Core.Ladder.Price.{price_at, idx-price_at, ltb-price_at, eqb-price_at}
use optimal_execution_platfo.Core.Ladder.Scan.{
  populated, NoWorse, NoWorse-cases, NoWorse-self, NoWorse-trans, way_le, scan-first,
}

-- The best level is populated, and no populated level is better.
abbrev pub IsBest : Band → Side → Ladder → ℕ → Type 0
IsBest band side l i =
    (i < width band)
    × (l.best_px ≡ price_at band i)
    × (populated l i ≡ true)
    × ((j : ℕ) → j < width band → populated l j ≡ true → NoWorse side i j)

-- The counter counts the populated levels, and while there is one the best price is the best of them.
pub record IsTouch (band : Band) (side : Side) (l : Ladder) : Type 0 where
  pub count : l.live ≡ tally (populated l) (width band)
  pub best : 0 < l.live → (i : ℕ) × IsBest band side l i

improves-cases :
    (band : Band) (side : Side) (i j : ℕ)
    → ((improves side (price_at band i) (price_at band j) ≡ true) × NoWorse side i j)
      ⊎ ((improves side (price_at band i) (price_at band j) ≡ false) × NoWorse side j i)
unfolding improves
improves-cases band buy i j = elim (Bool-cases (ltb j i)) [
  | inl e ↦ inl (ltb-price_at band j i ∙ e, ground arith)
  | inr e ↦ inr (ltb-price_at band j i ∙ e, ground arith)
]
improves-cases band sell i j = elim (Bool-cases (ltb i j)) [
  | inl e ↦ inl (ltb-price_at band i j ∙ e, ground arith)
  | inr e ↦ inr (ltb-price_at band i j ∙ e, ground arith)
]

module _ (side : Side) (px : ℤ) (live : ℕ) (best best' : ℤ) where
  best_true :
      best ≡ best'
      → improves side px best' ≡ true
      → (if (live == 0) || improves side px best then px else best) ≡ px
  best_true at test = rw (at, test) (ground arith)

  best_false :
      live ≢ 0
      → best ≡ best'
      → improves side px best' ≡ false
      → (if (live == 0) || improves side px best then px else best) ≡ best'
  best_false ne at test = rw (at, test) (ground arith)

-- The ladder after a write to level `i`.
abbrev pub with_level : Ladder → ℕ → LevelFifo → Ladder
with_level l i lvl = record l { levels = update l.levels i lvl }

pub put_level-price_at :
    (band : Band) (l : Ladder) (i : ℕ) (lvl : LevelFifo)
    → put_level band l (price_at band i) lvl ≡ with_level l i lvl
unfolding put_level
put_level-price_at band l i lvl = rw idx-price_at

module _ {band : Band} {side : Side} {l : Ladder} (i : ℕ) (lvl : LevelFifo) (hi : i < width band)
    (t : IsTouch band side l) where
  populated_ne : (j : ℕ) → i ≢ j → populated l j ≡ populated (with_level l i lvl) j
  populated_ne j ne = ap (λ x. not (is_empty x)) (sym (update_ne l.levels i j lvl ne))

  populated_self : populated (with_level l i lvl) i ≡ not (is_empty lvl)
  populated_self = ap (λ x. not (is_empty x)) (update_self l.levels i lvl)

  -- A write that leaves the level populated, or empty, needs no repair.
  pub keep-IsTouch : populated l i ≡ not (is_empty lvl) → IsTouch band side (with_level l i lvl)
  keep-IsTouch e =
      let same : (j : ℕ) → populated l j ≡ populated (with_level l i lvl) j = λ j.
        elim (ℕ_discrete i j) [
          | yes h ↦
              subst (λ k. populated l k ≡ populated (with_level l i lvl) k) h
                (e ∙ sym populated_self)
          | no ne ↦ populated_ne j ne
        ] in
      record {
        count =
            t.count
            ∙ tally_same (populated l) (populated (with_level l i lvl)) (width band)
                (λ j h. same j);
        best = λ h.
            let (k, (hk, at, full, first)) = t.best h in
            (k, (hk, at, sym (same k) ∙ full, λ j hj c. first j hj (same j ∙ c)));
      }

  -- `MarkLevelLive` after an order came to rest at an empty level.
  pub mark_level_live-IsTouch :
      width band < u64_mod
      → populated l i ≡ false
      → is_empty lvl ≡ false
      → IsTouch band side (mark_level_live side (price_at band i) (with_level l i lvl))
  unfolding mark_level_live
  mark_level_live-IsTouch small was now =
      let full = populated_self ∙ ap not now in
      let rise =
        tally_rise (populated l) (populated (with_level l i lvl)) i (width band) hi was full
          populated_ne in
      let word = tally-le (populated (with_level l i lvl)) (width band) in
      let others : (j : ℕ)
          → populated (with_level l i lvl) j ≡ true
          → i ≢ j
          → populated l j ≡ true =
        λ j c ne. populated_ne j ne ∙ c in
      record {
        count = omega (arith, t.count);
        best = λ _. elim (ℕ_discrete l.live 0) [
          | yes none_live ↦ (
            i,
            (
              hi,
              ground arith,
              full,
              λ j hj c. elim (ℕ_discrete i j) [
                | yes same ↦ subst (NoWorse side i) same (NoWorse-self side i)
                | no ne ↦ absurd (
                    omega
                      (arith, tally_pos (populated l) j (width band) hj (others j c ne), t.count))
              ],
            ),
          )
          | no some_live ↦
              let (k, (hk, at, was_full, first)) = t.best (omega arith) in
              let apart = λ (e : i ≡ k). absurd (cc (was, was_full, ap (populated l) e)) in
              elim (improves-cases band side i k) [
                | inl (test, le) ↦
                    let chosen =
                      best_true side (price_at band i) l.live l.best_px (price_at band k) at test in
                    (
                      i,
                      (
                        hi,
                        chosen,
                        full,
                        λ j hj c. elim (ℕ_discrete i j) [
                          | yes same ↦ subst (NoWorse side i) same (NoWorse-self side i)
                          | no ne ↦ NoWorse-trans side i k j le (first j hj (others j c ne))
                        ],
                      ),
                    )
                | inr (test, le) ↦
                    let chosen =
                      best_false side (price_at band i) l.live l.best_px (price_at band k) some_live
                        at test in
                    (
                      k,
                      (
                        hk,
                        chosen,
                        sym (populated_ne k apart) ∙ was_full,
                        λ j hj c. elim (ℕ_discrete i j) [
                          | yes same ↦ subst (NoWorse side k) same le
                          | no ne ↦ first j hj (others j c ne)
                        ],
                      ),
                    )
              ]
        ];
      }

  -- `MarkLevelEmptied` after the last order of a level left it.
  pub mark_level_emptied-IsTouch :
      width band < u64_mod
      → populated l i ≡ true
      → is_empty lvl ≡ true
      → Returns
          (mark_level_emptied band side (price_at band i) (with_level l i lvl))
          λ l'. IsTouch band side l' × (l'.levels ≡ update l.levels i lvl)
  unfolding mark_level_emptied
  mark_level_emptied-IsTouch small was now =
      let l₁ = with_level l i lvl in
      let gone = populated_self ∙ ap not now in
      let fall =
        tally_rise (populated l₁) (populated l) i (width band) hi gone was
          (λ j ne. sym (populated_ne j ne)) in
      let word = tally-le (populated l) (width band) in
      let left : sub64 l.live 1 ≡ tally (populated l₁) (width band) = omega (arith, t.count) in
      let live = sub64 l.live 1 in
      let (b, (hb, at, full, first)) = t.best (omega (arith, t.count)) in
      let others : (j : ℕ) → populated l₁ j ≡ true → (i ≢ j) × (populated l j ≡ true) = λ j c.
        let ne = λ (e : i ≡ j). absurd (cc (gone, c, ap (populated l₁) e)) in
        (ne, populated_ne j ne ∙ c) in
      elim (Bool-cases (ltb 0 live)) [
        | inr none_left ↦ (
          record l₁ { live = live },
          rw none_left,
          (record { count = left; best = λ h. absurd (ground arith) }, refl),
        )
        | inl some_left ↦ elim (ℕ_discrete i b) [
          | no apart ↦
              let test : eqb_ℤ (price_at band i) l.best_px ≡ false =
                rw (at, eqb-price_at) (ground arith) in
              (
                record l₁ { live = live },
                rw (some_left, test),
                (
                  record {
                    count = left;
                    best = λ _. (
                      b,
                      (
                        hb,
                        at,
                        sym (populated_ne b apart) ∙ full,
                        λ j hj c. first j hj (others j c).1,
                      ),
                    );
                  },
                  refl,
                ),
              )
          | yes same ↦
              let test : eqb_ℤ (price_at band i) l.best_px ≡ true =
                rw (at, same, eqb-price_at) (ground arith) in
              let (v, hv, vf) = tally_found (populated l₁) (width band) (ground arith) in
              let worse_than = λ (j : ℕ) (hj : j < width band) (c : populated l₁ j ≡ true).
                NoWorse-cases side i j
                  (subst (λ k. NoWorse side k j) (sym same) (first j hj (others j c).1))
                  (others j c).0 in
              let (p, run, (k, hk, found, kf, best)) =
                scan-first band side l₁ (width band) i v hi hv (worse_than v hv vf) vf
                  (way_le (width band) side i v hi hv) in
              (
                record l₁ { best_px = p; live = live },
                rw (some_left, test, run),
                (
                  record {
                    count = left;
                    best = λ _. (k, (hk, found, kf, λ j hj c. best j hj c (worse_than j hj c)));
                  },
                  refl,
                ),
              )
        ]
      ]
