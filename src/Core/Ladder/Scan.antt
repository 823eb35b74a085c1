-- ===== src/Core/Ladder/Scan.antt =====
-- The scan of `MarkLevelEmptied` finds the next best populated level.
use optimal_execution_platfo.Common.{
  ℕ, zero, suc, ◌+◌, ◌-◌, ◌<◌, ◌≤◌, ◌≡◌, ◌≢◌, refl, ◌∙◌, ap, inl, inr, Bool, true, false, not, none,
  some, arith, Returns, Option-cases,
}
use optimal_execution_platfo.Common.Int.{ℤ}
use optimal_execution_platfo.Core.Order.{Side, buy, sell}
use optimal_execution_platfo.Core.Level.{LevelFifo, is_empty}
use optimal_execution_platfo.Core.Ladder.{Band, Ladder, width, level_at, worse, scan}
use optimal_execution_platfo.Core.Ladder.Price.{
  price_at, idx-price_at, in_band-price_at, worse_buy, worse_sell,
}

abbrev pub populated : Ladder → ℕ → Bool
populated l i = not (is_empty (l.levels i))

-- Level `i` is no worse than level `j`, or better.
abbrev pub NoWorse : Side → ℕ → ℕ → Type 0
NoWorse buy i j = j ≤ i
NoWorse sell i j = i ≤ j

abbrev pub Better : Side → ℕ → ℕ → Type 0
Better buy i j = j < i
Better sell i j = i < j

-- The next level in the direction of the scan, and how many rounds lead to level `v`.
abbrev after : Side → ℕ → ℕ
after buy i = i - 1
after sell i = i + 1

abbrev way : Side → ℕ → ℕ → ℕ
way buy i v = i - v
way sell i v = v - i

worse-price_at :
    (band : Band) (side : Side) (i v : ℕ)
    → Better side i v
    → worse side (price_at band i) ≡ price_at band (after side i)
worse-price_at band buy zero v h = absurd (omega arith)
worse-price_at band buy (suc i) v h = worse_buy band i ∙ ap (price_at band) (omega arith)
worse-price_at band sell i v h = worse_sell band i ∙ ap (price_at band) (omega arith)

after-lt : (n : ℕ) (side : Side) (i v : ℕ) → i < n → v < n → Better side i v → after side i < n
after-lt n buy i v hi hv h = omega arith
after-lt n sell i v hi hv h = omega arith

after-Better : (side : Side) (i v : ℕ) → Better side i v → Better side i (after side i)
after-Better buy i v h = omega arith
after-Better sell i v h = omega arith

nearer :
    (side : Side) (i v : ℕ)
    → Better side i v
    → after side i ≢ v
    → Better side (after side i) v × (way side (after side i) v < way side i v)
nearer buy i v h ne = omega arith
nearer sell i v h ne = omega arith

Better-trans : (side : Side) (i j k : ℕ) → Better side i j → Better side j k → Better side i k
Better-trans buy i j k g h = omega arith
Better-trans sell i j k g h = omega arith

after-NoWorse : (side : Side) (i v : ℕ) → Better side i v → NoWorse side (after side i) v
after-NoWorse buy i v h = omega arith
after-NoWorse sell i v h = omega arith

pub NoWorse-cases : (side : Side) (i j : ℕ) → NoWorse side i j → i ≢ j → Better side i j
NoWorse-cases buy i j h ne = omega arith
NoWorse-cases sell i j h ne = omega arith

pub NoWorse-self : (side : Side) (i : ℕ) → NoWorse side i i
NoWorse-self buy i = omega arith
NoWorse-self sell i = omega arith

pub NoWorse-trans :
    (side : Side) (i j k : ℕ) → NoWorse side i j → NoWorse side j k → NoWorse side i k
NoWorse-trans buy i j k g h = omega arith
NoWorse-trans sell i j k g h = omega arith

way-pos : (side : Side) (i v : ℕ) → Better side i v → 0 < way side i v
way-pos buy i v h = omega arith
way-pos sell i v h = omega arith

pub way_le : (n : ℕ) (side : Side) (i v : ℕ) → i < n → v < n → way side i v ≤ n
way_le n buy i v hi hv = omega arith
way_le n sell i v hi hv = omega arith

module _ (band : Band) (side : Side) (l : Ladder) where
  pub level_at-price_at :
      (i : ℕ) → i < width band → level_at band l (price_at band i) ≡ some (l.levels i)
  unfolding level_at
  level_at-price_at i h = rw (in_band-price_at band i h, idx-price_at band i)

  scan-past :
      (fuel : ℕ) (p q : ℤ) (lvl : LevelFifo)
      → worse side p ≡ q
      → level_at band l q ≡ some lvl
      → lvl.head ≡ none
      → scan (suc fuel) band side l p ≡ scan fuel band side l q
  unfolding scan
  scan-past fuel p q lvl step read e = rw (step, read, e) (ap (scan fuel band side l) step)

  scan-stop :
      (fuel : ℕ) (p q : ℤ) (lvl : LevelFifo) (o : ℕ)
      → worse side p ≡ q
      → level_at band l q ≡ some lvl
      → lvl.head ≡ some o
      → scan (suc fuel) band side l p ≡ some q
  unfolding scan
  scan-stop fuel p q lvl o step read e = rw (step, read, e) (ap some step)

  -- The scan stops at the first populated level on its way.
  pub scan-first :
      (fuel i v : ℕ)
      → i < width band
      → v < width band
      → Better side i v
      → populated l v ≡ true
      → way side i v ≤ fuel
      → Returns (scan fuel band side l (price_at band i)) λ p.
        (k : ℕ) × (k < width band)
        × (p ≡ price_at band k)
        × (populated l k ≡ true)
        × ((j : ℕ) → j < width band → populated l j ≡ true → Better side i j → NoWorse side k j)
  unfolding scan
  scan-first zero i v hi hv b a h = absurd (omega (arith, way-pos side i v b))
  scan-first (suc fuel) i v hi hv b a h =
      let k = after side i in
      let hk = after-lt (width band) side i v hi hv b in
      let step = worse-price_at band side i v b in
      let read = level_at-price_at k hk in
      elim (Option-cases (l.levels k).head) [
        | inr (o, e) ↦
            let full : populated l k ≡ true = rw e refl in
            (
              price_at band k,
              scan-stop fuel (price_at band i) (price_at band k) (l.levels k) o step read e,
              (k, hk, refl, full, λ j hj c d. after-NoWorse side i j d),
            )
        | inl e ↦
            let gap : populated l k ≡ false = rw e refl in
            let apart = λ (j : ℕ) (c : populated l j ≡ true) (q : k ≡ j).
              absurd (cc (c, gap, ap (populated l) q)) in
            let near = nearer side i v b (apart v a) in
            let (p, run, (m, hm, at, full, first)) =
              scan-first fuel k v hk hv near.0 a (omega (arith, near.1)) in
            (
              p,
              scan-past fuel (price_at band i) (price_at band k) (l.levels k) step read e ∙ run,
              (m, hm, at, full, λ j hj c d. first j hj c (nearer side i j d (apart j c)).0),
            )
      ]
