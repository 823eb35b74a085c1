-- ===== src/Core/Ladder/Price.antt =====
-- Prices of the band by their index.
use optimal_execution_platfo.Common.{ℕ, suc, ◌<◌, ◌≡◌, true, ltb, ◌==◌, arith}
use optimal_execution_platfo.Common.Int.{
  ℤ, pos, ◌+ℤ◌, ◌-ℤ◌, ltb_ℤ, eqb_ℤ, +ℤ_parts, -ℤ_parts, eq_of_parts, one_part,
}
use optimal_execution_platfo.Core.Order.{buy, sell}
use optimal_execution_platfo.Core.Ladder.{Band, width, in_band, idx, worse}

abbrev pub price_at : Band → ℕ → ℤ
price_at band i = band.min_price +ℤ pos i

module _ (band : Band) where
  pub idx-price_at : (i : ℕ) → idx band (price_at band i) ≡ i
  unfolding idx
  idx-price_at i = omega (
    arith,
    +ℤ_parts band.min_price (pos i),
    -ℤ_parts (price_at band i) band.min_price,
    one_part (price_at band i -ℤ band.min_price),
    one_part (price_at band i),
    one_part band.min_price,
  )

  pub in_band-price_at : (i : ℕ) → i < width band → in_band band (price_at band i) ≡ true
  unfolding in_band width
  in_band-price_at i h = ground (
    arith,
    +ℤ_parts band.min_price (pos i),
    -ℤ_parts band.max_price band.min_price,
    +ℤ_parts (band.max_price -ℤ band.min_price) (pos 1),
    one_part (band.max_price -ℤ band.min_price +ℤ pos 1),
  )

  -- A price in the band stands at its index.
  pub price_at-idx : (px : ℤ) → in_band band px ≡ true → price_at band (idx band px) ≡ px
  unfolding in_band idx
  price_at-idx px h = eq_of_parts (price_at band (idx band px)) px (
      ground (
        arith,
        +ℤ_parts band.min_price (pos (idx band px)),
        -ℤ_parts px band.min_price,
        one_part (px -ℤ band.min_price),
      ))

  pub idx-lt : (px : ℤ) → in_band band px ≡ true → idx band px < width band
  unfolding in_band idx width
  idx-lt px h = ground (
    arith,
    -ℤ_parts px band.min_price,
    one_part (px -ℤ band.min_price),
    -ℤ_parts band.max_price band.min_price,
    +ℤ_parts (band.max_price -ℤ band.min_price) (pos 1),
    one_part (band.max_price -ℤ band.min_price +ℤ pos 1),
  )

  pub worse_buy : (i : ℕ) → worse buy (price_at band (suc i)) ≡ price_at band i
  unfolding worse
  worse_buy i = eq_of_parts _ _ (
      omega (
        arith,
        +ℤ_parts band.min_price (pos i),
        +ℤ_parts band.min_price (pos (suc i)),
        -ℤ_parts (price_at band (suc i)) (pos 1),
      ))

  pub worse_sell : (i : ℕ) → worse sell (price_at band i) ≡ price_at band (suc i)
  unfolding worse
  worse_sell i = eq_of_parts _ _ (
      omega (
        arith,
        +ℤ_parts band.min_price (pos i),
        +ℤ_parts band.min_price (pos (suc i)),
        +ℤ_parts (price_at band i) (pos 1),
      ))

  pub ltb-price_at : (i j : ℕ) → ltb_ℤ (price_at band i) (price_at band j) ≡ ltb i j
  ltb-price_at i j =
      ground (arith, +ℤ_parts band.min_price (pos i), +ℤ_parts band.min_price (pos j))

  pub eqb-price_at : (i j : ℕ) → eqb_ℤ (price_at band i) (price_at band j) ≡ (i == j)
  eqb-price_at i j =
      ground (arith, +ℤ_parts band.min_price (pos i), +ℤ_parts band.min_price (pos j))
