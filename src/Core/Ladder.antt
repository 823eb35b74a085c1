-- ===== src/Core/Ladder.antt =====
-- cpp/core/order_book.hpp: the direct-indexed price ladder of one side, with its incremental best
-- price. `best_px` means something only while `live` is not 0.
pub mod Price
pub mod Scan
pub mod Touch
use optimal_execution_platfo.Common.{
  ℕ, zero, suc, ◌+◌, Option, none, some, Bool, true, false, ◌&&◌, ◌||◌, ltb, ◌==◌, if◌then◌else◌,
  ◌>>=◌, update, add64, sub64,
}
use optimal_execution_platfo.Common.Int.{ℤ, pos, pos_part, ◌+ℤ◌, ◌-ℤ◌, ltb_ℤ, leb_ℤ, eqb_ℤ}
use optimal_execution_platfo.Core.Order.{Side, buy, sell}
use optimal_execution_platfo.Core.Level.{LevelFifo, is_empty}

-- `min_price_` and `max_price_`
pub record Band : Type 0 where
  pub min_price : ℤ
  pub max_price : ℤ

-- `max_price - min_price + 1`, the size of both vectors. The constructor's `price_count` lets no band
-- pass for which this is not a signed 64-bit number, so the differences here do not overflow.
unfoldable pub width : Band → ℕ
width band = pos_part (band.max_price -ℤ band.min_price +ℤ pos 1)

-- `InBand`
unfoldable pub in_band : Band → ℤ → Bool
in_band band px = leb_ℤ band.min_price px && leb_ℤ px band.max_price

-- `Idx` of a price in the band, whose difference from `min_price_` is less than `width`
unfoldable pub idx : Band → ℤ → ℕ
idx band px = pos_part (px -ℤ band.min_price)

-- `bid_levels_`, `best_bid_px_` and `live_bid_levels_`, or those of the asks
pub record Ladder : Type 0 where
  pub levels : ℕ → LevelFifo
  pub best_px : ℤ
  pub live : ℕ

-- `LevelAt`: an index out of the vector is a fault.
unfoldable pub level_at : Band → Ladder → ℤ → Option LevelFifo
level_at band l px = if in_band band px then some (l.levels (idx band px)) else none

-- What the code does through the reference that `LevelAt` returned.
unfoldable pub put_level : Band → Ladder → ℤ → LevelFifo → Ladder
put_level band l px lvl = record l { levels = update l.levels (idx band px) lvl }

-- `px > best_bid_px_`, `px < best_ask_px_`
unfoldable pub improves : Side → ℤ → ℤ → Bool
improves buy px best = ltb_ℤ best px
improves sell px best = ltb_ℤ px best

-- `--p` on the bids, `++p` on the asks
unfoldable pub worse : Side → ℤ → ℤ
worse buy p = p -ℤ pos 1
worse sell p = p +ℤ pos 1

-- `MarkLevelLive`
unfoldable pub mark_level_live : Side → ℤ → Ladder → Ladder
mark_level_live side px l = record l {
  best_px = if (l.live == 0) || improves side px l.best_px then px else l.best_px;
  live = add64 l.live 1;
}

-- The do-while loop of `MarkLevelEmptied`, for at most `fuel` rounds.
unfoldable pub scan : ℕ → Band → Side → Ladder → ℤ → Option ℤ
scan zero band side l p = none
scan (suc fuel) band side l p = do
  lvl ← level_at band l (worse side p)
  elim lvl.head [ none ↦ scan fuel band side l (worse side p) | some o ↦ some (worse side p) ]

-- `MarkLevelEmptied`; the band has no more than `width` prices to scan.
unfoldable pub mark_level_emptied : Band → Side → ℤ → Ladder → Option Ladder
mark_level_emptied band side px l =
    let live = sub64 l.live 1 in
    if ltb 0 live && eqb_ℤ px l.best_px
    then (do p ← scan (width band) band side l px; some (record l { best_px = p; live = live }))
    else some (record l { live = live })
