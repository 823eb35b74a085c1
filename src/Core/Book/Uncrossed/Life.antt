-- ===== src/Core/Book/Uncrossed/Life.antt =====
-- The book is never crossed, over its whole life.
use optimal_execution_platfo.Common.{
  ℕ, ◌^◌, ◌<◌, ◌≡◌, refl, sym, inl, inr, ◌⊎◌, arith, none, false, List, [], ◌∷◌, Returns, subst,
}
use optimal_execution_platfo.Common.Int.{pos, ◌<ℤ◌, +ℤ_parts}
use optimal_execution_platfo.Core.Slab.FreeList.{countdown}
use optimal_execution_platfo.Core.Order.{buy, sell, Memory}
use optimal_execution_platfo.Core.Ladder.{Band, width}
use optimal_execution_platfo.Core.Ladder.Price.{price_at}
use optimal_execution_platfo.Core.Slab.{threaded}
use optimal_execution_platfo.Core.Book.{Book, blank_book, has_best, best_price}
use optimal_execution_platfo.Core.Book.Cancel.{cancel-IsBook}
use optimal_execution_platfo.Core.Book.AddLimit.{add_limit-Added}
use optimal_execution_platfo.Core.Book.Session.{
  blank_book-IsBook, new_book-blank_book, open_and_serve, open_and_serve-step, Request, add, drop,
  serve_all, serve_add, serve_drop, serve_all-step, IsOrderly,
}
use optimal_execution_platfo.Core.Book.Observe.{best_price-BestSeen}
use optimal_execution_platfo.Core.Book.Uncrossed.Calm.{IsCalm, Added-IsCalm, Cancelled-IsCalm}

serve_all-IsCalm :
    (rs : List Request) (seen : List ℕ) (b : Book)
    → IsCalm seen b
    → IsOrderly seen rs
    → Returns (serve_all b rs) λ b'. (seen' : List ℕ) × IsCalm seen' b'
serve_all-IsCalm [] seen b k ok = (b, refl, (seen, k))
serve_all-IsCalm (add id side price qty ∷ rs) seen b k (fresh, some_, word, ok) =
    let ((rests, fills, b'), run, a) =
      add_limit-Added k.book id side price qty (k.known id fresh) some_ word in
    let calm =
      Added-IsCalm k.orders k.map b.band id side price qty rests fills b' seen k.known k.uncrossed
        a in
    let (b'', run', k') = serve_all-IsCalm rs (id ∷ seen) b' calm ok in
    (
      b'',
      serve_all-step b b' b'' (add id side price qty) rs
          (serve_add b id side price qty (rests, fills, b') run) run',
      k',
    )
serve_all-IsCalm (drop id ∷ rs) seen b k ok =
    let ((told, b'), run, c) = cancel-IsBook k.book id in
    let calm = Cancelled-IsCalm b seen k id (k.map id) told b' c in
    let (b'', run', k') = serve_all-IsCalm rs seen b' calm ok in
    (b'', serve_all-step b b' b'' (drop id) rs (serve_drop b id (told, b') run) run', k')

-- Without bids or without asks, or with the best bid below the best ask.
abbrev pub NotCrossed : Book → Type 0
NotCrossed b =
    (has_best b buy ≡ false) ⊎ ((has_best b sell ≡ false) ⊎ (best_price b buy <ℤ best_price b sell))

price_at-lt : (band : Band) (i j : ℕ) → i < j → price_at band i <ℤ price_at band j
price_at-lt band i j h =
    omega (arith, +ℤ_parts band.min_price (pos i), +ℤ_parts band.min_price (pos j))

IsCalm-NotCrossed : (seen : List ℕ) (b : Book) → IsCalm seen b → NotCrossed b
IsCalm-NotCrossed seen b k = elim (best_price-BestSeen k.book buy) [
  | inl (no_bid, _, _) ↦ inl no_bid
  | inr (_, (i, hi, bid, bids, _)) ↦ elim (best_price-BestSeen k.book sell) [
    | inl (no_ask, _, _) ↦ inr (inl no_ask)
    | inr (_, (j, hj, ask, asks, _)) ↦ inr (
        inr (
          subst (λ p. p <ℤ best_price b sell) (sym bid)
            (subst (λ p. price_at b.band i <ℤ p) (sym ask)
              (price_at-lt b.band i j (k.uncrossed i j hi hj bids asks)))))
  ]
]

-- From the constructor on, after every sequence of `AddLimit` and `Cancel` calls in which each order has a
-- quantity from 1 to 2^64 - 1 and an id that no earlier order had, the calls have ended normally and the
-- book is not crossed: there are no bids, or no asks, or the best bid is below the best ask. This holds
-- for a slab of less than 2^58 slots, so that its size in bytes does not wrap, and a band of at least one
-- price and less than 2^63, so that their number is a signed 64-bit one.
pub session-NotCrossed :
    (raw : Memory) (order_capacity : ℕ) (band : Band) (rs : List Request)
    → order_capacity < 2 ^ 58
    → 0 < width band
    → width band < 2 ^ 63
    → IsOrderly [] rs
    → Returns (open_and_serve raw order_capacity band rs) NotCrossed
session-NotCrossed raw order_capacity band rs h some_ narrow ok =
    let b₀ = blank_book (threaded raw order_capacity) order_capacity band in
    let opened = new_book-blank_book raw order_capacity band h some_ narrow in
    let start : IsCalm [] b₀ = record {
      orders = λ side i. [];
      map = λ id. none;
      free = countdown order_capacity;
      book = blank_book-IsBook raw order_capacity band (omega arith) (omega arith);
      known = λ id e. refl;
      uncrossed = λ i j hi hj bid ask. absurd (cc bid);
    } in
    let (b, run, (seen, k)) = serve_all-IsCalm rs [] b₀ start ok in
    (b, open_and_serve-step raw order_capacity band rs b₀ b opened run, IsCalm-NotCrossed seen b k)
