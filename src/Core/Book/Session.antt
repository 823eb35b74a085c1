-- ===== src/Core/Book/Session.antt =====
-- A book over its whole life: the constructor, then any sequence of calls.
use optimal_execution_platfo.Common.{
  ℕ, zero, suc, ◌<◌, ◌≤◌, ◌≡◌, refl, sym, ap, ◌∙◌, Option, none, some, Bool, true, false, ◌==◌,
  if◌then◌else◌, ◌>>=◌, u64_mod, ◌^◌, List, [], ◌∷◌, arith, subst, update, Returns,
}
use optimal_execution_platfo.Common.Int.{
  ℤ, pos, ◌+ℤ◌, ◌-ℤ◌, leb_ℤ, fits_int64, +ℤ_parts, -ℤ_parts, one_part,
}
use optimal_execution_platfo.Common.Slots.{has}
use optimal_execution_platfo.Core.IdIndex.Erase.{forget}
use optimal_execution_platfo.Core.Order.{Side, Fill, Resting, Memory}
use optimal_execution_platfo.Core.Ladder.{Band, width, in_band, idx}
use optimal_execution_platfo.Core.Ladder.Scan.{populated}
use optimal_execution_platfo.Core.Book.{Book, cancel}
use optimal_execution_platfo.Core.Book.Stock.{Orders}
use optimal_execution_platfo.Common.Tally.{tally}
use optimal_execution_platfo.Core.Slab.{slot_size, threaded}
use optimal_execution_platfo.Core.Slab.Lifecycle.{new-threaded}
use optimal_execution_platfo.Core.Slab.FreeList.{countdown, new-IsFree}
use optimal_execution_platfo.Core.IdIndex.Churn.{new-Models}
use optimal_execution_platfo.Core.Book.{
  opposite, add_limit, order_bytes, blank_book, new_book, empty_ladder,
}
use optimal_execution_platfo.Core.Book.Invariant.{IsBook}
use optimal_execution_platfo.Core.Book.Sweep.{best_first, Swept, sweep}
use optimal_execution_platfo.Core.Book.Cancel.{Cancelled, cancel-IsBook}
use optimal_execution_platfo.Core.Book.Rest.{Rested, RestOutcome}
use optimal_execution_platfo.Core.Book.AddLimit.{Added, remainder, add_limit-Added}

no_level_live : (n : ℕ) → tally (populated empty_ladder) n ≡ 0
unfolding tally
no_level_live zero = refl
no_level_live (suc n) = omega (arith, no_level_live n)

-- An empty book satisfies the invariant.
pub blank_book-IsBook :
    (raw : Memory) (order_capacity : ℕ) (band : Band)
    → order_capacity ≤ 2 ^ 62
    → width band < u64_mod
    → IsBook
        (blank_book (threaded raw order_capacity) order_capacity band)
        (λ side i. [])
        (λ id. none)
        (countdown order_capacity)
unfolding threaded
blank_book-IsBook raw order_capacity band h narrow =
    let (m, twice, two) = new-Models order_capacity h in
    record {
      stock = record {
        free_slots = new-IsFree raw order_capacity;
        queues = λ side i hi. record {
          linked = (refl, refl);
          apart = tt;
          words = tt;
          quantity = refl;
          count = refl;
        };
        entries = λ side i hi. tt;
        named = λ id p e. absurd (cc e);
        index = m;
        room = omega arith;
      };
      touch = λ side. record {
        count = sym (no_level_live (width band));
        best = λ live. absurd (omega arith);
      };
      narrow = narrow;
    }

-- The constructor ends normally with at least one price in the band, if neither the bytes of the slab nor
-- the size of the band overflow.
pub new_book-blank_book :
    (raw : Memory) (order_capacity : ℕ) (band : Band)
    → order_capacity < 2 ^ 58
    → 0 < width band
    → width band < 2 ^ 63
    → new_book raw order_capacity band
      ≡ some (blank_book (threaded raw order_capacity) order_capacity band)
unfolding new_book width slot_size
new_book-blank_book raw order_capacity band h some_ narrow =
    let span = band.max_price -ℤ band.min_price in
    let size = +ℤ_parts span (pos 1) in
    let parts = -ℤ_parts band.max_price band.min_price in
    let one = one_part (span +ℤ pos 1) in
    let other = one_part span in
    let first : fits_int64 span ≡ true = ground (arith, size, one, other) in
    let second : fits_int64 (span +ℤ pos 1) ≡ true = ground (arith, size, one, other) in
    let rising : leb_ℤ band.min_price band.max_price ≡ true = ground (arith, size, one, parts) in
    rw (new-threaded order_bytes raw order_capacity (omega arith), first, second, rising) refl

-- The calls that change a book.
pub data Request : Type 0 where
  add : (id : ℕ) (side : Side) (price : ℤ) (qty : ℕ) → Request
  drop : (id : ℕ) → Request

abbrev pub serve : Book → Request → Option Book
serve b (add id side price qty) = do (ok, fills, b') ← add_limit b id side price qty; some b'
serve b (drop id) = do (told, b') ← cancel b id; some b'

abbrev pub serve_all : Book → List Request → Option Book
serve_all b [] = some b
serve_all b (r ∷ rs) = do b' ← serve b r; serve_all b' rs

-- A new book, and a sequence of calls.
abbrev pub open_and_serve : Memory → (order_capacity : ℕ) → Band → List Request → Option Book
open_and_serve raw order_capacity band rs = do b ← new_book raw order_capacity band; serve_all b rs

-- Each order has a quantity that is not 0 and fits its word, and an id that no earlier one had.
abbrev pub IsOrderly : List ℕ → List Request → Type 0
IsOrderly seen [] = Unit
IsOrderly seen (add id side price qty ∷ rs) =
    (has id seen ≡ false) × (0 < qty) × (qty < u64_mod) × IsOrderly (id ∷ seen) rs
IsOrderly seen (drop id ∷ rs) = IsOrderly seen rs

-- Only ids that were seen rest in the book.
abbrev pub IsSeen : List ℕ → (ℕ → Option ℕ) → Type 0
IsSeen seen f = (id : ℕ) → has id seen ≡ false → f id ≡ none

-- The book satisfies its invariant for some orders, all of them seen.
abbrev pub IsSound : List ℕ → Book → Type 0
IsSound seen b =
    (A : Orders) × (f : ℕ → Option ℕ) × (free : List ℕ) × IsBook b A f free × IsSeen seen f

Rested-IsSound :
    (b : Book) (A : Orders) (f : ℕ → Option ℕ) (r : Resting) (i : ℕ) (free : List ℕ) (seen : List ℕ)
    (ok : Bool) (b' : Book)
    → IsBook b A f free
    → IsSeen seen f
    → Rested b A f r i free (ok, b')
    → IsSound (r.id ∷ seen) b'
Rested-IsSound b A f r i [] seen ok b' k s (_, e) =
    (A, f, [], subst (λ b. IsBook b A f []) (sym e) k, λ id h. s id (ground arith))
Rested-IsSound b A f r i (p ∷ free) seen ok b' k s (_, k', _) =
    (_, update f r.id (some p), free, k', λ id h. ground (arith, s id))

split_if : {P Q R : Type 0} (t : Bool) → (P → R) → (Q → R) → (if t then P else Q) → R
split_if true f g x = f x
split_if false f g x = g x

RestOutcome-IsSound :
    (b : Book) (A : Orders) (f : ℕ → Option ℕ) (r : Resting) (free : List ℕ) (seen : List ℕ)
    (ok : Bool) (b' : Book)
    → IsBook b A f free
    → IsSeen seen f
    → RestOutcome b A f r free (ok, b')
    → IsSound (r.id ∷ seen) b'
RestOutcome-IsSound b A f r free seen ok b' k s =
    split_if (in_band b.band r.price)
      (Rested-IsSound b A f r (idx b.band r.price) free seen ok b' k s)
      (λ e. (
        A,
        f,
        free,
        subst (λ b. IsBook b A f free) (sym (ap (λ o. o.1) e)) k,
        λ id h. s id (ground arith),
      ))

Added-IsSound :
    (f : ℕ → Option ℕ) (band : Band) (id : ℕ) (side : Side) (price : ℤ) (r : Swept) (ok : Bool)
    (fills : List Fill) (b' : Book) (seen : List ℕ)
    → IsSeen seen f
    → Added f band id side price r (ok, fills, b')
    → IsSound (id ∷ seen) b'
Added-IsSound f band id side price r ok fills b' seen s a =
    let still : IsSeen seen a.map = λ j h. a.no_new_id j (s j h) in
    split_if (r.remaining == 0)
      (λ (e : (ok ≡ true) × (b' ≡ a.matched)). (
        r.orders,
        a.map,
        a.free,
        subst (λ b. IsBook b r.orders a.map a.free) (sym e.1) a.book,
        λ j h. still j (ground arith),
      ))
      (RestOutcome-IsSound a.matched r.orders a.map (remainder id side price r.remaining) a.free
        seen ok b' a.book still)
      a.outcome

Cancelled-IsSound :
    (b : Book) (A : Orders) (f : ℕ → Option ℕ) (free : List ℕ) (seen : List ℕ) (id : ℕ)
    (p : Option ℕ) (told : Option Resting) (b' : Book)
    → IsBook b A f free
    → IsSeen seen f
    → Cancelled b A f free id p (told, b')
    → IsSound seen b'
Cancelled-IsSound b A f free seen id none told b' k s (_, e) =
    (A, f, free, subst (λ b. IsBook b A f free) (sym e) k, s)
Cancelled-IsSound b A f free seen id (some p) told b' k s (i, r, ys, zs, _, _, _, _, _, k', _) =
    (_, forget f id, p ∷ free, k', λ j h. ground (arith, s j h))

pub serve_add :
    (b : Book) (id : ℕ) (side : Side) (price : ℤ) (qty : ℕ) (out : Bool × List Fill × Book)
    → add_limit b id side price qty ≡ some out
    → serve b (add id side price qty) ≡ some out.2
serve_add b id side price qty out e = rw e

pub serve_drop :
    (b : Book) (id : ℕ) (out : Option Resting × Book)
    → cancel b id ≡ some out
    → serve b (drop id) ≡ some out.1
serve_drop b id out e = rw e

pub serve_all-step :
    (b b' b'' : Book) (r : Request) (rs : List Request)
    → serve b r ≡ some b'
    → serve_all b' rs ≡ some b''
    → serve_all b (r ∷ rs) ≡ some b''
serve_all-step b b' b'' r rs e e' = rw (e, e')

serve_all-IsSound :
    (rs : List Request) (seen : List ℕ) (b : Book)
    → IsSound seen b
    → IsOrderly seen rs
    → Returns (serve_all b rs) λ b'. (seen' : List ℕ) × IsSound seen' b'
serve_all-IsSound [] seen b k ok = (b, refl, (seen, k))
serve_all-IsSound (add id side price qty ∷ rs) seen b (A, f, free, k, s) (fresh, some_, word, ok) =
    let ((rested, fills, b'), run, a) =
      add_limit-Added k id side price qty (s id fresh) some_ word in
    let sound =
      Added-IsSound f b.band id side price
        (sweep id side price b.band (best_first (opposite side) (width b.band)) A qty) rested fills
        b' seen s a in
    let (b'', run', k') = serve_all-IsSound rs (id ∷ seen) b' sound ok in
    (
      b'',
      serve_all-step b b' b'' (add id side price qty) rs
          (serve_add b id side price qty (rested, fills, b') run) run',
      k',
    )
serve_all-IsSound (drop id ∷ rs) seen b (A, f, free, k, s) ok =
    let ((told, b'), run, c) = cancel-IsBook k id in
    let sound = Cancelled-IsSound b A f free seen id (f id) told b' k s c in
    let (b'', run', k') = serve_all-IsSound rs seen b' sound ok in
    (b'', serve_all-step b b' b'' (drop id) rs (serve_drop b id (told, b') run) run', k')

pub open_and_serve-step :
    (raw : Memory) (order_capacity : ℕ) (band : Band) (rs : List Request) (b b' : Book)
    → new_book raw order_capacity band ≡ some b
    → serve_all b rs ≡ some b'
    → open_and_serve raw order_capacity band rs ≡ some b'
open_and_serve-step raw order_capacity band rs b b' opened run =
    ap (λ (o : Option Book). o >>= λ b. serve_all b rs) opened ∙ run

-- From the constructor on, no sequence of `AddLimit` and `Cancel` calls faults or loops, if each order
-- has a quantity from 1 to 2^64 - 1 and an id that no earlier order had, and after each sequence the book
-- satisfies its invariant. The slab has less than 2^58 slots, so that its size in bytes does not wrap, and
-- the band at least one price and less than 2^63, so that their number is a signed 64-bit one.
pub session-IsSound :
    (raw : Memory) (order_capacity : ℕ) (band : Band) (rs : List Request)
    → order_capacity < 2 ^ 58
    → 0 < width band
    → width band < 2 ^ 63
    → IsOrderly [] rs
    → Returns (open_and_serve raw order_capacity band rs) λ b. (seen : List ℕ) × IsSound seen b
session-IsSound raw order_capacity band rs h some_ narrow ok =
    let b = blank_book (threaded raw order_capacity) order_capacity band in
    let opened = new_book-blank_book raw order_capacity band h some_ narrow in
    let (b', run, sound) =
      serve_all-IsSound rs [] b
        (
          (λ side i. []),
          (λ id. none),
          countdown order_capacity,
          blank_book-IsBook raw order_capacity band (omega arith) (omega arith),
          λ id e. refl,
        )
        ok in
    (b', open_and_serve-step raw order_capacity band rs b b' opened run, sound)
