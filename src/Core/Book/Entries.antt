-- ===== src/Core/Book/Entries.antt =====
-- The entries of a queue, and the orders that it has.
use optimal_execution_platfo.Common.{
  ℕ, suc, ◌<◌, ◌≤◌, ◌≡◌, ◌≢◌, refl, ap, ◌∙◌, inl, inr, ◌⊎◌, Option, some, true, false, ◌||◌, ◌==◌,
  List, [], ◌∷◌, ◌++◌, arith, length,
}
use optimal_execution_platfo.Common.Slots.{has, IsDistinct, AllBelow, pigeonhole}
use optimal_execution_platfo.Core.Order.{Side, Resting}
use optimal_execution_platfo.Core.Level.Segment.{Queue, holds, AllApart}
use optimal_execution_platfo.Core.Ladder.{Band}
use optimal_execution_platfo.Core.Book.Stock.{IsEntry, All, Has}

abbrev slots : Queue → List ℕ
slots [] = []
slots ((p, r) ∷ xs) = p ∷ slots xs

has-slots : (q : ℕ) (xs : Queue) → has q (slots xs) ≡ holds q xs
has-slots q [] = refl
has-slots q ((p, r) ∷ xs) = ap (λ b. (q == p) || b) (has-slots q xs)

slots-IsDistinct : (xs : Queue) → AllApart xs → IsDistinct (slots xs)
slots-IsDistinct [] apart = tt
slots-IsDistinct ((p, r) ∷ xs) apart = (has-slots p xs ∙ apart.0, slots-IsDistinct xs apart.1)

length-slots : (xs : Queue) → length (slots xs) ≡ length xs
length-slots [] = refl
length-slots ((p, r) ∷ xs) = ap suc (length-slots xs)

-- Equal slots are in the same queues.
pub ne_of_holds : (q p : ℕ) (xs : Queue) → holds q xs ≡ true → holds p xs ≡ false → q ≢ p
ne_of_holds q p xs h g e = cc (h, g, ap (λ k. holds k xs) e)

module _ (P : ℕ → Resting → Type 0) where
  pub All-map :
      (Q : ℕ → Resting → Type 0) (xs : Queue)
      → ((q : ℕ) (r : Resting) → holds q xs ≡ true → P q r → Q q r)
      → All P xs
      → All Q xs
  All-map Q [] keep e = tt
  All-map Q ((p, r) ∷ xs) keep (e, es) =
      (keep p r (ground arith) e, All-map Q xs (λ q o h. keep q o (ground arith)) es)

  pub All-append : (xs ys : Queue) → All P xs → All P ys → All P (xs ++ ys)
  All-append [] ys a b = b
  All-append (x ∷ xs) ys (e, es) b = (e, All-append xs ys es b)

  pub All-split : (xs ys : Queue) → All P (xs ++ ys) → All P xs × All P ys
  All-split [] ys a = (tt, a)
  All-split (x ∷ xs) ys (e, es) = let (a, b) = All-split xs ys es in ((e, a), b)

  slots-AllBelow :
      (capacity : ℕ) (xs : Queue)
      → ((q : ℕ) (r : Resting) → P q r → q < capacity)
      → All P xs
      → AllBelow capacity (slots xs)
  slots-AllBelow capacity [] below e = tt
  slots-AllBelow capacity ((p, r) ∷ xs) below (e, es) =
      (below p r e, slots-AllBelow capacity xs below es)

  -- A level has at most as many orders as the slab has slots.
  pub length-capacity :
      (capacity : ℕ) (xs : Queue)
      → AllApart xs
      → ((q : ℕ) (r : Resting) → P q r → q < capacity)
      → All P xs
      → length xs ≤ capacity
  length-capacity capacity xs apart below e = omega (
    arith,
    length-slots xs,
    pigeonhole capacity (slots xs) (slots-IsDistinct xs apart) (slots-AllBelow capacity xs below e),
  )

module _ (band : Band) (side : Side) (i : ℕ) {capacity capacity' : ℕ} {f f' : ℕ → Option ℕ} where
  -- Entries stay entries under a map that still leads to their slots.
  pub entries_under :
      (xs : Queue)
      → capacity' ≡ capacity
      → ((id q : ℕ) → holds q xs ≡ true → f id ≡ some q → f' id ≡ some q)
      → All (IsEntry band capacity f side i) xs
      → All (IsEntry band capacity' f' side i) xs
  entries_under xs e keep =
      All-map (IsEntry band capacity f side i) (IsEntry band capacity' f' side i) xs (λ q r h en.
        record {
          same_side = en.same_side;
          at_price = en.at_price;
          remains = en.remains;
          in_slab = rw e en.in_slab;
          known = keep r.id q h en.known;
        })

pub Has-append : (q : ℕ) (o : Resting) (xs ys : Queue) → Has q o xs → Has q o (xs ++ ys)
Has-append q o [] ys h = absurd h
Has-append q o (x ∷ xs) ys (inl e) = inl e
Has-append q o (x ∷ xs) ys (inr h) = inr (Has-append q o xs ys h)

pub Has-last : (q : ℕ) (o : Resting) (xs : Queue) → Has q o (xs ++ (q, o) ∷ [])
Has-last q o [] = inl (refl, refl)
Has-last q o (x ∷ xs) = inr (Has-last q o xs)

-- An order of a queue with one order taken out is that one, or still there.
pub Has-without :
    (q : ℕ) (o : Resting) (p : ℕ) (r : Resting) (ys zs : Queue)
    → Has q o (ys ++ (p, r) ∷ zs)
    → ((p ≡ q) × (r ≡ o)) ⊎ Has q o (ys ++ zs)
Has-without q o p r [] zs h = h
Has-without q o p r (y ∷ ys) zs (inl e) = inr (inl e)
Has-without q o p r (y ∷ ys) zs (inr h) = elim (Has-without q o p r ys zs h) [
  | inl e ↦ inl e
  | inr k ↦ inr (inr k)
]

pub Has-split :
    (q : ℕ) (o : Resting) (xs : Queue)
    → Has q o xs
    → (ys : Queue) × (zs : Queue) × (xs ≡ ys ++ (q, o) ∷ zs)
Has-split q o [] h = absurd h
Has-split q o ((p, r) ∷ xs) (inl (e, e')) = ([], xs, ap (λ x. x ∷ xs) (ground arith))
Has-split q o (x ∷ xs) (inr h) =
    let (ys, zs, e) = Has-split q o xs h in (x ∷ ys, zs, ap (λ t. x ∷ t) e)
