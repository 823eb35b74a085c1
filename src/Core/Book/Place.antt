-- ===== src/Core/Book/Place.antt =====
-- Places of the two ladders: a side and the index of a level.
use optimal_execution_platfo.Common.{
  ℕ, ◌≡◌, refl, sym, ap, ◌∙◌, inl, inr, ◌⊎◌, true, false, ◌&&◌, ◌==◌, if◌then◌else◌, arith, update,
  ℕ_discrete, subst, Bool-cases,
}
use mathlib.Core.Path.{fun_ext}
use optimal_execution_platfo.Core.Order.{Side, buy, sell}
use optimal_execution_platfo.Core.Level.{LevelFifo}
use optimal_execution_platfo.Core.Ladder.{Ladder}
use optimal_execution_platfo.Core.Book.{same_side, put_ladder}

-- A change at one place.
abbrev pub change {ℓ} : {A : Type ℓ} → (Side → ℕ → A) → Side → ℕ → A → Side → ℕ → A
change f side i a side' i' = if same_side side side' && (i == i') then a else f side' i'

pub same_side_self : (side : Side) → same_side side side ≡ true
same_side_self buy = refl
same_side_self sell = refl

pub side-cases : (s s' : Side) → (s ≡ s') ⊎ (same_side s s' ≡ false)
side-cases buy buy = inl refl
side-cases buy sell = inr refl
side-cases sell buy = inr refl
side-cases sell sell = inl refl

-- Either the two places are one, or a change at the first does not show at the second.
pub place-cases :
    (s : Side) (i : ℕ) (s' : Side) (i' : ℕ)
    → ((s ≡ s') × (i ≡ i')) ⊎ ((same_side s s' && (i == i')) ≡ false)
place-cases s i s' i' = elim (side-cases s s') [
  | inr e ↦ inr (ground arith)
  | inl e ↦ elim (ℕ_discrete i i') [ yes same ↦ inl (e, same) | no ne ↦ inr (ground arith) ]
]

module _ {ℓ} {A : Type ℓ} (f : Side → ℕ → A) (s : Side) (i : ℕ) (a : A) where
  pub change_self : change f s i a s i ≡ a
  change_self = rw (same_side_self s) (ground arith)

  pub change_other :
      (s' : Side) (i' : ℕ) → (same_side s s' && (i == i')) ≡ false → change f s i a s' i' ≡ f s' i'
  change_other s' i' e = rw e

-- A property of all places after a change at one.
pub change-All {ℓ κ} :
    {A : Type ℓ} {f : Side → ℕ → A} {s : Side} {i : ℕ} {a : A} (P : Side → ℕ → A → Type κ)
    → P s i a
    → ((s' : Side) (i' : ℕ) → (same_side s s' && (i == i')) ≡ false → P s' i' (f s' i'))
    → (s' : Side) (i' : ℕ) → P s' i' (change f s i a s' i')
change-All {f} {s} {i} {a} P here there s' i' = elim (place-cases s i s' i') [
  | inl (e, e') ↦
      subst (λ t. P t i' (change f s i a t i')) e
        (subst (λ j. P s j (change f s i a s j)) e'
          (subst (P s i) (sym (change_self f s i a)) here))
  | inr ne ↦ subst (P s' i') (sym (change_other f s i a s' i' ne)) (there s' i' ne)
]

pub put_ladder_self :
    (ladders : Side → Ladder) (s : Side) (l : Ladder) → put_ladder ladders s l s ≡ l
put_ladder_self ladders s l = rw (same_side_self s)

pub put_ladder_other :
    (ladders : Side → Ladder) (s : Side) (l : Ladder) (s' : Side)
    → same_side s s' ≡ false
    → put_ladder ladders s l s' ≡ ladders s'
put_ladder_other ladders s l s' ne = rw ne

-- The same for two changes at one place.
pub change_both {ℓ κ μ} :
    {A : Type ℓ} {B : Type κ} {f : Side → ℕ → A} {g : Side → ℕ → B} {s : Side} {i : ℕ} {a : A}
    {b : B} (P : Side → ℕ → A → B → Type μ)
    → P s i a b
    → ((s' : Side) (i' : ℕ) → (same_side s s' && (i == i')) ≡ false → P s' i' (f s' i') (g s' i'))
    → (s' : Side) (i' : ℕ) → P s' i' (change f s i a s' i') (change g s i b s' i')
change_both {f} {g} {s} {i} {a} {b} P here there =
    change-All (λ s' i' x. P s' i' x (change g s i b s' i'))
      (subst (P s i a) (sym (change_self g s i b)) here)
      (λ s' i' ne. subst (P s' i' (f s' i')) (sym (change_other g s i b s' i' ne)) (there s' i' ne))

abbrev pub levels_of : (Side → Ladder) → Side → ℕ → LevelFifo
levels_of ladders side i = (ladders side).levels i

-- The levels of the book after a write to one level of one ladder.
pub levels_of-put_ladder :
    (ladders : Side → Ladder) (s : Side) (i : ℕ) (lvl : LevelFifo) (l : Ladder)
    → l.levels ≡ update (ladders s).levels i lvl
    → levels_of (put_ladder ladders s l) ≡ change (levels_of ladders) s i lvl
levels_of-put_ladder ladders s i lvl l e = fun_ext λ s'. fun_ext λ i'. elim (side-cases s s') [
  | inr ne ↦
      ap (λ m. m.levels i') (put_ladder_other ladders s l s' ne)
      ∙ sym (change_other (levels_of ladders) s i lvl s' i' (ground arith))
  | inl same ↦
      subst (λ t. (put_ladder ladders s l t).levels i' ≡ change (levels_of ladders) s i lvl t i')
        same (rw (same_side_self s, e) (ground arith))
]

-- The second of two changes at one place is the one that counts.
pub change_twice {ℓ} :
    {A : Type ℓ} (f : Side → ℕ → A) (s : Side) (i : ℕ) (a b : A)
    → change (change f s i a) s i b ≡ change f s i b
change_twice f s i a b = fun_ext λ s'.
    fun_ext λ i'. elim (Bool-cases (same_side s s' && (i == i'))) [ inl e ↦ rw e | inr e ↦ rw e ]

pub change_same {ℓ} : {A : Type ℓ} (f : Side → ℕ → A) (s : Side) (i : ℕ) → change f s i (f s i) ≡ f
change_same f s i = fun_ext λ s'. fun_ext λ i'. elim (place-cases s i s' i') [
  | inr ne ↦ change_other f s i (f s i) s' i' ne
  | inl (e, e') ↦
      subst (λ t. change f s i (f s i) t i' ≡ f t i') e
        (subst (λ j. change f s i (f s i) s j ≡ f s j) e' (change_self f s i (f s i)))
]
