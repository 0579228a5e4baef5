-- ===== src/Prelude/Members.antt =====
-- Which numbers a list has, and lists with no number twice.
use Prim.Native.Nat.{ℕ}
use mathlib.Core.Path.{◌≡◌, sym}
use mathlib.Core.Logic.{◌⊎◌, inl, inr, ◌↔◌}
use mathlib.Core.List.{List, [], ◌∷◌, ◌++◌}

abbrev pub Among : ℕ → List ℕ → Type 0
Among x [] = ⊥
Among x (m ∷ ms) = (x ≡ m) ⊎ Among x ms

-- No number twice.
abbrev pub IsDistinct : List ℕ → Type 0
IsDistinct [] = Unit
IsDistinct (m ∷ ms) = ¬ (Among m ms) × IsDistinct ms

-- One more at the end.
pub Among-end : (x m : ℕ) (ms : List ℕ) → Among x (ms ++ m ∷ []) ↔ (Among x ms ⊎ (x ≡ m))
Among-end x m [] = (
  λ a. elim a [ inl e ↦ inr e | inr n ↦ inr (absurd n) ],
  λ b. elim b [ inl n ↦ absurd n | inr e ↦ inl e ],
)
Among-end x m (y ∷ ms) =
    let r = Among-end x m ms in
    (
      λ a. elim a [
        | inl e ↦ inl (inl e)
        | inr a' ↦ elim (r.0 a') [ inl h ↦ inl (inr h) | inr h ↦ inr h ]
      ],
      λ b. elim b [
        | inl h ↦ elim h [ inl e ↦ inl e | inr a' ↦ inr (r.1 (inl a')) ]
        | inr h ↦ inr (r.1 (inr h))
      ],
    )

pub IsDistinct-end :
    (m : ℕ) (ms : List ℕ) → ¬ Among m ms → IsDistinct ms → IsDistinct (ms ++ m ∷ [])
IsDistinct-end m [] n d = ((λ a. a), tt)
IsDistinct-end m (y ∷ ms) n d = (
  (λ a. elim ((Among-end y m ms).0 a) [ inl h ↦ d.0 h | inr e ↦ n (inl (sym e)) ]),
  IsDistinct-end m ms (λ a. n (inr a)) d.1,
)
