-- ===== src/Net/Listed.antt =====
-- Which interfaces the driver uses: `is_aoe_netif`.
use aoe.Prelude.{
  ℕ, zero, suc, ◌≤◌, ◌<◌, ◌≡◌, ◌↔◌, ◌⊎◌, refl, ap, sym, ◌∙◌, Bool, true, false, List, [], ◌∷◌, ◌++◌,
  arith, ◌==◌, ==_iff, ◌&&◌, if◌then◌else◌, length, All, inl, inr,
}
use mathlib.Core.Path.{subst}
use aoe.Flush.{is_same, taken}
use aoe.Flush.Name.{begins, same}
use aoe.Net.{skip_white, dropped, netif_loop, is_aoe_netif}
use aoe.Net.Words.{
  words, split, push, Listed, upto, upto_in, upto-length, words_first, words-skip_white, Bare,
  Bare-skip_white, length-skip_white, length-dropped,
}

taken_all : (name rest : List ℕ) → taken (length name) (name ++ rest) ≡ name
taken_all [] rest = refl
taken_all (c ∷ cs) rest = ap (λ w. c ∷ w) (taken_all cs rest)

taken-dropped : (n : ℕ) (p : List ℕ) → p ≡ taken n p ++ dropped n p
taken-dropped zero p = refl
taken-dropped (suc n) [] = refl
taken-dropped (suc n) (c ∷ cs) = ap (λ w. c ∷ w) (taken-dropped n cs)

length-taken : (n : ℕ) (p : List ℕ) → n ≤ length p → length (taken n p) ≡ n
length-taken zero p h = refl
length-taken (suc n) [] h = absurd (omega (arith, h))
length-taken (suc n) (c ∷ cs) h = omega (arith, length-taken n cs (omega (arith, h)))

two : (a b : Bool) → (a && b) ≡ true → (a ≡ true) × (b ≡ true)
two true true h = (refl, refl)
two true false h = absurd (cc h)
two false b h = absurd (cc h)

-- The test of one word.
matches :
    (name p : List ℕ) (n : ℕ)
    → All (λ c. 0 < c) name
    → n ≤ length p
    → ((length name == n && is_same n name p) ≡ true) ↔ (name ≡ taken n p)
matches name p n z l = (forth, back)
  where
    forth : (length name == n && is_same n name p) ≡ true → name ≡ taken n p
    forth h =
        let r = two (length name == n) (is_same n name p) h in
        let k : length name ≡ n = (==_iff (length name) n).0 r.0 in
        let b = begins name p z (subst (λ m. is_same m name p ≡ true) (sym k) r.1) in
        sym (taken_all name b.0) ∙ ap (taken (length name)) (sym b.1) ∙ ap (λ m. taken m p) k

    back : name ≡ taken n p → (length name == n && is_same n name p) ≡ true
    back h =
        let k : length name ≡ n = ap length h ∙ length-taken n p l in
        let whole : p ≡ name ++ dropped n p =
          taken-dropped n p ∙ ap (λ w. w ++ dropped n p) (sym h) in
        let e : is_same n name p ≡ true =
          ap (λ m. is_same m name p) (sym k)
          ∙ ap (is_same (length name) name) whole
          ∙ same name (dropped n p) in
        rw (e, (==_iff (length name) n).1 k) refl

module _ (c : ℕ) (cs name : List ℕ) (h : Bare (c ∷ cs)) where
  abbrev text : List ℕ
  text = c ∷ cs

  abbrev behind : List ℕ
  behind = skip_white (dropped (upto text) text)

  loop_step :
      (fuel : ℕ)
      → netif_loop (suc fuel) text name ≡ (
          if length name == upto text && is_same (upto text) name text
          then true
          else netif_loop fuel behind name)
  unfolding netif_loop
  loop_step fuel = let z : (upto text == 0) ≡ false = ground (arith, upto_in c cs h) in rw z refl

  words_step : words text ≡ taken (upto text) text ∷ words behind
  words_step =
      let pushed = λ (n : ℕ). push (taken n text) (words (skip_white (dropped n text))) in
      let put = λ (n : ℕ). taken n text ∷ words (skip_white (dropped n text)) in
      words_first text ∙ ap pushed (upto_in c cs h) ∙ ap put (sym (upto_in c cs h))

  shorter : length behind ≤ length cs
  shorter = omega (
    arith,
    length-skip_white (dropped (upto text) text),
    ap (λ n. length (dropped n text)) (upto_in c cs h),
    length-dropped (upto cs) cs,
  )

either {ℓ κ} :
    {A : Type ℓ} {B : Type κ} (b t : Bool)
    → (b ≡ true) ↔ A
    → (t ≡ true) ↔ B
    → ((if b then true else t) ≡ true) ↔ (A ⊎ B)
either true t f g = (λ _. inl (f.0 refl), λ _. refl)
either false t f g = (λ h. inr (g.0 h), λ s. elim s [ inl a ↦ absurd (cc (f.1 a)) | inr b ↦ g.1 b ])

loop_lem :
    (fuel : ℕ) (p name : List ℕ)
    → All (λ c. 0 < c) name
    → Bare p
    → length p ≤ fuel
    → (netif_loop fuel p name ≡ true) ↔ Listed name (words p)
unfolding netif_loop split
loop_lem zero [] name z h l = (λ e. absurd (cc e), λ e. absurd e)
loop_lem zero (c ∷ cs) name z h l = absurd (omega (arith, l))
loop_lem (suc fuel) [] name z h l = (λ e. absurd (cc e), λ e. absurd e)
loop_lem (suc fuel) (c ∷ cs) name z h l =
    let p = c ∷ cs in
    let q = skip_white (dropped (upto p) p) in
    let rec =
      loop_lem fuel q name z (Bare-skip_white (dropped (upto p) p))
        (omega (arith, shorter c cs name h, l)) in
    let both =
      either (length name == upto p && is_same (upto p) name p) (netif_loop fuel q name)
        (matches name p (upto p) z (upto-length p)) rec in
    let step = loop_step c cs name h fuel in
    let list = words_step c cs name h in
    (
      λ e. subst (Listed name) (sym list) (both.0 (sym step ∙ e)),
      λ e. step ∙ both.1 (subst (Listed name) list e),
    )

-- The driver uses an interface exactly where the list of interfaces is empty or the interface's
-- name, which has no NUL in it, is one of the list's words.
pub is_aoe_netif_lem :
    (aoe_iflist name : List ℕ)
    → All (λ c. 0 < c) name
    → (is_aoe_netif aoe_iflist name ≡ true) ↔ ((aoe_iflist ≡ []) ⊎ Listed name (words aoe_iflist))
unfolding is_aoe_netif
is_aoe_netif_lem [] name z = (λ _. inl refl, λ _. refl)
is_aoe_netif_lem (c ∷ cs) name z =
    let p = skip_white (c ∷ cs) in
    let r =
      loop_lem (length (c ∷ cs)) p name z (Bare-skip_white (c ∷ cs)) (length-skip_white (c ∷ cs)) in
    let same_words = words-skip_white (c ∷ cs) in
    (
      λ e. inr (subst (Listed name) same_words (r.0 e)),
      λ e. elim e [ inl k ↦ absurd (cc k) | inr k ↦ r.1 (subst (Listed name) (sym same_words) k) ],
    )
