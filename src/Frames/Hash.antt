-- ===== src/Frames/Hash.antt =====
-- The hash of active frames: a frame is found by its tag wherever it is.
use aoe.Prelude.{
  ℕ, zero, suc, ◌+◌, ◌%◌, ◌<◌, ◌≡◌, ◌∙◌, refl, ap, Bool, false, Option, none, some, List, [], ◌∷◌,
  ◌++◌, arith, ◌==◌, if◌then◌else◌, length, get_or, modify, count, count-append, length-modify, All,
  All-append, Bool-cases, inl, inr,
}
use aoe.Types.{Frame, nfactive}
use aoe.Frames.{take_tag, getframe, fhash}

abbrev pub Buckets : Type 0
Buckets = List (List Frame)

-- How many frames of the table pass the test.
abbrev pub active : (Frame → Bool) → Buckets → ℕ
active p [] = 0
active p (b ∷ bs) = count p b + active p bs

-- Every frame of the `n`-th bucket has a tag that hashes to `n`, and so on.
abbrev pub IsHashedFrom : ℕ → Buckets → Type 0
IsHashedFrom n [] = Unit
IsHashedFrom n (b ∷ bs) = All (λ f. f.tag % nfactive ≡ n) b × IsHashedFrom (suc n) bs

-- A table of NFACTIVE buckets, each frame in the bucket of its tag.
abbrev pub IsHashed : Buckets → Type 0
IsHashed bs = (length bs ≡ nfactive) × IsHashedFrom 0 bs

abbrev pub has_tag : ℕ → Frame → Bool
has_tag tag f = f.tag == tag

-- What a search of a list for a tag may answer, with the list that it leaves.
abbrev pub Took : ℕ → List Frame → Option Frame → List Frame → Type 0
Took tag fs none rest = (count (has_tag tag) fs ≡ 0) × (rest ≡ fs)
Took tag fs (some f) rest =
    (f.tag ≡ tag) × ((p : Frame → Bool) → count p fs ≡ count p rest + (if p f then 1 else 0))

Took-cons :
    (tag : ℕ) (f : Frame) (fs : List Frame) (r : Option Frame) (rest : List Frame)
    → (f.tag == tag) ≡ false
    → Took tag fs r rest
    → Took tag (f ∷ fs) r (f ∷ rest)
Took-cons tag f fs none rest n h = (ground arith, ap (λ l. f ∷ l) h.1)
Took-cons tag f fs (some g) rest n h = (h.0, λ p. omega (arith, h.1 p))

-- The walk takes a frame with the tag out, or finds that there is none and leaves the list.
pub take_tag-Took :
    (tag : ℕ) (fs : List Frame) → Took tag fs (take_tag tag fs).0 (take_tag tag fs).1
unfolding take_tag
take_tag-Took tag [] = (refl, refl)
take_tag-Took tag (f ∷ fs) = elim (Bool-cases (f.tag == tag)) [
  | inl y ↦ rw y (ground arith, λ p. omega arith)
  | inr n ↦ rw n (Took-cons tag f fs _ _ n (take_tag-Took tag fs))
]

take_tag-All :
    (P : Frame → Type 0) (tag : ℕ) (fs : List Frame) → All P fs → All P (take_tag tag fs).1
unfolding take_tag
take_tag-All P tag [] h = tt
take_tag-All P tag (f ∷ fs) h = elim (Bool-cases (f.tag == tag)) [
  | inl y ↦ rw y h.1
  | inr n ↦ rw n (h.0, take_tag-All P tag fs h.1)
]

active-modify :
    (p : Frame → Bool) (g : List Frame → List Frame) (bs : Buckets) (i : ℕ)
    → i < length bs
    → active p (modify g bs i) + count p (get_or bs i [])
      ≡ active p bs + count p (g (get_or bs i []))
active-modify p g [] i h = absurd (omega arith)
active-modify p g (b ∷ bs) zero h = omega arith
active-modify p g (b ∷ bs) (suc i) h = omega (arith, active-modify p g bs i (omega arith))

modify-IsHashedFrom :
    (g : List Frame → List Frame) (bs : Buckets) (n i k : ℕ)
    → k ≡ n + i
    → (All (λ f. f.tag % nfactive ≡ k) (get_or bs i [])
        → All (λ f. f.tag % nfactive ≡ k) (g (get_or bs i [])))
    → IsHashedFrom n bs
    → IsHashedFrom n (modify g bs i)
modify-IsHashedFrom g [] n i k e step h = tt
modify-IsHashedFrom g (b ∷ bs) n zero k e step h =
    let same : k ≡ n = omega arith in ((rw same at step) h.0, h.1)
modify-IsHashedFrom g (b ∷ bs) n (suc i) k e step h =
    (h.0, modify-IsHashedFrom g bs (suc n) i k (omega arith) step h.1)

count-other :
    (tag n : ℕ) (fs : List Frame)
    → (tag % nfactive ≡ n → ⊥)
    → All (λ f. f.tag % nfactive ≡ n) fs
    → count (has_tag tag) fs ≡ 0
count-other tag n [] ne h = refl
count-other tag n (f ∷ fs) ne h = elim (Bool-cases (f.tag == tag)) [
  | inl y ↦ let same : f.tag ≡ tag = ground arith in absurd (ne (rw (← same) h.0))
  | inr z ↦ rw z (omega (arith, count-other tag n fs ne h.1))
]

active-above :
    (tag n : ℕ) (bs : Buckets)
    → tag % nfactive < n
    → IsHashedFrom n bs
    → active (has_tag tag) bs ≡ 0
active-above tag n [] l h = refl
active-above tag n (b ∷ bs) l h = omega (
  arith,
  count-other tag n b (λ e. omega arith) h.0,
  active-above tag (suc n) bs (omega arith) h.1,
)

-- Frames with a tag stand in one bucket.
active-bucket :
    (tag n i : ℕ) (bs : Buckets)
    → IsHashedFrom n bs
    → tag % nfactive ≡ n + i
    → active (has_tag tag) bs ≡ count (has_tag tag) (get_or bs i [])
active-bucket tag n i [] h e = refl
active-bucket tag n zero (b ∷ bs) h e = omega (arith, active-above tag (suc n) bs (omega arith) h.1)
active-bucket tag n (suc i) (b ∷ bs) h e = omega (
  arith,
  count-other tag n b (λ d. omega arith) h.0,
  active-bucket tag (suc n) i bs h.1 (omega arith),
)

modify_same :
    (bs : Buckets) (i : ℕ) (l : List Frame) → l ≡ get_or bs i [] → modify (λ _. l) bs i ≡ bs
modify_same [] i l e = refl
modify_same (b ∷ bs) zero l e = ap (λ x. x ∷ bs) e
modify_same (b ∷ bs) (suc i) l e = ap (λ x. b ∷ x) (modify_same bs i l e)

-- What `getframe` may answer, with the table that it leaves.
abbrev pub Got : ℕ → Buckets → Option Frame → Buckets → Type 0
Got tag bs none rest = (active (has_tag tag) bs ≡ 0) × (rest ≡ bs)
Got tag bs (some f) rest =
    (f.tag ≡ tag) × ((p : Frame → Bool) → active p bs ≡ active p rest + (if p f then 1 else 0))

Got-bucket :
    (tag : ℕ) (bs : Buckets) (r : Option Frame) (rest : List Frame)
    → IsHashed bs
    → Took tag (get_or bs (tag % nfactive) []) r rest
    → Got tag bs r (modify (λ _. rest) bs (tag % nfactive))
Got-bucket tag bs none rest h took = (
  active-bucket tag 0 (tag % nfactive) bs h.1 (omega arith) ∙ took.0,
  modify_same bs (tag % nfactive) rest took.1,
)
Got-bucket tag bs (some f) rest h took = (
  took.0,
  λ p.
      omega (arith, took.1 p, active-modify p (λ _. rest) bs (tag % nfactive) (omega (arith, h.0))),
)

All-bucket :
    (n i k : ℕ) (bs : Buckets)
    → IsHashedFrom n bs
    → k ≡ n + i
    → All (λ f. f.tag % nfactive ≡ k) (get_or bs i [])
All-bucket n i k [] h e = tt
All-bucket n zero k (b ∷ bs) h e = let same : k ≡ n = omega arith in rw same h.0
All-bucket n (suc i) k (b ∷ bs) h e = All-bucket (suc n) i k bs h.1 (omega arith)

-- In a hashed table `getframe` returns NULL exactly when no active frame has the tag, wherever it
-- stands, and leaves the table; what it returns has the tag, and it takes out that frame alone.
-- The table stays hashed.
pub getframe_lem :
    (tag : ℕ) (bs : Buckets)
    → IsHashed bs
    → let (r, rest) = getframe tag bs in Got tag bs r rest × IsHashed rest
unfolding getframe
getframe_lem tag bs h =
    let i = tag % nfactive in
    let took = take_tag-Took tag (get_or bs i []) in
    (
      Got-bucket tag bs _ _ h took,
      (
        length-modify _ bs i ∙ h.0,
        modify-IsHashedFrom _ bs 0 i i (omega arith) (take_tag-All _ tag (get_or bs i [])) h.1,
      ),
    )

-- Hashing a frame keeps the table hashed and adds that frame alone.
pub fhash_lem :
    (f : Frame) (bs : Buckets)
    → IsHashed bs
    → IsHashed (fhash f bs)
      × ((p : Frame → Bool) → active p (fhash f bs) ≡ active p bs + (if p f then 1 else 0))
unfolding fhash
fhash_lem f bs h =
    let i = f.tag % nfactive in
    (
      (
        length-modify _ bs i ∙ h.0,
        modify-IsHashedFrom _ bs 0 i i (omega arith)
            (λ a. All-append _ (get_or bs i []) (f ∷ []) a (refl, tt)) h.1,
      ),
      λ p. omega (
        arith,
        active-modify p (λ fs. fs ++ f ∷ []) bs i (omega (arith, h.0)),
        count-append p (get_or bs i []) (f ∷ []),
      ),
    )

found_of_active :
    (tag : ℕ) (bs : Buckets) (r : Option Frame) (rest : Buckets)
    → 0 < active (has_tag tag) bs
    → Got tag bs r rest
    → (f : Frame) × (r ≡ some f) × (f.tag ≡ tag)
found_of_active tag bs none rest l g = absurd (omega (arith, g.0))
found_of_active tag bs (some f) rest l g = (f, refl, g.0)

-- A frame that was hashed is found under its tag, whatever is hashed beside it.
pub getframe-fhash :
    (f : Frame) (bs : Buckets)
    → IsHashed bs
    → (g : Frame) × ((getframe f.tag (fhash f bs)).0 ≡ some g) × (g.tag ≡ f.tag)
getframe-fhash f bs h =
    let hashed = fhash_lem f bs h in
    found_of_active f.tag (fhash f bs) _ _ (ground (arith, hashed.1 (has_tag f.tag)))
      (getframe_lem f.tag (fhash f bs) hashed.0).0
