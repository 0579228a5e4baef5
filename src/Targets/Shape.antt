-- ===== src/Targets/Shape.antt =====
-- The table of targets keeps its shape, and a look-up finds what was added.
use aoe.Prelude.{
  ◌⊎◌, ◌↔◌, ==_iff, ℕ, zero, suc, ◌+◌, ◌≤◌, ◌<◌, ◌≡◌, refl, Bool, true, false, Option, none, some,
  List, [], ◌∷◌, ◌++◌, All, arith, length, set, ◌==◌, if◌then◌else◌, replicate, length-append,
  length-replicate, inl, inr, Bool-cases, All-append,
}
use aoe.Types.{AoeTgt, next_alloc}
use aoe.Tgt.{new_target}
use aoe.Targets.{grow_targets, Slots, gettgt, gettgt_from, first_null, with_room, add_to, addtgt}

-- No target behind an empty slot.
abbrev pub IsFront : Slots → Type 0
IsFront [] = Unit
IsFront (none ∷ ts) = All (λ t. t ≡ none) ts
IsFront (some t ∷ ts) = IsFront ts

-- The address of a slot's target.
abbrev pub addr_in : Slots → ℕ → Option ℕ
addr_in [] i = none
addr_in (none ∷ ts) zero = none
addr_in (some t ∷ ts) zero = some t.addr
addr_in (t ∷ ts) (suc i) = addr_in ts i

-- How many targets at the front have the address.
abbrev pub with_addr : ℕ → Slots → ℕ
with_addr addr [] = 0
with_addr addr (none ∷ ts) = 0
with_addr addr (some t ∷ ts) = (if t.addr == addr then 1 else 0) + with_addr addr ts

-- No two targets share an address.
abbrev pub IsUnique : Slots → Type 0
IsUnique ts = (addr : ℕ) → with_addr addr ts ≤ 1

gettgt_from-none : (ts : Slots) (addr i : ℕ) → gettgt_from ts addr i ≡ none → with_addr addr ts ≡ 0
gettgt_from-none [] addr i e = refl
gettgt_from-none (none ∷ ts) addr i e = refl
gettgt_from-none (some t ∷ ts) addr i e = ground (arith, gettgt_from-none ts addr (i + 1))

gettgt_from-some :
    (ts : Slots) (addr i j : ℕ)
    → gettgt_from ts addr i ≡ some j
    → (k : ℕ) × (j ≡ i + k) × (k < first_null ts) × (addr_in ts k ≡ some addr)
gettgt_from-some [] addr i j e = cc
gettgt_from-some (none ∷ ts) addr i j e = cc
gettgt_from-some (some t ∷ ts) addr i j e = elim (Bool-cases (t.addr == addr)) [
  | inl y ↦ (0, ground arith, omega arith, ground arith)
  | inr n ↦
      let (k, q, l, a) = gettgt_from-some ts addr (i + 1) j (ground arith) in
      (suc k, omega arith, omega arith, a)
]

-- What a search for an address may answer.
abbrev pub Answer : Slots → ℕ → Option ℕ → Type 0
Answer ts addr none = with_addr addr ts ≡ 0
Answer ts addr (some j) = (j < first_null ts) × (addr_in ts j ≡ some addr)

gettgt-Answer :
    (ts : Slots) (addr : ℕ) (o : Option ℕ) → gettgt_from ts addr 0 ≡ o → Answer ts addr o
gettgt-Answer ts addr none e = gettgt_from-none ts addr 0 e
gettgt-Answer ts addr (some j) e =
    let (k, q, l, a) = gettgt_from-some ts addr 0 j e in
    let same : j ≡ k = omega arith in (omega arith, rw same a)

-- `gettgt` returns NULL only where no target has the address, and what it finds is a target with
-- that address.
pub gettgt_lem : (ts : Slots) (addr : ℕ) → Answer ts addr (gettgt ts addr)
unfolding gettgt
gettgt_lem ts addr = gettgt-Answer ts addr (gettgt_from ts addr 0) refl

IsFront-of_empty : (ts : Slots) → All (λ t. t ≡ none) ts → IsFront ts
IsFront-of_empty [] h = tt
IsFront-of_empty (none ∷ ts) h = h.1
IsFront-of_empty (some t ∷ ts) h = IsFront-of_empty ts h.1

first_null_of_empty : (ts : Slots) → All (λ t. t ≡ none) ts → first_null ts ≡ 0
first_null_of_empty [] h = refl
first_null_of_empty (none ∷ ts) h = refl
first_null_of_empty (some t ∷ ts) h = cc h.0

with_addr_of_empty : (a : ℕ) (ts : Slots) → All (λ t. t ≡ none) ts → with_addr a ts ≡ 0
with_addr_of_empty a [] h = refl
with_addr_of_empty a (none ∷ ts) h = refl
with_addr_of_empty a (some t ∷ ts) h = cc h.0

-- The table `us` is `ts` with a target of this address put behind the others.
pub record Added (ts us : Slots) (addr : ℕ) : Type 0 where
  pub front : IsFront us
  pub count : first_null us ≡ suc (first_null ts)
  pub address : addr_in us (first_null ts) ≡ some addr
  pub addresses : (a : ℕ) → with_addr a us ≡ with_addr a ts + (if addr == a then 1 else 0)

set-Added :
    (ts : Slots) (t : AoeTgt)
    → IsFront ts
    → first_null ts < length ts
    → Added ts (set ts (first_null ts) (some t)) t.addr
set-Added [] t f h = absurd (omega arith)
set-Added (none ∷ ts) t f h = record {
  front = IsFront-of_empty ts f;
  count = omega (arith, first_null_of_empty ts f);
  address = refl;
  addresses = λ a. omega (arith, with_addr_of_empty a ts f);
}
set-Added (some u ∷ ts) t f h =
    let r = set-Added ts t f (omega arith) in
    record {
      front = r.front;
      count = omega (arith, r.count);
      address = r.address;
      addresses = λ a. omega (arith, r.addresses a);
    }

empty_slots : (n : ℕ) → All {A = Option AoeTgt} (λ t. t ≡ none) (replicate n none)
empty_slots zero = tt
empty_slots (suc n) = (refl, empty_slots n)

-- Empty slots behind a table change nothing that its targets show.
pub record Alike (ts us : Slots) : Type 0 where
  pub front : IsFront us
  pub count : first_null us ≡ first_null ts
  pub addresses : (a : ℕ) → with_addr a us ≡ with_addr a ts

append_empty-Alike : (ts : Slots) (n : ℕ) → IsFront ts → Alike ts (ts ++ replicate n none)
append_empty-Alike [] n f = record {
  front = IsFront-of_empty _ (empty_slots n);
  count = first_null_of_empty _ (empty_slots n);
  addresses = λ a. with_addr_of_empty a _ (empty_slots n);
}
append_empty-Alike (none ∷ ts) n f = record {
  front = All-append (λ t. t ≡ none) ts _ f (empty_slots n);
  count = refl;
  addresses = λ a. refl;
}
append_empty-Alike (some t ∷ ts) n f =
    let r = append_empty-Alike ts n f in
    record {
      front = r.front;
      count = omega (arith, r.count);
      addresses = λ a. omega (arith, r.addresses a);
    }

pub first_null-le-length : (ts : Slots) → first_null ts ≤ length ts
first_null-le-length [] = omega arith
first_null-le-length (none ∷ ts) = omega arith
first_null-le-length (some t ∷ ts) = omega (arith, first_null-le-length ts)

-- A table that looks alike and has an empty slot.
abbrev Roomy : Slots → Option Slots → Type 0
Roomy ts none = Unit
Roomy ts (some us) = Alike ts us × (first_null ts < length us)

with_room-Roomy :
    (ts : Slots) (allocs : List Bool)
    → IsFront ts
    → 0 < length ts
    → Roomy ts (with_room ts allocs).0
unfolding with_room
with_room-Roomy ts allocs f h = elim (Bool-cases (first_null ts == length ts)) [
  | inl full ↦ rw full (grown (next_alloc allocs).0)
  | inr room ↦ rw room (
    record { front = f; count = refl; addresses = λ a. refl },
    ground (arith, first_null-le-length ts),
  )
]
  where
    full-length : first_null ts ≤ length ts
    full-length = first_null-le-length ts

    grown : (ok : Bool) → Roomy ts (if ok then some (ts ++ replicate (length ts) none) else none)
    grown true = (
      append_empty-Alike ts (length ts) f,
      omega (
        arith,
        length-append {0} ts (replicate (length ts) none),
        length-replicate {0} {A = Option AoeTgt} (length ts) none,
        full-length,
      ),
    )
    grown false = tt

-- What `addtgt` did, by its result: with none the table looks alike; else the new target stands in
-- the first slot that was empty.
abbrev pub AddResult : Slots → ℕ → Option ℕ → Slots → Type 0
AddResult ts addr none us = Alike ts us
AddResult ts addr (some i) us = (i ≡ first_null ts) × Added ts us addr

-- A table with no empty slot needs memory to grow, and a target needs memory.
abbrev pub HasMemory : Slots → List Bool → Type 0
HasMemory ts allocs =
    ((first_null ts < length ts) × ((next_alloc allocs).0 ≡ true))
    ⊎ ((first_null ts ≡ length ts)
        × ((next_alloc allocs).0 ≡ true)
        × ((next_alloc (next_alloc allocs).1).0 ≡ true))

-- The target is there exactly where its memory is granted.
abbrev pub Tells : Type 0 → Option ℕ → Type 0
Tells g none = ¬ g
Tells g (some i) = g

told_room :
    (ts us : Slots) (i addr n : ℕ) (bs : List Bool) (g : Type 0)
    → (((next_alloc bs).0 ≡ true) ↔ g)
    → Tells g (add_to (some us) ts i addr n bs).0
told_room ts us i addr n [] g k = λ x. absurd (cc (k.1 x))
told_room ts us i addr n (false ∷ rest) g k = λ x. absurd (cc (k.1 x))
told_room ts us i addr n (true ∷ rest) g k = k.0 refl

told_full :
    (ts : Slots) (addr n : ℕ) (bs : List Bool)
    → first_null ts ≡ length ts
    → let (room, rest) = grow_targets ts bs in
      Tells (HasMemory ts bs) (add_to room ts (first_null ts) addr n rest).0
unfolding grow_targets
told_full ts addr n [] f = λ g. elim g [ inl h ↦ omega (arith, f, h.0) | inr h ↦ absurd (cc (h.1)) ]
told_full ts addr n (false ∷ rest) f =
    λ g. elim g [ inl h ↦ omega (arith, f, h.0) | inr h ↦ absurd (cc (h.1)) ]
told_full ts addr n (true ∷ rest) f =
    told_room ts (ts ++ replicate (length ts) none) (first_null ts) addr n rest
      (HasMemory ts (true ∷ rest))
      (
        (λ h. inr (f, refl, h)),
        (λ g. elim g [ inl h ↦ absurd (omega (arith, f, h.0)) | inr h ↦ h.2 ]),
      )

addtgt_told :
    (ts : Slots) (addr n : ℕ) (allocs : List Bool)
    → Tells (HasMemory ts allocs) (addtgt ts addr n allocs).0
unfolding addtgt with_room
addtgt_told ts addr n allocs = elim (Bool-cases (first_null ts == length ts)) [
  | inl y ↦ rw y (told_full ts addr n allocs ((==_iff (first_null ts) (length ts)).0 y))
  | inr m ↦ rw m (
      told_room ts ts (first_null ts) addr n allocs (HasMemory ts allocs) (
        (λ h. inl (ground (arith, m, first_null-le-length ts), h)),
        (λ g. elim g [ inl h ↦ h.1 | inr h ↦ absurd (ground (arith, m, h.0)) ]),
      ))
]

add_to-AddResult :
    (room : Option Slots) (ts : Slots) (addr n : ℕ) (allocs : List Bool)
    → IsFront ts
    → Roomy ts room
    → let (r, us, _) = add_to room ts (first_null ts) addr n allocs in AddResult ts addr r us
unfolding new_target
add_to-AddResult none ts addr n allocs f h = record {
  front = f;
  count = refl;
  addresses = λ a. refl;
}
add_to-AddResult (some us) ts addr n [] f h = h.0
add_to-AddResult (some us) ts addr n (false ∷ rest) f h = h.0
add_to-AddResult (some us) ts addr n (true ∷ rest) f h = (
  refl,
  let alike = h.0 in
      let added = set-Added us (new_target addr n) alike.front (omega (arith, alike.count, h.1)) in
      record {
        front = rw (← alike.count) added.front;
        count = rw (← alike.count) added.count;
        address = rw (← alike.count) added.address;
        addresses = λ a. rw (← alike.count, ← alike.addresses a) (added.addresses a);
      },
)

-- `addtgt` on a table with its targets at the front adds the target exactly where its memory is
-- granted, and memory for a larger table before where no slot is empty. Where memory lacks, the table
-- shows the same targets, grown or not; otherwise the new target follows the others, is found under
-- its address, and every other address is held by as many targets as before.
pub addtgt_lem :
    (ts : Slots) (addr n : ℕ) (allocs : List Bool)
    → IsFront ts
    → 0 < length ts
    → let (r, us, _) = addtgt ts addr n allocs in
      AddResult ts addr r us × Tells (HasMemory ts allocs) r
unfolding addtgt
addtgt_lem ts addr n allocs f h = (
  add_to-AddResult (with_room ts allocs).0 ts addr n (with_room ts allocs).1 f
      (with_room-Roomy ts allocs f h),
  addtgt_told ts addr n allocs,
)
