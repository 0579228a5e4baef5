-- ===== src/Ident/Due.antt =====
-- What an identification makes due for a device.
use aoe.Prelude.{
  ℕ, zero, suc, ◌+◌, ◌*◌, ◌/◌, ◌%◌, ◌^◌, ◌≤◌, ◌<◌, ◌≡◌, ◌↔◌, ◌⊎◌, inl, inr, refl, sym, true, false,
  Option, none, some, List, [], ◌∷◌, arith, ◌||◌, All, get_or, Bool-cases,
}
use mathlib.Core.Path.{subst}
use aoe.Types.{AoeDev, State}
use aoe.Ident.{
  le16, le32, le64, has_lba48, sectors_of, geometry_of, identified, resized, schedule_work,
  ataid_complete,
}

-- A disk with 48-bit addresses never shows more than four cylinders, whatever its size.
pub lba48_cylinders : (id : List ℕ) → has_lba48 id ≡ true → (geometry_of id).cylinders ≤ 4
lba48_cylinders id h = ground arith

-- What is due on a device whose disk had the size `old`, or no disk.
abbrev pub SizeDue : Option ℕ → ℕ → AoeDev → Type 0
SizeDue none n d = (d.flags.gdalloc ≡ true) × (d.flags.newsize ≡ false) × (d.capacity ≡ none)
SizeDue (some old) n d =
    (d.flags.gdalloc ≡ false) × (d.flags.newsize ≡ true) × (d.capacity ≡ some n)

resized-SizeDue :
    (o : Option ℕ) (n : ℕ) (d : AoeDev)
    → d.capacity ≡ o
    → d.flags.gdalloc ≡ false
    → d.flags.newsize ≡ false
    → SizeDue o n (resized o n d)
resized-SizeDue none n d c g w = (refl, w, c)
resized-SizeDue (some old) n d c g w = (g, refl, refl)

resized_keeps :
    (o : Option ℕ) (n : ℕ) (d : AoeDev)
    → ((resized o n d).ssize ≡ d.ssize) × ((resized o n d).flags.ext ≡ d.flags.ext)
resized_keeps none n d = (refl, refl)
resized_keeps (some old) n d = (refl, refl)

-- What the disk says, by ATA: a number of `n` bytes from the i-th, the least first; bit 2 of the
-- upper byte of word 83, or of word 86, for 48-bit addresses; and the number of sectors, in words 100
-- to 103 or in words 60 and 61.
abbrev pub number : List ℕ → ℕ → ℕ → ℕ
number id i zero = 0
number id i (suc n) = get_or id i 0 + 2 ^ 8 * number id (suc i) n

abbrev pub Has48 : List ℕ → Type 0
Has48 id = (get_or id 167 0 / 2 ^ 2 % 2 ≡ 1) ⊎ (get_or id 173 0 / 2 ^ 2 % 2 ≡ 1)

abbrev pub HasSectors : List ℕ → ℕ → Type 0
HasSectors id n = (Has48 id × (n ≡ number id 200 8)) ⊎ (¬ Has48 id × (n ≡ number id 120 4))

byte_at : (id : List ℕ) (i : ℕ) → All (λ b. b < 2 ^ 8) id → get_or id i 0 < 2 ^ 8
byte_at [] i h = omega arith
byte_at (b ∷ id) zero h = h.0
byte_at (b ∷ id) (suc i) h = byte_at id i h.1

bit_of_word : (a b : ℕ) → a < 2 ^ 8 → (a + b * 2 ^ 8) / 2 ^ 10 % 2 ≡ b / 2 ^ 2 % 2
bit_of_word a b h = omega (arith, h)

has_lba48-Has48 : (id : List ℕ) → All (λ b. b < 2 ^ 8) id → (has_lba48 id ≡ true) ↔ Has48 id
unfolding le16
has_lba48-Has48 id h =
    let a = bit_of_word (get_or id 166 0) (get_or id 167 0) (byte_at id 166 h) in
    let b = bit_of_word (get_or id 172 0) (get_or id 173 0) (byte_at id 172 h) in
    ((λ k. ground (arith, a, b, k)), (λ k. ground (arith, a, b, k)))

sectors_of-HasSectors : (id : List ℕ) → All (λ b. b < 2 ^ 8) id → HasSectors id (sectors_of id)
unfolding le16 le32 le64
sectors_of-HasSectors id h =
    let k = has_lba48-Has48 id h in
    elim (Bool-cases (has_lba48 id)) [
      | inl y ↦ inl (k.0 y, rw y (omega arith))
      | inr n ↦ inr ((λ x. absurd (cc (n, k.1 x))), rw n (omega arith))
    ]

-- What `ataid_complete` makes due: nothing more where a disk or a size was due before.
abbrev pub Due : List ℕ → State → State → Type 0
Due id s s' =
    ((s.dev.flags.gdalloc ≡ true) ⊎ (s.dev.flags.newsize ≡ true)
      → (s'.dev.flags.gdalloc ≡ s.dev.flags.gdalloc)
        × (s'.dev.flags.newsize ≡ s.dev.flags.newsize)
        × (s'.dev.capacity ≡ s.dev.capacity)
        × (s'.kern ≡ s.kern))
    × (s.dev.flags.gdalloc ≡ false
        → s.dev.flags.newsize ≡ false
        → (s'.kern.work_scheduled ≡ true) × SizeDue s.dev.capacity s'.dev.ssize s'.dev)

-- What the device then says of itself, and what is due.
abbrev pub IsIdentified : List ℕ → State → State → Type 0
IsIdentified id s s' =
    HasSectors id s'.dev.ssize
    × ((s'.dev.flags.ext ≡ true) ↔ Has48 id)
    × ((s'.dev.flags.gdalloc ≡ true) ⊎ (s'.dev.flags.newsize ≡ true))
    × Due id s s'

one_due :
    (o : Option ℕ) (n : ℕ) (d : AoeDev)
    → ((resized o n d).flags.gdalloc ≡ true) ⊎ ((resized o n d).flags.newsize ≡ true)
one_due none n d = inl refl
one_due (some c) n d = inr refl

-- After `ataid_complete` of an identification of bytes, a new disk or a new size is due. The device
-- has the number of sectors and the kind of addresses that ATA's words tell. Where a disk or a size
-- was due before, nothing more is asked for; otherwise work is scheduled, a disk that is there has
-- the new size, and one that is missing is asked for.
pub ataid_complete_lem :
    (id : List ℕ) (s : State) → All (λ b. b < 2 ^ 8) id → IsIdentified id s (ataid_complete id s)
unfolding ataid_complete
ataid_complete_lem id s h =
    let d = identified id s.dev in
    let z = sectors_of-HasSectors id h in
    let x = has_lba48-Has48 id h in
    let due = record s { dev = resized d.capacity d.ssize d; kern = schedule_work s.kern } in
    let kept = resized_keeps d.capacity d.ssize d in
    elim (Bool-cases (s.dev.flags.gdalloc || s.dev.flags.newsize)) [
      | inl y ↦ rw y (
        z,
        x,
        ground (arith, y),
        ((λ c. (refl, refl, refl, refl)), (λ g n. absurd (ground (arith, y, g, n)))),
      )
      | inr y ↦ rw y (
        subst (HasSectors id) (sym kept.0) z,
        subst (λ b. (b ≡ true) ↔ Has48 id) (sym kept.1) x,
        one_due d.capacity d.ssize d,
        (
          (λ c. absurd (ground (arith, y, c))),
          (λ g n. (
            refl,
            subst (λ m. SizeDue d.capacity m (resized d.capacity d.ssize d)) (sym kept.0)
                (resized-SizeDue d.capacity d.ssize d refl g n),
          )),
        ),
      )
    ]
