-- ===== src/Tools/Report/Names.antt =====
-- The names of interfaces are sorted, with each name once: `inserteth`, `ethlist`.
use aoe.Prelude.{
  ℕ, zero, suc, ◌+◌, ◌-◌, ◌≡◌, ◌≤◌, ◌⊎◌, inl, inr, refl, sym, true, false, Option, none, some, List,
  [], ◌∷◌, arith, ltb, if◌then◌else◌, length, Bool-cases, ◌>>=◌,
}
use mathlib.Core.Path.{subst}
use aoe.Tools.Report.{Cmp, below, equal, above, strcmp, cons_to, inserteth, is_eth, ethlist_from}

abbrev pub BelowHead : List ℕ → List (List ℕ) → Type 0
BelowHead n [] = Unit
BelowHead n (m ∷ ms) = strcmp n m ≡ below

-- Strictly ascending.
abbrev pub IsSorted : List (List ℕ) → Type 0
IsSorted [] = Unit
IsSorted (n ∷ ns) = BelowHead n ns × IsSorted ns

Cmp-cases : (c : Cmp) → (c ≡ below) ⊎ ((c ≡ equal) ⊎ (c ≡ above))
Cmp-cases below = inl refl
Cmp-cases equal = inr (inl refl)
Cmp-cases above = inr (inr refl)

-- The test of the first bytes.
turned :
    (a b : ℕ) (c d : Cmp)
    → (if ltb a b then below else if ltb b a then above else c) ≡ above
    → (c ≡ above → d ≡ below)
    → (if ltb b a then below else if ltb a b then above else d) ≡ below
turned a b c d h f = elim (Bool-cases (ltb a b)) [
  | inl y ↦ absurd (cc (rw y at h))
  | inr n ↦ elim (Bool-cases (ltb b a)) [
    | inl y ↦ rw y refl
    | inr m ↦ rw (m, n) (f (rw (n, m) at h))
  ]
]

strcmp-above : (n m : List ℕ) → strcmp n m ≡ above → strcmp m n ≡ below
unfolding strcmp
strcmp-above [] [] h = absurd (cc h)
strcmp-above [] (b ∷ bs) h = absurd (cc h)
strcmp-above (a ∷ n) [] h = refl
strcmp-above (a ∷ n) (b ∷ m) h = turned a b (strcmp n m) (strcmp m n) h (strcmp-above n m)

abbrev pub Inserted : List (List ℕ) → Option (List (List ℕ)) → Type 0
Inserted ns none = ⊥
Inserted ns (some ms) = IsSorted ms × (length ms ≤ length ns + 1)

-- With the entry that comes before.
abbrev InsertedAfter : List ℕ → List (List ℕ) → Option (List (List ℕ)) → Type 0
InsertedAfter p ns none = ⊥
InsertedAfter p ns (some ms) = BelowHead p ms × IsSorted ms × (length ms ≤ length ns + 1)

after_cons :
    (p m : List ℕ) (ms : List (List ℕ)) (o : Option (List (List ℕ)))
    → strcmp p m ≡ below
    → InsertedAfter m ms o
    → InsertedAfter p (m ∷ ms) (cons_to m o)
after_cons p m ms none h r = r
after_cons p m ms (some ns) h r = (h, (r.0, r.1), omega (arith, r.2))

-- `inserteth` before, at and behind the first name.
inserteth-below :
    (room : ℕ) (n m : List ℕ) (ms : List (List ℕ))
    → strcmp n m ≡ below
    → inserteth (suc room) n (m ∷ ms) ≡ some (n ∷ m ∷ ms)
unfolding inserteth
inserteth-below room n m ms h = rw (h, inserteth) refl

inserteth-equal :
    (room : ℕ) (n m : List ℕ) (ms : List (List ℕ))
    → strcmp n m ≡ equal
    → inserteth room n (m ∷ ms) ≡ some (m ∷ ms)
unfolding inserteth
inserteth-equal room n m ms h = rw (h, inserteth) refl

inserteth-above :
    (room : ℕ) (n m : List ℕ) (ms : List (List ℕ))
    → strcmp n m ≡ above
    → inserteth room n (m ∷ ms) ≡ cons_to m (inserteth room n ms)
unfolding inserteth
inserteth-above room n m ms h = rw (h, inserteth) refl

insert_after :
    (room : ℕ) (p n : List ℕ) (ns : List (List ℕ))
    → strcmp p n ≡ below
    → BelowHead p ns
    → IsSorted ns
    → InsertedAfter p ns (inserteth (suc room) n ns)
unfolding inserteth
insert_after room p n [] h b s = (h, (tt, tt), omega arith)
insert_after room p n (m ∷ ms) h b s = elim (Cmp-cases (strcmp n m)) [
  | inl y ↦
      subst (InsertedAfter p (m ∷ ms)) (sym (inserteth-below room n m ms y))
        (h, (y, s), omega arith)
  | inr c ↦ elim c [
    | inl y ↦
        subst (InsertedAfter p (m ∷ ms)) (sym (inserteth-equal (suc room) n m ms y))
          (b, s, omega arith)
    | inr y ↦ subst (InsertedAfter p (m ∷ ms)) (sym (inserteth-above (suc room) n m ms y)) (
        after_cons p m ms (inserteth (suc room) n ms) b
          (insert_after room m n ms (strcmp-above n m y) s.0 s.1))
  ]
]

first_cons :
    (m : List ℕ) (ms : List (List ℕ)) (o : Option (List (List ℕ)))
    → InsertedAfter m ms o
    → Inserted (m ∷ ms) (cons_to m o)
first_cons m ms none r = r
first_cons m ms (some ns) r = ((r.0, r.1), omega (arith, r.2))

-- Where there is room for one more name, `inserteth` writes inside the array, and the names are
-- ascending, with no name twice, if they were.
pub inserteth_lem :
    (room : ℕ) (n : List ℕ) (ns : List (List ℕ))
    → IsSorted ns
    → Inserted ns (inserteth (suc room) n ns)
unfolding inserteth
inserteth_lem room n [] s = ((tt, tt), omega arith)
inserteth_lem room n (m ∷ ms) s = elim (Cmp-cases (strcmp n m)) [
  | inl y ↦ subst (Inserted (m ∷ ms)) (sym (inserteth-below room n m ms y)) ((y, s), omega arith)
  | inr c ↦ elim c [
    | inl y ↦ subst (Inserted (m ∷ ms)) (sym (inserteth-equal (suc room) n m ms y)) (s, omega arith)
    | inr y ↦ subst (Inserted (m ∷ ms)) (sym (inserteth-above (suc room) n m ms y)) (
        first_cons m ms (inserteth (suc room) n ms)
          (insert_after room m n ms (strcmp-above n m y) s.0 s.1))
  ]
]

abbrev pub Listing : Option (List (List ℕ)) → Type 0
Listing none = ⊥
Listing (some ms) = IsSorted ms

abbrev left : ℕ → List (List ℕ) → ℕ
left nifs ifs = nifs - length ifs

-- What is done with the names once one more is in.
go_on :
    (nifs : ℕ) (names : List (Option (List ℕ))) (ifs : List (List ℕ)) (o : Option (List (List ℕ)))
    → ((ms : List (List ℕ))
        → IsSorted ms
        → length names + length ms ≤ nifs
        → Listing (ethlist_from nifs names ms))
    → length names + (length ifs + 1) ≤ nifs
    → Inserted ifs o
    → Listing (o >>= ethlist_from nifs names)
go_on nifs names ifs none k h r = r
go_on nifs names ifs (some ms) k h r = k ms r.0 (omega (arith, h, r.1))

ethlist-name :
    (nifs : ℕ) (n : List ℕ) (names : List (Option (List ℕ))) (ifs : List (List ℕ))
    → is_eth n ≡ true
    → ethlist_from nifs (some n ∷ names) ifs
      ≡ inserteth (nifs - length ifs) n ifs >>= ethlist_from nifs names
unfolding ethlist_from
ethlist-name nifs n names ifs h = rw h refl

ethlist-other :
    (nifs : ℕ) (n : List ℕ) (names : List (Option (List ℕ))) (ifs : List (List ℕ))
    → is_eth n ≡ false
    → ethlist_from nifs (some n ∷ names) ifs ≡ ethlist_from nifs names ifs
unfolding ethlist_from
ethlist-other nifs n names ifs h = rw h refl

has_room :
    (room : ℕ) (n : List ℕ) (ifs : List (List ℕ))
    → 1 ≤ room
    → IsSorted ifs
    → Inserted ifs (inserteth room n ifs)
has_room zero n ifs h s = absurd (omega (arith, h))
has_room (suc room) n ifs h s = inserteth_lem room n ifs s

-- `ethlist` never writes outside its array, whatever names the kernel has for the `nifs` indices that
-- it asks for, and its list is ascending, with no name twice.
pub ethlist_lem :
    (nifs : ℕ) (names : List (Option (List ℕ))) (ifs : List (List ℕ))
    → IsSorted ifs
    → length names + length ifs ≤ nifs
    → Listing (ethlist_from nifs names ifs)
unfolding ethlist_from
ethlist_lem nifs [] ifs s h = s
ethlist_lem nifs (none ∷ names) ifs s h = ethlist_lem nifs names ifs s (omega (arith, h))
ethlist_lem nifs (some n ∷ names) ifs s h = elim (Bool-cases (is_eth n)) [
  | inl y ↦ subst Listing (sym (ethlist-name nifs n names ifs y)) (
      go_on nifs names ifs (inserteth (nifs - length ifs) n ifs) (ethlist_lem nifs names)
        (omega (arith, h)) (has_room (nifs - length ifs) n ifs (omega (arith, h)) s))
  | inr k ↦
      subst Listing (sym (ethlist-other nifs n names ifs k))
        (ethlist_lem nifs names ifs s (omega (arith, h)))
]
