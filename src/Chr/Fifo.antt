-- ===== src/Chr/Fifo.antt =====
-- The ring of messages is a queue of at most NMSG messages.
use aoe.Prelude.{
  ℕ, zero, suc, ◌+◌, ◌%◌, ◌<◌, ◌≤◌, ◌≡◌, ◌≢◌, ◌∙◌, refl, ap, sym, Bool, true, false, none, some,
  List, [], ◌∷◌, ◌++◌, arith, ltb, leb, ◌==◌, ◌||◌, not, if◌then◌else◌, length, get_or, get_elem?,
  set, get_or-set_self, get_or-set_ne, length-set, length-append, Bool-cases, inl, inr,
}
use aoe.Chr.{
  Ring, nmsg, error_at, aoechr_error, ReadAnswer, message, again, waits, advance, read_at,
  aoechr_read,
}

-- The ring holds the messages of `q`, the oldest at its head.
pub record IsRing (r : Ring) (q : List (List ℕ)) : Type 0 where
  pub size : length r.emsgs ≡ nmsg
  pub start : r.head < nmsg
  pub stop : r.tail ≡ (r.head + length q) % nmsg
  pub room : length q ≤ nmsg
  pub slots : (i : ℕ) → i < nmsg → get_or r.emsgs ((r.head + i) % nmsg) none ≡ get_elem? q i

get_elem?-past : (q : List (List ℕ)) (i : ℕ) → length q ≤ i → get_elem? q i ≡ none
get_elem?-past [] i l = refl
get_elem?-past (m ∷ q) zero l = absurd (omega arith)
get_elem?-past (m ∷ q) (suc i) l = get_elem?-past q i (omega arith)

get_elem?-append :
    (q : List (List ℕ)) (m : List ℕ) (i : ℕ)
    → get_elem? (q ++ m ∷ []) i ≡ (if i == length q then some m else get_elem? q i)
get_elem?-append [] m zero = refl
get_elem?-append [] m (suc i) = ground arith
get_elem?-append (x ∷ q) m zero = ground arith
get_elem?-append (x ∷ q) m (suc i) = ground (arith, get_elem?-append q m i)

-- The queue after a message: it is dropped where the ring is full or memory lacks.
abbrev pub offered : Bool → List ℕ → List (List ℕ) → List (List ℕ)
offered allocated m q = if leb nmsg (length q) || not allocated then q else q ++ m ∷ []

put-IsRing :
    (m : List ℕ) (r : Ring) (q : List (List ℕ))
    → IsRing r q
    → length q < nmsg
    → IsRing (error_at none true m r) (q ++ m ∷ [])
unfolding error_at
put-IsRing m r q h l = record {
  size = length-set r.emsgs r.tail (some m) ∙ h.size;
  start = h.start;
  stop = ground (arith, h.size, h.stop, length-append q (m ∷ []));
  room = omega (arith, length-append q (m ∷ []));
  slots = λ i k. elim (Bool-cases (i == length q)) [
    | inl y ↦
        let same : (r.head + i) % nmsg ≡ r.tail = ground (arith, h.stop) in
        let inside : r.tail < length r.emsgs = omega (arith, h.size, h.stop) in
        let last : get_elem? (q ++ m ∷ []) i ≡ some m = ground (arith, get_elem?-append q m i) in
        rw (same, last) (get_or-set_self r.emsgs r.tail (some m) none inside)
    | inr n ↦
        let apart : r.tail ≢ (r.head + i) % nmsg =
          λ e. let ne : i ≢ length q = ground arith in omega (arith, h.stop, h.start) in
        let old : get_elem? (q ++ m ∷ []) i ≡ get_elem? q i =
          ground (arith, get_elem?-append q m i) in
        get_or-set_ne r.emsgs (some m) none apart ∙ h.slots i k ∙ sym old
  ];
}

-- What stands at the tail: nothing while there is room, the oldest message in a full ring.
tail_slot :
    (r : Ring) (q : List (List ℕ))
    → IsRing r q
    → length q < nmsg
    → get_or r.emsgs r.tail none ≡ none
tail_slot r q h l = rw h.stop (h.slots (length q) l ∙ get_elem?-past q (length q) (omega arith))

full_slot :
    (r : Ring) (q : List (List ℕ))
    → IsRing r q
    → nmsg ≤ length q
    → (m : List ℕ) × (get_or r.emsgs r.tail none ≡ some m)
full_slot r [] h l = absurd (omega arith)
full_slot r (m ∷ q) h l =
    let same : r.tail ≡ (r.head + 0) % nmsg = omega (arith, h.stop, h.start, h.room) in
    (m, rw same (h.slots 0 (omega arith)))

-- `aoechr_error` puts the message behind the others, unless NMSG messages wait or the copy cannot be
-- allocated: then the messages stay as they are.
pub aoechr_error_lem :
    (allocated : Bool) (m : List ℕ) (r : Ring) (q : List (List ℕ))
    → IsRing r q
    → IsRing (aoechr_error allocated m r) (offered allocated m q)
unfolding aoechr_error error_at
aoechr_error_lem allocated m r q h = elim (Bool-cases (leb nmsg (length q))) [
  | inl y ↦ let (x, e) = full_slot r q h (ground arith) in rw (e, error_at) (rw y h)
  | inr n ↦ rw (tail_slot r q h (ground arith), error_at) (rw n (room allocated (ground arith)))
]
  where
    room :
        (ok : Bool)
        → length q < nmsg
        → IsRing (error_at none ok m r) (if not ok then q else q ++ m ∷ [])
    room true l = put-IsRing m r q h l
    room false l = h

-- A read of the queue.
abbrev pub reading : Bool → ℕ → List (List ℕ) → ReadAnswer × List (List ℕ)
reading ndelay cnt [] = (if ndelay then again else waits, [])
reading ndelay cnt (m ∷ q) = if ltb cnt (length m) then (again, m ∷ q) else (message m, q)

slots_after :
    (m : List ℕ) (r : Ring) (q : List (List ℕ))
    → IsRing r (m ∷ q)
    → (i : ℕ) → i < nmsg
    → get_or (set r.emsgs r.head none) (((r.head + 1) % nmsg + i) % nmsg) none ≡ get_elem? q i
slots_after m r q h i k = elim (Bool-cases (leb 99 i)) [
  | inl y ↦
      let last : i ≡ 99 = ground arith in
      let same : ((r.head + 1) % nmsg + i) % nmsg ≡ r.head = omega (arith, h.start) in
      let past : get_elem? q i ≡ none = get_elem?-past q i (omega (arith, h.room)) in
      let inside : r.head < length r.emsgs = omega (arith, h.size, h.start) in
      rw (same, past) (get_or-set_self r.emsgs r.head none none inside)
  | inr n ↦
      let less : i < 99 = ground arith in
      let j = (r.head + suc i) % nmsg in
      let same : ((r.head + 1) % nmsg + i) % nmsg ≡ j = omega (arith, h.start) in
      let apart : r.head ≢ j = λ e. omega (arith, h.start) in
      rw same (get_or-set_ne r.emsgs none none apart ∙ h.slots (suc i) (omega arith))
]

advance-IsRing :
    (m : List ℕ) (r : Ring) (q : List (List ℕ)) → IsRing r (m ∷ q) → IsRing (advance r) q
advance-IsRing m r q h = record {
  size = length-set r.emsgs r.head none ∙ h.size;
  start = omega (arith, h.size);
  stop = rw h.size (omega (arith, h.stop, h.start));
  room = omega (arith, h.room);
  slots = λ i k. rw h.size (slots_after m r q h i k);
}

read_full :
    (nd : Bool) (cnt : ℕ) (m : List ℕ) (r : Ring) (q : List (List ℕ))
    → IsRing r (m ∷ q)
    → ((read_at (some m) nd cnt r).0 ≡ (reading nd cnt (m ∷ q)).0)
      × IsRing (read_at (some m) nd cnt r).1 (reading nd cnt (m ∷ q)).1
unfolding read_at
read_full nd cnt m r q h = elim (Bool-cases (ltb cnt (length m))) [
  | inl y ↦ rw y (refl, h)
  | inr n ↦ (rw n refl, rw n (advance-IsRing m r q h))
]

-- `aoechr_read` answers with the oldest message and takes it out, if the reader's buffer holds it;
-- if not, the message stays. With no message it waits, or answers EAGAIN to a reader that will not
-- wait.
pub aoechr_read_lem :
    (ndelay : Bool) (cnt : ℕ) (r : Ring) (q : List (List ℕ))
    → IsRing r q
    → ((aoechr_read ndelay cnt r).0 ≡ (reading ndelay cnt q).0)
      × IsRing (aoechr_read ndelay cnt r).1 (reading ndelay cnt q).1
unfolding aoechr_read read_at
aoechr_read_lem nd cnt r [] h =
    let same : r.head ≡ (r.head + 0) % nmsg = omega (arith, h.start) in
    let e : get_or r.emsgs r.head none ≡ none =
      ap (λ j. get_or r.emsgs j none) same ∙ h.slots 0 (omega arith) in
    rw (e, read_at) (refl, h)
aoechr_read_lem nd cnt r (m ∷ q) h =
    let same : r.head ≡ (r.head + 0) % nmsg = omega (arith, h.start) in
    let e : get_or r.emsgs r.head none ≡ some m =
      ap (λ j. get_or r.emsgs j none) same ∙ h.slots 0 (omega arith) in
    rw (e, read_at) (read_full nd cnt m r q h)
