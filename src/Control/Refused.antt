-- ===== src/Control/Refused.antt =====
-- A write that is refused: `aoechr_write`.
use aoe.Prelude.{
  choose, ℕ, ◌⊎◌, ◌≢◌, ap, ==_iff, ◌≡◌, ◌<◌, arith, refl, Bool, true, false, Option, none, some,
  List, ◌==◌, ◌&&◌, not, leb, if◌then◌else◌, length, Bool-cases, inl, inr,
}
use aoe.Types.{Env}
use aoe.Devs.{Driver, find_device, by_found, aoedev_by_aoeaddr}
use aoe.Flush.{aoedev_flush}
use aoe.Net.{upto_nul, set_aoe_iflist}
use aoe.Control.{
  Host, Control, WriteAnswer, invalid, fault, wrote, bug, discover, interfaces, revalidate,
  revalidate_at, revalidate_scanned, flushed_to, counted, aoechr_write, minor_discover,
  minor_interfaces, minor_revalidate, minor_flush,
}

-- An error of a part other than `interfaces` means that nothing has changed.
abbrev Unchanged : Control → WriteAnswer × Control → Type 0
Unchanged c (invalid, c') = c' ≡ c
Unchanged c (fault, c') = c' ≡ c
Unchanged c (wrote n, c') = Unit
Unchanged c (bug, c') = Unit

Unchanged-either :
    (c : Control) (b : Bool) (x y : WriteAnswer × Control)
    → Unchanged c x
    → Unchanged c y
    → Unchanged c (if b then x else y)
Unchanged-either c true x y p q = p
Unchanged-either c false x y p q = q

Unchanged-at :
    (e : Env) (w : Host) (major minor : ℕ) (c : Control) (o : Option (ℕ × Bool))
    → Unchanged c (revalidate_at e w (major, minor) c (by_found e major minor false o c.driver))
unfolding by_found
Unchanged-at e w major minor c none = refl
Unchanged-at e w major minor c (some (i, true)) = refl
Unchanged-at e w major minor c (some (i, false)) = tt

Unchanged-scanned :
    (e : Env) (w : Host) (o : Option (ℕ × ℕ)) (c : Control)
    → Unchanged c (revalidate_scanned e w o c)
unfolding aoedev_by_aoeaddr
Unchanged-scanned e w none c = refl
Unchanged-scanned e w (some (major, minor)) c =
    Unchanged-at e w major minor c (find_device major minor c.driver.devlist)

Unchanged-revalidate :
    (e : Env) (w : Host) (text : List ℕ) (c : Control) → Unchanged c (revalidate e w text c)
unfolding revalidate
Unchanged-revalidate e w text c =
    let scanned = revalidate_scanned e w (w.scan text) c in
    Unchanged-either c (leb 16 (length text)) (invalid, c)
      (if not w.readable then (fault, c) else scanned) refl
      (Unchanged-either c (not w.readable) (fault, c) scanned refl
        (Unchanged-scanned e w (w.scan text) c))

-- What a write that succeeds has passed: a text that fits and could be read, which is now the list of
-- interfaces up to its NUL; one that fits and could be read; one that could be read where it matters.
abbrev pub IsTaken : Host → ℕ → List ℕ → Control → Type 0
IsTaken w n text c' =
    (n ≡ minor_discover)
    ⊎ (((n ≡ minor_interfaces)
          × (length text < 1024)
          × (w.readable ≡ true)
          × (c'.aoe_iflist ≡ upto_nul text))
        ⊎ (((n ≡ minor_revalidate) × (length text < 16) × (w.readable ≡ true))
            ⊎ ((n ≡ minor_flush) × ((length text < 3) ⊎ (w.readable ≡ true)))))

-- What the answer of a write to the n-th file says: an error, that no device has changed and no
-- packet has been sent, nor has the list of interfaces, unless the error is a failed copy into it;
-- a success, that all of the text is taken, and is fit to be.
abbrev pub Answers : Host → ℕ → List ℕ → Control → WriteAnswer × Control → Type 0
Answers w n text c (invalid, c') =
    (c'.driver ≡ c.driver)
    × ((c'.aoe_iflist ≡ c.aoe_iflist) ⊎ ((n ≡ minor_interfaces) × (w.readable ≡ false)))
Answers w n text c (fault, c') = c' ≡ c
Answers w n text c (wrote m, c') = (m ≡ length text) × IsTaken w n text c'
Answers w n text c (bug, c') = n ≡ minor_flush

module _ (e : Env) (w : Host) (n : ℕ) (text : List ℕ) (c : Control) where
  Answers-either :
      (b : Bool) (x y : WriteAnswer × Control)
      → (b ≡ true → Answers w n text c x)
      → Answers w n text c y
      → Answers w n text c (if b then x else y)
  Answers-either true x y p q = p refl
  Answers-either false x y p q = q

  Answers-interfaces : n ≡ minor_interfaces → Answers w n text c (interfaces w text c)
  unfolding interfaces set_aoe_iflist
  Answers-interfaces q = elim (Bool-cases (leb 1024 (length text))) [
    | inl y ↦ rw y (refl, inl refl)
    | inr m ↦ elim (Bool-cases w.readable) [
      | inl y ↦ rw (m, y) (refl, inr (inl (q, ground (arith, m), refl, refl)))
      | inr k ↦ rw (m, k) (refl, inr (q, refl))
    ]
  ]

  of_Unchanged :
      (r : WriteAnswer × Control)
      → Unchanged c r
      → (r.0 ≢ bug)
      → IsTaken w n text r.1
      → Answers w n text c (counted (length text) r)
  of_Unchanged (invalid, c') h b t =
      (ap (λ (x : Control). x.driver) h, inl (ap (λ (x : Control). x.aoe_iflist) h))
  of_Unchanged (fault, c') h b t = h
  of_Unchanged (wrote m, c') h b t = (refl, t)
  of_Unchanged (bug, c') h b t = absurd (b refl)

  at_no_bug :
      (major minor : ℕ) (o : Option ℕ × Driver) → (revalidate_at e w (major, minor) c o).0 ≢ bug
  at_no_bug major minor (none, d) h = absurd (cc h)
  at_no_bug major minor (some i, d) h = absurd (cc h)

  scanned_no_bug : (o : Option (ℕ × ℕ)) → (revalidate_scanned e w o c).0 ≢ bug
  scanned_no_bug none h = absurd (cc h)
  scanned_no_bug (some (major, minor)) h =
      at_no_bug major minor (aoedev_by_aoeaddr e major minor false c.driver) h

  Answers-revalidate :
      n ≡ minor_revalidate → Answers w n text c (counted (length text) (revalidate e w text c))
  unfolding revalidate
  Answers-revalidate q =
      let scanned = revalidate_scanned e w (w.scan text) c in
      let goal = λ (r : WriteAnswer × Control). Answers w n text c (counted (length text) r) in
      choose goal (leb 16 (length text)) (invalid, c)
        (if not w.readable then (fault, c) else scanned) (λ y. (refl, inl refl))
        (λ m.
          choose goal (not w.readable) (fault, c) scanned (λ y. refl)
            (λ y.
              of_Unchanged scanned (Unchanged-scanned e w (w.scan text) c)
                (scanned_no_bug (w.scan text))
                (inr (inr (inl (q, ground (arith, m), ground (arith, y)))))))

  Answers-flushed :
      n ≡ minor_flush
      → (length text < 3) ⊎ (w.readable ≡ true)
      → (o : Option Driver) → Answers w n text c (flushed_to (length text) c o)
  Answers-flushed q r none = q
  Answers-flushed q r (some drv) = (refl, inr (inr (inr (q, r))))

  Answers-flush :
      n ≡ minor_flush
      → (o : Option Driver)
      → Answers w n text c (
          if leb 3 (length text) && not w.readable
          then (fault, c)
          else flushed_to (length text) c o)
  Answers-flush q o =
      choose (Answers w n text c) (leb 3 (length text) && not w.readable) (fault, c)
        (flushed_to (length text) c o) (λ y. refl) (λ m. Answers-flushed q (may_go m) o)
    where
      may_go :
          (leb 3 (length text) && not w.readable) ≡ false → (length text < 3) ⊎ (w.readable ≡ true)
      may_go m = ground (arith, m)

-- A write that answers an error, to whichever file, has changed no device and sent no packet, and the
-- list of interfaces only where the copy into it failed half way, as it may; a write that succeeds
-- has taken all of its text, which has been read where its file wants it, is shorter than 1024 bytes
-- for the list of interfaces, which it becomes up to its NUL, and than 16 for a device's address;
-- and a BUG comes of a flush only.
pub aoechr_write_lem :
    (e : Env) (w : Host) (n : ℕ) (text : List ℕ) (c : Control)
    → Answers w n text c (aoechr_write e w n text c)
unfolding aoechr_write
aoechr_write_lem e w n text c =
    let cnt = length text in
    let flushed = flushed_to cnt c (aoedev_flush e text c.driver) in
    let refused : WriteAnswer × Control = (invalid, c) in
    let flush_part = if leb 3 cnt && not w.readable then (fault, c) else flushed in
    let flush_or = if n == minor_flush then flush_part else refused in
    let revalidated = counted cnt (revalidate e w text c) in
    let revalidate_or = if n == minor_revalidate then revalidated else flush_or in
    let interfaces_or = if n == minor_interfaces then interfaces w text c else revalidate_or in
    let either = Answers-either e w n text c in
    either (n == minor_discover) (wrote cnt, discover e w c) interfaces_or
      (λ y. (refl, inl ((==_iff n minor_discover).0 y)))
      (either (n == minor_interfaces) (interfaces w text c) revalidate_or
        (λ y. Answers-interfaces e w n text c ((==_iff n minor_interfaces).0 y))
        (either (n == minor_revalidate) revalidated flush_or
          (λ y. Answers-revalidate e w n text c ((==_iff n minor_revalidate).0 y))
          (either (n == minor_flush) flush_part refused
            (λ y.
              Answers-flush e w n text c ((==_iff n minor_flush).0 y)
                (aoedev_flush e text c.driver))
            (refl, inl refl))))
