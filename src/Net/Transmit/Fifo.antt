-- ===== src/Net/Transmit/Fifo.antt =====
-- Packets go out in the order in which they came: `aoenet_xmit`, `tx`.
use aoe.Prelude.{
  ◌≡◌, refl, ap, ◌∙◌, Bool, true, false, List, [], ◌∷◌, ◌++◌, ◌||◌, ◌&&◌, if◌then◌else◌, map,
  Bool-cases, inl, inr,
}
use aoe.Types.{Skb}
use aoe.Net.Transmit.{
  Transmitter, Fates, aoenet_xmit, changef, set_flag, dev_queue_xmit, warn, tx_one, tx_loop, tx,
}

-- A packet with the flag that its thread has.
abbrev pub with_flag : Bool → Skb → Skb × Bool
with_flag m s = (s, m || s.ata.write)

behind : {A : Type 0} (xs : List A) (y : A) (ys : List A) → (xs ++ y ∷ []) ++ ys ≡ xs ++ y ∷ ys
behind [] y ys = refl
behind (x ∷ xs) y ys = ap (λ w. x ∷ w) (behind xs y ys)

whole : {A : Type 0} (xs : List A) → xs ≡ xs ++ []
whole [] = refl
whole (x ∷ xs) = ap (λ w. x ∷ w) (whole xs)

-- A turn hands the packet over and leaves the thread's flag as it was.
abbrev Turned : Skb → Transmitter → Transmitter → Type 0
Turned s x y =
    (y.handed ≡ x.handed ++ with_flag x.memalloc s ∷ [])
    × (y.memalloc ≡ x.memalloc)
    × (y.skbtxq ≡ x.skbtxq)

warn-keeps :
    (f : Fates) (s : Skb) (x : Transmitter)
    → ((warn f s x).handed ≡ x.handed)
      × ((warn f s x).memalloc ≡ x.memalloc)
      × ((warn f s x).skbtxq ≡ x.skbtxq)
warn-keeps f s x = elim (Bool-cases (f.drops s && f.net_ratelimit s)) [
  | inl y ↦ rw y (refl, refl, refl)
  | inr n ↦ rw n (refl, refl, refl)
]

-- The turn of a thread with the flag `m`, where the flag is to be set for the packet or not.
abbrev turn : Fates → Skb → Bool → Transmitter → Transmitter
turn f s c x = set_flag c false (warn f s (dev_queue_xmit s (set_flag c true x)))

by_change :
    (f : Fates) (s : Skb) (x : Transmitter) (c m : Bool)
    → (c ≡ true → m ≡ false)
    → let y = turn f s c (record x { memalloc = m }) in
      (y.handed ≡ x.handed ++ (s, m || c) ∷ []) × (y.memalloc ≡ m) × (y.skbtxq ≡ x.skbtxq)
by_change f s x false true h = warn-keeps f s (dev_queue_xmit s (record x { memalloc = true }))
by_change f s x false false h = warn-keeps f s (dev_queue_xmit s (record x { memalloc = false }))
by_change f s x true true h = absurd (cc (h refl))
by_change f s x true false h =
    let k = warn-keeps f s (dev_queue_xmit s (record x { memalloc = true })) in (k.0, refl, k.2)

only_unset : (m w : Bool) → (if m then false else w) ≡ true → m ≡ false
only_unset true w h = absurd (cc h)
only_unset false w h = refl

same_flag : (m w : Bool) → (m || (if m then false else w)) ≡ (m || w)
same_flag true w = refl
same_flag false w = refl

one_turn : (f : Fates) (s : Skb) (x : Transmitter) → Turned s x (tx_one f s x)
unfolding tx_one
one_turn f s x =
    let k = by_change f s x (changef x s) x.memalloc (only_unset x.memalloc s.ata.write) in
    (k.0 ∙ ap (λ b. x.handed ++ (s, b) ∷ []) (same_flag x.memalloc s.ata.write), k.1, k.2)

-- The queue is empty and all of `q` is handed over.
abbrev Emptied : List Skb → Transmitter → Transmitter → Type 0
Emptied q x y =
    (y.skbtxq ≡ [])
    × (y.handed ≡ x.handed ++ map (with_flag x.memalloc) q)
    × (y.memalloc ≡ x.memalloc)

loop_lem : (f : Fates) (q : List Skb) (x : Transmitter) → x.skbtxq ≡ q → Emptied q x (tx_loop f q x)
unfolding tx_loop
loop_lem f [] x e = (e, whole x.handed, refl)
loop_lem f (s ∷ q) x e =
    let x1 = record x { skbtxq = q } in
    let t = one_turn f s x1 in
    let r = loop_lem f q (tx_one f s x1) t.2 in
    (
      r.0,
      r.1
          ∙ ap (λ m. (tx_one f s x1).handed ++ map (with_flag m) q) t.1
          ∙ ap (λ h. h ++ map (with_flag x.memalloc) q) t.0
          ∙ behind x.handed (with_flag x.memalloc s) (map (with_flag x.memalloc) q),
      r.2 ∙ t.1,
    )

xmit-queue :
    (sl : List Skb) (x : Transmitter)
    → ((aoenet_xmit sl x).skbtxq ≡ x.skbtxq ++ sl)
      × ((aoenet_xmit sl x).handed ≡ x.handed)
      × ((aoenet_xmit sl x).memalloc ≡ x.memalloc)
unfolding aoenet_xmit
xmit-queue [] x = (whole x.skbtxq, refl, refl)
xmit-queue (s ∷ sl) x =
    let r = xmit-queue sl (record x { skbtxq = x.skbtxq ++ s ∷ [] }) in
    (r.0 ∙ behind x.skbtxq s sl, r.1, r.2)

-- The transmitter hands every packet to its device, those that waited first, then those that
-- `aoenet_xmit` brings, in their order: a write with PF_MEMALLOC set, any other packet with the flag
-- that the thread has, which it has again at the end.
pub tx_lem :
    (f : Fates) (sl : List Skb) (x : Transmitter)
    → let y = tx f (aoenet_xmit sl x) in
      (y.skbtxq ≡ [])
      × (y.handed ≡ x.handed ++ map (with_flag x.memalloc) (x.skbtxq ++ sl))
      × (y.memalloc ≡ x.memalloc)
unfolding tx
tx_lem f sl x =
    let q = xmit-queue sl x in
    let r = loop_lem f (aoenet_xmit sl x).skbtxq (aoenet_xmit sl x) refl in
    (
      r.0,
      r.1
          ∙ ap (λ h. h ++ map (with_flag (aoenet_xmit sl x).memalloc) (aoenet_xmit sl x).skbtxq) q.1
          ∙ ap (λ m. x.handed ++ map (with_flag m) (aoenet_xmit sl x).skbtxq) q.2
          ∙ ap (λ k. x.handed ++ map (with_flag x.memalloc) k) q.0,
      r.2 ∙ q.2,
    )
