-- ===== src/Cfg/Broadcast.antt =====
-- Whom a config query goes to: `aoecmd_cfg_pkts`.
use aoe.Prelude.{
  ℕ, suc, ◌+◌, ◌≤◌, ◌≡◌, refl, ap, sym, ◌∙◌, Bool, true, false, Option, none, some, List, [], ◌∷◌,
  arith, ◌==◌, if◌then◌else◌, length, count, All, Bool-cases, inl, inr,
}
use aoe.Types.{Skb, Env, Kern}
use aoe.Frames.{new_skb}
use aoe.Cfg.{linked, cfg_pkts_from, aoecmd_cfg_pkts}

-- The packet is a query for the address, to everybody, from an interface that the driver may use.
abbrev pub IsQuery : Env → (ℕ → Bool) → ℕ → ℕ → Skb → Type 0
IsQuery e is_aoe_netif maj min q =
    (ifp : ℕ) × (is_aoe_netif ifp ≡ true)
    × (q.dev ≡ some ifp)
    × (q.hdr.src ≡ e.dev_addr ifp)
    × (q.hdr.dst ≡ 0xffffffffffff)
    × ((q.hdr.major ≡ maj) × (q.hdr.minor ≡ min) × (q.hdr.cmd ≡ 1))

abbrev pub is_from : ℕ → Skb → Bool
is_from ifp q = elim q.dev [ none ↦ false | some i ↦ i == ifp ]

abbrev IsTrue : Bool → Type 0
IsTrue b = b ≡ true

-- So many allocations to come succeed.
abbrev pub Succeed : ℕ → Kern → Type 0
Succeed n k = All IsTrue k.allocs × (n ≤ length k.allocs)

module _ (e : Env) (is_aoe_netif : ℕ → Bool) (maj min : ℕ) where
  linked-IsQuery :
      (ifp : ℕ) (o : Option Skb) (sl : List Skb)
      → is_aoe_netif ifp ≡ true
      → All (IsQuery e is_aoe_netif maj min) sl
      → All (IsQuery e is_aoe_netif maj min) (linked e maj min ifp o sl)
  linked-IsQuery ifp none sl y h = h
  linked-IsQuery ifp (some skb) sl y h = ((ifp, y, refl, refl, refl, (refl, refl, refl)), h)

  pkts-IsQuery :
      (ifps : List ℕ) (sl : List Skb) (k : Kern)
      → All (IsQuery e is_aoe_netif maj min) sl
      → All (IsQuery e is_aoe_netif maj min) (cfg_pkts_from e is_aoe_netif maj min ifps sl k).0
  unfolding cfg_pkts_from
  pkts-IsQuery [] sl k h = h
  pkts-IsQuery (ifp ∷ ifps) sl k h =
      let r = new_skb k in
      elim (Bool-cases (is_aoe_netif ifp)) [
        | inl y ↦
            rw y
              (pkts-IsQuery ifps (linked e maj min ifp r.0 sl) r.1 (linked-IsQuery ifp r.0 sl y h))
        | inr n ↦ rw n (pkts-IsQuery ifps sl k h)
      ]

  -- A new skb, where the allocation succeeds.
  new_one :
      (k : Kern) (oks : List Bool) (n ifp i : ℕ) (sl : List Skb)
      → let k' : Kern = record k { allocs = oks } in
        Succeed (suc n) k'
        → Succeed n (new_skb k').1
          × (count (is_from i) (linked e maj min ifp (new_skb k').0 sl)
              ≡ (if ifp == i then 1 else 0) + count (is_from i) sl)
  unfolding new_skb
  new_one k [] n ifp i sl h = absurd (omega (arith, h.1))
  new_one k (true ∷ oks) n ifp i sl h = ((h.0.1, omega (arith, h.1)), refl)
  new_one k (false ∷ oks) n ifp i sl h = absurd (cc h.0.0)

  not_it : (ifp i : ℕ) → is_aoe_netif ifp ≡ false → is_aoe_netif i ≡ true → (ifp == i) ≡ false
  not_it ifp i n y = elim (Bool-cases (ifp == i)) [
    | inl h ↦ let same : ifp ≡ i = ground arith in absurd (cc (sym n ∙ ap is_aoe_netif same ∙ y))
    | inr h ↦ h
  ]

  count-pkts :
      (i : ℕ) (ifps : List ℕ) (sl : List Skb) (k : Kern)
      → is_aoe_netif i ≡ true
      → Succeed (length ifps) k
      → count (is_from i) (cfg_pkts_from e is_aoe_netif maj min ifps sl k).0
        ≡ count (λ j. j == i) ifps + count (is_from i) sl
  unfolding cfg_pkts_from
  count-pkts i [] sl k y h = omega arith
  count-pkts i (ifp ∷ ifps) sl k y h =
      let (o, k') = new_skb k in
      elim (Bool-cases (is_aoe_netif ifp)) [
        | inl z ↦
            let r = new_one k k.allocs (length ifps) ifp i sl h in
            rw z (omega (arith, r.1, count-pkts i ifps (linked e maj min ifp o sl) k' y r.0))
        | inr z ↦
            rw (z, not_it ifp i z y)
              (omega (arith, count-pkts i ifps sl k y (h.0, omega (arith, h.1))))
      ]

-- Every packet of `aoecmd_cfg_pkts` is a query for the address, sent to everybody, from an interface
-- that the driver may use; and where no allocation fails, each such interface of the list has one.
pub cfg_pkts_lem :
    (e : Env) (is_aoe_netif : ℕ → Bool) (netdevs : List ℕ) (maj min : ℕ) (k : Kern)
    → All (IsQuery e is_aoe_netif maj min) (aoecmd_cfg_pkts e is_aoe_netif netdevs maj min k).0
      × ((i : ℕ)
          → is_aoe_netif i ≡ true
          → Succeed (length netdevs) k
          → count (is_from i) (aoecmd_cfg_pkts e is_aoe_netif netdevs maj min k).0
            ≡ count (λ j. j == i) netdevs)
unfolding aoecmd_cfg_pkts
cfg_pkts_lem e is_aoe_netif netdevs maj min k = (
  pkts-IsQuery e is_aoe_netif maj min netdevs [] k tt,
  λ i y h. omega (arith, count-pkts e is_aoe_netif maj min i netdevs [] k y h),
)
