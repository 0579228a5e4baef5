-- ===== src/Flush/Frees.antt =====
-- What a device that goes gives back, aoedev.c: `skbfree`, `skbpoolfree`, `freetgt`. Whether the
-- network layer still holds an skb's data is asked again after each sleep, and each answer is an
-- argument.
pub mod Waits
pub mod Given
use aoe.Prelude.{
  ℕ, zero, suc, Bool, true, false, Option, none, some, List, [], ◌∷◌, if◌then◌else◌, map,
}
use aoe.Types.{AoeTgt, AoeIf, Frame, Skb, AoeDev}

-- What becomes of an skb: nothing where there is none; free after so many sleeps of 250 ms; or it
-- leaks.
pub data Fate : Type 0 where
  no_skb : Fate
  free_after : ℕ → Fate
  leaked : Fate

-- `Tms / Sms`.
abbrev pub most_sleeps : ℕ
most_sleeps = 120

-- The loop of `skbfree`, with `i` sleeps left, behind `k`.
unfoldable pub free_loop : ℕ → ℕ → (ℕ → Bool) → Fate
free_loop zero k holds = if holds k then leaked else free_after k
free_loop (suc i) k holds =
    let rest = free_loop i (suc k) holds in if holds k then rest else free_after k

unfoldable pub skbfree : Option Skb → (ℕ → Bool) → Fate
unfolding free_loop
skbfree none holds = no_skb
skbfree (some s) holds = free_loop most_sleeps 0 holds

abbrev pub pool_fate : (ℕ → ℕ → Bool) → Skb → Fate
pool_fate holds s = skbfree (some s) (holds s.id)

-- `skbpoolfree`: what becomes of the pool's skbs, and the device without them.
unfoldable pub skbpoolfree : (ℕ → ℕ → Bool) → AoeDev → List Fate × AoeDev
unfolding skbfree
skbpoolfree holds d = (map (pool_fate holds) d.skbpool, record d { skbpool = [] })

-- The interfaces that are given back, up to the first place that is not set.
unfoldable pub put_ifs : List AoeIf → List ℕ
put_ifs [] = []
put_ifs (i ∷ ifs) = elim i.nd [ none ↦ [] | some nd ↦ nd ∷ put_ifs ifs ]

abbrev pub frame_fate : (ℕ → ℕ → Bool) → Frame → Fate
frame_fate holds f = elim f.skb [ none ↦ no_skb | some s ↦ skbfree (some s) (holds s.id) ]

-- `freetgt`: the interfaces that it gives back, and what becomes of the free frames' skbs.
unfoldable pub freetgt : (ℕ → ℕ → Bool) → AoeTgt → List ℕ × List Fate
unfolding put_ifs skbfree
freetgt holds t = (put_ifs t.ifs, map (frame_fate holds) t.ffree)
