-- ===== src/Net/Transmit.antt =====
-- The transmitter, aoenet.c: `aoenet_xmit`, `tx`, and the module's text of `aoe_iflist_setup`. What
-- comes into the queue while `tx` has let go of the lock stands at the queue's end from the start.
pub mod Fifo
use aoe.Prelude.{
  ℕ, Bool, true, false, Option, none, some, List, [], ◌∷◌, ◌++◌, ◌&&◌, not, if◌then◌else◌,
}
use aoe.Types.{Skb}
use aoe.Flush.{taken}

-- `skbtxq`; whether PF_MEMALLOC is set for the thread; the packets handed to the devices, with that
-- flag as it was then; and the interfaces of which a warning told.
pub record Transmitter : Type 0 where
  pub skbtxq : List Skb
  pub memalloc : Bool
  pub handed : List (Skb × Bool)
  pub warned : List (Option ℕ)

-- What the kernel says of a packet: it is dropped, and a message may be printed.
pub record Fates : Type 0 where
  pub drops : Skb → Bool
  pub net_ratelimit : Skb → Bool

-- `aoenet_xmit` of a list of packets.
unfoldable pub aoenet_xmit : List Skb → Transmitter → Transmitter
aoenet_xmit [] x = x
aoenet_xmit (s ∷ sl) x = aoenet_xmit sl (record x { skbtxq = x.skbtxq ++ s ∷ [] })

-- `changef`: the flag is to be set for this packet.
abbrev pub changef : Transmitter → Skb → Bool
changef x s = if x.memalloc then false else s.ata.write

abbrev pub set_flag : Bool → Bool → Transmitter → Transmitter
set_flag change value x = if change then record x { memalloc = value } else x

abbrev pub dev_queue_xmit : Skb → Transmitter → Transmitter
dev_queue_xmit s x = record x { handed = x.handed ++ (s, x.memalloc) ∷ [] }

abbrev pub warn : Fates → Skb → Transmitter → Transmitter
warn f s x =
    if f.drops s && f.net_ratelimit s then record x { warned = x.warned ++ s.dev ∷ [] } else x

-- One turn of `tx`.
unfoldable pub tx_one : Fates → Skb → Transmitter → Transmitter
tx_one f s x =
    let c = changef x s in set_flag c false (warn f s (dev_queue_xmit s (set_flag c true x)))

unfoldable pub tx_loop : Fates → List Skb → Transmitter → Transmitter
unfolding tx_one
tx_loop f [] x = x
tx_loop f (s ∷ q) x = tx_loop f q (tx_one f s (record x { skbtxq = q }))

-- `tx`.
unfoldable pub tx : Fates → Transmitter → Transmitter
unfolding tx_loop
tx f x = tx_loop f x.skbtxq x

-- `aoe_iflist_setup`: what fits in front of the NUL.
abbrev pub aoe_iflist_setup : List ℕ → List ℕ
aoe_iflist_setup str = taken 1023 str
