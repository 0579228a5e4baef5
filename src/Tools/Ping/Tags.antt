-- ===== src/Tools/Ping/Tags.antt =====
-- The tags of what aoeping.c sends, and what the driver makes of the answers.
use aoe.Prelude.{
  ℕ, ◌+◌, ◌/◌, ◌%◌, ◌^◌, ◌≤◌, ◌<◌, ◌≡◌, inl, inr, refl, ◌∙◌, Bool, true, false, Option, none, some,
  List, [], ◌∷◌, length, Bool-cases, arith, ltb, ltb→lt, ◌||◌, All, ◌==◌,
}
use aoe.Types.{AoeHdr}
use aoe.Net.{rcv_hdr, ignored}
use aoe.Tools.{with_top}
use aoe.Tools.Socket.{Packet, Socket, Ran, stopped, ran, and_then, send, receive}
use aoe.Tools.Socket.Numbered.{
  Numbered, Sent, After, After-and_then, UpTo, UpTo-and_then, send-After, receive-After,
}
use aoe.Tools.Ping.{
  Progopts, Item, init_opts, find_blade, blade_query, disk_identify, identify_packet, aoe_pkt_read,
  smart_supported, data_of, ata_prep, ata_packet, Ata, no_ata, is_blade, is_from,
}
use aoe.Tools.Smart.{
  smart, smart_of, smart_packet, smart_registers, smartcmd_lookup, show_smart_regs, Smartcmd,
  exchanged, shown, with_data, sectors_of, no_data, put_data, ret_data, Transfer,
}
use aoe.Tools.Ping.Run.{Surroundings, one_more, smart_step, with_blade, has_smart, pinged, aoeping}

tag_query : (mac : ℕ) (o : Progopts) → (blade_query mac o).hdr.tag ≡ o.tag
unfolding blade_query
tag_query mac o = refl

find_blade-After :
    (mac : ℕ) (o : Progopts) (t : ℕ) (s : Socket)
    → o.tag ≡ (t + 0) % 2 ^ 32
    → Sent t 0 s
    → After t 1 3 (find_blade mac o s)
unfolding find_blade
find_blade-After mac o t s h k =
    After-and_then t 1 1 3 (send (blade_query mac o) s) (λ u s'. receive (is_blade o) s')
      (send-After t 0 3 (blade_query mac o) s (tag_query mac o ∙ h) (omega arith) k)
      (λ u s' k'. receive-After t 1 3 (is_blade o) s' (omega arith) k')

disk_identify-After :
    (mac t : ℕ) (c : Packet) (o : Progopts) (s : Socket)
    → o.tag ≡ (t + 1) % 2 ^ 32
    → Sent t 1 s
    → After t 2 3 (disk_identify mac c o s)
unfolding disk_identify aoe_pkt_read identify_packet ata_prep
disk_identify-After mac t c o s h k =
    After-and_then t 2 2 3 (send (identify_packet mac c o.tag) s)
      (λ u s1. and_then (aoe_pkt_read c o.tag s1) (λ p s2. ran (smart_supported (data_of p)) s2))
      (send-After t 1 3 (identify_packet mac c o.tag) s h (omega arith) k)
      (λ u s1 k1.
        After-and_then t 2 2 3 (aoe_pkt_read c o.tag s1)
          (λ p s2. ran (smart_supported (data_of p)) s2)
          (receive-After t 2 3 (is_from c o.tag) s1 (omega arith) k1) (λ p s2 k2. k2))

abbrev Tagged : ℕ → Option Packet → Type 0
Tagged tag none = Unit
Tagged tag (some q) = q.hdr.tag ≡ tag

data_Tagged :
    (tag : ℕ) (d : Transfer) (stdin : Option (List ℕ)) (h : AoeHdr) (a : Ata)
    → h.tag ≡ tag
    → Tagged tag (elim (with_data d stdin h a) [ none ↦ none | some r ↦ some (ata_packet r.0 r.1) ])
data_Tagged tag no_data stdin h a e = e
data_Tagged tag ret_data stdin h a e = e
data_Tagged tag put_data none h a e = tt
data_Tagged tag put_data (some bs) h a e = e

packet_Tagged :
    (strtol : List ℕ → ℕ) (stdin : Option (List ℕ)) (mac : ℕ) (c : Packet) (tag : ℕ) (nam : List ℕ)
    (s : Smartcmd)
    → Tagged tag (smart_packet strtol stdin mac c tag nam s)
unfolding smart_packet ata_prep
packet_Tagged strtol stdin mac c tag nam s =
    data_Tagged tag s.transfer stdin (ata_prep mac c tag)
      (smart_registers strtol nam s (record no_ata { sectors = sectors_of s.transfer; cmd = 0xb0 }))
      refl

shown-After :
    (t : ℕ) (s : Smartcmd) (p : Packet) (k : Socket) (o : Option (List ℕ))
    → Sent t 3 k
    → After t 3 3 (shown s p k o)
shown-After t s p k none h = (h.0, omega (arith, h.1))
shown-After t s p k (some regs) h = h

exchanged-After :
    (t : ℕ) (c : Packet) (tag : ℕ) (s : Smartcmd) (k : Socket) (o : Option Packet)
    → Tagged tag o
    → tag ≡ (t + 2) % 2 ^ 32
    → Sent t 2 k
    → After t 3 3 (exchanged c tag s k o)
unfolding aoe_pkt_read
exchanged-After t c tag s k none e h z = (z.0, omega (arith, z.1))
exchanged-After t c tag s k (some q) e h z =
    let read = λ (k1 : Socket).
      and_then (aoe_pkt_read c tag k1) (λ p k2. shown s p k2 (show_smart_regs p)) in
    After-and_then t 3 3 3 (send q k) (λ u k1. read k1)
      (send-After t 2 3 q k (e ∙ h) (omega arith) z)
      (λ u k1 z1.
        After-and_then t 3 3 3 (aoe_pkt_read c tag k1) (λ p k2. shown s p k2 (show_smart_regs p))
          (receive-After t 3 3 (is_from c tag) k1 (omega arith) z1)
          (λ p k2 z2. shown-After t s p k2 (show_smart_regs p) z2))

module _ (w : Surroundings) (t : ℕ) (c : Packet) where
  smart_of-After :
      (tag : ℕ) (nam : List ℕ) (k : Socket) (o : Option Smartcmd)
      → tag ≡ (t + 2) % 2 ^ 32
      → Sent t 2 k
      → After t 3 3 (smart_of w.strtol w.stdin w.mac c tag nam k o)
  smart_of-After tag nam k none h z = (z.0, omega (arith, z.1))
  smart_of-After tag nam k (some s) h z =
      exchanged-After t c tag s k (smart_packet w.strtol w.stdin w.mac c tag nam s)
        (packet_Tagged w.strtol w.stdin w.mac c tag nam s) h z

  smart-After :
      (tag : ℕ) (nam : List ℕ) (k : Socket)
      → tag ≡ (t + 2) % 2 ^ 32
      → Sent t 2 k
      → After t 3 3 (smart w.strtol w.stdin w.mac c tag nam k)
  unfolding smart
  smart-After tag nam k = smart_of-After tag nam k (smartcmd_lookup nam)

  smart_step-UpTo :
      (o : Progopts) (nam : Option (List ℕ)) (b : Bool) (k : Socket)
      → o.tag ≡ (t + 2) % 2 ^ 32
      → Sent t 2 k
      → UpTo t 3 (smart_step w c o nam b k)
  smart_step-UpTo o none b k h z = (z.0, omega (arith, z.1))
  smart_step-UpTo o (some nam) false k h z = (z.0, omega (arith, z.1))
  smart_step-UpTo o (some nam) true k h z =
      UpTo-and_then t 3 3 (smart w.strtol w.stdin w.mac c o.tag nam k) (λ r k'. ran tt k')
        (smart-After o.tag nam k h z) (λ r k' z'. (z'.0, omega (arith, z'.1)))

  with_blade-UpTo :
      (o : Progopts) (k : Socket)
      → o.tag ≡ (t + 1) % 2 ^ 32
      → Sent t 1 k
      → UpTo t 3 (with_blade w c o k)
  with_blade-UpTo o k h z = elim (Bool-cases (o.ata_ident || has_smart o.smart)) [
    | inl y ↦ rw y (
        UpTo-and_then t 2 3 (disk_identify w.mac c o k) (smart_step w c (one_more o) o.smart)
          (disk_identify-After w.mac t c o k h z)
          (λ b k' z'. smart_step-UpTo (one_more o) o.smart b k' (omega (arith, h)) z'))
    | inr n ↦ rw n (z.0, omega (arith, z.1))
  ]

-- What was sent, the last packet first.
abbrev pub sent_by : {A : Type 0} → Ran A → List Packet
sent_by (stopped e s) = s.sent
sent_by (ran a s) = s.sent

sent_UpTo :
    {A : Type 0} (t m : ℕ) (r : Ran A)
    → UpTo t m r
    → Numbered t (sent_by r) × (length (sent_by r) ≤ m)
sent_UpTo t m (stopped e s) h = h
sent_UpTo t m (ran a s) h = h

-- Whatever comes from the network, aoeping sends at most three packets, and their tags count up from
-- the first one, of 32 bits.
pub pinged_lem :
    (w : Surroundings) (o : Progopts) (k : Socket)
    → o.tag < 2 ^ 32
    → k.sent ≡ []
    → Numbered o.tag (sent_by (pinged w o k)) × (length (sent_by (pinged w o k)) ≤ 3)
unfolding pinged
pinged_lem w o k l h = sent_UpTo o.tag 3 (pinged w o k) (
    UpTo-and_then o.tag 1 3 (find_blade w.mac o k) (λ c k'. with_blade w c (one_more o) k')
      (find_blade-After w.mac o o.tag k (omega (arith, l)) (rw h (tt, refl)))
      (λ c k' z. with_blade-UpTo w o.tag c (one_more o) k' refl z))

-- The answers to tags from 2^31 on.
ignores :
    (t : ℕ) (ps : List Packet)
    → 2 ^ 31 ≤ t
    → t + length ps ≤ 2 ^ 32
    → Numbered t ps
    → All (λ p. (h : AoeHdr) → h.tag ≡ p.hdr.tag → rcv_hdr h ≡ ignored) ps
unfolding rcv_hdr
ignores t [] l m n = tt
ignores t (p ∷ ps) l m n = (
  (λ h e.
      let high : (h.tag / 2 ^ 31 % 2 == 0) ≡ false = ground (arith, e, n.0, l, m) in
      rw high (ground arith)),
  ignores t ps l (omega (arith, m)) n.1,
)

top_tag : (n : ℕ) → with_top n ≡ n % 2 ^ 31 + 2 ^ 31
top_tag n = elim (Bool-cases (ltb (n % 2 ^ 32) (2 ^ 31))) [
  | inl y ↦ rw y (let l = ltb→lt (n % 2 ^ 32) (2 ^ 31) y in omega (arith, l))
  | inr z ↦ rw z (let l : 2 ^ 31 ≤ n % 2 ^ 32 = ground (arith, z) in omega (arith, l))
]

-- aoeping and the driver on one host: unless the user starts the tags at one of the two highest
-- numbers of 31 bits, the driver ignores every answer to a packet of aoeping, whatever comes from
-- the network.
pub aoeping_lem :
    (w : Surroundings) (is : List Item) (args : Option (ℕ × ℕ)) (k : Socket) (o : Progopts)
    → k.sent ≡ []
    → init_opts is args ≡ inr o
    → o.tag % 2 ^ 31 + 2 < 2 ^ 31
    → All
        (λ p. (h : AoeHdr) → h.tag ≡ p.hdr.tag → rcv_hdr h ≡ ignored)
        (sent_by (aoeping w is args k))
unfolding aoeping
aoeping_lem w is args k o e i l =
    let e' = top_tag o.tag in
    let n = pinged_lem w (record o { tag = with_top o.tag }) k (omega (arith, e')) e in
    rw i (
      ignores (with_top o.tag) (sent_by (pinged w (record o { tag = with_top o.tag }) k))
        (omega (arith, e')) (omega (arith, e', l, n.1)) n.0)
