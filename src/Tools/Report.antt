-- ===== src/Tools/Report.antt =====
-- What aoe-sancheck.c reports: `inserteth`, `ethlist`, `insertmac`, `sancheck`, `printsancheck`,
-- `cea`. A text is a list of bytes, and a report is a list of what its lines say.
pub mod Macs
pub mod Paths
pub mod Names
use aoe.Prelude.{
  ℕ, zero, suc, ◌+◌, ◌-◌, ◌*◌, ◌/◌, ◌%◌, ◌^◌, Bool, true, false, Option, none, some, List, [], ◌∷◌,
  ◌++◌, ltb, ◌==◌, ◌&&◌, ◌||◌, ◌>>=◌, not, if◌then◌else◌, length,
}
use aoe.Tools.San.{Lun, Targ}

-- An interface: its luns, its name, its MTU and whether it is up.
pub record Eth : Type 0 where
  pub luns : List Lun
  pub name : List ℕ
  pub mtu : ℕ
  pub up : Bool

-- What `strcmp` says of two texts.
pub data Cmp : Type 0 where
  below : Cmp
  equal : Cmp
  above : Cmp

unfoldable pub strcmp : List ℕ → List ℕ → Cmp
strcmp [] [] = equal
strcmp [] (b ∷ bs) = below
strcmp (a ∷ as') [] = above
strcmp (a ∷ as') (b ∷ bs) =
    let rest = strcmp as' bs in if ltb a b then below else if ltb b a then above else rest

-- `inserteth` into the names at the front of an array that has room for `room` more. A name that
-- comes before another moves all behind it on by one; none is a write behind the array's end.
abbrev pub cons_to : List ℕ → Option (List (List ℕ)) → Option (List (List ℕ))
cons_to n none = none
cons_to n (some ns) = some (n ∷ ns)

abbrev pub moved : ℕ → List ℕ → List (List ℕ) → Option (List (List ℕ))
moved zero n ns = none
moved (suc room) n ns = some (n ∷ ns)

abbrev pub at_end : ℕ → List ℕ → List (List ℕ)
at_end zero n = []
at_end (suc room) n = n ∷ []

unfoldable pub inserteth : ℕ → List ℕ → List (List ℕ) → Option (List (List ℕ))
unfolding strcmp
inserteth room n [] = some (at_end room n)
inserteth room n (m ∷ ms) =
    let rest = cons_to m (inserteth room n ms) in
    elim (strcmp n m) [ below ↦ moved room n (m ∷ ms) | equal ↦ some (m ∷ ms) | above ↦ rest ]

-- The names that begin with "eth".
abbrev pub is_eth : List ℕ → Bool
is_eth (a ∷ b ∷ c ∷ cs) = a == 101 && b == 116 && c == 104
is_eth cs = false

-- `ethlist` over the names that the kernel has for the first `nifs` indices.
unfoldable pub ethlist_from : ℕ → List (Option (List ℕ)) → List (List ℕ) → Option (List (List ℕ))
unfolding inserteth
ethlist_from nifs [] ifs = some ifs
ethlist_from nifs (none ∷ names) ifs = ethlist_from nifs names ifs
ethlist_from nifs (some n ∷ names) ifs =
    let kept = ethlist_from nifs names ifs in
    let added = inserteth (nifs - length ifs) n ifs >>= ethlist_from nifs names in
    if is_eth n then added else kept

-- `cea`: the twelve digits of an address.
abbrev pub hex : ℕ → ℕ
hex d = if ltb d 10 then 48 + d else 87 + d

unfoldable pub cea_from : ℕ → ℕ → List ℕ → List ℕ
cea_from zero ea acc = acc
cea_from (suc n) ea acc = cea_from n (ea / 2 ^ 4) (hex (ea % 2 ^ 4) ∷ acc)

unfoldable pub cea : ℕ → List ℕ
unfolding cea_from
cea ea = cea_from 12 ea []

unfoldable pub insertmac : List ℕ → ℕ → List ℕ
insertmac [] m = m ∷ []
insertmac (p ∷ ps) m = let rest = insertmac ps m in if p == m then p ∷ ps else p ∷ rest

abbrev pub is_of : Targ → Lun → Bool
is_of t l = l.major == t.major && l.minor == t.minor

-- What the first loop of `sancheck` collects: the greatest MTU, the least payload that gets through,
-- the sectors of the last lun, the target's addresses, and the names of the interfaces with a path.
pub record Summary : Type 0 where
  pub mtu : ℕ
  pub ps : ℕ
  pub nsect : ℕ
  pub macs : List ℕ
  pub names : List (List ℕ)

abbrev pub nothing_found : Summary
nothing_found = record { mtu = 0; ps = 0; nsect = 0; macs = []; names = [] }

abbrev pub greater : ℕ → ℕ → ℕ
greater a b = if ltb b a then a else b

unfoldable pub count_lun : ℕ → Lun → Summary → Summary
unfolding insertmac
count_lun mtu l s = record s {
  mtu = if s.mtu == 0 then mtu else greater mtu s.mtu;
  ps = if s.ps == 0 then l.maxsect else if ltb l.maxsect s.ps then l.maxsect else s.ps;
  nsect = l.nsect;
  macs = insertmac s.macs l.ea;
}

unfoldable pub count_luns : Targ → ℕ → List Lun → Summary → Summary
unfolding count_lun
count_luns t mtu [] s = s
count_luns t mtu (l ∷ ls) s =
    let counted = count_luns t mtu ls (count_lun mtu l s) in
    let skipped = count_luns t mtu ls s in if is_of t l then counted else skipped

unfoldable pub has_path : Targ → List Lun → Bool
has_path t [] = false
has_path t (l ∷ ls) = let rest = has_path t ls in is_of t l || rest

unfoldable pub count_eth : Targ → Eth → Summary → Summary
unfolding count_luns has_path
count_eth t e s =
    let s' = count_luns t e.mtu e.luns s in
    if has_path t e.luns then record s' { names = s'.names ++ e.name ∷ [] } else s'

unfoldable pub summary_from : Targ → List Eth → Summary → Summary
unfolding count_eth
summary_from t [] s = s
summary_from t (e ∷ es) s = summary_from t es (count_eth t e s)

unfoldable pub summary : Targ → List Eth → Summary
unfolding summary_from
summary t es = summary_from t es nothing_found

-- A line of the report. The first of a target has the number of its addresses, the payload that it
-- announces and its interfaces' names.
pub data Line : Type 0 where
  device : Targ → ℕ → ℕ → List (List ℕ) → Line
  mismatched : Line
  limited : List ℕ → ℕ → ℕ → Line
  not_optimal : List ℕ → ℕ → Line
  differs : List ℕ → ℕ → ℕ → Line

abbrev pub when : Bool → Line → List Line → List Line
when true l ls = l ∷ ls
when false l ls = ls

-- The paths of an interface that let less through than its MTU allows; the headers are taken for
-- 32 bytes here.
unfoldable pub limits : Targ → Eth → List Lun → List Line
limits t e [] = []
limits t e (l ∷ ls) =
    when (is_of t l && ltb l.maxsect ((e.mtu - 32) / 512)) (limited e.name l.ea (l.maxsect * 512))
      (limits t e ls)

unfoldable pub remarks : Targ → Summary → List Eth → List Line
unfolding limits has_path
remarks t s [] = []
remarks t s (e ∷ es) =
    let rest = remarks t s es in
    let of_mtu =
      when (ltb e.mtu (s.nsect * 512 + 36)) (not_optimal e.name e.mtu)
        (when (ltb e.mtu s.mtu) (differs e.name e.mtu s.mtu) rest) in
    limits t e e.luns ++ (if has_path t e.luns then of_mtu else rest)

-- `sancheck` of a target.
unfoldable pub sancheck : Targ → List Eth → List Line
unfolding summary remarks
sancheck t es =
    let s = summary t es in
    device t (length s.macs) (s.nsect * 512) s.names
    ∷ when (not (length s.macs == length s.names)) mismatched (remarks t s es)

-- `printsancheck`.
unfoldable pub printsancheck : List Targ → List Eth → List Line
unfolding sancheck
printsancheck [] es = []
printsancheck (t ∷ ts) es = sancheck t es ++ printsancheck ts es
