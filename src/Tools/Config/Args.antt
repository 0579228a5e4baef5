-- ===== src/Tools/Config/Args.antt =====
-- `main` of aoecfg.c up to `dial`: the options that `getopt` finds, and the words behind them.
use aoe.Prelude.{
  ℕ, ◌%◌, ◌^◌, Bool, false, Option, none, some, List, [], ◌∷◌, leb, ◌&&◌, ◌<◌, ◌≡◌, inl, inr, refl,
  Bool-cases, ◌>>=◌, arith, if◌then◌else◌,
}
use mathlib.Core.Path.{subst}
use aoe.Tools.Config.{tab, xlatecmd}
use aoe.Tools.Config.Words.{HasRow, xlatecmd_lem}

pub data Item : Type 0 where
  command : List ℕ → Item
  string : List ℕ → Item
  seconds : ℕ → Item
  other : Item

-- What is asked of whom; everybody, of "eth0", unless the words say else.
pub record Query : Type 0 where
  pub cmd : ℕ
  pub cfgstr : List ℕ
  pub timeout : ℕ
  pub shelf : ℕ
  pub slot : ℕ
  pub net : List ℕ

abbrev pub no_query : Query
no_query = record {
  cmd = 0;
  cfgstr = [];
  timeout = 0;
  shelf = 0xffff;
  slot = 0xff;
  net = 101 ∷ 116 ∷ 104 ∷ 48 ∷ [];
}

-- The loop over the options; none is the end with the usage.
unfoldable pub options : List Item → Query → Option Query
options [] q = some q
options (command t ∷ is) q = xlatecmd t >>= (λ c. options is (record q { cmd = c }))
options (string t ∷ is) q = options is (record q { cfgstr = t })
options (seconds n ∷ is) q = options is (record q { timeout = n })
options (other ∷ is) q = none

abbrev pub starts_with_digit : List ℕ → Bool
starts_with_digit [] = false
starts_with_digit (c ∷ cs) = leb 48 c && leb c 57

abbrev pub with_net : List ℕ → Query → Option Query
with_net net q = if starts_with_digit net then none else some (record q { net = net })

-- The words; `strtoul` of a word is an argument.
unfoldable pub words : (List ℕ → ℕ) → List (List ℕ) → Query → Option Query
words strtoul [] q = some q
words strtoul (net ∷ []) q = with_net net q
words strtoul (shelf ∷ slot ∷ []) q =
    some (record q { shelf = strtoul shelf % 2 ^ 16; slot = strtoul slot % 2 ^ 8 })
words strtoul (shelf ∷ slot ∷ net ∷ []) q =
    with_net net (record q { shelf = strtoul shelf % 2 ^ 16; slot = strtoul slot % 2 ^ 8 })
words strtoul (shelf ∷ slot ∷ net ∷ more ∷ rest) q = none

unfoldable pub asked : (List ℕ → ℕ) → List Item → List (List ℕ) → Option Query
asked strtoul is ws = options is no_query >>= words strtoul ws

-- What a query asks for: a device's place is in 16 and 8 bits, and the command is one of five.
abbrev pub InRange : Option Query → Type 0
InRange none = Unit
InRange (some q) = (q.shelf < 2 ^ 16) × (q.slot < 2 ^ 8) × (q.cmd < 5)

xlatecmd-less : (t : List ℕ) (c : ℕ) → xlatecmd t ≡ some c → c < 5
unfolding xlatecmd
xlatecmd-less t c h = in_table ((xlatecmd_lem t c).0 h)
  where
    in_table : HasRow t c tab → c < 5
    in_table (inl r) = omega (arith, r.1)
    in_table (inr (inl r)) = omega (arith, r.1)
    in_table (inr (inr (inl r))) = omega (arith, r.1)
    in_table (inr (inr (inr (inl r)))) = omega (arith, r.1)
    in_table (inr (inr (inr (inr (inl r))))) = omega (arith, r.1)
    in_table (inr (inr (inr (inr (inr r))))) = absurd r

and_InRange :
    {A : Type 0} (o : Option A) (k : A → Option Query)
    → ((a : A) → o ≡ some a → InRange (k a))
    → InRange (o >>= k)
and_InRange none k f = tt
and_InRange (some a) k f = f a refl

options-InRange : (is : List Item) (q : Query) → InRange (some q) → InRange (options is q)
unfolding options
options-InRange [] q h = h
options-InRange (command t ∷ is) q h =
    and_InRange (xlatecmd t) (λ c. options is (record q { cmd = c }))
      (λ c e. options-InRange is (record q { cmd = c }) (h.0, h.1, xlatecmd-less t c e))
options-InRange (string t ∷ is) q h = options-InRange is (record q { cfgstr = t }) h
options-InRange (seconds n ∷ is) q h = options-InRange is (record q { timeout = n }) h
options-InRange (other ∷ is) q h = tt

with_net-InRange : (net : List ℕ) (q : Query) → InRange (some q) → InRange (with_net net q)
with_net-InRange net q h = elim (Bool-cases (starts_with_digit net)) [
  | inl y ↦ rw y tt
  | inr n ↦ rw n h
]

words-InRange :
    (strtoul : List ℕ → ℕ) (ws : List (List ℕ)) (q : Query)
    → InRange (some q)
    → InRange (words strtoul ws q)
unfolding words
words-InRange strtoul [] q h = h
words-InRange strtoul (net ∷ []) q h = with_net-InRange net q h
words-InRange strtoul (shelf ∷ slot ∷ []) q h = (omega arith, omega arith, h.2)
words-InRange strtoul (shelf ∷ slot ∷ net ∷ []) q h =
    with_net-InRange net (record q { shelf = strtoul shelf % 2 ^ 16; slot = strtoul slot % 2 ^ 8 })
      (omega arith, omega arith, h.2)
words-InRange strtoul (shelf ∷ slot ∷ net ∷ more ∷ rest) q h = tt

-- Whatever the user writes, and whatever `strtoul` makes of it, the query that aoecfg sends has a
-- shelf, a slot and a command that fit into their fields.
pub asked-InRange :
    (strtoul : List ℕ → ℕ) (is : List Item) (ws : List (List ℕ)) → InRange (asked strtoul is ws)
unfolding asked
asked-InRange strtoul is ws = and_InRange (options is no_query) (words strtoul ws) (λ q e.
    words-InRange strtoul ws q
      (subst InRange e (options-InRange is no_query (omega arith, omega arith, omega arith))))
