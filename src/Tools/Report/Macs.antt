-- ===== src/Tools/Report/Macs.antt =====
-- The addresses and interfaces that a report counts: `insertmac`, the first loop of `sancheck`.
use aoe.Prelude.{
  ℕ, ◌+◌, ◌≡◌, ◌↔◌, ◌⊎◌, inl, inr, refl, ap, sym, ◌∙◌, Bool, true, List, [], ◌∷◌, ◌++◌, arith, ◌==◌,
  ==_iff, if◌then◌else◌, Bool-cases, length, length-append, count, Among, IsDistinct,
}
use mathlib.Core.Path.{subst}
use aoe.Tools.San.{Lun, Targ}
use aoe.Tools.Report.{
  Eth, Summary, nothing_found, is_of, insertmac, count_lun, count_luns, has_path, count_eth,
  summary_from, summary,
}

insert-Among : (m x : ℕ) (ms : List ℕ) → Among x (insertmac ms m) ↔ (Among x ms ⊎ (x ≡ m))
unfolding insertmac
insert-Among m x [] = (
  λ a. elim a [ inl e ↦ inr e | inr n ↦ inr (absurd n) ],
  λ b. elim b [ inl n ↦ inr n | inr e ↦ inl e ],
)
insert-Among m x (p ∷ ps) = elim (Bool-cases (p == m)) [
  | inl y ↦
      let e = (==_iff p m).0 y in rw y (inl, λ b. elim b [ inl a ↦ a | inr f ↦ inl (f ∙ sym e) ])
  | inr n ↦
      let r = insert-Among m x ps in
      rw n (
        λ a. elim a [
          | inl e ↦ inl (inl e)
          | inr a' ↦ elim (r.0 a') [ inl h ↦ inl (inr h) | inr h ↦ inr h ]
        ],
        λ b. elim b [
          | inl h ↦ elim h [ inl e ↦ inl e | inr a' ↦ inr (r.1 (inl a')) ]
          | inr h ↦ inr (r.1 (inr h))
        ],
      )
]

insert-IsDistinct : (m : ℕ) (ms : List ℕ) → IsDistinct ms → IsDistinct (insertmac ms m)
unfolding insertmac
insert-IsDistinct m [] d = ((λ a. a), tt)
insert-IsDistinct m (p ∷ ps) d = elim (Bool-cases (p == m)) [
  | inl y ↦ rw y d
  | inr n ↦ rw n (
    (λ a. elim ((insert-Among m p ps).0 a) [
      | inl h ↦ d.0 h
      | inr e ↦ absurd (cc (n, (==_iff p m).1 e))
    ]),
    insert-IsDistinct m ps d.1,
  )
]

-- The address is that of a path to the target.
abbrev pub AtLuns : ℕ → Targ → List Lun → Type 0
AtLuns x t [] = ⊥
AtLuns x t (l ∷ ls) = ((is_of t l ≡ true) × (x ≡ l.ea)) ⊎ AtLuns x t ls

abbrev pub AtEths : ℕ → Targ → List Eth → Type 0
AtEths x t [] = ⊥
AtEths x t (e ∷ es) = AtLuns x t e.luns ⊎ AtEths x t es

iff_trans {ℓ} : {A B C : Type ℓ} → A ↔ B → B ↔ C → A ↔ C
iff_trans f g = (λ a. g.0 (f.0 a), λ c. f.1 (g.1 c))

-- A first alternative that is split, and the second joined to the third.
regroup {ℓ} : {A B C D E : Type ℓ} → A ↔ (B ⊎ C) → (C ⊎ D) ↔ E → (A ⊎ D) ↔ (B ⊎ E)
regroup f g = (
  λ h. elim h [
    | inl a ↦ elim (f.0 a) [ inl b ↦ inl b | inr c ↦ inr (g.0 (inl c)) ]
    | inr d ↦ inr (g.0 (inr d))
  ],
  λ h. elim h [
    | inl b ↦ inl (f.1 (inl b))
    | inr e ↦ elim (g.1 e) [ inl c ↦ inl (f.1 (inr c)) | inr d ↦ inr d ]
  ],
)

luns-Among :
    (t : Targ) (mtu x : ℕ) (ls : List Lun) (s : Summary)
    → Among x (count_luns t mtu ls s).macs ↔ (Among x s.macs ⊎ AtLuns x t ls)
unfolding count_luns count_lun
luns-Among t mtu x [] s = (inl, λ h. elim h [ inl a ↦ a | inr n ↦ absurd n ])
luns-Among t mtu x (l ∷ ls) s = elim (Bool-cases (is_of t l)) [
  | inl y ↦
      let rest = luns-Among t mtu x ls (count_lun mtu l s) in
      rw y (
        iff_trans rest (
          regroup (insert-Among l.ea x s.macs) (
            (λ h. elim h [ inl e ↦ inl (refl, e) | inr a ↦ inr a ]),
            (λ h. elim h [ inl p ↦ inl p.1 | inr a ↦ inr a ]),
          )))
  | inr n ↦
      let rest = luns-Among t mtu x ls s in
      rw n (
        (λ h. elim (rest.0 h) [ inl a ↦ inl a | inr b ↦ inr (inr b) ]),
        (λ h. rest.1 (elim h [
          | inl a ↦ inl a
          | inr q ↦ inr (elim q [ inl p ↦ absurd (cc p.0) | inr b ↦ b ])
        ])),
      )
]

luns-IsDistinct :
    (t : Targ) (mtu : ℕ) (ls : List Lun) (s : Summary)
    → IsDistinct s.macs
    → IsDistinct (count_luns t mtu ls s).macs
unfolding count_luns count_lun
luns-IsDistinct t mtu [] s d = d
luns-IsDistinct t mtu (l ∷ ls) s d = elim (Bool-cases (is_of t l)) [
  | inl y ↦ rw y (luns-IsDistinct t mtu ls (count_lun mtu l s) (insert-IsDistinct l.ea s.macs d))
  | inr n ↦ rw n (luns-IsDistinct t mtu ls s d)
]

luns-names :
    (t : Targ) (mtu : ℕ) (ls : List Lun) (s : Summary) → (count_luns t mtu ls s).names ≡ s.names
unfolding count_luns count_lun
luns-names t mtu [] s = refl
luns-names t mtu (l ∷ ls) s = elim (Bool-cases (is_of t l)) [
  | inl y ↦ rw y (luns-names t mtu ls (count_lun mtu l s))
  | inr n ↦ rw n (luns-names t mtu ls s)
]

-- An interface's count is that of its luns, and its name if it has a path.
eth_counts :
    (t : Targ) (e : Eth) (s : Summary)
    → ((count_eth t e s).macs ≡ (count_luns t e.mtu e.luns s).macs)
      × (length (count_eth t e s).names ≡ length s.names + (if has_path t e.luns then 1 else 0))
unfolding count_eth
eth_counts t e s =
    let same = luns-names t e.mtu e.luns s in
    elim (Bool-cases (has_path t e.luns)) [
      | inl y ↦
          rw y
            (refl, ap (λ ns. length (ns ++ e.name ∷ [])) same ∙ length-append s.names (e.name ∷ []))
      | inr n ↦ rw n (refl, omega (arith, ap length same))
    ]

abbrev has_path_to : Targ → Eth → Bool
has_path_to t e = has_path t e.luns

summary_counts :
    (t : Targ) (es : List Eth) (s : Summary)
    → IsDistinct s.macs
    → IsDistinct (summary_from t es s).macs
      × ((x : ℕ) → Among x (summary_from t es s).macs ↔ (Among x s.macs ⊎ AtEths x t es))
      × (length (summary_from t es s).names ≡ length s.names + count (has_path_to t) es)
unfolding summary_from
summary_counts t [] s d = (d, λ x. (inl, λ h. elim h [ inl a ↦ a | inr n ↦ absurd n ]), omega arith)
summary_counts t (e ∷ es) s d =
    let c = eth_counts t e s in
    let r =
      summary_counts t es (count_eth t e s)
        (subst IsDistinct (sym c.0) (luns-IsDistinct t e.mtu e.luns s d)) in
    (
      r.0,
      λ x. iff_trans (r.1 x) (
          regroup
            (subst (λ ms. Among x ms ↔ (Among x s.macs ⊎ AtLuns x t e.luns)) (sym c.0)
              (luns-Among t e.mtu x e.luns s))
            ((λ h. h), (λ h. h))),
      omega (arith, r.2, c.1),
    )

-- The first loop of `sancheck` counts each address of the target once, whatever number of interfaces
-- see it, and counts the addresses of all paths to the target and no others; and it names as many
-- interfaces as have a path.
pub summary_lem :
    (t : Targ) (es : List Eth)
    → IsDistinct (summary t es).macs
      × ((x : ℕ) → Among x (summary t es).macs ↔ AtEths x t es)
      × (length (summary t es).names ≡ count (λ e. has_path t e.luns) es)
unfolding summary
summary_lem t es =
    let r = summary_counts t es nothing_found tt in
    (
      r.0,
      λ x. iff_trans (r.1 x) ((λ h. elim h [ inl n ↦ absurd n | inr a ↦ a ]), inr),
      omega (arith, r.2),
    )
