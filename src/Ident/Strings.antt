-- ===== src/Ident/Strings.antt =====
-- The text of an identification: the bytes of each word change places.
use aoe.Prelude.{
  ℕ, zero, suc, ◌+◌, ◌-◌, ◌*◌, ◌%◌, ◌≤◌, ◌≡◌, refl, ap, sym, ◌∙◌, Bool, List, [], ◌∷◌, arith,
  length, get_or, ltb, leb, ◌==◌, ◌&&◌, ◌||◌, if◌then◌else◌,
}
use aoe.Ident.{ata_ident_fixstring, fix_from, fix_strings}

-- Where a byte comes from: in the first `ns` words, from its word's other byte.
abbrev pub partner : ℕ → ℕ → ℕ
partner i ns = if ltb i (2 * ns) then (if i % 2 == 0 then i + 1 else i - 1) else i

fixstring-length : (id : List ℕ) (ns : ℕ) → length (ata_ident_fixstring id ns) ≡ length id
unfolding ata_ident_fixstring
fixstring-length [] ns = refl
fixstring-length (a ∷ []) ns = refl
fixstring-length (a ∷ b ∷ id) zero = refl
fixstring-length (a ∷ b ∷ id) (suc ns) = omega (arith, fixstring-length id ns)

partner-zero : (i : ℕ) → partner i 0 ≡ i
partner-zero i = ground arith

partner_even : (ns : ℕ) → partner 0 (suc ns) ≡ 1
partner_even ns = ground arith

partner_odd : (ns : ℕ) → partner 1 (suc ns) ≡ 0
partner_odd ns = ground arith

partner-suc : (i ns : ℕ) → partner (suc (suc i)) (suc ns) ≡ suc (suc (partner i ns))
partner-suc i ns = ground arith

abbrev byte_at : List ℕ → ℕ → ℕ
byte_at id i = get_or id i 0

fixstring_lem :
    (id : List ℕ) (ns i : ℕ)
    → 2 * ns ≤ length id
    → get_or (ata_ident_fixstring id ns) i 0 ≡ get_or id (partner i ns) 0
unfolding ata_ident_fixstring
fixstring_lem [] ns i h = refl
fixstring_lem (a ∷ []) zero i h = ap (byte_at (a ∷ [])) (sym (partner-zero i))
fixstring_lem (a ∷ []) (suc ns) i h = absurd (omega arith)
fixstring_lem (a ∷ b ∷ id) zero i h = ap (byte_at (a ∷ b ∷ id)) (sym (partner-zero i))
fixstring_lem (a ∷ b ∷ id) (suc ns) zero h = ap (byte_at (a ∷ b ∷ id)) (sym (partner_even ns))
fixstring_lem (a ∷ b ∷ id) (suc ns) (suc zero) h = ap (byte_at (a ∷ b ∷ id)) (sym (partner_odd ns))
fixstring_lem (a ∷ b ∷ id) (suc ns) (suc (suc i)) h =
    fixstring_lem id ns i (omega arith) ∙ ap (byte_at (a ∷ b ∷ id)) (sym (partner-suc i ns))

-- The same behind the first `skip` bytes.
abbrev pub partner_from : ℕ → ℕ → ℕ → ℕ
partner_from skip ns i = if ltb i skip then i else partner (i - skip) ns + skip

partner_from-zero : (ns i : ℕ) → partner_from 0 ns i ≡ partner i ns
partner_from-zero ns i = ground arith

partner_from-first : (skip ns : ℕ) → partner_from (suc skip) ns 0 ≡ 0
partner_from-first skip ns = ground arith

partner_from-suc :
    (skip ns i : ℕ) → partner_from (suc skip) ns (suc i) ≡ suc (partner_from skip ns i)
partner_from-suc skip ns i = ground arith

fix_from-length : (id : List ℕ) (skip ns : ℕ) → length (fix_from id skip ns) ≡ length id
unfolding fix_from
fix_from-length id zero ns = fixstring-length id ns
fix_from-length [] (suc skip) ns = refl
fix_from-length (a ∷ id) (suc skip) ns = ap suc (fix_from-length id skip ns)

fix_from_lem :
    (id : List ℕ) (skip ns i : ℕ)
    → skip + 2 * ns ≤ length id
    → get_or (fix_from id skip ns) i 0 ≡ get_or id (partner_from skip ns i) 0
unfolding fix_from
fix_from_lem id zero ns i h =
    fixstring_lem id ns i (omega arith) ∙ ap (byte_at id) (sym (partner_from-zero ns i))
fix_from_lem [] (suc skip) ns i h = absurd (omega arith)
fix_from_lem (a ∷ id) (suc skip) ns zero h =
    ap (byte_at (a ∷ id)) (sym (partner_from-first skip ns))
fix_from_lem (a ∷ id) (suc skip) ns (suc i) h =
    fix_from_lem id skip ns i (omega arith)
    ∙ ap (byte_at (a ∷ id)) (sym (partner_from-suc skip ns i))

-- Bytes 20 to 39, the serial number, and 46 to 93, the firmware and the model, are text.
abbrev pub in_text : ℕ → Bool
in_text i = (leb 20 i && ltb i 40) || (leb 46 i && ltb i 94)

abbrev swapped : ℕ → ℕ
swapped i = if i % 2 == 0 then i + 1 else i - 1

abbrev between : ℕ → ℕ → ℕ → Bool
between lo hi i = leb lo i && ltb i hi

abbrev swap_in : ℕ → ℕ → ℕ → ℕ
swap_in lo hi i = if between lo hi i then swapped i else i

model_partner : (i : ℕ) → partner_from 54 20 i ≡ swap_in 54 94 i
model_partner i = ground arith

firmware_partner : (i : ℕ) → partner_from 46 4 i ≡ swap_in 46 54 i
firmware_partner i = ground arith

serial_partner : (i : ℕ) → partner_from 20 10 i ≡ swap_in 20 40 i
serial_partner i = ground arith

-- Two ranges that meet, or lie apart.
swap_in_twice : (i : ℕ) → swap_in 46 54 (swap_in 54 94 i) ≡ swap_in 46 94 i
swap_in_twice i = ground arith

swap_in_apart : (i : ℕ) → swap_in 20 40 (swap_in 46 94 i) ≡ (if in_text i then swapped i else i)
swap_in_apart i = ground arith

text_partner :
    (i : ℕ)
    → partner_from 20 10 (partner_from 46 4 (partner_from 54 20 i))
      ≡ (if in_text i then swapped i else i)
text_partner i =
    serial_partner (partner_from 46 4 (partner_from 54 20 i))
    ∙ ap (swap_in 20 40) (
        firmware_partner (partner_from 54 20 i)
        ∙ ap (swap_in 46 54) (model_partner i)
        ∙ swap_in_twice i)
    ∙ swap_in_apart i

-- In an identification of 512 bytes `ataid_complete` exchanges the bytes of each word of the serial
-- number, the firmware and the model, and leaves every other byte, and the length.
pub fix_strings_lem :
    (id : List ℕ) (i : ℕ)
    → length id ≡ 512
    → (get_or (fix_strings id) i 0
        ≡ get_or id (if in_text i then (if i % 2 == 0 then i + 1 else i - 1) else i) 0)
      × (length (fix_strings id) ≡ 512)
unfolding fix_strings
fix_strings_lem id i h =
    let id1 = fix_from id 20 10 in
    let id2 = fix_from id1 46 4 in
    let l1 : length id1 ≡ length id = fix_from-length id 20 10 in
    let l2 : length id2 ≡ length id1 = fix_from-length id1 46 4 in
    let j2 = partner_from 54 20 i in
    let j1 = partner_from 46 4 j2 in
    let from = text_partner i in
    (
      fix_from_lem id2 54 20 i (omega arith)
          ∙ fix_from_lem id1 46 4 j2 (omega arith)
          ∙ fix_from_lem id 20 10 j1 (omega arith)
          ∙ ap (byte_at id) from,
      fix_from-length id2 54 20 ∙ l2 ∙ l1 ∙ h,
    )
