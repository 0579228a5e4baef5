-- ===== src/Ident/Words.antt =====
-- Little-endian words of an identification.
use aoe.Prelude.{
  ℕ, zero, suc, ◌+◌, ◌/◌, ◌%◌, ◌^◌, ◌<◌, ◌≡◌, ap, ◌∙◌, List, [], ◌∷◌, ◌++◌, arith, length, get_or,
}
use aoe.Ident.{le16, le32, le64}

abbrev byte_at : List ℕ → ℕ → ℕ
byte_at id i = get_or id i 0

-- The bytes of a number, the lowest first.
abbrev pub bytes_of : ℕ → ℕ → List ℕ
bytes_of zero n = []
bytes_of (suc k) n = n % 2 ^ 8 ∷ bytes_of k (n / 2 ^ 8)

get_or-behind : (xs ys : List ℕ) (i : ℕ) → get_or (xs ++ ys) (length xs + i) 0 ≡ get_or ys i 0
get_or-behind [] ys i = let e : 0 + i ≡ i = omega arith in ap (byte_at ys) e
get_or-behind (x ∷ xs) ys i =
    let e : suc (length xs) + i ≡ suc (length xs + i) = omega arith in
    ap (byte_at (x ∷ (xs ++ ys))) e ∙ get_or-behind xs ys i

byte_behind : (xs ys : List ℕ) (i j : ℕ) → j ≡ length xs + i → get_or (xs ++ ys) j 0 ≡ get_or ys i 0
byte_behind xs ys i j e = ap (byte_at (xs ++ ys)) e ∙ get_or-behind xs ys i

le16-behind : (xs ys : List ℕ) (i j : ℕ) → j ≡ length xs + i → le16 (xs ++ ys) j ≡ le16 ys i
unfolding le16
le16-behind xs ys i j e =
    omega (arith, byte_behind xs ys i j e, byte_behind xs ys (i + 1) (j + 1) (omega arith))

le32-behind : (xs ys : List ℕ) (i j : ℕ) → j ≡ length xs + i → le32 (xs ++ ys) j ≡ le32 ys i
unfolding le32
le32-behind xs ys i j e =
    omega (arith, le16-behind xs ys i j e, le16-behind xs ys (i + 2) (j + 2) (omega arith))

le64-behind : (xs ys : List ℕ) (i j : ℕ) → j ≡ length xs + i → le64 (xs ++ ys) j ≡ le64 ys i
unfolding le64
le64-behind xs ys i j e =
    omega (arith, le32-behind xs ys i j e, le32-behind xs ys (i + 4) (j + 4) (omega arith))

le64_first : (ys : List ℕ) (n : ℕ) → n < 2 ^ 64 → le64 (bytes_of 8 n ++ ys) 0 ≡ n
unfolding le64 le32 le16
le64_first ys n h = omega arith

-- The eight bytes of a number below 2 ^ 64 are read as that number wherever they stand.
pub le64-bytes_of :
    (before after : List ℕ) (n : ℕ)
    → n < 2 ^ 64
    → le64 (before ++ (bytes_of 8 n ++ after)) (length before) ≡ n
le64-bytes_of before after n h =
    le64-behind before (bytes_of 8 n ++ after) 0 (length before) (omega arith)
    ∙ le64_first after n h
