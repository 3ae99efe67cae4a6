-- ===== src/Wire/Bytes.antt =====
-- Byte strings, and the slices that distributed/control_plane/proto_bridge.py and
-- distributed/comm/serialization.py take of them. A Python `str` is its UTF-8 bytes.
use Prim.Native.Char.{code}
use Prim.Native.String.{String}
use fed_lo_ra_public.Prelude.{
  ℕ, suc, ◌≡◌, refl, ap, ◌↔◌, Bool, true, false, ◌&&◌, List, [], ◌∷◌, ◌++◌, Option, none, some,
  arith, ◌==◌, if◌then◌else◌, Eq, length, take, drop,
}

abbrev pub Bytes : Type 0
Bytes = List ℕ

-- The bytes of an ASCII literal.
abbrev pub ascii : String → Bytes
ascii String.[] = []
ascii (String.◌∷◌ c s) = code c ∷ ascii s

unfoldable pub bytes_beq : Bytes → Bytes → Bool
bytes_beq [] [] = true
bytes_beq [] (y ∷ ys) = false
bytes_beq (x ∷ xs) [] = false
bytes_beq (x ∷ xs) (y ∷ ys) = x == y && bytes_beq xs ys

bytes_beq_sound : (xs ys : Bytes) → bytes_beq xs ys ≡ true → xs ≡ ys
unfolding bytes_beq
bytes_beq_sound [] [] h = refl
bytes_beq_sound [] (y ∷ ys) h = ground arith
bytes_beq_sound (x ∷ xs) [] h = ground arith
bytes_beq_sound (x ∷ xs) (y ∷ ys) h = ground (arith, bytes_beq_sound xs ys)

bytes_beq_self : (xs : Bytes) → bytes_beq xs xs ≡ true
unfolding bytes_beq
bytes_beq_self [] = refl
bytes_beq_self (x ∷ xs) = ground (arith, bytes_beq_self xs)

bytes_beq_complete : (xs ys : Bytes) → xs ≡ ys → bytes_beq xs ys ≡ true
bytes_beq_complete xs ys h = rw (← h) (bytes_beq_self xs)

pub bytes_beq_iff : (xs ys : Bytes) → (bytes_beq xs ys ≡ true) ↔ (xs ≡ ys)
bytes_beq_iff xs ys = (bytes_beq_sound xs ys, bytes_beq_complete xs ys)

instance abbrev pub bytes_eq : Eq Bytes
bytes_eq = record { beq = bytes_beq; beq_iff = bytes_beq_iff }

-- frame.index(c), frame.find(c): the first place of a byte.
unfoldable pub index : ℕ → Bytes → Option ℕ
index c [] = none
index c (x ∷ xs) =
    if x == c then some 0 else elim (index c xs) [ none ↦ none | some i ↦ some (suc i) ]

-- The byte does not occur.
unfoldable pub free_of : ℕ → Bytes → Bool
free_of c [] = true
free_of c (x ∷ xs) = if x == c then false else free_of c xs

pub index-append :
    (c : ℕ) (xs ys : Bytes) → free_of c xs ≡ true → index c (xs ++ c ∷ ys) ≡ some (length xs)
unfolding index free_of
index-append c [] ys h = ground arith
index-append c (x ∷ xs) ys h = ground (arith, index-append c xs ys)

pub index_free : (c : ℕ) (xs : Bytes) → free_of c xs ≡ true → index c xs ≡ none
unfolding index free_of
index_free c [] h = refl
index_free c (x ∷ xs) h = ground (arith, index_free c xs)

pub take-append_self : (xs ys : Bytes) → take (length xs) (xs ++ ys) ≡ xs
take-append_self [] ys = refl
take-append_self (x ∷ xs) ys = ap (◌∷◌ x) (take-append_self xs ys)

pub drop-append_self : (xs ys : Bytes) → drop (length xs) (xs ++ ys) ≡ ys
drop-append_self [] ys = refl
drop-append_self (x ∷ xs) ys = drop-append_self xs ys

pub drop-append_one : (c : ℕ) (xs ys : Bytes) → drop (suc (length xs)) (xs ++ c ∷ ys) ≡ ys
drop-append_one c [] ys = refl
drop-append_one c (x ∷ xs) ys = drop-append_one c xs ys

pub drop-append_two :
    (c d : ℕ) (xs ys : Bytes) → drop (suc (suc (length xs))) (xs ++ c ∷ d ∷ ys) ≡ ys
drop-append_two c d [] ys = refl
drop-append_two c d (x ∷ xs) ys = drop-append_two c d xs ys
