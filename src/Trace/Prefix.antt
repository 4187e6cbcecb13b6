-- ===== src/Trace/Prefix.antt =====
-- `commonPrefixLength` finds the longest common prefix of two message lists, by signature.
use Prim.Native.String.{String}
use voxeltoad.Common.{
  ℕ, zero, suc, ◌≤◌, ◌≡◌, refl, Option, none, List, [], ◌∷◌, map, arith, str_eq, length, take,
  eq_iff, if◌then◌else◌, Bool-cases, inl, inr,
}
use voxeltoad.Js.Json.{Json, null, bool, num, str, arr, obj, entries, lookup}
use voxeltoad.Js.Exception.{returned}
use voxeltoad.Js.Runtime.{Runtime}
use voxeltoad.Js.Access.{member, IsRecord}
use voxeltoad.Trace.{signature, signature_text, common_prefix_length}

abbrev pub All {ℓ κ} : {A : Type ℓ} → (A → Type κ) → List A → Type κ
All P [] = Unit
All P (x ∷ xs) = P x × All P xs

-- A property of a value that is not `null`.
abbrev pub property : String → Json → Option Json
property key (obj fs) = lookup key (entries fs)
property key v = none

-- The signature of a message that is not `null`.
abbrev pub signature_of : Runtime → Json → String
signature_of rt m =
    signature_text rt (property "role" m) (property "content" m) (property "tool_call_id" m)

pub signature-IsRecord :
    (rt : Runtime) (m : Json) → IsRecord m → signature rt m ≡ returned (signature_of rt m)
unfolding signature member
signature-IsRecord rt null h = elim h [ ]
signature-IsRecord rt (bool b) h = refl
signature-IsRecord rt (num n) h = refl
signature-IsRecord rt (str s) h = refl
signature-IsRecord rt (arr xs) h = refl
signature-IsRecord rt (obj fs) h = refl

-- The number of leading texts that two lists share.
pub shared : List String → List String → ℕ
shared [] ys = 0
shared (x ∷ xs) [] = 0
shared (x ∷ xs) (y ∷ ys) = if str_eq x y then suc (shared xs ys) else 0

take-shared : (xs ys : List String) → take (shared xs ys) xs ≡ take (shared xs ys) ys
unfolding shared
take-shared [] ys = refl
take-shared (x ∷ xs) [] = refl
take-shared (x ∷ xs) (y ∷ ys) = elim (Bool-cases (str_eq x y)) [
  | inl same ↦ rw same (cc ((eq_iff x y).0 same, take-shared xs ys))
  | inr other ↦ rw other refl
]

shared-le_left : (xs ys : List String) → shared xs ys ≤ length xs
unfolding shared
shared-le_left [] ys = omega arith
shared-le_left (x ∷ xs) [] = omega arith
shared-le_left (x ∷ xs) (y ∷ ys) = ground (arith, shared-le_left xs ys)

shared-le_right : (xs ys : List String) → shared xs ys ≤ length ys
unfolding shared
shared-le_right [] ys = omega arith
shared-le_right (x ∷ xs) [] = omega arith
shared-le_right (x ∷ xs) (y ∷ ys) = ground (arith, shared-le_right xs ys)

shared_longest :
    (xs ys : List String) (k : ℕ)
    → k ≤ length xs
    → k ≤ length ys
    → take k xs ≡ take k ys
    → k ≤ shared xs ys
unfolding shared
shared_longest [] ys k h j e = h
shared_longest (x ∷ xs) [] k h j e = j
shared_longest (x ∷ xs) (y ∷ ys) zero h j e = omega arith
shared_longest (x ∷ xs) (y ∷ ys) (suc k) h j e =
    let same : x ≡ y = cc in
    let tails : take k xs ≡ take k ys = cc in
    rw ((eq_iff x y).1 same)
      (omega (arith, shared_longest xs ys k (omega arith) (omega arith) tails))

pub common_prefix_length-shared :
    (rt : Runtime) (a b : List Json)
    → All IsRecord a
    → All IsRecord b
    → common_prefix_length rt a b
      ≡ returned (shared (map (signature_of rt) a) (map (signature_of rt) b))
unfolding common_prefix_length shared
common_prefix_length-shared rt [] b h k = refl
common_prefix_length-shared rt (x ∷ a) [] h k = refl
common_prefix_length-shared rt (x ∷ a) (y ∷ b) (hx, ha) (hy, hb) =
    rw (signature-IsRecord rt x hx, signature-IsRecord rt y hy)
      (elim (Bool-cases (str_eq (signature_of rt x) (signature_of rt y))) [
        | inl same ↦ rw (same, common_prefix_length-shared rt a b ha hb) refl
        | inr other ↦ rw other refl
      ])

-- `n` is the length of the longest common prefix of `xs` and `ys`.
pub record IsLongestPrefix (n : ℕ) (xs ys : List String) : Type 0 where
  pub within_left : n ≤ length xs
  pub within_right : n ≤ length ys
  pub agree : take n xs ≡ take n ys
  pub longest : (k : ℕ) → k ≤ length xs → k ≤ length ys → take k xs ≡ take k ys → k ≤ n

pub shared-IsLongestPrefix : (xs ys : List String) → IsLongestPrefix (shared xs ys) xs ys
shared-IsLongestPrefix xs ys = record {
  within_left = shared-le_left xs ys;
  within_right = shared-le_right xs ys;
  agree = take-shared xs ys;
  longest = shared_longest xs ys;
}

-- Of messages that are not `null`, `commonPrefixLength` returns the length of the longest common
-- prefix of the two lists of signatures.
pub common_prefix_length-IsLongestPrefix :
    (rt : Runtime) (a b : List Json)
    → All IsRecord a
    → All IsRecord b
    → (n : ℕ) × (common_prefix_length rt a b ≡ returned n)
      × IsLongestPrefix n (map (signature_of rt) a) (map (signature_of rt) b)
common_prefix_length-IsLongestPrefix rt a b h k =
    (_, common_prefix_length-shared rt a b h k, shared-IsLongestPrefix _ _)
