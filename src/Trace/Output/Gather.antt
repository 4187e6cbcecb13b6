-- ===== src/Trace/Output/Gather.antt =====
-- The fragments of several tool calls may come interleaved: each call gets its own, in order.
use Prim.Native.String.{String, [], ◌∷◌}
use mathlib.Core.Path.{subst}
use text.Mathlib.TextLemmas.{nil-append, append-nil, append_assoc}
use voxeltoad.Common.{
  ℕ, ◌≡◌, refl, ap, sym, ◌∙◌, true, false, Option, none, some, List, [], ◌∷◌, map, ◌<>◌, ◌==◌,
  if◌then◌else◌, Bool-cases, inl, inr, arith, ==_iff,
}
use voxeltoad.Common.Int.{pos, ◌*ℤ◌}
use voxeltoad.Js.Number.{Number, int, same_key}
use voxeltoad.Trace.Prefix.{All}
use voxeltoad.Trace.Output.Stream.{
  Fragment, ToolCall, new_call, extend, replace, add_fragment, merge, merge_all,
}

-- A fragment whose index is a natural number, as the chunks of the API have it.
pub record Piece : Type 0 where
  pub place : ℕ
  pub id : Option String
  pub name : Option String
  pub arguments : Option String

abbrev pub to_fragment : Piece → Fragment
to_fragment p = record {
  index = int (pos p.place);
  id = p.id;
  name = p.name;
  arguments = p.arguments;
}

-- The call with this index.
pub find_call : ℕ → List (Number × ToolCall) → Option ToolCall
find_call i [] = none
find_call i ((k, c) ∷ calls) = if same_key k (int (pos i)) then some c else find_call i calls

-- The pieces with this index, in order.
pub pieces_at : ℕ → List Piece → List Piece
pieces_at i [] = []
pieces_at i (p ∷ ps) = if p.place == i then p ∷ pieces_at i ps else pieces_at i ps

-- The texts in order, as one.
pub joined : List (Option String) → String
joined [] = []
joined (none ∷ os) = joined os
joined (some s ∷ os) = s <> joined os

-- The last text, or the given one if there is none.
pub last_or : String → List (Option String) → String
last_or s [] = s
last_or s (none ∷ os) = last_or s os
last_or s (some t ∷ os) = last_or t os

-- The call that pieces of one index make up.
abbrev pub assembled : List Piece → Option ToolCall
assembled [] = none
assembled (p ∷ ps) = some (record {
  id = last_or "" (map (λ (p : Piece). p.id) (p ∷ ps));
  name = joined (map (λ (p : Piece). p.name) (p ∷ ps));
  arguments = joined (map (λ (p : Piece). p.arguments) (p ∷ ps));
})

same_key-pos : (a b : ℕ) → same_key (int (pos a)) (int (pos b)) ≡ (a == b)
unfolding same_key ◌*ℤ◌
same_key-pos a b = ground arith

abbrev IsIndexed : Number × ToolCall → Type 0
IsIndexed (k, c) = (n : ℕ) × (k ≡ int (pos n))

abbrev or_new : Option ToolCall → ToolCall
or_new none = new_call
or_new (some c) = c

merge-IsIndexed :
    (calls : List (Number × ToolCall)) (p : Piece)
    → All IsIndexed calls
    → All IsIndexed (merge calls (to_fragment p))
unfolding merge
merge-IsIndexed [] p h = ((p.place, refl), tt)
merge-IsIndexed ((k, c) ∷ calls) p (hk, h) = elim (Bool-cases (same_key k (int (pos p.place)))) [
  | inl same ↦ rw same (hk, h)
  | inr other ↦ rw other (hk, merge-IsIndexed calls p h)
]

find_call-merge_same :
    (calls : List (Number × ToolCall)) (p : Piece)
    → find_call p.place (merge calls (to_fragment p))
      ≡ some (add_fragment (to_fragment p) (or_new (find_call p.place calls)))
unfolding find_call merge
find_call-merge_same [] p = rw (same_key-pos p.place p.place) (ground arith)
find_call-merge_same ((k, c) ∷ calls) p = elim (Bool-cases (same_key k (int (pos p.place)))) [
  | inl same ↦ rw (same, same) refl
  | inr other ↦ rw (other, other, find_call-merge_same calls p) refl
]

find_call-merge_other :
    (calls : List (Number × ToolCall)) (p : Piece) (i : ℕ)
    → (p.place == i) ≡ false
    → All IsIndexed calls
    → find_call i (merge calls (to_fragment p)) ≡ find_call i calls
unfolding find_call merge
find_call-merge_other [] p i e h = rw (same_key-pos p.place i, e) refl
find_call-merge_other ((k, c) ∷ calls) p i e ((n, is), h) =
    elim (Bool-cases (same_key k (int (pos p.place)))) [
      | inl same ↦
          let key : (j : ℕ) → same_key k (int (pos j)) ≡ (n == j) =
            λ j. ap (λ k. same_key k (int (pos j))) is ∙ same_key-pos n j in
          let at_place : (n == p.place) ≡ true = sym (key p.place) ∙ same in
          let away : same_key k (int (pos i)) ≡ false = key i ∙ ground (arith, at_place, e) in
          rw (same, away) refl
      | inr other ↦ rw (other, find_call-merge_other calls p i e h) refl
    ]

-- What the pieces of one index make of a call.
abbrev extended : Option ToolCall → List Piece → Option ToolCall
extended o [] = o
extended o (p ∷ ps) = extended (some (add_fragment (to_fragment p) (or_new o))) ps

merge_all-extended :
    (ps : List Piece) (calls : List (Number × ToolCall)) (i : ℕ)
    → All IsIndexed calls
    → find_call i (merge_all calls (map to_fragment ps))
      ≡ extended (find_call i calls) (pieces_at i ps)
unfolding merge_all pieces_at
merge_all-extended [] calls i h = refl
merge_all-extended (p ∷ ps) calls i h =
    merge_all-extended ps (merge calls (to_fragment p)) i (merge-IsIndexed calls p h)
    ∙ elim (Bool-cases (p.place == i)) [
      | inl here ↦
          let same : p.place ≡ i = (==_iff p.place i).0 here in
          let found : find_call i (merge calls (to_fragment p))
              ≡ some (add_fragment (to_fragment p) (or_new (find_call i calls))) =
            subst
              (λ i.
                find_call i (merge calls (to_fragment p))
                ≡ some (add_fragment (to_fragment p) (or_new (find_call i calls))))
              same (find_call-merge_same calls p) in
          rw (here, found) refl
      | inr away ↦ rw (away, find_call-merge_other calls p i away h) refl
    ]

extend-joined :
    (s : String) (o : Option String) (os : List (Option String))
    → extend s o <> joined os ≡ s <> joined (o ∷ os)
unfolding joined
extend-joined s none os = refl
extend-joined s (some t) os = append_assoc s t (joined os)

replace-last_or :
    (s : String) (o : Option String) (os : List (Option String))
    → last_or (replace s o) os ≡ last_or s (o ∷ os)
unfolding last_or
replace-last_or s none os = refl
replace-last_or s (some t) os = refl

extended-some :
    (c : ToolCall) (ps : List Piece)
    → extended (some c) ps
      ≡ some (record {
        id = last_or c.id (map (λ (p : Piece). p.id) ps);
        name = c.name <> joined (map (λ (p : Piece). p.name) ps);
        arguments = c.arguments <> joined (map (λ (p : Piece). p.arguments) ps);
      })
unfolding last_or joined add_fragment
extended-some c [] = rw (append-nil c.name, append-nil c.arguments) refl
extended-some c (p ∷ ps) =
    extended-some (add_fragment (to_fragment p) c) ps
    ∙ rw
        (
          replace-last_or c.id p.id (map (λ (p : Piece). p.id) ps),
          extend-joined c.name p.name (map (λ (p : Piece). p.name) ps),
          extend-joined c.arguments p.arguments (map (λ (p : Piece). p.arguments) ps),
        )
        refl

begun : (o : Option String) (os : List (Option String)) → extend "" o <> joined os ≡ joined (o ∷ os)
begun o os = extend-joined "" o os ∙ nil-append (joined (o ∷ os))

extended-assembled : (ps : List Piece) → extended none ps ≡ assembled ps
unfolding add_fragment last_or joined
extended-assembled [] = refl
extended-assembled (p ∷ ps) =
    extended-some (add_fragment (to_fragment p) new_call) ps
    ∙ rw
        (
          replace-last_or "" p.id (map (λ (p : Piece). p.id) ps),
          begun p.name (map (λ (p : Piece). p.name) ps),
          begun p.arguments (map (λ (p : Piece). p.arguments) ps),
        )
        refl

-- However the fragments of several calls are interleaved, and however each call's texts are cut: the
-- call that is kept for an index is made of the fragments with that index alone, its name and its
-- arguments are theirs put together in the order they came in, its id is the last of theirs, and
-- there is no call for an index that no fragment has. The indices are natural numbers.
pub merge_all-assembled :
    (ps : List Piece) (i : ℕ)
    → find_call i (merge_all [] (map to_fragment ps)) ≡ assembled (pieces_at i ps)
unfolding find_call
merge_all-assembled ps i = merge_all-extended ps [] i tt ∙ extended-assembled (pieces_at i ps)
