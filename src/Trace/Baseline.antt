-- ===== src/Trace/Baseline.antt =====
-- desktop-ui/src/components/trace/trace-baseline.ts: `pickBaseline` picks the closest candidate
-- with the longest common prefix.
use mathlib.Core.Path.{subst}
use voxeltoad.Common.{
  ℕ, ◌≤◌, ◌<◌, ◌≡◌, refl, sym, ap, ◌∙◌, ◌⊎◌, Option, none, some, List, [], ◌∷◌, ◌++◌, map, arith,
  ltb, if◌then◌else◌, Bool-cases, inl, inr,
}
use voxeltoad.Js.Json.{Json}
use voxeltoad.Js.Exception.{Outcome, returned}
use voxeltoad.Js.Runtime.{Runtime}
use voxeltoad.Js.Access.{IsRecord}
use voxeltoad.Trace.{TraceDetailLike, messages_of, common_prefix_length, pick_from, pick_baseline}
use voxeltoad.Trace.Prefix.{All, signature_of, shared, common_prefix_length-shared}

-- The length of the common prefix of a request's messages with another's, by signature.
abbrev pub score : Runtime → TraceDetailLike → TraceDetailLike → ℕ
score rt current c =
    shared (map (signature_of rt) (messages_of (some current)))
      (map (signature_of rt) (messages_of (some c)))

-- No message of the request is `null`.
abbrev pub IsUsable : TraceDetailLike → Type 0
IsUsable c = All IsRecord (messages_of (some c))

module _ {ℓ} {T : Type ℓ} (f : T → ℕ) where
  -- The loop, once the scores are known.
  best_from : Option T → ℕ → List T → Option T
  best_from best len [] = best
  best_from best len (c ∷ cs) =
      best_from (if ltb len (f c) then some c else best) (if ltb len (f c) then f c else len) cs

  -- `c` is in the list, beats what stands before it, and what stands behind does not beat it.
  abbrev pub IsFirstBest : T → List T → Type ℓ
  IsFirstBest c cs =
      (before : List T) × (after : List T) × (cs ≡ before ++ c ∷ after)
      × All (λ d. f d < f c) before
      × All (λ d. f d ≤ f c) after

  abbrev Found : Option T → ℕ → List T → Option T → Type ℓ
  Found best len cs r =
      ((r ≡ best) × All (λ d. f d ≤ len) cs)
      ⊎ ((c : T) × (r ≡ some c) × (len < f c) × IsFirstBest c cs)

  Found-better :
      (best : Option T) (len : ℕ) (c : T) (cs : List T) (r : Option T)
      → len < f c
      → Found (some c) (f c) cs r
      → Found best len (c ∷ cs) r
  Found-better best len c cs r h (inl (e, below)) = inr (c, e, h, ([], cs, refl, tt, below))
  Found-better best len c cs r h (inr (d, e, k, (b, a, split, less, most))) =
      inr (d, e, omega arith, (c ∷ b, a, ap (λ l. c ∷ l) split, (k, less), most))

  Found-worse :
      (best : Option T) (len : ℕ) (c : T) (cs : List T) (r : Option T)
      → f c ≤ len
      → Found best len cs r
      → Found best len (c ∷ cs) r
  Found-worse best len c cs r h (inl (e, below)) = inl (e, (h, below))
  Found-worse best len c cs r h (inr (d, e, k, (b, a, split, less, most))) =
      inr (d, e, k, (c ∷ b, a, ap (λ l. c ∷ l) split, (omega arith, less), most))

  best_from-Found :
      (best : Option T) (len : ℕ) (cs : List T) → Found best len cs (best_from best len cs)
  unfolding best_from
  best_from-Found best len [] = inl (refl, tt)
  best_from-Found best len (c ∷ cs) = elim (Bool-cases (ltb len (f c))) [
    | inl more ↦
        rw more (Found-better best len c cs _ (ground arith) (best_from-Found (some c) (f c) cs))
    | inr less ↦ rw less (Found-worse best len c cs _ (ground arith) (best_from-Found best len cs))
  ]

module _ {ℓ} {T : Type ℓ} (rt : Runtime) (detail : T → TraceDetailLike)
    (current : TraceDetailLike) where
  abbrev score_of : T → ℕ
  score_of c = score rt current (detail c)

  pick_from-best_from :
      (best : Option T) (len : ℕ) (cs : List T)
      → IsUsable current
      → All (λ c. IsUsable (detail c)) cs
      → pick_from rt detail (messages_of (some current)) best len cs
        ≡ returned (best_from score_of best len cs)
  unfolding pick_from best_from
  pick_from-best_from best len [] h k = refl
  pick_from-best_from best len (c ∷ cs) h (kc, ks) = rw (common_prefix_length-shared rt _ _ h kc) (
      pick_from-best_from (if ltb len (score_of c) then some c else best)
        (if ltb len (score_of c) then score_of c else len) cs h ks)

  pick_from-nil : (cs : List T) → pick_from rt detail [] none 0 cs ≡ returned none
  unfolding pick_from common_prefix_length
  pick_from-nil [] = refl
  pick_from-nil (c ∷ cs) = pick_from-nil cs

  -- The early return for a request with no message gives what the loop would give.
  pick_baseline-pick_from :
      (cs : List T) (ms : List Json)
      → elim ms as (λ _. Outcome (Option T)) [
        | [] ↦ returned none
        | m ∷ rest ↦ pick_from rt detail (m ∷ rest) none 0 cs
      ]
        ≡ pick_from rt detail ms none 0 cs
  pick_baseline-pick_from cs [] = sym (pick_from-nil cs)
  pick_baseline-pick_from cs (m ∷ ms) = refl

  -- What `pickBaseline` promises of its result `r`: if it is `null` then no candidate shares a
  -- message; else it is a candidate that shares one, more than each before it and no fewer than
  -- each behind it.
  pub record IsBaseline (candidates : List T) (r : Option T) : Type ℓ where
    pub none_shares : r ≡ none → All (λ d. score_of d ≤ 0) candidates
    pub first_best : (c : T) → r ≡ some c → (0 < score_of c) × IsFirstBest score_of c candidates

  Found-IsBaseline : (cs : List T) (r : Option T) → Found score_of none 0 cs r → IsBaseline cs r
  Found-IsBaseline cs r (inl (e, below)) = record {
    none_shares = λ _. below;
    first_best = λ c k. cc (sym e, k);
  }
  Found-IsBaseline cs r (inr (d, e, k, best)) = record {
    none_shares = λ h. cc;
    first_best = λ c h.
        let same : d ≡ c = cc in
        subst (λ c. (0 < score_of c) × IsFirstBest score_of c cs) same (k, best);
  }

  -- Where no message is `null`, `pickBaseline` returns, and what it returns is the closest
  -- candidate with the longest common prefix, or `null` if no candidate shares a message.
  pub pick_baseline-IsBaseline :
      (candidates : List T)
      → IsUsable current
      → All (λ c. IsUsable (detail c)) candidates
      → (r : Option T) × (pick_baseline rt detail current candidates ≡ returned r)
        × IsBaseline candidates r
  unfolding pick_baseline
  pick_baseline-IsBaseline candidates h k = (
    best_from score_of none 0 candidates,
    pick_baseline-pick_from candidates (messages_of (some current))
        ∙ pick_from-best_from none 0 candidates h k,
    Found-IsBaseline candidates _ (best_from-Found score_of none 0 candidates),
  )
