-- ===== src/Trace/Analyze.antt =====
-- `analyze` of desktop-ui/src/components/trace/trace-categories.tsx: it sorts a request's messages into
-- three lists and reads the response.
use mathlib.Core.List.{Perm, perm_middle}
use mathlib.Core.List.Perm
use voxeltoad.Common.{
  ℕ, zero, suc, ◌≡◌, refl, ap, sym, ◌∙◌, Bool, not, Option, some, List, [], ◌∷◌, ◌++◌, map, str_eq,
  take, drop, take-append-drop, if◌then◌else◌, Bool-cases, inl, inr,
}
use voxeltoad.Js.Json.{Json, null, bool, num, str, arr, obj}
use voxeltoad.Js.Exception.{Outcome, returned, threw, ◌>>=◌}
use voxeltoad.Trace.Output.{OutputItem, parse_output}
use voxeltoad.Js.Runtime.{Runtime}
use voxeltoad.Js.Access.{member, or_else, to_text, filter_by, IsRecord}
use voxeltoad.Trace.{
  TraceDetailLike, messages_of, common_prefix_length, is_system, not_system, extract_tools,
}
use voxeltoad.Trace.Prefix.{
  All, property, signature_of, shared, common_prefix_length-shared, IsLongestPrefix,
  shared-IsLongestPrefix,
}

-- The result of `analyze`
pub record Analysis : Type 0 where
  pub system_msgs : List Json
  pub tools : List Json
  pub carried : List Json
  pub turn_msgs : List Json
  pub output : Option OutputItem

module _ (rt : Runtime) where
  unfoldable pub analyze : TraceDetailLike → Option TraceDetailLike → Outcome Analysis
  analyze current previous = do
    let cur_msgs = messages_of (some current)
    prefix_len ← common_prefix_length rt cur_msgs (messages_of previous)
    carried ← filter_by (not_system rt) (take prefix_len cur_msgs)
    turn_msgs ← filter_by (not_system rt) (drop prefix_len cur_msgs)
    system_msgs ← filter_by (is_system rt) cur_msgs
    output ← parse_output rt current.response_raw
    returned (record {
      system_msgs = system_msgs;
      tools = extract_tools current.request_raw;
      carried = carried;
      turn_msgs = turn_msgs;
      output = output;
    })

module _ (rt : Runtime) where
  -- Whether a message that is not `null` has the role "system".
  abbrev pub has_system_role : Json → Bool
  has_system_role m = str_eq (to_text rt (or_else (property "role" m) (str ""))) "system"

  is_system-IsRecord : (m : Json) → IsRecord m → is_system rt m ≡ returned (has_system_role m)
  unfolding is_system member
  is_system-IsRecord null h = elim h [ ]
  is_system-IsRecord (bool b) h = refl
  is_system-IsRecord (num n) h = refl
  is_system-IsRecord (str s) h = refl
  is_system-IsRecord (arr xs) h = refl
  is_system-IsRecord (obj fs) h = refl

module _ {ℓ} {A : Type ℓ} where
  -- The elements that pass a test.
  pub keep : (A → Bool) → List A → List A
  keep p [] = []
  keep p (x ∷ xs) = if p x then x ∷ keep p xs else keep p xs

  pub keep-append : (p : A → Bool) (xs ys : List A) → keep p (xs ++ ys) ≡ keep p xs ++ keep p ys
  unfolding keep
  keep-append p [] ys = refl
  keep-append p (x ∷ xs) ys = elim (Bool-cases (p x)) [
    | inl in_ ↦ rw in_ (ap (λ l. x ∷ l) (keep-append p xs ys))
    | inr out ↦ rw out (keep-append p xs ys)
  ]

  keep-perm : (p : A → Bool) (xs : List A) → Perm (keep p xs ++ keep (λ x. not (p x)) xs) xs
  unfolding keep
  keep-perm p [] = Perm.refl []
  keep-perm p (x ∷ xs) = elim (Bool-cases (p x)) [
    | inl in_ ↦ rw in_ (Perm.cons x (keep-perm p xs))
    | inr out ↦ rw out (Perm.trans (perm_middle _ _) (Perm.cons x (keep-perm p xs)))
  ]

  All-take : (P : A → Type 0) (n : ℕ) (xs : List A) → All P xs → All P (take n xs)
  All-take P zero xs h = tt
  All-take P (suc n) [] h = tt
  All-take P (suc n) (x ∷ xs) (hx, h) = (hx, All-take P n xs h)

  All-drop : (P : A → Type 0) (n : ℕ) (xs : List A) → All P xs → All P (drop n xs)
  All-drop P zero xs h = h
  All-drop P (suc n) [] h = tt
  All-drop P (suc n) (x ∷ xs) (hx, h) = All-drop P n xs h

module _ (rt : Runtime) where
  filter_by-is_system :
      (ms : List Json)
      → All IsRecord ms
      → filter_by (is_system rt) ms ≡ returned (keep (has_system_role rt) ms)
  unfolding filter_by keep
  filter_by-is_system [] h = refl
  filter_by-is_system (m ∷ ms) (hm, h) =
      rw (is_system-IsRecord rt m hm, filter_by-is_system ms h) refl

  filter_by-not_system :
      (ms : List Json)
      → All IsRecord ms
      → filter_by (not_system rt) ms ≡ returned (keep (λ m. not (has_system_role rt m)) ms)
  unfolding filter_by keep not_system
  filter_by-not_system [] h = refl
  filter_by-not_system (m ∷ ms) (hm, h) =
      rw (is_system-IsRecord rt m hm, filter_by-not_system ms h) refl

  -- What `analyze` promises of its result for the messages `current` and those of the baseline.
  pub record IsAnalysis (current previous : List Json) (r : Analysis) : Type 0 where
    -- the length of the longest common prefix
    pub prefix : ℕ
    pub is_longest :
        IsLongestPrefix prefix (map (signature_of rt) current) (map (signature_of rt) previous)
    -- carried over are the messages of the prefix, new are those behind it, less the system ones
    pub carried_over : r.carried ≡ keep (λ m. not (has_system_role rt m)) (take prefix current)
    pub new_turn : r.turn_msgs ≡ keep (λ m. not (has_system_role rt m)) (drop prefix current)
    pub system_only : r.system_msgs ≡ keep (has_system_role rt) current
    -- shown in order
    pub in_order : r.carried ++ r.turn_msgs ≡ keep (λ m. not (has_system_role rt m)) current
    -- every message is shown once
    pub no_loss : Perm (r.system_msgs ++ (r.carried ++ r.turn_msgs)) current

  split_lem :
      (n : ℕ) (ms : List Json)
      → keep (λ m. not (has_system_role rt m)) (take n ms)
          ++ keep (λ m. not (has_system_role rt m)) (drop n ms)
        ≡ keep (λ m. not (has_system_role rt m)) ms
  split_lem n ms = sym (keep-append _ (take n ms) (drop n ms)) ∙ ap (keep _) (take-append-drop n ms)

  -- What `analyze` comes to, by what `parseOutput` comes to on the response of the request.
  abbrev pub AnalyzesTo :
      TraceDetailLike → Option TraceDetailLike → Outcome (Option OutputItem) → Type 0
  AnalyzesTo current previous (threw e) = analyze rt current previous ≡ threw e
  AnalyzesTo current previous (returned output) =
      (r : Analysis) × (analyze rt current previous ≡ returned r)
      × IsAnalysis (messages_of (some current)) (messages_of previous) r
      × (r.tools ≡ extract_tools current.request_raw)
      × (r.output ≡ output)

  module _ (current : TraceDetailLike) (previous : Option TraceDetailLike)
      (h : All IsRecord (messages_of (some current)))
      (k : All IsRecord (messages_of previous)) where
    abbrev msgs : List Json
    msgs = messages_of (some current)

    abbrev common : ℕ
    common = shared (map (signature_of rt) msgs) (map (signature_of rt) (messages_of previous))

    abbrev sorted : Option OutputItem → Analysis
    sorted output = record {
      system_msgs = keep (has_system_role rt) msgs;
      tools = extract_tools current.request_raw;
      carried = keep (λ m. not (has_system_role rt m)) (take common msgs);
      turn_msgs = keep (λ m. not (has_system_role rt m)) (drop common msgs);
      output = output;
    }

    sorted-IsAnalysis :
        (output : Option OutputItem) → IsAnalysis msgs (messages_of previous) (sorted output)
    sorted-IsAnalysis output = record {
      prefix = common;
      is_longest = shared-IsLongestPrefix _ _;
      carried_over = refl;
      new_turn = refl;
      system_only = refl;
      in_order = split_lem common msgs;
      no_loss = rw (split_lem common msgs) (keep-perm (has_system_role rt) msgs);
    }

    -- `parseOutput` is the one step that may throw, and the last one.
    analyze-parse_output :
        analyze rt current previous
        ≡ (parse_output rt current.response_raw >>= λ output. returned (sorted output))
    unfolding analyze
    analyze-parse_output = rw (common_prefix_length-shared rt msgs (messages_of previous) h k) (
        rw
          (
            filter_by-not_system (take common msgs) (All-take IsRecord common msgs h),
            filter_by-not_system (drop common msgs) (All-drop IsRecord common msgs h),
            filter_by-is_system msgs h,
          )
          refl)

    analyze_by :
        (o : Outcome (Option OutputItem))
        → parse_output rt current.response_raw ≡ o
        → AnalyzesTo current previous o
    analyze_by (threw x) e = analyze-parse_output ∙ rw e refl
    analyze_by (returned output) e =
        (sorted output, analyze-parse_output ∙ rw e refl, sorted-IsAnalysis output, refl, refl)

  -- Where no message is `null`, `analyze` throws exactly what `parseOutput` throws on the response.
  -- Where that returns, `analyze` returns its output and the tools, and every message of the request
  -- is in exactly one of three lists as often as in the request: the system messages, those of the
  -- longest prefix that the baseline shares, and the rest; the last two follow the order of the
  -- request.
  pub analyze-IsAnalysis :
      (current : TraceDetailLike) (previous : Option TraceDetailLike)
      → All IsRecord (messages_of (some current))
      → All IsRecord (messages_of previous)
      → AnalyzesTo current previous (parse_output rt current.response_raw)
  analyze-IsAnalysis current previous h k = analyze_by current previous h k _ refl
