-- ===== src/Assert/Composite.antt =====
-- assert/composite_matchers.go: Not, All and Any. `quote` is the verb %q, `user_value` shows a value.
pub mod Judged
pub mod Cost
pub mod Messages
use go_specs.Prelude.{
  ℕ, zero, suc, ◌+◌, Bool, true, false, not, Option, none, some, List, [], ◌∷◌, ◌++◌, if◌then◌else◌,
}
use go_specs.Prelude.Text.{Text, codes, itoa}
use go_specs.Assert.Matcher.{
  Matcher, Verdict, nil_matcher_failure, describe_matcher, describe_entries, join_with, at_position,
  evaluate,
}

abbrev nil_text : Text
nil_text = codes "Not: sub-matcher at position 1 is nil"

abbrev any_name : Text
any_name = codes "Any: "

abbrev empty_text : Text
empty_text = codes "Any: no matchers were given, so nothing could match"

module _ {S V : Type 0} (quote : Text → Text) (user_value : V → Text) where
  flip : Bool × S → Bool × S
  flip (b, s) = (not b, s)

  not_match : Matcher S V → V → S → Bool × S
  unfolding flip
  not_match m v s = if m.is_nil then (false, s) else flip (m.match_value v s)

  -- The message for a sub-matcher that matched.
  not_text : Matcher S V → V → Text
  unfolding describe_matcher
  not_text m v = codes "expected " ++ (user_value v ++ (codes " not to be " ++ describe_matcher m))

  not_verdict : Matcher S V → V → Bool × S → Verdict × S
  unfolding not_text
  not_verdict m v (true, s) = ((false, not_text m v), s)
  not_verdict m v (false, s) = ((true, []), s)

  not_evaluate : Matcher S V → V → S → Verdict × S
  unfolding not_verdict
  not_evaluate m v s =
      if m.is_nil then ((false, nil_text), s) else not_verdict m v (m.match_value v s)

  unfoldable pub not_matcher : Matcher S V → Matcher S V
  unfolding not_match not_evaluate not_text describe_matcher
  not_matcher m = record {
    is_nil = false;
    match_value = not_match m;
    failure_message = λ v s. (if m.is_nil then nil_text else not_text m v, s);
    evaluator = some (not_evaluate m);
    description =
        some (if m.is_nil then codes "not (nil matcher)" else codes "not " ++ describe_matcher m);
    type_name = codes "*assert.notMatcher";
  }

  -- The rest of a conjunction is asked only when this entry matched.
  if_matched : Bool × S → (S → Bool × S) → Bool × S
  if_matched (true, s) rest = rest s
  if_matched (false, s) rest = (false, s)

  all_match : List (Matcher S V) → V → S → Bool × S
  unfolding if_matched
  all_match [] v s = (true, s)
  all_match (m ∷ ms) v s =
      if m.is_nil then (false, s) else if_matched (m.match_value v s) (all_match ms v)

  -- The part of an entry in a message: a nil matcher's is not quoted.
  part_of : ℕ → Matcher S V → Text → Text
  unfolding at_position
  part_of i m failure = at_position i (if m.is_nil then failure else quote failure)

  note_part : ℕ → Matcher S V → Verdict × S → (S → List Text × S) → List Text × S
  unfolding part_of
  note_part i m ((true, failure), s) rest = rest s
  note_part i m ((false, failure), s) rest =
      let (parts, t) = rest s in (part_of i m failure ∷ parts, t)

  -- The failures of all entries, in one pass.
  all_parts : ℕ → List (Matcher S V) → V → S → List Text × S
  unfolding note_part evaluate
  all_parts i [] v s = ([], s)
  all_parts i (m ∷ ms) v s = note_part i m (evaluate m v s) (all_parts (suc i) ms v)

  parts_verdict : Text → List Text × S → Verdict × S
  unfolding join_with
  parts_verdict name ([], s) = ((true, []), s)
  parts_verdict name (part ∷ parts, s) = ((false, name ++ join_with (codes "; ") (part ∷ parts)), s)

  all_evaluate : List (Matcher S V) → V → S → Verdict × S
  unfolding parts_verdict all_parts
  all_evaluate ms v s = parts_verdict (codes "All: ") (all_parts 1 ms v s)

  -- The second pass of FailureMessage: an entry that fails now is asked for its message.
  part_again : ℕ → Matcher S V → V → Bool × S → (S → List Text × S) → List Text × S
  unfolding at_position
  part_again i m v (true, s) rest = rest s
  part_again i m v (false, s) rest =
      let (text, t) = m.failure_message v s in
      let (parts, u) = rest t in (at_position i (quote text) ∷ parts, u)

  parts_again : ℕ → List (Matcher S V) → V → S → List Text × S
  unfolding part_again at_position nil_matcher_failure
  parts_again i [] v s = ([], s)
  parts_again i (m ∷ ms) v s =
      let (parts, t) = parts_again (suc i) ms v s in
      if m.is_nil
      then (at_position i nil_matcher_failure ∷ parts, t)
      else part_again i m v (m.match_value v s) (parts_again (suc i) ms v)

  again_text : Text → List Text × S → Text × S
  unfolding join_with
  again_text name ([], s) = (
    name
        ++ codes
            "Match reported a failure but every sub-matcher now reports a match — a sub-matcher is not deterministic",
    s,
  )
  again_text name (part ∷ parts, s) = (name ++ join_with (codes "; ") (part ∷ parts), s)

  all_message : List (Matcher S V) → V → S → Text × S
  unfolding again_text parts_again
  all_message [] v s = (codes "All: no sub-matcher explains the failure", s)
  all_message (m ∷ ms) v s = again_text (codes "All: ") (parts_again 1 (m ∷ ms) v s)

  unfoldable pub all_matcher : List (Matcher S V) → Matcher S V
  unfolding all_match all_evaluate all_message describe_entries join_with
  all_matcher ms = record {
    is_nil = false;
    match_value = all_match ms;
    failure_message = all_message ms;
    evaluator = some (all_evaluate ms);
    description =
        some (codes "all of [" ++ (join_with (codes ", ") (describe_entries ms) ++ codes "]"));
    type_name = codes "*assert.allMatcher";
  }

  -- The position of the first nil entry.
  first_nil : ℕ → List (Matcher S V) → Option ℕ
  first_nil i [] = none
  first_nil i (m ∷ ms) = let later = first_nil (suc i) ms in if m.is_nil then some i else later

  unless_matched : Bool × S → (S → Bool × S) → Bool × S
  unless_matched (true, s) rest = (true, s)
  unless_matched (false, s) rest = rest s

  any_loop : List (Matcher S V) → V → S → Bool × S
  unfolding unless_matched
  any_loop [] v s = (false, s)
  any_loop (m ∷ ms) v s = unless_matched (m.match_value v s) (any_loop ms v)

  any_match_from : Option ℕ → List (Matcher S V) → V → S → Bool × S
  unfolding any_loop
  any_match_from (some i) ms v s = (false, s)
  any_match_from none ms v s = any_loop ms v s

  -- What is said of the entries when one is nil: none of them is asked.
  unasked_parts : ℕ → ℕ → List (Matcher S V) → List Text
  unfolding at_position nil_matcher_failure describe_matcher
  unasked_parts nil_at i [] = []
  unasked_parts nil_at i (m ∷ ms) =
      let rest = unasked_parts nil_at (suc i) ms in
      if m.is_nil
      then at_position i nil_matcher_failure ∷ rest
      else at_position i (
          describe_matcher m
          ++ (codes " — not evaluated, the nil entry at #"
              ++ (itoa nil_at ++ codes " forces this Any to fail")))
        ∷ rest

  -- The failures until one entry matches.
  any_verdict : List Text → Verdict × S → ℕ → (List Text → S → Verdict × S) → Verdict × S
  unfolding at_position
  any_verdict parts ((true, failure), s) i rest = ((true, []), s)
  any_verdict parts ((false, failure), s) i rest =
      rest (parts ++ at_position i (quote failure) ∷ []) s

  any_pass : ℕ → List (Matcher S V) → V → List Text → S → Verdict × S
  unfolding any_verdict evaluate join_with
  any_pass i [] v parts s = ((false, any_name ++ join_with (codes "; ") parts), s)
  any_pass i (m ∷ ms) v parts s = any_verdict parts (evaluate m v s) i (any_pass (suc i) ms v)

  nil_verdict : Option ℕ → List (Matcher S V) → V → S → Verdict × S
  unfolding unasked_parts any_pass join_with
  nil_verdict (some nil_at) ms v s =
      ((false, any_name ++ join_with (codes "; ") (unasked_parts nil_at 1 ms)), s)
  nil_verdict none ms v s = any_pass 1 ms v [] s

  any_evaluate : List (Matcher S V) → V → S → Verdict × S
  unfolding nil_verdict first_nil
  any_evaluate [] v s = ((false, empty_text), s)
  any_evaluate (m ∷ ms) v s = nil_verdict (first_nil 1 (m ∷ ms)) (m ∷ ms) v s

  any_message_from : Option ℕ → List (Matcher S V) → V → S → Text × S
  unfolding unasked_parts again_text parts_again join_with
  any_message_from (some nil_at) ms v s =
      (any_name ++ join_with (codes "; ") (unasked_parts nil_at 1 ms), s)
  any_message_from none ms v s = again_text any_name (parts_again 1 ms v s)

  any_message : List (Matcher S V) → V → S → Text × S
  unfolding any_message_from first_nil
  any_message [] v s = (empty_text, s)
  any_message (m ∷ ms) v s = any_message_from (first_nil 1 (m ∷ ms)) (m ∷ ms) v s

  any_match : List (Matcher S V) → V → S → Bool × S
  unfolding any_match_from first_nil
  any_match ms v s = any_match_from (first_nil 1 ms) ms v s

  unfoldable pub any_matcher : List (Matcher S V) → Matcher S V
  unfolding any_match any_evaluate any_message describe_entries join_with
  any_matcher ms = record {
    is_nil = false;
    match_value = any_match ms;
    failure_message = any_message ms;
    evaluator = some (any_evaluate ms);
    description =
        some (codes "any of [" ++ (join_with (codes ", ") (describe_entries ms) ++ codes "]"));
    type_name = codes "*assert.anyMatcher";
  }
