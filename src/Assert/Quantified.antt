-- ===== src/Assert/Quantified.antt =====
-- assert/quantified_matchers.go: every, some, no, exactly, at least or at most so many elements match.
-- How a value is read as a list of elements, and shown, are parameters.
pub mod Packaged
pub mod Counted
use go_specs.Prelude.{
  ℕ, zero, suc, ◌+◌, Bool, true, false, not, ◌&&◌, ◌||◌, Option, none, some, List, [], ◌∷◌, ◌++◌,
  length, ℤ, pos, negsuc, leb_ℤ, eq_ℤ, ltb_ℤ, ltb, ◌==◌, if◌then◌else◌,
}
use go_specs.Prelude.Text.{Text, codes, itoa}
use go_specs.Assert.Matcher.{
  Matcher, Verdict, nil_matcher_failure, describe_matcher, join_with, evaluate,
}
use go_specs.Assert.Listing.{
  ElementListing, no_listing, add_listing, count_listing, joined, indices_string, int_text,
}

pub data Quantifier : Type 0 where
  quant_every quant_any quant_none quant_exactly quant_at_least quant_at_most : Quantifier

pub record QuantifiedMatcher (S V : Type 0) : Type 0 where
  pub name : Text
  pub kind : Quantifier
  pub n : ℤ
  pub sub : Matcher S V

-- EveryElement, AnyElement, NoElement and the counting constructors
unfoldable pub every_element : {S V : Type 0} → Matcher S V → QuantifiedMatcher S V
every_element m = record { name = codes "EveryElement"; kind = quant_every; n = pos 0; sub = m }

unfoldable pub any_element : {S V : Type 0} → Matcher S V → QuantifiedMatcher S V
any_element m = record { name = codes "AnyElement"; kind = quant_any; n = pos 0; sub = m }

unfoldable pub no_element : {S V : Type 0} → Matcher S V → QuantifiedMatcher S V
no_element m = record { name = codes "NoElement"; kind = quant_none; n = pos 0; sub = m }

unfoldable pub exactly_n_elements : {S V : Type 0} → ℤ → Matcher S V → QuantifiedMatcher S V
exactly_n_elements n m = record {
  name = codes "ExactlyNElements";
  kind = quant_exactly;
  n = n;
  sub = m;
}

unfoldable pub at_least_n_elements : {S V : Type 0} → ℤ → Matcher S V → QuantifiedMatcher S V
at_least_n_elements n m = record {
  name = codes "AtLeastNElements";
  kind = quant_at_least;
  n = n;
  sub = m;
}

unfoldable pub at_most_n_elements : {S V : Type 0} → ℤ → Matcher S V → QuantifiedMatcher S V
at_most_n_elements n m = record {
  name = codes "AtMostNElements";
  kind = quant_at_most;
  n = n;
  sub = m;
}

counts : Quantifier → Bool
counts quant_exactly = true
counts quant_at_least = true
counts quant_at_most = true
counts _ = false

tracks_hits : Quantifier → Bool
unfolding counts
tracks_hits quant_none = true
tracks_hits kind = counts kind

tracks_misses : Quantifier → Bool
tracks_misses quant_none = false
tracks_misses quant_at_most = false
tracks_misses _ = true

-- A success that needs no more elements.
stops : Quantifier → ℤ → ℕ → Bool
stops quant_any n matched = true
stops quant_at_least n matched = leb_ℤ n (pos matched)
stops _ n matched = false

-- The loop's variables.
pub record Tally : Type 0 where
  pub hits : List ℕ
  pub misses : ElementListing
  pub matched : ℕ

quantity : ℕ → ℕ → Text → Text → Text
quantity part total verb rest =
    itoa part
    ++ (codes " of " ++ (itoa total ++ (codes " elements " ++ (verb ++ (codes " — " ++ rest)))))

hit : Quantifier → ℕ → Tally → Tally
unfolding tracks_hits
hit kind i t = record t {
  hits = if tracks_hits kind then t.hits ++ i ∷ [] else t.hits;
  matched = suc t.matched;
}

details : ℤ → Tally → List Text
unfolding indices_string joined count_listing
details n t =
    (if ltb 0 t.matched then (codes "matching indices " ++ indices_string t.hits) ∷ [] else [])
    ++ (if ltb_ℤ (pos t.matched) n && ltb 0 (count_listing t.misses)
        then joined (codes "; ") t.misses ∷ []
        else [])

with_details : Text → List Text → Text
unfolding join_with
with_details text [] = text
with_details text (part ∷ parts) = text ++ (codes " — " ++ join_with (codes "; ") (part ∷ parts))

is_at_least : Quantifier → Bool
is_at_least quant_at_least = true
is_at_least _ = false

module _ {V : Type 0} (user_value : V → Text) where
  position_text : ℕ → V → Text
  position_text i element = b'[' ∷ (itoa i ++ (codes "] " ++ user_value element))

  list_hits : List V → ℕ → List ℕ → ElementListing → ElementListing
  unfolding add_listing position_text
  list_hits [] i hits l = l
  list_hits (element ∷ rest) i [] l = l
  list_hits (element ∷ rest) i (h ∷ hits) l =
      let there = list_hits rest (suc i) hits (add_listing (position_text i element) l) in
      let onward = list_hits rest (suc i) (h ∷ hits) l in if i == h then there else onward

module _ {V : Type 0} (quote : Text → Text) (user_value : V → Text) where
  miss : Quantifier → ℕ → V → Text → Tally → Tally
  unfolding tracks_misses add_listing position_text
  miss kind i element failure t =
      if tracks_misses kind
      then record t {
        misses =
            add_listing (position_text user_value i element ++ (codes ": " ++ quote failure))
              t.misses;
      }
      else t

module _ {S V : Type 0} (quote : Text → Text) (user_value : V → Text) where
  judged :
      QuantifiedMatcher S V
      → ℕ
      → V
      → Tally
      → Verdict × S
      → (Tally → S → Option Tally × S)
      → Option Tally × S
  unfolding miss hit stops
  judged q i element t ((false, failure), s) rest =
      rest (miss quote user_value q.kind i element failure t) s
  judged q i element t ((true, failure), s) rest =
      let next = rest (hit q.kind i t) s in
      if stops q.kind q.n (suc t.matched) then (none, s) else next

  -- The loop over the elements; `none` when it returns early with success.
  unfoldable tally_elements : QuantifiedMatcher S V → ℕ → List V → Tally → S → Option Tally × S
  unfolding judged evaluate
  tally_elements q i [] t s = (some t, s)
  tally_elements q i (element ∷ rest) t s =
      judged q i element t (evaluate q.sub element s) (tally_elements q (suc i) rest)

  count_text : QuantifiedMatcher S V → Text → ℕ → Tally → Text
  unfolding with_details details int_text
  count_text q qualifier total t =
      with_details
        (q.name
          ++ (codes ": expected "
              ++ (qualifier
                  ++ (codes " "
                      ++ (int_text q.n
                          ++ (codes " of "
                              ++ (itoa total
                                  ++ (codes " elements to match, "
                                      ++ (itoa t.matched ++ codes " did")))))))))
        (details q.n t)

  -- The verdict after the loop.
  conclude_tally : QuantifiedMatcher S V → Quantifier → List V → Tally → Verdict
  unfolding count_listing joined list_hits count_text quantity
  conclude_tally q quant_every es t = if count_listing t.misses == 0 then (true, []) else (
    false,
    q.name
        ++ (codes ": "
            ++ quantity (count_listing t.misses) (length es) (codes "failed")
                (joined (codes "; ") t.misses)),
  )
  conclude_tally q quant_any es t =
      if length es == 0
      then (false, q.name ++ codes ": the collection is empty, so no element could match")
      else (
        false,
        q.name
            ++ (codes ": none of "
                ++ (itoa (length es)
                    ++ (codes " elements matched — " ++ joined (codes "; ") t.misses))),
      )
  conclude_tally q quant_none es t = if t.matched == 0 then (true, []) else (
    false,
    q.name
        ++ (codes ": "
            ++ quantity t.matched (length es) (codes "matched")
                (joined (codes "; ") (list_hits user_value es 0 t.hits no_listing))),
  )
  conclude_tally q quant_exactly es t =
      if eq_ℤ (pos t.matched) q.n
      then (true, [])
      else (false, count_text q (codes "exactly") (length es) t)
  conclude_tally q quant_at_least es t = (false, count_text q (codes "at least") (length es) t)
  conclude_tally q quant_at_most es t =
      if leb_ℤ (pos t.matched) q.n
      then (true, [])
      else (false, count_text q (codes "at most") (length es) t)

  concluded : QuantifiedMatcher S V → List V → Option Tally × S → Verdict × S
  unfolding conclude_tally
  concluded q es (none, s) = ((true, []), s)
  concluded q es (some t, s) = (conclude_tally q q.kind es t, s)

  evaluate_list : QuantifiedMatcher S V → List V → S → Verdict × S
  unfolding concluded tally_elements is_at_least
  evaluate_list q es s =
      if is_at_least q.kind && eq_ℤ q.n (pos 0)
      then ((true, []), s)
      else concluded q es
          (tally_elements q 0 es (record { hits = []; misses = no_listing; matched = 0 }) s)

  module _ (elements : V → Option (List V)) (not_list : Text → V → Text) where
    on_list : QuantifiedMatcher S V → V → Option (List V) → S → Verdict × S
    unfolding evaluate_list
    on_list q v none s = ((false, not_list q.name v), s)
    on_list q v (some es) s = evaluate_list q es s

    unfoldable pub quantified_evaluate : QuantifiedMatcher S V → V → S → Verdict × S
    unfolding on_list counts nil_matcher_failure int_text
    quantified_evaluate q v s =
        if q.sub.is_nil
        then ((false, q.name ++ (codes ": " ++ nil_matcher_failure)), s)
        else if counts q.kind && ltb_ℤ q.n (pos 0)
        then ((false, q.name ++ (codes ": count must not be negative, got " ++ int_text q.n)), s)
        else on_list q v (elements v) s
