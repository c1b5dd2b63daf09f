-- ===== src/Release/Changelog/Lines.antt =====
-- The lines of the file that tools/release/changelog.go writes.
use mathlib.Core.List.{reverse, reverse-cons, reverse-append, reverse-reverse}
use go_specs.Prelude.{
  ℕ, ◌≡◌, ◌≢◌, refl, sym, ap, ◌∙◌, arith, false, List, [], ◌∷◌, ◌++◌, All, All-append, Bool-cases,
  inl, inr, append_assoc, append-nil,
}
use go_specs.Prelude.Text.{Text, codes, is_space, trim_space, trim_right, is_blank, split, join}
use go_specs.Prelude.Text.Lines.{
  IsLine, split-join, split-front, trim_right-keeps, trim_space-keeps,
}
use go_specs.Release.Headings.{target, is_link_line}
use go_specs.Release.Changelog.{
  ChangelogOptions, drop_blank, take_links, rewritten, unreleased_link, version_link, other_links,
  new_heading,
}

drop_blank-keeps :
    (xs : List Text) (h : Text) (ys : List Text)
    → is_blank (trim_space h) ≡ false
    → (zs : List Text) × (drop_blank (xs ++ h ∷ ys) ≡ zs ++ h ∷ ys)
unfolding drop_blank
drop_blank-keeps [] h ys n = ([], rw n refl)
drop_blank-keeps (x ∷ xs) h ys n =
    let (zs, e) = drop_blank-keeps xs h ys n in
    elim (Bool-cases (is_blank (trim_space x))) [
      | inl b ↦ (zs, rw b e)
      | inr b ↦ (x ∷ xs, rw b refl)
    ]

take_links-keeps :
    (links zs : List Text) (h : Text) (ys : List Text)
    → is_link_line (trim_space h) ≡ false
    → (more : List Text) × (kept : List Text) × (take_links links (zs ++ h ∷ ys)
        ≡ (more, kept ++ h ∷ ys))
unfolding take_links
take_links-keeps links [] h ys n = (links, [], rw n refl)
take_links-keeps links (z ∷ zs) h ys n =
    let (more, kept, e) = take_links-keeps (trim_space z ∷ links) zs h ys n in
    elim (Bool-cases (is_link_line (trim_space z))) [
      | inl b ↦ (more, kept, rw b e)
      | inr b ↦ (links, z ∷ zs, rw b refl)
    ]

reverse-middle :
    (xs : List Text) (h : Text) (ys : List Text)
    → reverse (xs ++ h ∷ ys) ≡ reverse ys ++ h ∷ reverse xs
reverse-middle xs h ys =
    reverse-append xs (h ∷ ys)
    ∙ (ap (◌++ reverse xs) (reverse-cons h ys) ∙ append_assoc (reverse ys) (h ∷ []) (reverse xs))

-- The lines that stay when the links and blank lines at the end are taken away.
kept-lines :
    (pre : List Text) (h : Text) (after : List Text)
    → is_blank (trim_space h) ≡ false
    → is_link_line (trim_space h) ≡ false
    → (links : List Text) × (body : List Text) × (rest : List Text) × (take_links []
          (drop_blank (reverse (pre ++ h ∷ after)))
        ≡ (links, body))
      × (reverse body ≡ pre ++ h ∷ rest)
kept-lines pre h after blank link =
    let (zs, e) = drop_blank-keeps (reverse after) h (reverse pre) blank in
    let (links, kept, f) = take_links-keeps [] zs h (reverse pre) link in
    (
      links,
      kept ++ h ∷ reverse pre,
      reverse kept,
      ap (λ (l : List Text). take_links [] (drop_blank l)) (reverse-middle pre h after)
          ∙ (ap (take_links []) e ∙ f),
      reverse-middle kept h (reverse pre) ∙ ap (◌++ h ∷ reverse kept) (reverse-reverse pre),
    )

join-head : (h : Text) (rest : List Text) → (v : Text) × (join 10 (h ∷ rest) ≡ h ++ v)
unfolding join
join-head h [] = ([], sym (append-nil h))
join-head h (next ∷ rest) = (10 ∷ join 10 (next ∷ rest), refl)

join-middle :
    (l : Text) (lines : List Text) (h : Text) (rest : List Text)
    → (v : Text) × (join 10 ((l ∷ lines) ++ h ∷ rest) ≡ join 10 (l ∷ lines) ++ 10 ∷ (h ++ v))
unfolding join
join-middle l [] h rest = let (v, e) = join-head h rest in (v, ap (λ (t : Text). l ++ 10 ∷ t) e)
join-middle l (next ∷ lines) h rest =
    let (v, e) = join-middle next lines h rest in
    (
      v,
      ap (λ (t : Text). l ++ 10 ∷ t) e
          ∙ sym (append_assoc l (10 ∷ join 10 (next ∷ lines)) (10 ∷ (h ++ v))),
    )

target-IsLine : (version : Text) → IsLine version → IsLine (target version)
target-IsLine version h =
    let bracket : 91 ≢ 10 = λ e. absurd (omega (arith, e)) in
    let closing : 93 ≢ 10 = λ e. absurd (omega (arith, e)) in
    let hash : 35 ≢ 10 = λ e. absurd (omega (arith, e)) in
    let space : 32 ≢ 10 = λ e. absurd (omega (arith, e)) in
    let rest = All-append (λ (c : ℕ). c ≢ 10) version (93 ∷ []) h (closing, tt) in
    (hash, (hash, (space, (bracket, rest))))

new_heading-trim : (opts : ChangelogOptions) → (w : Text) × (trim_space (new_heading opts) ≡ 35 ∷ w)
unfolding new_heading
new_heading-trim opts = trim_space-keeps 35 _ (unfold is_space in refl)

line-middle :
    (u version w : Text)
    → u ++ 10 ∷ (target version ++ w) ≡ (u ++ 10 ∷ 35 ∷ 35 ∷ 32 ∷ 91 ∷ version) ++ 93 ∷ w
line-middle u version w =
    ap (λ (t : Text). u ++ 10 ∷ 35 ∷ 35 ∷ 32 ∷ 91 ∷ t) (append_assoc version (93 ∷ []) w)
    ∙ sym (append_assoc u (10 ∷ 35 ∷ 35 ∷ 32 ∷ 91 ∷ version) (93 ∷ w))

-- A line stays in front of the end of a text that is trimmed there.
trim_right-line :
    (u version w : Text)
    → (z : Text) × (trim_right 10 (u ++ 10 ∷ (target version ++ w))
        ≡ u ++ 10 ∷ (target version ++ z))
trim_right-line u version w =
    let (z, e) =
      trim_right-keeps (u ++ 10 ∷ 35 ∷ 35 ∷ 32 ∷ 91 ∷ version) 93 w
        (λ e. absurd (omega (arith, e))) in
    (z, ap (trim_right 10) (line-middle u version w) ∙ (e ∙ sym (line-middle u version z)))

-- What follows the joined lines is cut off behind the version, whatever is written there.
split-written :
    (opts : ChangelogOptions) (l : Text) (lines rest : List Text) (tail : Text)
    → All IsLine (l ∷ lines)
    → IsLine opts.version
    → (first : Text) × (more : List Text) × (split 10
          (trim_right 10 (join 10 ((l ∷ lines) ++ new_heading opts ∷ rest)) ++ tail)
        ≡ (l ∷ lines) ++ (target opts.version ++ first) ∷ more)
unfolding new_heading
split-written opts l lines rest tail front version =
    let before = join 10 (l ∷ lines) in
    let heading = target opts.version in
    let (v, joined) = join-middle l lines (new_heading opts) rest in
    let (z, trimmed) = trim_right-line before opts.version ((codes " - " ++ opts.date) ++ v) in
    let (first, more, last) =
      split-front heading (z ++ tail) (target-IsLine opts.version version) in
    (
      first,
      more,
      ap (λ (t : Text). split 10 (trim_right 10 t ++ tail))
            (joined
              ∙ ap (λ (t : Text). before ++ 10 ∷ t)
                  (append_assoc heading (codes " - " ++ opts.date) v))
          ∙ (ap (λ (t : Text). split 10 (t ++ tail)) trimmed
              ∙ (ap (split 10) (
                    append_assoc before (10 ∷ (heading ++ z)) tail
                    ∙ ap (λ (t : Text). before ++ 10 ∷ t) (append_assoc heading z tail))
                  ∙ (split-join l lines (heading ++ (z ++ tail)) front
                      ∙ ap ((l ∷ lines) ++◌) last))),
    )

-- The lines of the written file: those before the new heading stay, and the line of the new heading
-- begins with the version.
pub rewritten-lines :
    (opts : ChangelogOptions) (prev l : Text) (lines after : List Text)
    → All IsLine (l ∷ lines)
    → IsLine opts.version
    → (first : Text) × (rest : List Text) × (split 10
          (rewritten opts prev ((l ∷ lines) ++ new_heading opts ∷ after))
        ≡ (l ∷ lines) ++ (target opts.version ++ first) ∷ rest)
unfolding rewritten
rewritten-lines opts prev l lines after front version =
    let (w, trimmed) = new_heading-trim opts in
    let (links, body, rest, e, f) =
      kept-lines (l ∷ lines) (new_heading opts) after (rw trimmed (unfold is_blank in refl))
        (rw trimmed (unfold is_link_line in refl)) in
    let (first, more, g) =
      split-written opts l lines rest
        (10
          ∷ 10
          ∷ (join 10 (unreleased_link opts ∷ version_link opts prev ∷ other_links links)
              ++ 10 ∷ []))
        front version in
    (first, more, rw (e, f) g)
