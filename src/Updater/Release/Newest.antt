-- ===== src/Updater/Release/Newest.antt =====
-- Which release is chosen.
use winforge.Prelude.{
  ◌≡◌, refl, ap, Bool, true, false, not, Option, none, some, List, [], ◌∷◌, ◌++◌, All,
  if◌then◌else◌,
}
use winforge.Errors.{Result, ok, err}
use winforge.Updater.Release.{
  ReleaseInfo, validate_release_info, published, first_published, or_first, with_valid,
  choose_release,
}

-- a draft, or nil
abbrev pub IsUnpublished : Option ReleaseInfo → Type 0
IsUnpublished r = published r ≡ false

-- The first of the releases that is no draft; or, where all are, the first of all.
pub data Newest (releases : List (Option ReleaseInfo)) (r : ReleaseInfo) : Type 0 where
  newest :
      (before after : List (Option ReleaseInfo))
      → releases ≡ before ++ (some r ∷ after)
      → r.draft ≡ false
      → All IsUnpublished before
      → Newest releases r
  only_drafts :
      (after : List (Option ReleaseInfo))
      → releases ≡ some r ∷ after
      → All IsUnpublished releases
      → Newest releases r

abbrev First : List (Option ReleaseInfo) → Option ReleaseInfo → Type 0
First releases none = All IsUnpublished releases
First releases (some r) =
    (before : List (Option ReleaseInfo)) × (after : List (Option ReleaseInfo)) × (releases
      ≡ before ++ (some r ∷ after))
    × (r.draft ≡ false)
    × All IsUnpublished before

later-First :
    (r : Option ReleaseInfo) (releases : List (Option ReleaseInfo)) (o : Option ReleaseInfo)
    → published r ≡ false
    → First releases o
    → First (r ∷ releases) o
later-First r releases none u h = (u, h)
later-First r releases (some x) u (before, after, e, d, all) =
    (r ∷ before, after, ap (λ (l : List (Option ReleaseInfo)). r ∷ l) e, d, (u, all))

undraft : (d : Bool) → not d ≡ true → d ≡ false
undraft true h = cc
undraft false h = refl

head-First :
    (r : Option ReleaseInfo) (releases : List (Option ReleaseInfo))
    → published r ≡ true
    → First (r ∷ releases) r
head-First none releases h = cc
head-First (some x) releases h = ([], releases, refl, undraft x.draft h, tt)

pick-First :
    (r : Option ReleaseInfo) (releases : List (Option ReleaseInfo)) (b : Bool)
    (o : Option ReleaseInfo)
    → published r ≡ b
    → First releases o
    → First (r ∷ releases) (if b then r else o)
pick-First r releases true o e h = head-First r releases e
pick-First r releases false o e h = later-First r releases o e h

first_published-First :
    (releases : List (Option ReleaseInfo)) → First releases (first_published releases)
unfolding first_published
first_published-First [] = tt
first_published-First (r ∷ releases) =
    pick-First r releases (published r) (first_published releases) refl
      (first_published-First releases)

with_valid-ok :
    (chosen : Option ReleaseInfo) (v : Result (Unit {0})) (r : ReleaseInfo)
    → with_valid chosen v ≡ ok r
    → (v ≡ ok tt) × (chosen ≡ some r)
with_valid-ok chosen (err e) r h = cc
with_valid-ok none (ok u) r h = cc
with_valid-ok (some x) (ok u) r h = (refl, cc)

-- A release that is chosen has passed the checks; it is the first of the list that is no draft, or the
-- first of all where there are drafts only.
pub choose_release-Newest :
    (releases : List (Option ReleaseInfo)) (r : ReleaseInfo)
    → choose_release releases ≡ ok r
    → (validate_release_info (some r) ≡ ok tt) × Newest releases r
unfolding choose_release
choose_release-Newest [] r h = cc
choose_release-Newest (first ∷ releases) r h =
    let all = first ∷ releases in
    let (valid, chosen) = with_valid-ok _ _ r h in
    (cc (valid, chosen), is_newest (first_published all) (first_published-First all) chosen)
  where
    is_newest :
        (o : Option ReleaseInfo)
        → First (first ∷ releases) o
        → or_first o first ≡ some r
        → Newest (first ∷ releases) r
    is_newest none h e = only_drafts releases (ap (λ (x : Option ReleaseInfo). x ∷ releases) e) h
    is_newest (some x) (before, after, split, d, all) e =
        newest before after (cc (split, e)) (cc (d, e)) all
