-- ===== src/Retrieval/Index.antt =====
-- An index is recorded whole, and filtered for the download only.
use csaf_trove.Base.{
  ◌≡◌, refl, ◌∙◌, ap, Bool, ◌||◌, ◌&&◌, Option, none, some, List, [], ◌∷◌, arith, any, retain, map,
  leb, Bool-cases, inl, inr,
}
use csaf_trove.Base.Text.{Text, text_eq, text_eq_iff, text_eq_refl}
use csaf_trove.Base.Map
use csaf_trove.Base.Effect.{Result, ok, err}
use csaf_trove.Jobs.{Timestamp}
use csaf_trove.Storage.PathSet.Rows.{contains, IsSorted, insert_row-IsSorted, contains-insert_row}
use csaf_trove.Retrieval.{
  DiscoveredAdvisory, MembershipSource, collect_set, is_wanted, select_changed, load_index,
}

collect_set-IsSorted : (xs : List Text) → IsSorted (collect_set xs)
unfolding collect_set
collect_set-IsSorted [] = tt
collect_set-IsSorted (x ∷ xs) = insert_row-IsSorted x (collect_set xs) (collect_set-IsSorted xs)

pub contains-collect_set : (p : Text) (xs : List Text) → contains p (collect_set xs) ≡ contains p xs
unfolding collect_set contains
contains-collect_set p [] = refl
contains-collect_set p (x ∷ xs) =
    ground (arith, contains-insert_row p x (collect_set xs), contains-collect_set p xs)

abbrev pub urls : List DiscoveredAdvisory → List Text
urls = map (λ a. a.url)

-- Whether an advisory of the URL is among them.
abbrev pub lists : Text → List DiscoveredAdvisory → Bool
lists p advisories = contains p (urls advisories)

-- Whether some advisory of the URL is new enough.
abbrev pub changed_since : Text → Timestamp → List DiscoveredAdvisory → Bool
changed_since p since advisories = any (λ a. text_eq a.url p && leb since a.modified) advisories

-- Which URLs the next steps download.
abbrev pub downloads : Option Timestamp → List Text → List DiscoveredAdvisory → Text → Bool
downloads none retry advisories p = lists p advisories
downloads (some since) retry advisories p =
    changed_since p since advisories || (contains p retry && lists p advisories)

any-contains : (p : Text) (xs : List Text) → any (λ url. text_eq url p) xs ≡ contains p xs
unfolding contains
any-contains p [] = refl
any-contains p (x ∷ xs) = ground (arith, any-contains p xs)

is_wanted-same :
    (since : Timestamp) (retry : List Text) (a : DiscoveredAdvisory) (p : Text)
    → (text_eq a.url p && is_wanted since retry a)
      ≡ (text_eq a.url p && (leb since a.modified || contains p retry))
unfolding is_wanted
is_wanted-same since retry a p = elim (Bool-cases (text_eq a.url p)) [
  | inr other ↦ rw other
  | inl same ↦
      let e : a.url ≡ p = (text_eq_iff a.url p).0 same in
      rw (same, any-contains a.url retry)
        (ap (λ (url : Text). leb since a.modified || contains url retry) e)
]

lists-retain :
    (since : Timestamp) (retry : List Text) (advisories : List DiscoveredAdvisory) (p : Text)
    → lists p (retain (is_wanted since retry) advisories)
      ≡ (changed_since p since advisories || (contains p retry && lists p advisories))
unfolding contains
lists-retain since retry [] p = ground arith
lists-retain since retry (a ∷ advisories) p = elim (Bool-cases (is_wanted since retry a)) [
  | inl wanted ↦ rw wanted (
      ground (arith, lists-retain since retry advisories p, is_wanted-same since retry a p, wanted))
  | inr unwanted ↦ rw unwanted (
      ground
        (arith, lists-retain since retry advisories p, is_wanted-same since retry a p, unwanted))
]

lists-select_changed :
    (since : Option Timestamp) (retry : List Text) (advisories : List DiscoveredAdvisory) (p : Text)
    → lists p (select_changed since retry advisories) ≡ downloads since retry advisories p
unfolding select_changed
lists-select_changed none retry advisories p = refl
lists-select_changed (some since) retry advisories p = lists-retain since retry advisories p

-- What loading an index does, by the outcome of the wrapped source.
abbrev pub IndexRule :
    Text
    → Result (List DiscoveredAdvisory)
    → MembershipSource
    → Result (List DiscoveredAdvisory) × MembershipSource
    → Type 0
IndexRule url (err e) source (r, source') = (r ≡ err e) × (source' ≡ source)
IndexRule url (ok advisories) source (r, source') =
    (kept : List DiscoveredAdvisory) × (members : List Text) × (r ≡ ok kept)
    × ((p : Text) → lists p kept ≡ downloads source.since source.retry advisories p)
    × (Map.get url source'.membership ≡ some members)
    × IsSorted members
    × ((p : Text) → contains p members ≡ lists p advisories)

-- An index that cannot be loaded is not recorded, so older membership is not lost. One that loads,
-- also an empty one, is recorded whole under its URL, as a sorted set, and what is handed on for
-- download are the advisories that changed since the token, and those whose last retrieval failed
-- however old they are; without a token all of them.
pub load_index-IndexRule :
    (url : Text) (loaded : Result (List DiscoveredAdvisory)) (source : MembershipSource)
    → IndexRule url loaded source (load_index url loaded source)
unfolding load_index
load_index-IndexRule url (err e) source = (refl, refl)
load_index-IndexRule url (ok advisories) source =
    let members = collect_set (urls advisories) in
    (
      select_changed source.since source.retry advisories,
      members,
      refl,
      lists-select_changed source.since source.retry advisories,
      Map.get-insert url url members source.membership ∙ rw text_eq_refl,
      collect_set-IsSorted (urls advisories),
      (λ p. contains-collect_set p (urls advisories)),
    )
