-- ===== src/Storage/Documents/Valid.antt =====
-- The keys of the tables of documents: what every transaction keeps.
use csaf_trove.Base.{
  ◌≡◌, refl, ap, ℕ, ◌<◌, Bool, true, false, ◌||◌, List, [], ◌∷◌, any, ◌==◌, ==_iff, arith,
  Bool-cases, or-false, inl, inr, All,
}
use csaf_trove.Base.Text.{text_eq}
use csaf_trove.Storage.Documents.{
  DocumentRow, Owned, Tables, is_in, delete_owned, select_ids, delete_rows, delete_ids,
  delete_all_owned, delete_matching,
}
use csaf_trove.Storage.Documents.Rows.{IsKeyed, delete_rows-All}

-- At most one row has a URL.
abbrev pub HasUrls : List DocumentRow → Type 0
HasUrls [] = Unit
HasUrls (row ∷ rows) = All (λ other. text_eq other.url row.url ≡ false) rows × HasUrls rows

abbrev pub has_id : List DocumentRow → ℕ → Bool
has_id rows id = any (λ row. row.id == id) rows

-- What belongs to a document refers to a row.
abbrev pub Refers : {A : Type 0} → List DocumentRow → List (Owned A) → Type 0
Refers rows cs = All (λ c. has_id rows c.document_id ≡ true) cs

pub record IsValid {W : Type 0} (t : Tables W) : Type 0 where
  pub keyed : IsKeyed t.documents
  pub below : All (λ row. row.id < t.next_id) t.documents
  pub urls : HasUrls t.documents
  pub failures : Refers t.documents t.failures
  pub revisions : Refers t.documents t.revisions
  pub vulnerabilities : Refers t.documents t.vulnerabilities

has_id-lt :
    (n id : ℕ) (rows : List DocumentRow)
    → All (λ row. row.id < n) rows
    → has_id rows id ≡ true
    → id < n
has_id-lt n id [] below h = cc
has_id-lt n id (row ∷ rows) below h = elim (Bool-cases (row.id == id)) [
  | inl here ↦ omega (arith, (==_iff row.id id).0 here, below.0)
  | inr later ↦ has_id-lt n id rows below.1 (rw later at h)
]

pub Refers-lt :
    {A : Type 0} (n : ℕ) (rows : List DocumentRow) (cs : List (Owned A))
    → All (λ row. row.id < n) rows
    → Refers rows cs
    → All (λ c. c.document_id < n) cs
Refers-lt n rows [] below refers = tt
Refers-lt n rows (c ∷ cs) below refers =
    (has_id-lt n c.document_id rows below refers.0, Refers-lt n rows cs below refers.1)

-- Deleting.
has_id-delete_rows :
    (id : ℕ) (gone : DocumentRow → Bool) (rows : List DocumentRow)
    → has_id rows id ≡ true
    → is_in id (select_ids gone rows) ≡ false
    → has_id (delete_rows gone rows) id ≡ true
unfolding select_ids delete_rows
has_id-delete_rows id gone [] h kept = h
has_id-delete_rows id gone (row ∷ rows) h kept = elim (Bool-cases (gone row)) [
  | inl deleted ↦
      let both : ((row.id == id) || is_in id (select_ids gone rows)) ≡ false = rw deleted at kept in
      let (ne, rest) = or-false (row.id == id) _ both in
      rw deleted (has_id-delete_rows id gone rows (rw ne at h) rest)
  | inr stays ↦
      let rest : is_in id (select_ids gone rows) ≡ false = rw stays at kept in
      elim (Bool-cases (row.id == id)) [
        | inl here ↦ rw (stays, here) refl
        | inr later ↦ rw (stays, later) (has_id-delete_rows id gone rows (rw later at h) rest)
      ]
]

delete_rows-IsKeyed :
    (gone : DocumentRow → Bool) (rows : List DocumentRow)
    → IsKeyed rows
    → IsKeyed (delete_rows gone rows)
unfolding delete_rows
delete_rows-IsKeyed gone [] keyed = tt
delete_rows-IsKeyed gone (row ∷ rows) keyed = elim (Bool-cases (gone row)) [
  | inl deleted ↦ rw deleted (delete_rows-IsKeyed gone rows keyed.1)
  | inr stays ↦ rw stays (
    delete_rows-All (λ other. (other.id == row.id) ≡ false) gone rows keyed.0,
    delete_rows-IsKeyed gone rows keyed.1,
  )
]

delete_rows-HasUrls :
    (gone : DocumentRow → Bool) (rows : List DocumentRow)
    → HasUrls rows
    → HasUrls (delete_rows gone rows)
unfolding delete_rows
delete_rows-HasUrls gone [] urls = tt
delete_rows-HasUrls gone (row ∷ rows) urls = elim (Bool-cases (gone row)) [
  | inl deleted ↦ rw deleted (delete_rows-HasUrls gone rows urls.1)
  | inr stays ↦ rw stays (
    delete_rows-All (λ other. text_eq other.url row.url ≡ false) gone rows urls.0,
    delete_rows-HasUrls gone rows urls.1,
  )
]

delete_owned-Refers :
    {A : Type 0} (gone : DocumentRow → Bool) (rows : List DocumentRow) (cs : List (Owned A))
    → Refers rows cs
    → Refers (delete_rows gone rows) (delete_owned (select_ids gone rows) cs)
unfolding delete_owned
delete_owned-Refers gone rows [] refers = tt
delete_owned-Refers gone rows (c ∷ cs) refers =
    elim (Bool-cases (is_in c.document_id (select_ids gone rows))) [
      | inl deleted ↦ rw deleted (delete_owned-Refers gone rows cs refers.1)
      | inr stays ↦ rw stays (
        has_id-delete_rows c.document_id gone rows refers.0 stays,
        delete_owned-Refers gone rows cs refers.1,
      )
    ]

-- If no key is selected, nothing is deleted.
delete_rows-none :
    (gone : DocumentRow → Bool) (rows : List DocumentRow)
    → select_ids gone rows ≡ []
    → delete_rows gone rows ≡ rows
unfolding select_ids delete_rows
delete_rows-none gone [] h = refl
delete_rows-none gone (row ∷ rows) h = elim (Bool-cases (gone row)) [
  | inl deleted ↦ let wrong : row.id ∷ select_ids gone rows ≡ [] = rw deleted at h in cc
  | inr stays ↦ rw stays (ap (◌∷◌ row) (delete_rows-none gone rows (rw stays at h)))
]

delete_owned-none : {A : Type 0} (cs : List (Owned A)) → delete_owned [] cs ≡ cs
unfolding delete_owned
delete_owned-none [] = refl
delete_owned-none (c ∷ cs) = ap (◌∷◌ c) (delete_owned-none cs)

module _ {W : Type 0} where
  delete_ids-eq :
      (ids : List ℕ) (gone : DocumentRow → Bool) (t : Tables W)
      → select_ids gone t.documents ≡ ids
      → delete_ids ids gone t ≡ delete_all_owned ids gone t
  delete_ids-eq [] gone t h = rw (
    delete_rows-none gone t.documents h,
    delete_owned-none t.failures,
    delete_owned-none t.revisions,
    delete_owned-none t.vulnerabilities,
  )
  delete_ids-eq (i ∷ ids) gone t h = refl

  pub delete_matching-eq :
      (gone : DocumentRow → Bool) (t : Tables W)
      → delete_matching gone t ≡ delete_all_owned (select_ids gone t.documents) gone t
  unfolding delete_matching
  delete_matching-eq gone t = delete_ids-eq (select_ids gone t.documents) gone t refl

  pub delete_all_owned-IsValid :
      (gone : DocumentRow → Bool) (t : Tables W)
      → IsValid t
      → IsValid (delete_all_owned (select_ids gone t.documents) gone t)
  delete_all_owned-IsValid gone t v = record {
    keyed = delete_rows-IsKeyed gone t.documents v.keyed;
    below = delete_rows-All (λ row. row.id < t.next_id) gone t.documents v.below;
    urls = delete_rows-HasUrls gone t.documents v.urls;
    failures = delete_owned-Refers gone t.documents t.failures v.failures;
    revisions = delete_owned-Refers gone t.documents t.revisions v.revisions;
    vulnerabilities = delete_owned-Refers gone t.documents t.vulnerabilities v.vulnerabilities;
  }
