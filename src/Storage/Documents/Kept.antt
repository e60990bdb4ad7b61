-- ===== src/Storage/Documents/Kept.antt =====
-- What new and changed rows do to the keys of the tables of documents.
use csaf_trove.Base.{
  ◌≡◌, refl, sym, ap, ◌∙◌, ℕ, suc, ◌<◌, Bool, true, false, ◌||◌, none, some, List, [], ◌∷◌, ◌++◌,
  ◌==◌, arith, Bool-cases, inl, inr, All, All-append,
}
use csaf_trove.Base.Text.{Text, text_eq, text_eq_comm}
use csaf_trove.Validation.Profiles.{DocumentValidation}
use csaf_trove.Storage.Documents.{DocumentRow, Owned, own, delete_rows, find_row, has_url}
use csaf_trove.Storage.Documents.Store.{same_document}
use csaf_trove.Storage.Documents.Failures.{update_row, fail_row}
use csaf_trove.Storage.Documents.Rows.{==-refl, ==-lt, ==_comm, IsKeyed, own-All}
use csaf_trove.Storage.Documents.Valid.{HasUrls, has_id, Refers}

-- A new row.
pub append-IsKeyed :
    (rows : List DocumentRow) (new : DocumentRow)
    → IsKeyed rows
    → All (λ row. row.id < new.id) rows
    → IsKeyed (rows ++ (new ∷ []))
append-IsKeyed [] new keyed below = (tt, tt)
append-IsKeyed (row ∷ rows) new keyed below = (
  All-append (λ other. (other.id == row.id) ≡ false) rows (new ∷ []) keyed.0
      (==_comm new.id row.id ∙ ==-lt row.id new.id below.0, tt),
  append-IsKeyed rows new keyed.1 below.1,
)

pub append-HasUrls :
    (rows : List DocumentRow) (new : DocumentRow)
    → HasUrls rows
    → All (λ row. text_eq row.url new.url ≡ false) rows
    → HasUrls (rows ++ (new ∷ []))
append-HasUrls [] new urls others = (tt, tt)
append-HasUrls (row ∷ rows) new urls others = (
  All-append (λ other. text_eq other.url row.url ≡ false) rows (new ∷ []) urls.0
      (text_eq_comm new.url row.url ∙ others.0, tt),
  append-HasUrls rows new urls.1 others.1,
)

pub below-suc :
    (n : ℕ) (rows : List DocumentRow)
    → All (λ row. row.id < n) rows
    → All (λ row. row.id < suc n) rows
below-suc n [] below = tt
below-suc n (row ∷ rows) below = (omega (arith, below.0), below-suc n rows below.1)

has_id-append :
    (rows : List DocumentRow) (new : DocumentRow) (id : ℕ)
    → has_id (rows ++ (new ∷ [])) id ≡ (has_id rows id || (new.id == id))
has_id-append [] new id = elim (Bool-cases (new.id == id)) [ inl h ↦ rw h | inr h ↦ rw h ]
has_id-append (row ∷ rows) new id = elim (Bool-cases (row.id == id)) [
  | inl here ↦ rw here
  | inr later ↦ rw later (has_id-append rows new id)
]

or-true_left : (a b : Bool) → a ≡ true → (a || b) ≡ true
or-true_left a b h = rw h

or-true_right : (a b : Bool) → b ≡ true → (a || b) ≡ true
or-true_right true b h = refl
or-true_right false b h = h

pub append-Refers :
    {A : Type 0} (rows : List DocumentRow) (new : DocumentRow) (cs : List (Owned A))
    → Refers rows cs
    → Refers (rows ++ (new ∷ [])) cs
append-Refers rows new [] refers = tt
append-Refers rows new (c ∷ cs) refers = (
  has_id-append rows new c.document_id ∙ or-true_left _ (new.id == c.document_id) refers.0,
  append-Refers rows new cs refers.1,
)

-- What is inserted for a new row.
pub own-Refers :
    {A : Type 0} (rows : List DocumentRow) (new : DocumentRow) (cs : List (Owned A))
    (entries : List A)
    → Refers rows cs
    → Refers (rows ++ (new ∷ [])) (cs ++ own new.id entries)
own-Refers rows new cs entries refers =
    All-append (λ c. has_id (rows ++ (new ∷ [])) c.document_id ≡ true) cs (own new.id entries)
      (append-Refers rows new cs refers)
      (own-All (λ c. has_id (rows ++ (new ∷ [])) c.document_id ≡ true) new.id entries
        (λ a.
          has_id-append rows new new.id ∙ or-true_right (has_id rows new.id) _ (==-refl new.id)))

-- After the deletion of the rows of a document, none has its URL.
pub delete_rows-url :
    (url : Text) (gone : DocumentRow → Bool) (rows : List DocumentRow)
    → ((row : DocumentRow) → has_url url row ≡ true → gone row ≡ true)
    → All (λ row. text_eq row.url url ≡ false) (delete_rows gone rows)
unfolding delete_rows
delete_rows-url url gone [] all = tt
delete_rows-url url gone (row ∷ rows) all = elim (Bool-cases (gone row)) [
  | inl deleted ↦ rw deleted (delete_rows-url url gone rows all)
  | inr stays ↦ elim (Bool-cases (has_url url row)) [
    | inl match ↦ let wrong : true ≡ false = sym (all row match) ∙ stays in cc
    | inr other ↦ rw stays (other, delete_rows-url url gone rows all)
  ]
]

pub same_document-url :
    {V : Type 0} (doc : DocumentValidation V) (row : DocumentRow)
    → has_url doc.url row ≡ true
    → same_document doc row ≡ true
unfolding same_document
same_document-url doc row h = or-true_right _ (has_url doc.url row) h

pub find_row-none :
    (p : DocumentRow → Bool) (rows : List DocumentRow)
    → find_row p rows ≡ none
    → All (λ row. p row ≡ false) rows
unfolding find_row
find_row-none p [] h = tt
find_row-none p (row ∷ rows) h = elim (Bool-cases (p row)) [
  | inl match ↦ let wrong : some row ≡ none = rw match at h in cc
  | inr other ↦ (other, find_row-none p rows (rw other at h))
]

-- An update that keeps the keys and the URL.
pub update_row-All :
    (P : DocumentRow → Type 0) (id : ℕ) (error checks : Text) (rows : List DocumentRow)
    → ((row : DocumentRow) → P row → P (fail_row error checks row))
    → All P rows
    → All P (update_row id (fail_row error checks) rows)
unfolding update_row
update_row-All P id error checks [] keeps h = tt
update_row-All P id error checks (row ∷ rows) keeps h = elim (Bool-cases (row.id == id)) [
  | inl here ↦ rw here (keeps row h.0, update_row-All P id error checks rows keeps h.1)
  | inr later ↦ rw later (h.0, update_row-All P id error checks rows keeps h.1)
]

pub update_row-IsKeyed :
    (id : ℕ) (error checks : Text) (rows : List DocumentRow)
    → IsKeyed rows
    → IsKeyed (update_row id (fail_row error checks) rows)
unfolding update_row
update_row-IsKeyed id error checks [] h = tt
update_row-IsKeyed id error checks (row ∷ rows) h =
    let others =
      update_row-All (λ other. (other.id == row.id) ≡ false) id error checks rows (λ r same. same)
        h.0 in
    elim (Bool-cases (row.id == id)) [
      | inl here ↦ rw here (others, update_row-IsKeyed id error checks rows h.1)
      | inr later ↦ rw later (others, update_row-IsKeyed id error checks rows h.1)
    ]

pub update_row-HasUrls :
    (id : ℕ) (error checks : Text) (rows : List DocumentRow)
    → HasUrls rows
    → HasUrls (update_row id (fail_row error checks) rows)
unfolding update_row
update_row-HasUrls id error checks [] h = tt
update_row-HasUrls id error checks (row ∷ rows) h =
    let others =
      update_row-All (λ other. text_eq other.url row.url ≡ false) id error checks rows
        (λ r same. same) h.0 in
    elim (Bool-cases (row.id == id)) [
      | inl here ↦ rw here (others, update_row-HasUrls id error checks rows h.1)
      | inr later ↦ rw later (others, update_row-HasUrls id error checks rows h.1)
    ]

has_id-update_row :
    (key id : ℕ) (error checks : Text) (rows : List DocumentRow)
    → has_id (update_row id (fail_row error checks) rows) key ≡ has_id rows key
unfolding update_row
has_id-update_row key id error checks [] = refl
has_id-update_row key id error checks (row ∷ rows) = elim (Bool-cases (row.id == id)) [
  | inl here ↦ rw here (ap (λ b. (row.id == key) || b) (has_id-update_row key id error checks rows))
  | inr later ↦
      rw later (ap (λ b. (row.id == key) || b) (has_id-update_row key id error checks rows))
]

pub update_row-Refers :
    {A : Type 0} (id : ℕ) (error checks : Text) (rows : List DocumentRow) (cs : List (Owned A))
    → Refers rows cs
    → Refers (update_row id (fail_row error checks) rows) cs
update_row-Refers id error checks rows [] refers = tt
update_row-Refers id error checks rows (c ∷ cs) refers = (
  has_id-update_row c.document_id id error checks rows ∙ refers.0,
  update_row-Refers id error checks rows cs refers.1,
)
