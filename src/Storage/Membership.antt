-- ===== src/Storage/Membership.antt =====
-- `save_distribution_membership` in server/src/storage/membership.rs. The table is the list of its
-- rows; a transaction that fails changes nothing.
pub mod Queries
pub mod Inserts
pub mod Replaced
use csaf_trove.Base.{
  ℕ, Bool, true, false, ◌&&◌, not, List, [], ◌∷◌, ◌++◌, map, any, retain, if◌then◌else◌,
}
use csaf_trove.Base.Text.{Text, bytes, text_eq}
use csaf_trove.Base.Map.{Map}
use csaf_trove.Base.Effect.{Result, ok, err, for_each}
use csaf_trove.Storage.PathSet.{chunks}
use csaf_trove.Storage.PathSet.Rows.{contains}
use csaf_trove.Retrieval.{collect_set}

pub record MembershipRow : Type 0 where
  pub distribution_url : Text
  pub document_url : Text

-- Whether a distribution lists a document.
abbrev pub lists : Text → Text → MembershipRow → Bool
lists distribution document row =
    text_eq row.distribution_url distribution && text_eq row.document_url document

abbrev pub holds : Text → Text → List MembershipRow → Bool
holds distribution document rows = any (lists distribution document) rows

-- `SELECT document_url ... WHERE distribution_url = ?`
abbrev pub select_documents : Text → List MembershipRow → List Text
select_documents distribution [] = []
select_documents distribution (row ∷ rows) =
    let rest = select_documents distribution rows in
    if text_eq row.distribution_url distribution then row.document_url ∷ rest else rest

unfoldable pub previous_documents : Text → List MembershipRow → List Text
unfolding collect_set
previous_documents distribution rows = collect_set (select_documents distribution rows)

-- `BTreeSet::difference`
unfoldable pub difference : List Text → List Text → List Text
unfolding contains
difference xs ys = retain (λ x. not (contains x ys)) xs

-- `DELETE ... WHERE distribution_url = ? AND document_url IN (...)`
unfoldable pub delete_documents : Text → List Text → List MembershipRow → List MembershipRow
unfolding contains
delete_documents distribution chunk rows =
    retain
      (λ row. not (text_eq row.distribution_url distribution && contains row.document_url chunk))
      rows

unfoldable pub delete_chunks : Text → List (List Text) → List MembershipRow → List MembershipRow
unfolding delete_documents
delete_chunks distribution [] rows = rows
delete_chunks distribution (chunk ∷ rest) rows =
    delete_chunks distribution rest (delete_documents distribution chunk rows)

-- `INSERT` of one row, which the primary key refuses if it is there.
unfoldable pub insert_member : Text → Text → List MembershipRow → Result (List MembershipRow)
insert_member distribution document rows =
    if holds distribution document rows
    then err (bytes "UNIQUE constraint failed")
    else ok (rows ++ (record { distribution_url = distribution; document_url = document } ∷ []))

-- One statement with several rows.
unfoldable pub insert_members : Text → List Text → List MembershipRow → Result (List MembershipRow)
unfolding insert_member for_each
insert_members distribution chunk rows = for_each (insert_member distribution) chunk rows

abbrev pub chunk_size : ℕ
chunk_size = 400

-- The body of the loop.
unfoldable pub save_distribution :
    Text → List Text → List MembershipRow → Result (List MembershipRow)
unfolding previous_documents difference delete_chunks insert_members chunks for_each
save_distribution distribution documents rows =
    for_each (insert_members distribution)
      (chunks chunk_size (difference documents (previous_documents distribution rows)))
      (delete_chunks distribution
        (chunks chunk_size (difference (previous_documents distribution rows) documents)) rows)

abbrev pub save_entry : Text × List Text → List MembershipRow → Result (List MembershipRow)
save_entry (distribution, documents) rows = save_distribution distribution documents rows

unfoldable pub save_distribution_membership :
    Map (List Text) → List MembershipRow → Result (List MembershipRow)
unfolding save_distribution for_each
save_distribution_membership membership rows = for_each save_entry membership rows
