-- ===== src/Examples/Membership.antt =====
-- The membership of two distributions.
use csaf_trove.Base.{◌≡◌, refl, List, [], ◌∷◌}
use csaf_trove.Base.Text.{Text, bytes, text_eq, text_lt}
use csaf_trove.Base.Map
use csaf_trove.Base.Map.{Map}
use csaf_trove.Base.Effect.{ok, err}
use csaf_trove.Storage.PathSet.Rows.{IsSorted}
use csaf_trove.Storage.Membership.{
  MembershipRow, holds, insert_member, save_distribution_membership,
}
use csaf_trove.Storage.Membership.Replaced.{listed, save_distribution_membership-listed}

abbrev row : Text → Text → MembershipRow
row distribution document = record { distribution_url = distribution; document_url = document }

abbrev rows : List MembershipRow
rows =
    row (bytes "feed") (bytes "a")
    ∷ row (bytes "other") (bytes "a")
    ∷ row (bytes "feed") (bytes "b")
    ∷ []

abbrev membership : Map (List Text)
membership = (bytes "feed", bytes "b" ∷ bytes "c" ∷ []) ∷ []

replaces :
    save_distribution_membership membership rows
    ≡ ok (
        row (bytes "other") (bytes "a")
        ∷ row (bytes "feed") (bytes "b")
        ∷ row (bytes "feed") (bytes "c")
        ∷ [])
unfolding save_distribution_membership text_eq text_lt
replaces = refl

refuses : insert_member (bytes "feed") (bytes "a") rows ≡ err (bytes "UNIQUE constraint failed")
unfolding insert_member text_eq
refuses = refl

abbrev sorted : IsSorted (bytes "b" ∷ bytes "c" ∷ [])
unfolding text_lt
sorted = (refl, tt)

save_distribution_membership-listed_example :
    (rows' : List MembershipRow) × (save_distribution_membership membership rows ≡ ok rows')
    × ((distribution document : Text)
        → holds distribution document rows'
          ≡ listed distribution document (Map.get distribution membership) rows)
save_distribution_membership-listed_example =
    save_distribution_membership-listed membership rows (tt, tt) (sorted, tt)
