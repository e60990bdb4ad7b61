-- ===== src/GitRepo/Emits.antt =====
-- What every hand-over of a commit keeps, the collection of versions keeps.
use csaf_trove.Base.{◌≡◌, ℕ, Option, none, some, List, [], ◌∷◌}
use csaf_trove.Base.Text.{Text}
use csaf_trove.Base.Effect.{Result, ok, >>=-eq-ok, for_each, for_each-keeps, ok-injective}
use csaf_trove.Storage.TreeDiff.Repository.{Commit}
use csaf_trove.Storage.TreeDiff.Cache.{TreeDiffCache, diff, empty}
use csaf_trove.GitRepo.Versions.{
  ChangedDocument, CommitVersions, History, emit_documents, emit_commit, emit_commits, collect_from,
  collect_at, collect_versions, parse_since, walk_commits, first_parent, parent_tree,
  commit_documents,
}
use mathlib.Core.Path.{subst}
use mathlib.Core.List.{reverse}

module _ {ℓ κ} {S : Type ℓ} (P : S → Type κ) (levels : ℕ) (h : History)
    (emit : CommitVersions → S → Result S)
    (keeps : (v : CommitVersions) (s s' : S) → P s → emit v s ≡ ok s' → P s') where
  emit_documents-keeps :
      (c : Commit) (documents : List ChangedDocument) (s s' : S)
      → P s
      → emit_documents levels h emit c documents s ≡ ok s'
      → P s'
  unfolding emit_documents
  emit_documents-keeps c [] s s' kept ran = subst P (ok-injective ran) kept
  emit_documents-keeps c (d ∷ ds) s s' kept ran = keeps _ s s' kept ran

  emit_commit-keeps :
      (c : Commit) (s s' : S × TreeDiffCache)
      → P s.0
      → emit_commit levels h emit c s ≡ ok s'
      → P s'.0
  unfolding emit_commit
  emit_commit-keeps c (s, cache) s' kept ran =
      let ((deltas, cache'), diffed, rest) =
        >>=-eq-ok (diff h.repo levels (parent_tree (first_parent h.repo c)) c.tree cache) _ ran in
      let (documents, read, more) = >>=-eq-ok (commit_documents h deltas) _ rest in
      let (next, emitted, done) = >>=-eq-ok (emit_documents levels h emit c documents s) _ more in
      subst (λ (r : S × TreeDiffCache). P r.0) (ok-injective done)
        (emit_documents-keeps c documents s next kept emitted)

  emit_commits-keeps :
      (commits : List Commit) (s s' : S) → P s → emit_commits levels h emit commits s ≡ ok s' → P s'
  unfolding emit_commits
  emit_commits-keeps commits s s' kept ran =
      let (end, emitted, done) =
        >>=-eq-ok (for_each (emit_commit levels h emit) (reverse commits) (s, empty)) _ ran in
      subst P (ok-injective done) (
        for_each-keeps (λ (r : S × TreeDiffCache). P r.0) (emit_commit levels h emit)
          emit_commit-keeps (reverse commits) (s, empty) end kept emitted)

  collect_from-keeps :
      (fuel : ℕ) (since : Option Text) (tip : Result Commit) (s s' : S)
      → P s
      → collect_from levels h emit fuel since tip s ≡ ok s'
      → P s'
  unfolding collect_from
  collect_from-keeps fuel since tip s s' kept ran =
      let (stop, parsed, rest) = >>=-eq-ok (parse_since levels h emit since) _ ran in
      let (head, found, more) = >>=-eq-ok tip _ rest in
      let (commits, walked, done) = >>=-eq-ok (walk_commits fuel h.repo stop head) _ more in
      emit_commits-keeps commits s s' kept done

  collect_at-keeps :
      (fuel : ℕ) (since : Option Text) (tip : Option (Result Commit)) (s s' : S)
      → P s
      → collect_at levels h emit fuel since tip s ≡ ok s'
      → P s'
  unfolding collect_at
  collect_at-keeps fuel since none s s' kept ran = subst P (ok-injective ran) kept
  collect_at-keeps fuel since (some tip) s s' kept ran =
      collect_from-keeps fuel since tip s s' kept ran

  pub collect_versions-keeps :
      (fuel : ℕ) (since : Option Text) (s s' : S)
      → P s
      → collect_versions levels h emit fuel since s ≡ ok s'
      → P s'
  unfolding collect_versions
  collect_versions-keeps fuel since s s' kept ran = collect_at-keeps fuel since h.head s s' kept ran
