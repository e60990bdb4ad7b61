-- ===== src/GitRepo/Staging/Packs.antt =====
-- One staged file, and what the batches of a whole staging hold.
use mathlib.Core.Path.{subst}
use mathlib.Core.List.{append_assoc, append-nil}
use csaf_trove.Base.{
  ℕ, suc, ◌≡◌, refl, sym, ap, ◌∙◌, not, some, List, [], ◌∷◌, ◌++◌, leb, length, add_u64, All,
  All-append, Bool-cases, inl, inr,
}
use csaf_trove.Base.Text.{Text, text_eq, text_eq_iff, text_eq_refl}
use csaf_trove.Base.Map
use csaf_trove.Base.Map.{Map}
use csaf_trove.Base.Effect.{Result, ok, ◌>>=◌, >>=-eq-ok, ok-injective}
use csaf_trove.Storage.TreeDiff.Repository.{Oid}
use csaf_trove.GitRepo.Scratch.{logical_path}
use csaf_trove.GitRepo.Staging.{
  Entry, Worktree, Staging, without_stale, ensure, out_of_place, flush_objects, flush_mempack,
  add_entry, push_object, report, emptied, limit_buffer, stage_file,
}

abbrev pub concat : List (List Oid) → List Oid
concat [] = []
concat (xs ∷ xss) = xs ++ concat xss

concat-append : (xs ys : List (List Oid)) → concat (xs ++ ys) ≡ concat xs ++ concat ys
concat-append [] ys = refl
concat-append (x ∷ xs) ys = rw (concat-append xs ys, append_assoc)

-- The objects of the batches and of the buffer.
abbrev pub held : Staging → List Oid
held s = concat s.packs ++ s.buffered_objects

abbrev pub IsFilled : List Oid → Type 0
IsFilled [] = ⊥
IsFilled (id ∷ ids) = Unit

-- A flush moves the buffer into the batches.
pub record IsFlushed (s s' : Staging) : Type 0 where
  pub index : s'.index ≡ s.index
  pub staged : s'.staged ≡ s.staged
  pub reports : s'.reports ≡ s.reports
  pub objects : concat s'.packs ≡ held s
  pub filled : All IsFilled s.packs → All IsFilled s'.packs

-- What is left alone when the buffer may be flushed and emptied.
record IsSame (s s' : Staging) : Type 0 where
  index : s'.index ≡ s.index
  staged : s'.staged ≡ s.staged
  reports : s'.reports ≡ s.reports
  objects : held s' ≡ held s
  filled : All IsFilled s.packs → All IsFilled s'.packs

-- What the staging of a file with this content does.
pub record IsStaged (blob : Oid) (next : Map Oid) (total : ℕ) (s s' : Staging) : Type 0 where
  pub index : s'.index ≡ next
  pub staged : s'.staged ≡ suc s.staged
  pub reports : s'.reports ≡ s.reports ++ ((suc s.staged, total) ∷ [])
  pub objects : held s' ≡ held s ++ (blob ∷ [])
  pub filled : All IsFilled s.packs → All IsFilled s'.packs

module _ (blob_id : Text → Oid) (write_pack : List Oid → Result (Unit {0})) where
  flush_objects-IsFlushed :
      (ids : List Oid) (s s' : Staging)
      → s.buffered_objects ≡ ids
      → flush_objects blob_id write_pack ids s ≡ ok s'
      → IsFlushed s s'
  unfolding flush_objects
  flush_objects-IsFlushed [] s s' e ran =
      let same : s ≡ s' = cc in
      subst (IsFlushed s) same (record {
        index = refl;
        staged = refl;
        reports = refl;
        objects =
            sym (ap (λ (ids : List Oid). concat s.packs ++ ids) e ∙ append-nil (concat s.packs));
        filled = λ h. h;
      })
  flush_objects-IsFlushed (id ∷ ids) s s' e ran =
      let (u, written, done) =
        >>=-eq-ok (write_pack (id ∷ ids))
          (λ _. ok (record s { packs = s.packs ++ ((id ∷ ids) ∷ []) })) ran in
      let same : record s { packs = s.packs ++ ((id ∷ ids) ∷ []) } ≡ s' = ok-injective done in
      subst (IsFlushed s) same (record {
        index = refl;
        staged = refl;
        reports = refl;
        objects =
            concat-append s.packs ((id ∷ ids) ∷ [])
            ∙ ap (λ (xs : List Oid). concat s.packs ++ xs) (append-nil (id ∷ ids) ∙ sym e);
        filled = λ h. All-append IsFilled s.packs ((id ∷ ids) ∷ []) h (tt, tt);
      })

  pub flush_mempack-IsFlushed :
      (s s' : Staging) → flush_mempack blob_id write_pack s ≡ ok s' → IsFlushed s s'
  unfolding flush_mempack
  flush_mempack-IsFlushed s s' ran = flush_objects-IsFlushed s.buffered_objects s s' refl ran

  emptied-IsSame : (s s' : Staging) → IsFlushed s s' → IsSame s (emptied s')
  emptied-IsSame s s' f = record {
    index = f.index;
    staged = f.staged;
    reports = f.reports;
    objects = append-nil (concat s'.packs) ∙ f.objects;
    filled = f.filled;
  }

  limit_buffer-IsSame :
      (threshold : ℕ) (s s' : Staging)
      → limit_buffer blob_id write_pack threshold s ≡ ok s'
      → IsSame s s'
  unfolding limit_buffer
  limit_buffer-IsSame threshold s s' ran = elim (Bool-cases (leb threshold s.buffered_bytes)) [
    | inl full ↦
        let (flushed, written, done) =
          >>=-eq-ok (flush_mempack blob_id write_pack s) (λ flushed. ok (emptied flushed))
            (rw full at ran) in
        let same : emptied flushed ≡ s' = ok-injective done in
        subst (IsSame s) same (emptied-IsSame s flushed (flush_mempack-IsFlushed s flushed written))
    | inr room ↦
        let same : s ≡ s' = ok-injective (rw room at ran) in
        subst (IsSame s) same
          (record { index = refl; staged = refl; reports = refl; objects = refl; filled = λ h. h })
  ]

  add_entry-ok :
      (w : Worktree) (logical : Text) (entry : Entry) (s s' : Staging)
      → add_entry blob_id write_pack w logical entry s ≡ ok s'
      → (content : Text) × (entry.content ≡ ok content)
        × (n : ℕ) × (s'
            ≡ record s { buffered_bytes = n; index = Map.insert logical (blob_id content) s.index })
  unfolding add_entry
  add_entry-ok w logical entry s s' ran = elim (Bool-cases (text_eq logical entry.relative)) [
    | inl plain ↦
        let (size, measured, rest) = >>=-eq-ok entry.size _ (rw plain at ran) in
        let (content, read, done) = >>=-eq-ok entry.content _ rest in
        let e : logical ≡ entry.relative = (text_eq_iff logical entry.relative).0 plain in
        (
          content,
          read,
          add_u64 s.buffered_bytes size,
          sym (ok-injective done)
              ∙ ap
                  (λ (path : Text). record s {
                    buffered_bytes = add_u64 s.buffered_bytes size;
                    index = Map.insert path (blob_id content) s.index;
                  })
                  (sym e),
        )
    | inr compressed ↦
        let (u, alone, rest) =
          >>=-eq-ok (ensure (not (w.exists logical)) out_of_place) _ (rw compressed at ran) in
        let (content, read, done) = >>=-eq-ok entry.content _ rest in
        (content, read, add_u64 s.buffered_bytes (length content), sym (ok-injective done))
  ]

  -- The rest of `stage_file` behind the insertion.
  after_insert-IsStaged :
      (threshold total : ℕ) (path : Text) (blob : Oid) (n : ℕ) (index : Map Oid) (s s' : Staging)
      → (push_object blob_id write_pack
            (Map.get path (Map.insert path blob index))
            (record s { buffered_bytes = n; index = Map.insert path blob index })
          >>= λ pushed. limit_buffer blob_id write_pack threshold (report total pushed))
        ≡ ok s'
      → IsStaged blob (Map.insert path blob index) total s s'
  unfolding push_object
  after_insert-IsStaged threshold total path blob n index s s' ran =
      let there : Map.get path (Map.insert path blob index) ≡ some blob =
        Map.get-insert path path blob index ∙ rw (text_eq_refl path) in
      let pushed : Staging = record s {
        buffered_bytes = n;
        index = Map.insert path blob index;
        buffered_objects = s.buffered_objects ++ (blob ∷ []);
        staged = suc s.staged;
        reports = s.reports ++ ((suc s.staged, total) ∷ []);
      } in
      let same = limit_buffer-IsSame threshold pushed s' (rw there at ran) in
      record {
        index = same.index;
        staged = same.staged;
        reports = same.reports;
        objects = same.objects ∙ sym (append_assoc (concat s.packs) s.buffered_objects (blob ∷ []));
        filled = same.filled;
      }

  pub stage_file-IsStaged :
      (threshold total : ℕ) (w : Worktree) (entry : Entry) (s s' : Staging)
      → stage_file blob_id write_pack threshold total w entry s ≡ ok s'
      → (content : Text) × (entry.content ≡ ok content)
        × IsStaged
            (blob_id content)
            (Map.insert
              (logical_path entry.relative)
              (blob_id content)
              (without_stale w.exists (logical_path entry.relative) s.index))
            total
            s
            s'
  unfolding stage_file
  stage_file-IsStaged threshold total w entry s s' ran =
      let logical = logical_path entry.relative in
      let start : Staging = record s { index = without_stale w.exists logical s.index } in
      let (added, put, rest) =
        >>=-eq-ok (add_entry blob_id write_pack w logical entry start) _ ran in
      let (content, read, n, e) = add_entry-ok w logical entry start added put in
      (
        content,
        read,
        after_insert-IsStaged threshold total logical (blob_id content) n
            (without_stale w.exists logical s.index) s s' (rw e at rest),
      )
