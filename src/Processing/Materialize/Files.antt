-- ===== src/Processing/Materialize/Files.antt =====
-- The two passes of a materialization visit the same files: a traversal has a list of files and an
-- end that do not depend on what is done with them.
use csaf_trove.Base.{◌≡◌, refl, sym, ◌∙◌, ap, List, [], ◌∷◌, ◌++◌, inl, inr}
use csaf_trove.Base.Text.{Text}
use csaf_trove.Base.Effect.{Result, ok, err, ◌>>=◌, ◌>>◌, for_each, Result-cases, for_each-append}
use csaf_trove.Processing.Materialize.{File}

-- What is done with a state for each file.
abbrev pub Traversal : Type 1
Traversal = (S : Type 0) → (File → S → Result S) → S → Result S

abbrev pub ending : {S : Type 0} → Result (Unit {0}) → Result S → Result S
ending end r = r >>= λ s. end >> ok s

-- The traversal is the iteration over the files, followed by its own end.
pub record IsTrace (m : Traversal) (files : List File) (end : Result (Unit {0})) : Type 1 where
  pub same :
      (S : Type 0) (visit : File → S → Result S) (s : S)
      → m S visit s ≡ ending end (for_each visit files s)

pub record HasTrace (m : Traversal) : Type 1 where
  pub files : List File
  pub end : Result (Unit {0})
  pub trace : IsTrace m files end

pub nothing :
    (m : Traversal) → ((S : Type 0) (v : File → S → Result S) (s : S) → m S v s ≡ ok s) → HasTrace m
unfolding for_each
nothing m h = record { files = []; end = ok tt; trace = record { same = λ S v s. h S v s } }

pub failing :
    (m : Traversal) (e : Text)
    → ((S : Type 0) (v : File → S → Result S) (s : S) → m S v s ≡ err e)
    → HasTrace m
unfolding for_each
failing m e h = record { files = []; end = err e; trace = record { same = λ S v s. h S v s } }

pub ending-ok : {S : Type 0} (r : Result S) → ending (ok tt) r ≡ r
ending-ok (ok s) = refl
ending-ok (err e) = refl

pub single :
    (m : Traversal) (file : File)
    → ((S : Type 0) (v : File → S → Result S) (s : S) → m S v s ≡ v file s)
    → HasTrace m
unfolding for_each
single m file h = record {
  files = file ∷ [];
  end = ok tt;
  trace = record {
    same =
        λ S v s. h S v s ∙ elim (Result-cases (v file s)) [ inl (t, e) ↦ rw e | inr (t, e) ↦ rw e ];
  };
}

-- One traversal after the other.
abbrev pub followed : Traversal → Traversal → Traversal
followed m k S visit s = m S visit s >>= k S visit

then_end :
    {S : Type 0} (e : Text) (r : Result S) (k : S → Result S)
    → (ending (err e) r >>= k) ≡ ending (err e) r
then_end e (ok s) k = refl
then_end e (err x) k = refl

then_ok : {S : Type 0} (r : Result S) (k : S → Result S) → (ending (ok tt) r >>= k) ≡ (r >>= k)
then_ok (ok s) k = refl
then_ok (err e) k = refl

bind-ending :
    {S : Type 0} (r : Result S) (k k' : S → Result S) (end : Result (Unit {0}))
    → ((s : S) → k s ≡ ending end (k' s))
    → (r >>= k) ≡ ending end (r >>= k')
bind-ending (ok s) k k' end h = h s
bind-ending (err e) k k' end h = refl

pub followed-HasTrace : (m k : Traversal) → HasTrace m → HasTrace k → HasTrace (followed m k)
followed-HasTrace m k hm hk = by_end hm.end hm.trace
  where
    by_end : (end : Result (Unit {0})) → IsTrace m hm.files end → HasTrace (followed m k)
    by_end (err e) t = record {
      files = hm.files;
      end = err e;
      trace = record {
        same = λ S v s. rw (t.same S v s) (then_end e (for_each v hm.files s) (k S v));
      };
    }
    by_end (ok _) t = record {
      files = hm.files ++ hk.files;
      end = hk.end;
      trace = record {
        same = λ S v s. rw (t.same S v s) (
            then_ok (for_each v hm.files s) (k S v)
            ∙ bind-ending (for_each v hm.files s) (k S v) (for_each v hk.files) hk.end
                (hk.trace.same S v)
            ∙ ap (λ (r : Result S). ending hk.end r) (sym (for_each-append v hm.files hk.files s)));
      };
    }

pub for_each-HasTrace :
    {A : Type 0} (body : A → Traversal) (xs : List A)
    → ((x : A) → HasTrace (body x))
    → HasTrace (λ S v. for_each (λ x. body x S v) xs)
unfolding for_each
for_each-HasTrace body [] h = nothing _ (λ S v s. refl)
for_each-HasTrace body (x ∷ xs) h =
    followed-HasTrace (body x) (λ S v. for_each (λ y. body y S v) xs) (h x)
      (for_each-HasTrace body xs h)

-- A traversal that only hands on what another one visits, changed by the closure.
pub through-HasTrace :
    (m : Traversal) (closure : File → Traversal)
    → HasTrace m
    → ((file : File) → HasTrace (closure file))
    → HasTrace (λ S v. m S (λ file. closure file S v))
through-HasTrace m closure hm h =
    let inner = for_each-HasTrace closure hm.files h in
    let last : HasTrace (λ S v s. ending hm.end (ok s)) = by_end hm.end in
    let both =
      followed-HasTrace (λ S v. for_each (λ file. closure file S v) hm.files)
        (λ S v s. ending hm.end (ok s)) inner last in
    record {
      files = both.files;
      end = both.end;
      trace = record {
        same = λ S v s. hm.trace.same S (λ file. closure file S v) s ∙ both.trace.same S v s;
      };
    }
  where
    by_end : (end : Result (Unit {0})) → HasTrace (λ S v s. ending end (ok s))
    by_end (ok _) = nothing _ (λ S v s. refl)
    by_end (err e) = failing _ e (λ S v s. refl)
