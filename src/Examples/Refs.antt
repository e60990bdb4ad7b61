-- ===== src/Examples/Refs.antt =====
-- A repository in memory that keeps the laws of references and commits.
use mathlib.Core.Path.{subst}
use csaf_trove.Base.{
  ◌≡◌, sym, ap, ◌∙◌, false, Option, none, some, List, [], Bool-cases, inl, inr, if◌then◌else◌,
}
use csaf_trove.Base.Text.{Text, bytes, text_eq, text_eq_refl}
use csaf_trove.Base.Map
use csaf_trove.Base.Map.{Map}
use csaf_trove.Base.Effect.{Result, ok, err, ok-injective}
use csaf_trove.Storage.TreeDiff.Repository.{Oid, Lookup, found}
use csaf_trove.Storage.TreeDiff.Compare.{same_oid}
use csaf_trove.Storage.TreeDiff.Sound.{same_oid-eq}
use csaf_trove.GitRepo.Refs.{Git, GitLaws, Update, written, refused, tip_of}

pub record Stored : Type 0 where
  pub tree : Oid
  pub parents : List Oid

pub record Memory : Type 0 where
  pub tips : Map Oid
  pub commits : Map Stored
  pub head : Text

abbrev or_missing : {A : Type 0} → Option A → Result A
or_missing none = err (bytes "missing")
or_missing (some a) = ok a

unfoldable pub update : Text → Oid → Option Oid → Memory → Update Memory
unfolding same_oid
update b id expected s =
    if same_oid (Map.get b s.tips) expected
    then written (record s { tips = Map.insert b id s.tips })
    else refused

unfoldable pub store : Oid → List Oid → Text → Memory → Oid × Memory
store tree parents message s = (
  message,
  record s { commits = Map.insert message (record { tree = tree; parents = parents }) s.commits },
)

abbrev pub tree_in : Oid → Option Stored → Result Oid
tree_in id none = err id
tree_in id (some c) = ok c.tree

abbrev pub parents_in : Oid → Option Stored → Result (List Oid)
parents_in id none = err id
parents_in id (some c) = ok c.parents

abbrev pub memory : Git Memory
memory = record {
  symbolic_head = λ s. ok (some s.head);
  tip = λ b s. tip_of (Map.get b s.tips);
  first_branch = λ s. ok none;
  set_head = λ b s. ok (record s { head = b });
  read_tree = λ id s. ok [];
  write_tree = λ index s. ok (bytes "tree", s);
  commit_tree = λ id s. tree_in id (Map.get id s.commits);
  parents_of = λ id s. parents_in id (Map.get id s.commits);
  commit = λ tree parents message s. ok (store tree parents message s);
  reference_matching = update;
}

-- An update that is written found the expected value.
update-written :
    (b : Text) (id : Oid) (expected : Option Oid) (s s' : Memory)
    → update b id expected s ≡ written s'
    → (Map.get b s.tips ≡ expected) × (record s { tips = Map.insert b id s.tips } ≡ s')
unfolding update
update-written b id expected s s' e = elim (Bool-cases (same_oid (Map.get b s.tips) expected)) [
  | inl same ↦
      let done : Path (Update Memory) (written (record s { tips = Map.insert b id s.tips }))
          (written s') =
        rw same at e in
      (same_oid-eq (Map.get b s.tips) expected same, cc)
  | inr other ↦ let wrong : Path (Update Memory) refused (written s') = rw other at e in cc
]

same_state :
    (s s' : Memory) (a b : Oid) → Path (Result (Oid × Memory)) (ok (a, s)) (ok (b, s')) → s ≡ s'
same_state s s' a b e = cc

stored :
    (tree : Oid) (parents : List Oid) (message : Text) (s s' : Memory) (id : Oid)
    → Path (Result (Oid × Memory)) (ok (store tree parents message s)) (ok (id, s'))
    → (message ≡ id)
      × (record s {
        commits = Map.insert message (record { tree = tree; parents = parents }) s.commits;
      }
          ≡ s')
unfolding store
stored tree parents message s s' id e = (cc, cc)

stored_self :
    (tree : Oid) (parents : List Oid) (id : Text) (s : Memory)
    → Map.get id (Map.insert id (record { tree = tree; parents = parents }) s.commits)
      ≡ some (record { tree = tree; parents = parents })
stored_self tree parents id s =
    Map.get-insert id id (record { tree = tree; parents = parents }) s.commits
    ∙ rw (text_eq_refl id)

abbrev HasCommit : Oid → List Oid → Oid → Memory → Type 0
HasCommit tree parents id s =
    (memory.commit_tree id s ≡ ok tree) × (memory.parents_of id s ≡ ok parents)

commit-HasCommit :
    (tree : Oid) (parents : List Oid) (message : Text) (s s' : Memory) (id : Oid)
    → Path (Result (Oid × Memory)) (ok (store tree parents message s)) (ok (id, s'))
    → HasCommit tree parents id s'
commit-HasCommit tree parents message s s' id e =
    let (named, done) = stored tree parents message s s' id e in
    subst (HasCommit tree parents id) done (
      subst
        (λ n. HasCommit tree parents n (record s {
          commits = Map.insert message (record { tree = tree; parents = parents }) s.commits;
        }))
        named
        (
          ap (tree_in message) (stored_self tree parents message s),
          ap (parents_in message) (stored_self tree parents message s),
        ))

get-insert_self : (b : Text) (id : Oid) (m : Map Oid) → Map.get b (Map.insert b id m) ≡ some id
get-insert_self b id m = Map.get-insert b b id m ∙ rw (text_eq_refl b)

abbrev HasTip : Text → Lookup → Memory → Type 0
HasTip b tip s = tip_of (Map.get b s.tips) ≡ tip

update-HasTip :
    (b : Text) (id : Oid) (expected : Option Oid) (s s' : Memory)
    → update b id expected s ≡ written s'
    → HasTip b (found id) s'
update-HasTip b id expected s s' e =
    subst (HasTip b (found id)) (update-written b id expected s s' e).1
      (ap tip_of (get-insert_self b id s.tips))

get-insert_other :
    (b other : Text) (id : Oid) (m : Map Oid)
    → text_eq b other ≡ false
    → Map.get other (Map.insert b id m) ≡ Map.get other m
get-insert_other b other id m ne = Map.get-insert b other id m ∙ rw ne

update-others :
    (b : Text) (id : Oid) (expected : Option Oid) (s s' : Memory)
    → update b id expected s ≡ written s'
    → (other : Text) → text_eq b other ≡ false
    → HasTip other (tip_of (Map.get other s.tips)) s'
update-others b id expected s s' e other ne =
    subst (HasTip other (tip_of (Map.get other s.tips))) (update-written b id expected s s' e).1
      (ap tip_of (get-insert_other b other id s.tips ne))

pub memory_laws : GitLaws memory
memory_laws = record {
  write_tree-tip = λ index s s' tree e b.
      sym (ap (λ (m : Memory). tip_of (Map.get b m.tips)) (same_state s s' (bytes "tree") tree e));
  commit-tip = λ tree parents message s s' id e b.
      sym
        (ap (λ (m : Memory). tip_of (Map.get b m.tips)) (stored tree parents message s s' id e).1);
  commit-stored = commit-HasCommit;
  written-expected = λ b id expected s s' e. ap tip_of (update-written b id expected s s' e).0;
  written-tip = update-HasTip;
  written-others = update-others;
  written-objects = λ b id expected s s' e c. (
    sym (ap (memory.commit_tree c) (update-written b id expected s s' e).1),
    sym (ap (memory.parents_of c) (update-written b id expected s s' e).1),
  );
  set_head-symbolic = λ b s s' e.
      let same : record s { head = b } ≡ s' = ok-injective e in
      (
        sym (ap (λ (m : Memory). memory.symbolic_head m) same),
        λ other. sym (ap (λ (m : Memory). tip_of (Map.get other m.tips)) same),
      );
  first_branch-tip = λ b id s e. cc;
}
