-- ===== src/Runner/Pipeline/Tokens.antt =====
-- When the token of incremental syncs advances.
use mathlib.Core.Path.{subst}
use csaf_trove.Base.{◌≡◌, refl, ◌∙◌, sym, ap, true, false, some, Option-cases, inl, inr, is_some}
use csaf_trove.Base.Text.{Text, text_eq_refl}
use csaf_trove.Base.Map
use csaf_trove.Base.Map.{Map}
use csaf_trove.Base.Effect.{Result, ok, err, ok-injective}
use csaf_trove.Jobs.{Timestamp}
use csaf_trove.Runner.World.{
  World, Action, Source, new_sync_state, SyncState, SyncResult, ◌>>=◌, ◌>>◌, pure, read, warn_only,
}
use csaf_trove.Runner.Snapshot.{Inputs, clock}
use csaf_trove.Runner.Snapshot.Keeps.{call-Keeps, enter-Keeps, edit_job-Keeps, warn_only-Keeps}
use csaf_trove.Runner.Snapshot.Outcomes.{bind-ok, next-ok}
use csaf_trove.Runner.Pipeline.{
  load_sync_state, save_sync_state, store_sync_state, sync_provider, advance_token, finish_sync,
  pipeline_steps, finally, cleanup_worktree, run_pipeline, or_new,
}
use csaf_trove.Runner.Pipeline.Stays.{
  SameTokens, SameTokens-trans, SameTokens-refl, Stays, weak, called, process_snapshot-Stays,
  sync_provider-Stays, pipeline_steps-FailsSame,
}

module _ {D : Type 0} (inputs : Inputs D) where
  -- A successful step on the way, with the tokens as they were at the start.
  bind_ok :
      {A B : Type 0} {m : Action D A} {f : A → Action D B} (u w w' : World D) (b : B)
      → Stays m
      → SameTokens u w
      → (m >>= f) w ≡ (ok b, w')
      → (a : A) × (v : World D) × SameTokens u v × (m w ≡ (ok a, v)) × (f a v ≡ (ok b, w'))
  bind_ok {m} {f} u w w' b stays same h =
      let (a, v, ran, rest) = bind-ok m f w w' b h in
      (
        a,
        v,
        SameTokens-trans u w v same
            (subst (λ (r : Result _ × World D). SameTokens w r.1) ran (stays.moves w)),
        ran,
        rest,
      )

  next_ok :
      {A B : Type 0} {m : Action D A} {k : Action D B} (u w w' : World D) (b : B)
      → Stays m
      → SameTokens u w
      → (m >> k) w ≡ (ok b, w')
      → (v : World D) × SameTokens u v × (k v ≡ (ok b, w'))
  next_ok {m} {k} u w w' b stays same h =
      let (a, v, ran, rest) = next-ok m k w w' b h in
      (
        v,
        SameTokens-trans u w v same
            (subst (λ (r : Result _ × World D). SameTokens w r.1) ran (stays.moves w)),
        rest,
      )

  -- Every sync state is stored under its own domain.
  abbrev pub IsKeyed : World D → Type 0
  IsKeyed w =
      (domain : Text) (s : SyncState) → Map.get domain w.sync_states ≡ some s → s.domain ≡ domain

  IsKeyed-same : (w v : World D) → IsKeyed w → SameTokens w v → IsKeyed v
  IsKeyed-same w v keyed same domain s found =
      keyed domain s (ap (λ (m : Map SyncState). Map.get domain m) (sym same.sync_states) ∙ found)

  or_new_domain :
      (domain : Text) (w : World D)
      → IsKeyed w
      → (or_new inputs domain (Map.get domain w.sync_states)).domain ≡ domain
  unfolding new_sync_state
  or_new_domain domain w keyed = elim (Option-cases (Map.get domain w.sync_states)) [
    | inl missing ↦ rw missing
    | inr (s, found) ↦ rw found (keyed domain s found)
  ]

  -- The token of the provider is the time at which a sync began, that ran to its end.
  pub record Advanced (source : Source) (w : World D) : Type 0 where
    pub state : SyncState
    pub stored : Map.get source.domain w.sync_states ≡ some state
    pub synced : is_some state.last_sync ≡ true
    pub before : World D
    pub after : World D
    pub result : SyncResult
    pub ran : sync_provider inputs source before ≡ (ok result, after)
    pub since : state.since_token ≡ some result.started_at
    pub began : result.started_at ≡ (inputs.services.now_utc before.rest).0

  pair-fst :
      {A : Type 0} {r : Result A} {a : A} {w w' : World D}
      → ◌≡◌ {A = Result A × World D} (r, w) (ok a, w')
      → r ≡ ok a
  pair-fst h = cc

  pair-snd :
      {A : Type 0} {r : Result A} {a : A} {w w' : World D}
      → ◌≡◌ {A = Result A × World D} (r, w) (ok a, w')
      → w ≡ w'
  pair-snd h = cc

  started_at-clock :
      (source : Source) (v v' : World D) (result : SyncResult)
      → sync_provider inputs source v ≡ (ok result, v')
      → result.started_at ≡ (inputs.services.now_utc v.rest).0
  unfolding sync_provider clock pure read
  started_at-clock source v v' result h =
      let (t, v1, h1, k1) = bind-ok _ _ v v' result h in
      let (state, v2, h2, k2) = bind-ok _ _ v1 v' result k1 in
      let (token, v3, h3, k3) = bind-ok _ _ v2 v' result k2 in
      let (retry, v4, h4, k4) = bind-ok _ _ v3 v' result k3 in
      let (walked, v5, h5, k5) = bind-ok _ _ v4 v' result k4 in
      ap (λ (r : SyncResult). r.started_at) (sym (ok-injective (pair-fst k5)))
      ∙ sym (ok-injective (pair-fst h1))

  advance_token-ok :
      (domain : Text) (started_at : Timestamp) (w w' : World D)
      → IsKeyed w
      → advance_token inputs domain started_at w ≡ (ok tt, w')
      → (state : SyncState) × (Map.get domain w'.sync_states ≡ some state)
        × (is_some state.last_sync ≡ true)
        × (state.since_token ≡ some started_at)
  unfolding advance_token save_sync_state store_sync_state load_sync_state clock read
  advance_token-ok domain started_at w w' keyed h =
      let (loaded, w1, h1, k1) = bind-ok _ _ w w' tt h in
      let (now, w2, h2, k2) = bind-ok _ _ w1 w' tt k1 in
      let (u3, w3, h3, k3) = next-ok _ _ w2 w' tt k2 in
      let (v, same, k4) =
        next_ok w w w1 loaded (called domain (inputs.services.access domain)) (SameTokens-refl w)
          h1 in
      let keyed' = IsKeyed-same w v keyed same in
      let named : loaded.domain ≡ domain =
        ap (λ (s : SyncState). s.domain) (sym (ok-injective (pair-fst k4)))
        ∙ or_new_domain domain v keyed' in
      let state : SyncState = record loaded {
        last_sync = some now;
        since_token = some started_at;
      } in
      (
        state,
        ap (λ (u : World D). Map.get domain u.sync_states) (sym (pair-snd k3))
            ∙ ap (λ (d : Text). Map.get domain (Map.insert d state w3.sync_states)) named
            ∙ Map.get-insert domain domain state w3.sync_states
            ∙ rw text_eq_refl,
        refl,
        refl,
      )

  finish_sync-ok :
      (source : Source) (result : SyncResult) (w w' : World D)
      → IsKeyed w
      → finish_sync inputs source result w ≡ (ok tt, w')
      → (state : SyncState) × (Map.get source.domain w'.sync_states ≡ some state)
        × (is_some state.last_sync ≡ true)
        × (state.since_token ≡ some result.started_at)
  unfolding finish_sync
  finish_sync-ok source result w w' keyed h =
      let (w1, s1, k1) =
        next_ok w w w' tt (weak (edit_job-Keeps inputs source.domain _)) (SameTokens-refl w) h in
      let (w2, s2, k2) = next_ok w w1 w' tt (weak (enter-Keeps inputs source.domain _)) s1 k1 in
      let (w3, s3, k3) = next_ok w w2 w' tt (called _ _) s2 k2 in
      let (w4, s4, k4) = next_ok w w3 w' tt (weak (warn_only-Keeps (call-Keeps _ _))) s3 k3 in
      let (w5, s5, k5) = next_ok w w4 w' tt (called _ _) s4 k4 in
      let (w6, s6, k6) = next_ok w w5 w' tt (process_snapshot-Stays inputs source false _) s5 k5 in
      let (w7, s7, k7) = next_ok w w6 w' tt (called _ _) s6 k6 in
      let (w8, s8, k8) = next_ok w w7 w' tt (called _ _) s7 k7 in
      advance_token-ok source.domain result.started_at w8 w' (IsKeyed-same w w8 keyed s8) k8

  -- The inner block of the pipeline, when it succeeds.
  pipeline_steps-Advanced :
      (source : Source) (w w' : World D)
      → IsKeyed w
      → pipeline_steps inputs source w ≡ (ok tt, w')
      → Advanced source w'
  unfolding pipeline_steps
  pipeline_steps-Advanced source w w' keyed h =
      let (w1, s1, k1) =
        next_ok w w w' tt (weak (warn_only-Keeps (call-Keeps _ _))) (SameTokens-refl w) h in
      let (w2, s2, k2) = next_ok w w1 w' tt (weak (enter-Keeps inputs source.domain _)) s1 k1 in
      let (w3, s3, k3) = next_ok w w2 w' tt (called _ _) s2 k2 in
      let (w4, s4, k4) = next_ok w w3 w' tt (weak (enter-Keeps inputs source.domain _)) s3 k3 in
      let (result, w5, s5, ran, k5) =
        bind_ok w w4 w' tt (sync_provider-Stays inputs source) s4 k4 in
      let (state, stored, synced, since) =
        finish_sync-ok source result w5 w' (IsKeyed-same w w5 keyed s5) k5 in
      record {
        state = state;
        stored = stored;
        synced = synced;
        before = w4;
        after = w5;
        result = result;
        ran = ran;
        since = since;
        began = started_at-clock source w4 w5 result ran;
      }

  Advanced-same :
      (source : Source) (w v : World D) → SameTokens w v → Advanced source w → Advanced source v
  Advanced-same source w v same a = record {
    state = a.state;
    stored = ap (λ (m : Map SyncState). Map.get source.domain m) same.sync_states ∙ a.stored;
    synced = a.synced;
    before = a.before;
    after = a.after;
    result = a.result;
    ran = a.ran;
    since = a.since;
    began = a.began;
  }

  -- How a run of the pipeline may end.
  abbrev pub TokenRule : Source → World D → Result (Unit {0}) × World D → Type 0
  TokenRule source w (ok _, w') = Advanced source w'
  TokenRule source w (err e, w') = SameTokens w w'

  finally-TokenRule :
      (source : Source) (w : World D) (r : Result (Unit {0}) × World D)
      → pipeline_steps inputs source w ≡ r
      → IsKeyed w
      → TokenRule source w (finally inputs (cleanup_worktree inputs source.domain) r)
  unfolding warn_only cleanup_worktree
  finally-TokenRule source w (ok _, v) ends keyed =
      Advanced-same source v _ ((called source.domain _).moves v)
        (pipeline_steps-Advanced source w v keyed ends)
  finally-TokenRule source w (err e, v) ends keyed =
      SameTokens-trans w v _ ((pipeline_steps-FailsSame inputs source).fails w e v ends)
        ((called source.domain _).moves v)

  -- A run of the pipeline that fails, wherever it does, leaves all sync states as they were. One
  -- that succeeds stores a token for the provider: the time read at the beginning of a sync that
  -- succeeded, so nothing that changes while it runs is missed by the next one.
  pub run_pipeline-TokenRule :
      (source : Source) (w : World D)
      → IsKeyed w
      → TokenRule source w (run_pipeline inputs source w)
  unfolding run_pipeline
  run_pipeline-TokenRule source w keyed =
      finally-TokenRule source w (pipeline_steps inputs source w) refl keyed
