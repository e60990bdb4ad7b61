-- ===== src/Sources.antt =====
-- server/src/models/source.rs: `sanitize_domain`, the key of a provider among the files. The bytes
-- that it looks at are ASCII, so going over bytes is going over characters.
use csaf_trove.Base.{
  ◌≡◌, refl, ap, sym, ◌∙◌, ℕ, Bool, true, false, ◌||◌, ◌&&◌, not, Option, none, some, [], ◌∷◌, ◌++◌,
  any, ◌==◌, ==_iff, Bool-cases, or-false, inl, inr, or_option, if◌then◌else◌,
}
use mathlib.Core.List.{append_assoc, append-nil}
use csaf_trove.Base.Text.{Text, bytes}

-- `str::strip_prefix`
unfoldable pub strip_prefix : Text → Text → Option Text
strip_prefix s [] = some s
strip_prefix [] (p ∷ ps) = none
strip_prefix (c ∷ s) (p ∷ ps) = let rest = strip_prefix s ps in if c == p then rest else none

abbrev or_all : Text → Option Text → Text
or_all s none = s
or_all s (some t) = t

unfoldable pub strip_scheme : Text → Text
unfolding strip_prefix
strip_scheme domain =
    or_all domain
      (or_option (strip_prefix domain (bytes "https://")) (strip_prefix domain (bytes "http://")))

abbrev is_separator : ℕ → Bool
is_separator c = c == 47 || c == 58

abbrev is_empty : Text → Bool
is_empty [] = true
is_empty (c ∷ s) = false

-- The loop over the characters, with `prev_dash` and `result` so far.
unfoldable pub write : Bool → Text → Text → Text
write prev_dash result [] = result
write prev_dash result (c ∷ s) =
    let skipped = write prev_dash result s in
    let dashed = write true (result ++ (45 ∷ [])) s in
    let pushed = write false (result ++ (c ∷ [])) s in
    if is_separator c
    then (if not prev_dash && not (is_empty result) then dashed else skipped)
    else pushed

abbrev trim_cons : ℕ → Text → Text
trim_cons c [] = if c == 45 then [] else c ∷ []
trim_cons c (d ∷ s) = c ∷ d ∷ s

-- `trim_end_matches('-')`
unfoldable pub trim_dashes : Text → Text
trim_dashes [] = []
trim_dashes (c ∷ s) = trim_cons c (trim_dashes s)

unfoldable pub sanitize_domain : Text → Text
unfolding strip_scheme write trim_dashes
sanitize_domain domain = trim_dashes (write false [] (strip_scheme domain))

abbrev HasNone : Text → Type 0
HasNone s = any is_separator s ≡ false

or-right : (a b : Bool) → a ≡ false → (a || b) ≡ true → b ≡ true
or-right true b e h = cc
or-right false b e h = h

none-cons : (c : ℕ) (s : Text) → is_separator c ≡ false → HasNone s → HasNone (c ∷ s)
none-cons c s e h = rw e h

HasNone-append : (s t : Text) → HasNone s → HasNone t → HasNone (s ++ t)
HasNone-append [] t a b = b
HasNone-append (c ∷ s) t a b =
    let (free, rest) = or-false (is_separator c) (any is_separator s) a in
    none-cons c (s ++ t) free (HasNone-append s t rest b)

strip_prefix-none : (s p : Text) → HasNone s → any is_separator p ≡ true → strip_prefix s p ≡ none
unfolding strip_prefix
strip_prefix-none s [] a b = cc
strip_prefix-none [] (p ∷ ps) a b = refl
strip_prefix-none (c ∷ s) (p ∷ ps) a b = elim (Bool-cases (c == p)) [
  | inl e ↦
      let (free, rest) = or-false (is_separator c) (any is_separator s) a in
      let same : c ≡ p = (==_iff c p).0 e in
      let free' : is_separator p ≡ false = ap is_separator (sym same) ∙ free in
      rw e (strip_prefix-none s ps rest (or-right (is_separator p) (any is_separator ps) free' b))
  | inr e ↦ rw e refl
]

separated : (b : Bool) (s t : Text) → HasNone s → HasNone t → HasNone (if b then s else t)
separated true s t h k = h
separated false s t h k = k

write-HasNone : (prev : Bool) (out s : Text) → HasNone out → HasNone (write prev out s)
unfolding write
write-HasNone prev out [] a = a
write-HasNone prev out (c ∷ s) a = elim (Bool-cases (is_separator c)) [
  | inl e ↦ rw e (
      separated (not prev && not (is_empty out)) _ _
        (write-HasNone true (out ++ (45 ∷ [])) s (HasNone-append out (45 ∷ []) a refl))
        (write-HasNone prev out s a))
  | inr e ↦ rw e (
      write-HasNone false (out ++ (c ∷ [])) s
        (HasNone-append out (c ∷ []) a (none-cons c [] e refl)))
]

trim_cons-HasNone :
    (c : ℕ) (t : Text) → is_separator c ≡ false → HasNone t → HasNone (trim_cons c t)
trim_cons-HasNone c [] free h = elim (Bool-cases (c == 45)) [
  | inl e ↦ rw e refl
  | inr e ↦ rw e (none-cons c [] free h)
]
trim_cons-HasNone c (d ∷ t) free h = none-cons c (d ∷ t) free h

trim_dashes-HasNone : (s : Text) → HasNone s → HasNone (trim_dashes s)
unfolding trim_dashes
trim_dashes-HasNone [] a = a
trim_dashes-HasNone (c ∷ s) a =
    let (free, rest) = or-false (is_separator c) (any is_separator s) a in
    trim_cons-HasNone c (trim_dashes s) free (trim_dashes-HasNone s rest)

trim_cons-trimmed :
    (c : ℕ) (t : Text) → trim_dashes t ≡ t → trim_dashes (trim_cons c t) ≡ trim_cons c t
unfolding trim_dashes
trim_cons-trimmed c [] trimmed = elim (Bool-cases (c == 45)) [
  | inl e ↦ rw e refl
  | inr e ↦ rw (e, e) refl
]
trim_cons-trimmed c (d ∷ t) trimmed = ap (trim_cons c) trimmed

trim_dashes_idem : (s : Text) → trim_dashes (trim_dashes s) ≡ trim_dashes s
unfolding trim_dashes
trim_dashes_idem [] = refl
trim_dashes_idem (c ∷ s) = trim_cons-trimmed c (trim_dashes s) (trim_dashes_idem s)

write-id : (prev : Bool) (out s : Text) → HasNone s → write prev out s ≡ out ++ s
unfolding write
write-id prev out [] a = sym (append-nil out)
write-id prev out (c ∷ s) a =
    let (free, rest) = or-false (is_separator c) (any is_separator s) a in
    rw free (write-id false (out ++ (c ∷ [])) s rest ∙ append_assoc out (c ∷ []) s)

strip_scheme-id : (s : Text) → HasNone s → strip_scheme s ≡ s
unfolding strip_scheme
strip_scheme-id s h =
    rw (strip_prefix-none s (bytes "https://") h refl, strip_prefix-none s (bytes "http://") h refl)
      refl

-- A key has no separator of paths in it.
sanitize_domain-HasNone : (domain : Text) → HasNone (sanitize_domain domain)
unfolding sanitize_domain
sanitize_domain-HasNone domain =
    trim_dashes-HasNone (write false [] (strip_scheme domain))
      (write-HasNone false [] (strip_scheme domain) refl)

-- What a key is made of.
pub record IsKey (key : Text) : Type 0 where
  pub no_separators : HasNone key
  pub no_final_dash : trim_dashes key ≡ key

IsKey-own : (key : Text) → IsKey key → sanitize_domain key ≡ key
unfolding sanitize_domain
IsKey-own key h =
    ap (λ s. trim_dashes (write false [] s)) (strip_scheme-id key h.no_separators)
    ∙ ap trim_dashes (write-id false [] key h.no_separators)
    ∙ h.no_final_dash

sanitize_domain_trimmed :
    (domain : Text) → trim_dashes (sanitize_domain domain) ≡ sanitize_domain domain
unfolding sanitize_domain
sanitize_domain_trimmed domain = trim_dashes_idem (write false [] (strip_scheme domain))

-- A key has no slash, no colon and no dash at its end, and it is the key of itself.
pub sanitize_domain-IsKey :
    (domain : Text)
    → IsKey (sanitize_domain domain)
      × (sanitize_domain (sanitize_domain domain) ≡ sanitize_domain domain)
sanitize_domain-IsKey domain =
    let safe : IsKey (sanitize_domain domain) = record {
      no_separators = sanitize_domain-HasNone domain;
      no_final_dash = sanitize_domain_trimmed domain;
    } in
    (safe, IsKey-own (sanitize_domain domain) safe)
