-- ===== src/Provider/RemotePath/Contained.antt =====
-- The components of the paths that cleanRemotePath (pkg/provider/filesystem/path.go) accepts.
use colnk.Common.{
  ℕ, ◌≡◌, ◌≢◌, refl, sym, ap, ◌⊎◌, inl, inr, Bytes, bytes_beq, bytes_beq_iff, is_empty, nat_beq,
  has_prefix, has_prefix-split, List, [], ◌∷◌, ◌++◌, Bool, true, false, if◌then◌else◌, keep, any,
  ok, err, errno, arith, Bool-cases, drop,
}
use mathlib.Core.Bool.{false≢true, not}
use mathlib.Core.Path.{subst, subst₂}
use colnk.Common.Paths.{slash, is_slash, split_on, push_byte, components, clean, dot_dot, is_abs}
use colnk.Common.Paths.Components.{
  NoDotDot, IsContained, clean-IsContained, components-append, split_on-cons,
}
use colnk.Provider.RemotePath.{
  eperm, is_separator, fields, trim_left, clean_checked, clean_remote_path,
}

-- The parts between slashes against the parts between slashes and backslashes: the first part is the
-- same or holds a backslash, and the others have a ".." only if these have.
abbrev Parts : List Bytes → List Bytes → Type 0
Parts [] ps = ⊥
Parts (c ∷ cs) [] = ⊥
Parts (c ∷ cs) (p ∷ ps) =
    ((c ≡ p) ⊎ (any (λ b. nat_beq b b'\\') c ≡ true)) × (NoDotDot ps → NoDotDot cs)

abbrev holds_backslash : Bytes → Bool
holds_backslash = any (λ b. nat_beq b b'\\')

head-ne-dot_dot : (c p : Bytes) → (c ≡ p) ⊎ (holds_backslash c ≡ true) → p ≢ dot_dot → c ≢ dot_dot
unfolding any
head-ne-dot_dot c p (inl e) h = λ d. h (rw (← e) d)
head-ne-dot_dot c p (inr there) h = λ d. false≢true (rw d at there)

Parts-push :
    (b : ℕ) (cs ps : List Bytes)
    → Parts cs ps
    → Parts (push_byte is_slash b cs) (push_byte is_separator b ps)
unfolding push_byte any
Parts-push b [] ps h = absurd h
Parts-push b (c ∷ cs) [] h = absurd h
Parts-push b (c ∷ cs) (p ∷ ps) h =
    let all_parts : NoDotDot (p ∷ ps) → NoDotDot (c ∷ cs) =
      λ d. (head-ne-dot_dot c p h.0 d.0, h.1 d.1) in
    elim (Bool-cases (nat_beq b slash)) [
      | inl cut ↦ rw cut (inl refl, all_parts)
      | inr plain ↦ elim (Bool-cases (nat_beq b b'\\')) [
        | inl back ↦ rw (plain, back) (inr (rw back), λ d. h.1 d.1)
        | inr other ↦
            rw (plain, other)
              (elim h.0 [ inl e ↦ inl (ap (◌∷◌ b) e) | inr there ↦ inr (rw (other, there)) ], h.1)
      ]
    ]

Parts-split : (s : Bytes) → Parts (components s) (split_on is_separator s)
unfolding split_on
Parts-split [] = (inl refl, λ h. tt)
Parts-split (b ∷ s) = Parts-push b (components s) (split_on is_separator s) (Parts-split s)

-- If no part between separators is "..", no component is.
components-NoDotDot : (s : Bytes) → NoDotDot (split_on is_separator s) → NoDotDot (components s)
components-NoDotDot s d =
    let (c, cs, e) = split_on-cons is_slash s in
    let (p, ps, e') = split_on-cons is_separator s in
    let parts : Parts (c ∷ cs) (p ∷ ps) = subst₂ Parts e e' (Parts-split s) in
    let d' : NoDotDot (p ∷ ps) = subst NoDotDot e' d in
    subst NoDotDot (sym e) (head-ne-dot_dot c p parts.0 d'.0, parts.1 d'.1)

keep-NoDotDot :
    (ps : List Bytes)
    → any (λ c. bytes_beq c dot_dot) (keep (λ p. not (is_empty p)) ps) ≡ false
    → NoDotDot ps
unfolding any keep
keep-NoDotDot [] h = tt
keep-NoDotDot ([] ∷ ps) h = ((λ e. cc), keep-NoDotDot ps h)
keep-NoDotDot ((b ∷ p) ∷ ps) h =
    ((λ e. ground (arith, bytes_beq_iff (b ∷ p) dot_dot)), keep-NoDotDot ps (ground arith))

trim_left-NoDotDot :
    (s : Bytes)
    → NoDotDot (split_on is_separator s)
    → NoDotDot (split_on is_separator (trim_left s))
unfolding trim_left
trim_left-NoDotDot [] d = d
trim_left-NoDotDot (c ∷ s) d = elim (Bool-cases (is_separator c)) [
  | inr other ↦ rw other d
  | inl cut ↦
      let (p, ps, e) = split_on-cons is_separator s in
      let split : split_on is_separator (c ∷ s) ≡ [] ∷ split_on is_separator s =
        unfold split_on push_byte in ground (arith, e, cut) in
      rw cut (trim_left-NoDotDot s (subst NoDotDot split d).1)
]

trim_left-relative : (s : Bytes) → is_abs (trim_left s) ≡ false
unfolding trim_left is_abs
trim_left-relative [] = refl
trim_left-relative (c ∷ s) = ground (arith, trim_left-relative s)

not_dot_dot : (path : Bytes) → NoDotDot (components path) → bytes_beq path dot_dot ≡ false
unfolding split_on push_byte
not_dot_dot path d = elim (Bool-cases (bytes_beq path dot_dot)) [
  | inr other ↦ other
  | inl same ↦
      let e : path ≡ dot_dot = (bytes_beq_iff path dot_dot).0 same in
      absurd ((subst (λ q. NoDotDot (components q)) e d).0 refl)
]

not_below_dot_dot :
    (path : Bytes) → NoDotDot (components path) → has_prefix path (dot_dot ++ slash ∷ []) ≡ false
not_below_dot_dot path d = elim (Bool-cases (has_prefix path (dot_dot ++ slash ∷ []))) [
  | inr other ↦ other
  | inl there ↦
      let rest = drop 3 path in
      let e : path ≡ dot_dot ++ slash ∷ rest =
        has_prefix-split path (dot_dot ++ slash ∷ []) there in
      let parts = components-append dot_dot rest (unfold any in refl) in
      absurd ((subst NoDotDot parts (subst (λ q. NoDotDot (components q)) e d)).0 refl)
]

-- A contained path passes the checks behind the loop.
clean_checked_contained : (path : Bytes) → IsContained path → clean_checked path ≡ ok path
unfolding clean_checked
clean_checked_contained path h = ground (arith, not_dot_dot path h.2, not_below_dot_dot path h.2)

cleaned-IsContained :
    (remote_path : Bytes)
    → any (λ component. bytes_beq component dot_dot) (fields remote_path) ≡ false
    → IsContained (clean (trim_left remote_path))
unfolding fields
cleaned-IsContained remote_path h =
    clean-IsContained (trim_left remote_path) (trim_left-relative remote_path) (
      components-NoDotDot (trim_left remote_path)
        (trim_left-NoDotDot remote_path (keep-NoDotDot (split_on is_separator remote_path) h)))

-- A path from the peer is refused exactly when one of its parts between slashes and backslashes is
-- "..". Any other path is accepted in its cleaned form.
pub clean_remote_path_lem :
    (remote_path : Bytes)
    → clean_remote_path remote_path ≡ (
        if any (λ component. bytes_beq component dot_dot) (fields remote_path)
        then err (errno eperm)
        else ok (clean (trim_left remote_path)))
unfolding clean_remote_path
clean_remote_path_lem remote_path =
    elim (Bool-cases (any (λ component. bytes_beq component dot_dot) (fields remote_path))) [
      | inl bad ↦ rw bad refl
      | inr fine ↦
          let h = cleaned-IsContained remote_path fine in
          ground (arith, fine, h.0, clean_checked_contained (clean (trim_left remote_path)) h)
    ]

-- An accepted path is not empty, is relative and has no component "..": whatever the peer sends, it
-- names something inside of the shared root.
pub clean_remote_path-IsContained :
    (remote_path name : Bytes) → clean_remote_path remote_path ≡ ok name → IsContained name
clean_remote_path-IsContained remote_path name h =
    elim (Bool-cases (any (λ component. bytes_beq component dot_dot) (fields remote_path))) [
      | inl bad ↦ ground (arith, clean_remote_path_lem remote_path)
      | inr fine ↦
          let e : clean (trim_left remote_path) ≡ name =
            ground (arith, clean_remote_path_lem remote_path) in
          subst IsContained e (cleaned-IsContained remote_path fine)
    ]
