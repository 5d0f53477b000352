-- ===== src/Config/Labels.antt =====
-- internal/config/config.go: the label sets, and the labels of a validated configuration.
use gmail_visibility_manager.Base.{
  Any, inl, inr, All-imp, List, [], ◌∷◌, ◌≡◌, refl, Bool, true, false, ◌||◌, some, arith, All,
}
use gmail_visibility_manager.Text.{Text, trim_space}
use gmail_visibility_manager.Text.Trim.{trim_space_idem}
use gmail_visibility_manager.Result.{ok}
use gmail_visibility_manager.Dict.{Dict, lookup, insert, is_some}
use gmail_visibility_manager.Dict.Laws.{
  lookup-nil, EachEntry, insert-EachEntry, lookup-EachEntry, lookup-insert,
}
use gmail_visibility_manager.Dict.Keyed.{has_key}
use gmail_visibility_manager.Std.{Std, StdLaws}
use gmail_visibility_manager.Std.Lower.{to_lower_idem, trim_space-to_lower}
use gmail_visibility_manager.Os.{Os}
use gmail_visibility_manager.Config.{
  Config, normalize_label, add_labels, allowed_label_set, sensitive_label_set, check_sensitive,
  is_blank, validate_labels, validate,
}

module _ ⦃std : Std⦄ where
  pub normalize_label-trim_space : (t : Text) → normalize_label (trim_space t) ≡ normalize_label t
  unfolding normalize_label
  normalize_label-trim_space t = rw trim_space_idem

  pub normalize_label_idem :
      StdLaws std → (t : Text) → normalize_label (normalize_label t) ≡ normalize_label t
  unfolding normalize_label
  normalize_label_idem laws t = rw (trim_space-to_lower laws, trim_space_idem, to_lower_idem laws)

  pub lookup-add_labels :
      (labels : List Text) (d : Dict Text) (k : Text)
      → is_some (lookup (add_labels labels d) k)
        ≡ (has_key normalize_label k labels || is_some (lookup d k))
  unfolding add_labels has_key
  lookup-add_labels [] d k = refl
  lookup-add_labels (label ∷ labels) d k =
      let n = normalize_label label in
      ground (
        arith,
        lookup-add_labels labels (insert d n (trim_space label)) k,
        lookup-insert d n k (trim_space label),
      )

  -- a canonical spelling: trimmed, and stored under its key
  abbrev pub IsCanonical : Text → Text → Type 0
  IsCanonical k v = (trim_space v ≡ v) × (normalize_label v ≡ k)

  add_labels-IsCanonical :
      (labels : List Text) (d : Dict Text)
      → EachEntry IsCanonical d
      → EachEntry IsCanonical (add_labels labels d)
  unfolding add_labels
  add_labels-IsCanonical [] d h = h
  add_labels-IsCanonical (label ∷ labels) d h = add_labels-IsCanonical labels _ (
      insert-EachEntry IsCanonical d (normalize_label label) (trim_space label)
        (trim_space_idem label, normalize_label-trim_space label) h)

  pub allowed_label_set-IsCanonical :
      (c : Config) (k v : Text) → lookup (allowed_label_set c) k ≡ some v → IsCanonical k v
  unfolding allowed_label_set
  allowed_label_set-IsCanonical c k v =
      lookup-EachEntry IsCanonical _ k v
        (add_labels-IsCanonical c.allowed_classification_labels [] tt)

  -- the text of a listed label, without its outer space
  abbrev pub IsSpelling : List Text → Text → Type 0
  IsSpelling labels v = Any (λ c. trim_space c ≡ v) labels

  add_labels-IsSpelling :
      (all labels : List Text) (d : Dict Text)
      → All (λ c. IsSpelling all (trim_space c)) labels
      → EachEntry (λ _ v. IsSpelling all v) d
      → EachEntry (λ _ v. IsSpelling all v) (add_labels labels d)
  unfolding add_labels
  add_labels-IsSpelling all [] d _ h = h
  add_labels-IsSpelling all (label ∷ labels) d (l, ls) h =
      add_labels-IsSpelling all labels _ ls (
        insert-EachEntry (λ _ v. IsSpelling all v) d (normalize_label label) (trim_space label) l h)

  each-IsSpelling : (labels : List Text) → All (λ c. IsSpelling labels (trim_space c)) labels
  each-IsSpelling [] = tt
  each-IsSpelling (label ∷ labels) = (
    inl refl,
    All-imp (λ c. IsSpelling labels (trim_space c))
        (λ c. IsSpelling (label ∷ labels) (trim_space c)) (λ c h. inr h) labels
        (each-IsSpelling labels),
  )

  pub allowed_label_set-IsSpelling :
      (c : Config) (k v : Text)
      → lookup (allowed_label_set c) k ≡ some v
      → IsSpelling c.allowed_classification_labels v
  unfolding allowed_label_set
  allowed_label_set-IsSpelling c k v =
      let labels = c.allowed_classification_labels in
      lookup-EachEntry (λ _ v. IsSpelling labels v) _ k v
        (add_labels-IsSpelling labels labels [] (each-IsSpelling labels) tt)

  -- whether a configuration lists a label as allowed, or as sensitive, up to case and outer space
  abbrev pub is_allowed : Config → Text → Bool
  is_allowed c k = has_key normalize_label k c.allowed_classification_labels

  abbrev pub is_sensitive : Config → Text → Bool
  is_sensitive c k = has_key normalize_label k c.sensitive_classification_labels

  pub lookup-allowed_label_set :
      (c : Config) (k : Text) → is_some (lookup (allowed_label_set c) k) ≡ is_allowed c k
  unfolding allowed_label_set
  lookup-allowed_label_set c k =
      ground
        (arith, lookup-add_labels c.allowed_classification_labels [] k, lookup-nil {V = Text} k)

  pub lookup-sensitive_label_set :
      (c : Config) (k : Text) → is_some (lookup (sensitive_label_set c) k) ≡ is_sensitive c k
  unfolding sensitive_label_set
  lookup-sensitive_label_set c k =
      ground
        (arith, lookup-add_labels c.sensitive_classification_labels [] k, lookup-nil {V = Text} k)

  check_sensitive-All :
      (c : Config) (labels : List Text)
      → check_sensitive (allowed_label_set c) labels ≡ ok tt
      → All (λ s. is_allowed c (normalize_label s) ≡ true) labels
  unfolding check_sensitive
  check_sensitive-All c [] h = tt
  check_sensitive-All c (s ∷ labels) h = (
    ground (arith, lookup-allowed_label_set c (normalize_label s)),
    check_sensitive-All c labels (ground arith),
  )

  -- what Validate ensures of the labels
  pub record HasSoundLabels (c : Config) : Type 0 where
    pub visible : is_blank c.visibility_label ≡ false
    pub apart : is_allowed c (normalize_label c.visibility_label) ≡ false
    pub sensitive :
        All (λ s. is_allowed c (normalize_label s) ≡ true) c.sensitive_classification_labels

  validate_labels-HasSoundLabels : (c : Config) → validate_labels c ≡ ok tt → HasSoundLabels c
  unfolding validate_labels
  validate_labels-HasSoundLabels c h = record {
    visible = ground arith;
    apart = ground (arith, lookup-allowed_label_set c (normalize_label c.visibility_label));
    sensitive = check_sensitive-All c c.sensitive_classification_labels (ground arith);
  }

  -- In a configuration that Validate accepts the visibility label is not blank and not among the
  -- allowed labels, and every sensitive label is allowed, all up to case and outer space.
  pub validate-HasSoundLabels : ⦃os : Os⦄ (c : Config) → validate c ≡ ok tt → HasSoundLabels c
  unfolding validate
  validate-HasSoundLabels c h = validate_labels-HasSoundLabels c (ground arith)
