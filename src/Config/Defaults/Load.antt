-- ===== src/Config/Defaults/Load.antt =====
-- internal/config/config.go: the configurations that Load returns.
use gmail_visibility_manager.Base.{◌≡◌, arith, All, Bool-cases, inl, inr}
use mathlib.Core.Path.{subst}
use gmail_visibility_manager.Text.{Text}
use gmail_visibility_manager.Result.{Result, ok, ◌>>◌, >>=-eq-ok, Result-cases}
use gmail_visibility_manager.Sort.{IsStrict}
use gmail_visibility_manager.Std.{Std}
use gmail_visibility_manager.Os.{Os}
use gmail_visibility_manager.Config.{Config, validate, is_blank, normalize_label}
use gmail_visibility_manager.Config.Labels.{HasSoundLabels, validate-HasSoundLabels}
use gmail_visibility_manager.Config.Defaults.{expand_path, default_config, apply_defaults, load}
use gmail_visibility_manager.Config.Defaults.Lists.{IsTrimmed, normalize_label_list_lem}

module _ ⦃std : Std⦄ ⦃os : Os⦄ where
  pub record IsLoaded (c : Config) : Type 0 where
    pub valid : validate c ≡ ok tt
    pub sound : HasSoundLabels c
    pub allowed_trimmed : All IsTrimmed c.allowed_classification_labels
    pub allowed_strict : IsStrict normalize_label c.allowed_classification_labels
    pub sensitive_trimmed : All IsTrimmed c.sensitive_classification_labels
    pub sensitive_strict : IsStrict normalize_label c.sensitive_classification_labels

  default-IsLoaded : validate default_config ≡ ok tt → IsLoaded default_config
  unfolding default_config
  default-IsLoaded v = record {
    valid = v;
    sound = validate-HasSoundLabels default_config v;
    allowed_trimmed = tt;
    allowed_strict = tt;
    sensitive_trimmed = tt;
    sensitive_strict = tt;
  }

  apply_defaults-IsLoaded :
      (c : Config) → validate (apply_defaults c) ≡ ok tt → IsLoaded (apply_defaults c)
  unfolding apply_defaults
  apply_defaults-IsLoaded c v =
      let a = normalize_label_list_lem c.allowed_classification_labels in
      let s = normalize_label_list_lem c.sensitive_classification_labels in
      record {
        valid = v;
        sound = validate-HasSoundLabels (apply_defaults c) v;
        allowed_trimmed = a.0;
        allowed_strict = a.1;
        sensitive_trimmed = s.0;
        sensitive_strict = s.1;
      }

  kept : (c d : Config) → (validate d >> ok d) ≡ ok c → (d ≡ c) × (validate d ≡ ok tt)
  kept c d h = let (_, valid, same) = >>=-eq-ok (validate d) _ h in (ground arith, valid)

  -- Whatever the file and the decoder give, a configuration that Load returns has passed Validate, and
  -- its label lists are trimmed, without blanks, and strictly ascending by their lower case.
  pub load-IsLoaded :
      (read_file : Text → Result Text) (decode : Text → Result Config) (path : Text) (c : Config)
      → load read_file decode path ≡ ok c
      → IsLoaded c
  unfolding load
  load-IsLoaded read_file decode path c h = elim (Bool-cases (is_blank path)) [
    | inl blank ↦
        let k = kept c default_config (ground arith) in subst IsLoaded k.0 (default-IsLoaded k.1)
    | inr given ↦ elim (Result-cases (read_file (expand_path path))) [
      | inl (body, p) ↦ elim (Result-cases (decode body)) [
        | inl (cfg, q) ↦
            let k = kept c (apply_defaults cfg) (ground arith) in
            subst IsLoaded k.0 (apply_defaults-IsLoaded cfg k.1)
        | inr (_, q) ↦ absurd (ground arith)
      ]
      | inr (_, p) ↦ absurd (ground arith)
    ]
  ]
