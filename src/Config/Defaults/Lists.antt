-- ===== src/Config/Defaults/Lists.antt =====
-- internal/config/config.go: the label lists that normalizeLabelList makes.
use gmail_visibility_manager.Base.{
  List, [], ◌∷◌, ◌≡◌, ◌≢◌, refl, true, false, ◌||◌, is_empty, arith, All, Bool-cases, inl, inr,
}
use gmail_visibility_manager.Text.{Text, ==_iff, trim_space}
use gmail_visibility_manager.Text.Trim.{trim_space_idem}
use gmail_visibility_manager.Dict.{Dict, lookup, insert, values, is_some}
use gmail_visibility_manager.Dict.Laws.{EachEntry, insert-EachEntry, lookup-insert, lookup-nil}
use gmail_visibility_manager.Dict.Keyed.{
  has_key, IsKeyed, has_key-values, has_key-sort_by, insert-HasDistinct,
}
use gmail_visibility_manager.Sort.{IsStrict}
use gmail_visibility_manager.Sort.Laws.{HasDistinct, sort_by-All, sort_by-IsStrict}
use gmail_visibility_manager.Std.{Std}
use gmail_visibility_manager.Config.{normalize_label}
use gmail_visibility_manager.Config.Labels.{normalize_label-trim_space}
use gmail_visibility_manager.Config.Defaults.{collect_list, normalize_label_list}

abbrev pub IsTrimmed : Text → Type 0
IsTrimmed t = (trim_space t ≡ t) × (is_empty t ≡ false)

module _ ⦃std : Std⦄ where
  record IsSeen (d : Dict Text) : Type 0 where
    keyed : IsKeyed normalize_label d
    trimmed : EachEntry (λ k v. IsTrimmed v) d
    distinct : HasDistinct normalize_label (values d)

  collect_list-IsSeen :
      (labels : List Text) (d : Dict Text) → IsSeen d → IsSeen (collect_list labels d)
  unfolding collect_list
  collect_list-IsSeen [] d s = s
  collect_list-IsSeen (label ∷ labels) d s =
      let t = trim_space label in
      elim (Bool-cases (is_empty t)) [
        | inl blank ↦ rw blank (collect_list-IsSeen labels d s)
        | inr some_text ↦ rw some_text (
            collect_list-IsSeen labels (insert d (normalize_label t) t) (record {
              keyed = insert-EachEntry _ d (normalize_label t) t refl s.keyed;
              trimmed =
                  insert-EachEntry _ d (normalize_label t) t (trim_space_idem label, some_text)
                    s.trimmed;
              distinct =
                  insert-HasDistinct normalize_label d (normalize_label t) t refl s.keyed
                    s.distinct;
            }))
      ]

  seen : (labels : List Text) → IsSeen (collect_list labels [])
  seen labels =
      collect_list-IsSeen labels []
        (record { keyed = tt; trimmed = tt; distinct = unfold values in tt })

  values-IsTrimmed : (d : Dict Text) → EachEntry (λ k v. IsTrimmed v) d → All IsTrimmed (values d)
  unfolding values
  values-IsTrimmed [] _ = tt
  values-IsTrimmed ((k, v) ∷ d) (l, ls) = (l, values-IsTrimmed d ls)

  seen_key :
      (labels : List Text) (d : Dict Text) (k : Text)
      → normalize_label [] ≢ k
      → is_some (lookup (collect_list labels d) k)
        ≡ (has_key normalize_label k labels || is_some (lookup d k))
  unfolding collect_list has_key
  seen_key [] d k n = refl
  seen_key (label ∷ labels) d k n =
      let t = trim_space label in
      ground (
        arith,
        seen_key labels d k n,
        seen_key labels (insert d (normalize_label t) t) k n,
        lookup-insert d (normalize_label t) k t,
        normalize_label-trim_space label,
        blank t,
        ==_iff (normalize_label t) k,
      )
    where
      blank : (t : Text) → is_empty t ≡ true → normalize_label t ≡ normalize_label []
      blank [] _ = refl
      blank (c ∷ t) h = cc

  -- The labels of a loaded file are trimmed and not empty, and in strictly ascending order of their
  -- lower case; dropping blanks and repeated spellings removes no other label and adds none.
  pub normalize_label_list_lem :
      (labels : List Text)
      → All IsTrimmed (normalize_label_list labels)
        × IsStrict normalize_label (normalize_label_list labels)
        × ((k : Text)
            → normalize_label [] ≢ k
            → has_key normalize_label k (normalize_label_list labels)
              ≡ has_key normalize_label k labels)
  unfolding normalize_label_list
  normalize_label_list_lem labels =
      let s = seen labels in
      let d = collect_list labels [] in
      (
        sort_by-All normalize_label IsTrimmed (values d) (values-IsTrimmed d s.trimmed),
        sort_by-IsStrict normalize_label (values d) s.distinct,
        λ k n. ground (
          arith,
          has_key-sort_by normalize_label k (values d),
          has_key-values normalize_label d k s.keyed,
          seen_key labels [] k n,
          lookup-nil {V = Text} k,
        ),
      )
