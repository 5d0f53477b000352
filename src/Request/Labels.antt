-- ===== src/Request/Labels.antt =====
-- internal/request/request.go: the labels that NormalizeLabels returns.
use mathlib.Core.List.{Perm}
use mathlib.Core.List.Perm
use mathlib.Core.Path.{subst}
use gmail_visibility_manager.Base.{
  ◌≤◌, List, [], ◌∷◌, ◌++◌, ◌≡◌, ◌≢◌, refl, sym, ap, ◌∙◌, true, false, ◌||◌, map, arith, All,
  append_assoc, append-nil, All-append,
}
use gmail_visibility_manager.Text.{Text, text_lt, len, trim_space, contains_any}
use gmail_visibility_manager.Text.Order.{text_lt_irrefl}
use gmail_visibility_manager.Text.Trim.{trim_space_idem}
use gmail_visibility_manager.Result.{ok, >>=-eq-ok}
use gmail_visibility_manager.Dict.{Dict, lookup, insert, values, is_some}
use gmail_visibility_manager.Dict.Laws.{EachEntry, insert-EachEntry, lookup-insert}
use gmail_visibility_manager.Dict.Keyed.{
  has_key, IsKeyed, has_key-values, has_key-sort_by, insert-HasDistinct, insert_new, values-append,
}
use gmail_visibility_manager.Sort.{IsStrict, sort_by}
use gmail_visibility_manager.Sort.Laws.{
  IsNew, HasDistinct, sort_by-All, sort_by-IsStrict, sort_by_of_IsStrict,
}
use gmail_visibility_manager.Sort.Unique.{sort_by-perm-eq}
use gmail_visibility_manager.Std.{Std, to_lower}
use gmail_visibility_manager.Request.{check_label, collect_labels, normalize_labels}

module _ ⦃std : Std⦄ where
  -- a label in normal form
  pub record IsLabel (t : Text) : Type 0 where
    pub trimmed : trim_space t ≡ t
    pub some_text : t ≢ []
    pub short : len t ≤ 128
    pub clean : contains_any t (0 ∷ 13 ∷ 10 ∷ []) ≡ false

  abbrev key : Text → Text
  key t = to_lower t

  -- the map of the loop: every entry is a label in normal form under its lower case
  record IsSeen (d : Dict Text) : Type 0 where
    keyed : IsKeyed key d
    labels : EachEntry (λ k v. IsLabel v) d
    distinct : HasDistinct key (values d)

  IsSeen-insert : (d : Dict Text) (t : Text) → IsLabel t → IsSeen d → IsSeen (insert d (key t) t)
  IsSeen-insert d t l s = record {
    keyed = insert-EachEntry _ d (key t) t refl s.keyed;
    labels = insert-EachEntry _ d (key t) t l s.labels;
    distinct = insert-HasDistinct key d (key t) t refl s.keyed s.distinct;
  }

  check_label-IsLabel : (t : Text) → check_label (trim_space t) ≡ ok tt → IsLabel (trim_space t)
  unfolding check_label
  check_label-IsLabel t h = record {
    trimmed = trim_space_idem t;
    some_text = ground arith;
    short = ground arith;
    clean = ground arith;
  }

  IsLabel-check_label : (t : Text) → IsLabel t → check_label t ≡ ok tt
  unfolding check_label
  IsLabel-check_label [] l = absurd (l.some_text refl)
  IsLabel-check_label (r ∷ t) l = ground (arith, l.short, l.clean)

  collect_labels-IsSeen :
      (labels : List Text) (d seen : Dict Text)
      → IsSeen d
      → collect_labels labels d ≡ ok seen
      → IsSeen seen
  unfolding collect_labels
  collect_labels-IsSeen [] d seen s h = subst IsSeen (ground arith) s
  collect_labels-IsSeen (label ∷ labels) d seen s h =
      let t = trim_space label in
      let (_, checked, rest) = >>=-eq-ok (check_label t) _ h in
      collect_labels-IsSeen labels (insert d (key t) t) seen
        (IsSeen-insert d t (check_label-IsLabel label checked) s) rest

  values-IsLabel : (d : Dict Text) → EachEntry (λ k v. IsLabel v) d → All IsLabel (values d)
  unfolding values
  values-IsLabel [] _ = tt
  values-IsLabel ((k, v) ∷ d) (l, ls) = (l, values-IsLabel d ls)

  pub record IsNormalLabels (ls : List Text) : Type 0 where
    pub labels : All IsLabel ls
    pub strict : IsStrict key ls

  empty-IsSeen : IsSeen []
  unfolding values
  empty-IsSeen = record { keyed = tt; labels = tt; distinct = tt }

  -- NormalizeLabels returns labels that are trimmed, not empty, at most 128 bytes long and free of NUL,
  -- carriage return and line feed, in strictly ascending order of their lower case: no two differ by
  -- case only.
  pub normalize_labels-IsNormal :
      (labels ls : List Text) → normalize_labels labels ≡ ok ls → IsNormalLabels ls
  unfolding normalize_labels
  normalize_labels-IsNormal labels ls h =
      let (seen, collected, sorted) = >>=-eq-ok (collect_labels labels []) _ h in
      let s = collect_labels-IsSeen labels [] seen empty-IsSeen collected in
      subst IsNormalLabels (ground arith) (record {
        labels = sort_by-All key IsLabel (values seen) (values-IsLabel seen s.labels);
        strict = sort_by-IsStrict key (values seen) s.distinct;
      })

  seen_key :
      (labels : List Text) (d seen : Dict Text) (k : Text)
      → collect_labels labels d ≡ ok seen
      → is_some (lookup seen k) ≡ (has_key key k (map trim_space labels) || is_some (lookup d k))
  unfolding collect_labels has_key
  seen_key [] d seen k h = ground arith
  seen_key (label ∷ labels) d seen k h =
      let t = trim_space label in
      let (_, checked, rest) = >>=-eq-ok (check_label t) _ h in
      ground (arith, seen_key labels (insert d (key t) t) seen k rest, lookup-insert d (key t) k t)

  -- NormalizeLabels loses no label and makes none up: up to case and outer space, the result has
  -- exactly the labels of the request.
  pub normalize_labels-has_key :
      (labels ls : List Text)
      → normalize_labels labels ≡ ok ls
      → (k : Text) → has_key key k ls ≡ has_key key k (map trim_space labels)
  unfolding normalize_labels lookup
  normalize_labels-has_key labels ls h k =
      let (seen, collected, sorted) = >>=-eq-ok (collect_labels labels []) _ h in
      let s = collect_labels-IsSeen labels [] seen empty-IsSeen collected in
      ground (
        arith,
        seen_key labels [] seen k collected,
        has_key-values key seen k s.keyed,
        has_key-sort_by key k (values seen),
      )

  -- The loop over the map of labels may meet its entries in any order: each arrangement of the values
  -- sorts to the list that NormalizeLabels returns.
  pub normalize_labels-any_order :
      (labels ls : List Text) (seen : Dict Text) (arranged : List Text)
      → collect_labels labels [] ≡ ok seen
      → normalize_labels labels ≡ ok ls
      → Perm arranged (values seen)
      → sort_by key arranged ≡ ls
  unfolding normalize_labels
  normalize_labels-any_order labels ls seen arranged collected h p =
      let s = collect_labels-IsSeen labels [] seen empty-IsSeen collected in
      let e : sort_by key (values seen) ≡ sort_by key arranged =
        sort_by-perm-eq key (hlevel) (Perm.symm p) s.distinct in
      ground arith

  entries : List Text → Dict Text
  entries [] = []
  entries (t ∷ ts) = (key t, t) ∷ entries ts

  values-entries : (ts : List Text) → values (entries ts) ≡ ts
  unfolding values entries
  values-entries [] = refl
  values-entries (t ∷ ts) = ap (◌∷◌ t) (values-entries ts)

  IsNew-later :
      (t : Text) (d : Dict Text) (ts : List Text)
      → All (λ y. text_lt (key t) (key y) ≡ true) ts
      → All (λ y. IsNew key y (values d)) ts
      → All (λ y. IsNew key y (values (d ++ (key t, t) ∷ []))) ts
  IsNew-later t d [] _ _ = tt
  IsNew-later t d (y ∷ ts) (lt, b) (n, ns) = (
    rw values-append
        (All-append _ (values d) (t ∷ []) n ((λ e. ground (arith, text_lt_irrefl (key t))), tt)),
    IsNew-later t d ts b ns,
  )

  collect_normal :
      (ls : List Text) (d : Dict Text)
      → All IsLabel ls
      → IsStrict key ls
      → IsKeyed key d
      → All (λ y. IsNew key y (values d)) ls
      → collect_labels ls d ≡ ok (d ++ entries ls)
  unfolding collect_labels entries
  collect_normal [] d _ _ _ _ = rw append-nil
  collect_normal (t ∷ ts) d (l, ls) (b, s) e (n, ns) =
      let d' = insert d (key t) t in
      let at_end : d' ≡ d ++ (key t, t) ∷ [] = insert_new key d t e n in
      let rest = collect_normal ts d' ls s (insert-EachEntry _ d (key t) t refl e) (
        subst (λ x. All (λ y. IsNew key y (values x)) ts) (sym at_end) (IsNew-later t d ts b ns)) in
      let joined : d' ++ entries ts ≡ d ++ (key t, t) ∷ entries ts =
        rw at_end (append_assoc d ((key t, t) ∷ []) (entries ts)) in
      rw (l.trimmed, IsLabel-check_label t l) (rest ∙ ap ok joined)

  -- NormalizeLabels leaves its own results alone.
  pub normalize_labels_idem :
      (labels ls : List Text) → normalize_labels labels ≡ ok ls → normalize_labels ls ≡ ok ls
  unfolding normalize_labels
  normalize_labels_idem labels ls h =
      let n = normalize_labels-IsNormal labels ls h in
      rw (collect_normal ls [] n.labels n.strict tt (none_seen ls))
        (rw (values-entries, sort_by_of_IsStrict key ls n.strict))
    where
      none_seen : (ts : List Text) → All (λ y. IsNew key y (values {V = Text} [])) ts
      none_seen [] = tt
      none_seen (t ∷ ts) = (unfold values in tt, none_seen ts)
