-- ===== src/GmailFilter/Labels.antt =====
-- internal/gmailfilter/filter.go: the labels that a filter adds.
use mathlib.Core.Path.{subst}
use gmail_visibility_manager.Base.{
  List, [], ◌∷◌, ◌≡◌, ◌≢◌, refl, Bool, true, false, ◌||◌, arith, All, All-imp, Bool-cases, inl, inr,
  if◌then◌else◌,
}
use gmail_visibility_manager.Text.{Text, ◌==◌, ==_iff, ==_refl, text_lt}
use gmail_visibility_manager.Dict.{Dict, insert, values, lookup, is_some}
use gmail_visibility_manager.Dict.Laws.{insert-EachEntry, lookup-insert, lookup-nil}
use gmail_visibility_manager.Dict.Keyed.{has_key, IsKeyed, has_key-values, insert-HasDistinct}
use gmail_visibility_manager.Sort.{insert_by, sort_by, IsStrict}
use gmail_visibility_manager.Sort.Laws.{IsNew, HasDistinct, sort_by-All, sort_by-IsStrict}
use gmail_visibility_manager.Sort.Less.{sort_less, insert_less}
use gmail_visibility_manager.Std.{Std}
use gmail_visibility_manager.Config.{normalize_label}
use gmail_visibility_manager.GmailFilter.{collect_spec, label_less, compile_grant}

module _ ⦃std : Std⦄ where
  record IsCollected (d : Dict Text) : Type 0 where
    keyed : IsKeyed normalize_label d
    distinct : HasDistinct normalize_label (values d)

  collect_spec-IsCollected :
      (labels : List Text) (d : Dict Text) → IsCollected d → IsCollected (collect_spec labels d)
  unfolding collect_spec
  collect_spec-IsCollected [] d c = c
  collect_spec-IsCollected (label ∷ labels) d c =
      let k = normalize_label label in
      collect_spec-IsCollected labels (insert d k label) (record {
        keyed = insert-EachEntry _ d k label refl c.keyed;
        distinct = insert-HasDistinct normalize_label d k label refl c.keyed c.distinct;
      })

  lookup-collect_spec :
      (labels : List Text) (d : Dict Text) (k : Text)
      → is_some (lookup (collect_spec labels d) k)
        ≡ (has_key normalize_label k labels || is_some (lookup d k))
  unfolding collect_spec has_key
  lookup-collect_spec [] d k = refl
  lookup-collect_spec (label ∷ labels) d k =
      let n = normalize_label label in
      ground (arith, lookup-collect_spec labels (insert d n label) k, lookup-insert d n k label)

  has_key-insert_less :
      (less : Text → Text → Bool) (k x : Text) (l : List Text)
      → has_key normalize_label k (insert_less less x l) ≡ has_key normalize_label k (x ∷ l)
  unfolding has_key insert_less
  has_key-insert_less less k x [] = refl
  has_key-insert_less less k x (y ∷ ys) = ground (arith, has_key-insert_less less k x ys)

  has_key-sort_less :
      (less : Text → Text → Bool) (k : Text) (l : List Text)
      → has_key normalize_label k (sort_less less l) ≡ has_key normalize_label k l
  unfolding has_key sort_less
  has_key-sort_less less k [] = refl
  has_key-sort_less less k (x ∷ xs) =
      ground (arith, has_key-insert_less less k x (sort_less less xs), has_key-sort_less less k xs)

  module _ (vis : Text) where
    -- the order of the comparison as a text: the visibility label is the empty one
    abbrev rank : Text → Text
    rank t = if normalize_label t == normalize_label vis then [] else 1 ∷ normalize_label t

    rank_of :
        (t : Text) (b : Bool)
        → (normalize_label t == normalize_label vis) ≡ b
        → rank t ≡ (if b then [] else 1 ∷ normalize_label t)
    rank_of t b e = rw e refl

    rank_new : (x y : Text) → normalize_label x ≢ normalize_label y → rank x ≢ rank y
    rank_new x y n = λ e. n (
        ground (
          arith,
          ==_iff (normalize_label x) (normalize_label vis),
          ==_iff (normalize_label y) (normalize_label vis),
        ))

    rank_distinct : (l : List Text) → HasDistinct normalize_label l → HasDistinct rank l
    rank_distinct [] _ = tt
    rank_distinct (x ∷ xs) (n, d) = (All-imp _ _ (λ y. rank_new x y) xs n, rank_distinct xs d)

    label_less-rank :
        (x y : Text) → rank x ≢ rank y → label_less vis y x ≡ text_lt (rank y) (rank x)
    unfolding label_less text_lt
    label_less-rank x y n = ground arith

    insert_less-rank :
        (x : Text) (l : List Text)
        → IsNew rank x l
        → insert_less (label_less vis) x l ≡ insert_by rank x l
    unfolding insert_less insert_by
    insert_less-rank x [] _ = refl
    insert_less-rank x (y ∷ ys) (n, ns) =
        ground (arith, label_less-rank x y n, insert_less-rank x ys ns)

    sort_less-rank :
        (l : List Text) → HasDistinct rank l → sort_less (label_less vis) l ≡ sort_by rank l
    unfolding sort_less sort_by
    sort_less-rank [] _ = refl
    sort_less-rank (x ∷ xs) (n, d) =
        rw (sort_less-rank xs d) (insert_less-rank x (sort_by rank xs) (sort_by-All rank _ xs n))

    -- behind an ordinary label there is no visibility label
    none_behind :
        (s : Text) (l : List Text)
        → All (λ y. text_lt (1 ∷ s) (rank y) ≡ true) l
        → has_key normalize_label (normalize_label vis) l ≡ false
    unfolding has_key text_lt
    none_behind s [] _ = refl
    none_behind s (y ∷ ys) (b, bs) = ground (arith, none_behind s ys bs)

    others :
        (l : List Text)
        → All (λ y. text_lt [] (rank y) ≡ true) l
        → All (λ y. normalize_label y ≢ normalize_label vis) l
    unfolding text_lt
    others [] _ = tt
    others (y ∷ ys) (b, bs) =
        (λ e. ground (arith, ==_iff (normalize_label y) (normalize_label vis)), others ys bs)

    below_others :
        (x : Text) (l : List Text)
        → normalize_label x ≢ normalize_label vis
        → All (λ y. normalize_label y ≢ normalize_label vis) l
        → All (λ y. text_lt (rank x) (rank y) ≡ true) l
        → All (λ y. text_lt (normalize_label x) (normalize_label y) ≡ true) l
    unfolding text_lt
    below_others x [] n _ _ = tt
    below_others x (y ∷ ys) n (m, ms) (b, bs) = (
      ground (
        arith,
        ==_iff (normalize_label y) (normalize_label vis),
        ==_iff (normalize_label x) (normalize_label vis),
      ),
      below_others x ys n ms bs,
    )

    IsStrict-others :
        (l : List Text)
        → All (λ y. normalize_label y ≢ normalize_label vis) l
        → IsStrict rank l
        → IsStrict normalize_label l
    IsStrict-others [] _ _ = tt
    IsStrict-others (x ∷ xs) (n, ns) (b, s) = (below_others x xs n ns b, IsStrict-others xs ns s)

    -- the visibility label in front of the others, which ascend
    pub record IsLed (l : List Text) : Type 0 where
      pub first : Text
      pub rest : List Text
      pub whole : l ≡ first ∷ rest
      pub leads : normalize_label first ≡ normalize_label vis
      pub apart : All (λ y. normalize_label y ≢ normalize_label vis) rest
      pub strict : IsStrict normalize_label rest

    strict-IsLed :
        (l : List Text)
        → IsStrict rank l
        → has_key normalize_label (normalize_label vis) l ≡ true
        → IsLed l
    unfolding has_key
    strict-IsLed [] _ h = absurd (ground arith)
    strict-IsLed (x ∷ xs) (b, s) h = elim (Bool-cases (normalize_label x == normalize_label vis)) [
      | inl same ↦
          let apart =
            others xs
              (subst (λ r. All (λ y. text_lt r (rank y) ≡ true) xs) (rank_of x true same) b) in
          record {
            first = x;
            rest = xs;
            whole = refl;
            leads = (==_iff (normalize_label x) (normalize_label vis)).0 same;
            apart = apart;
            strict = IsStrict-others xs apart s;
          }
      | inr other ↦ absurd (
          ground (
            arith,
            none_behind (normalize_label x) xs
                (subst (λ r. All (λ y. text_lt r (rank y) ≡ true) xs) (rank_of x false other) b),
          ))
    ]

  -- CompileGrant keeps the address and adds the visibility label first, then the other labels in
  -- strictly ascending order of their lower case; up to case and outer space these are the visibility
  -- label and the classification labels, no more and no fewer.
  pub compile_grant_lem :
      (email vis : Text) (labels : List Text)
      → ((compile_grant email vis labels).from ≡ email)
        × IsLed vis (compile_grant email vis labels).add_labels
        × ((k : Text)
            → has_key normalize_label k (compile_grant email vis labels).add_labels
              ≡ has_key normalize_label k (vis ∷ labels))
  unfolding compile_grant
  compile_grant_lem email vis labels =
      let d = collect_spec (vis ∷ labels) [] in
      let c =
        collect_spec-IsCollected (vis ∷ labels) []
          (record { keyed = tt; distinct = unfold values in tt }) in
      let keys : (k : Text)
          → has_key normalize_label k (sort_less (label_less vis) (values d))
            ≡ has_key normalize_label k (vis ∷ labels) =
        λ k. ground (
          arith,
          has_key-sort_less (label_less vis) k (values d),
          has_key-values normalize_label d k c.keyed,
          lookup-collect_spec (vis ∷ labels) [] k,
          lookup-nil {V = Text} k,
        ) in
      let ranked = rank_distinct vis (values d) c.distinct in
      (
        refl,
        strict-IsLed vis _
            (rw (sort_less-rank vis (values d) ranked)
              (sort_by-IsStrict (rank vis) (values d) ranked))
            (rw (keys (normalize_label vis))
              (unfold has_key in ground (arith, ==_refl (normalize_label vis)))),
        keys,
      )
