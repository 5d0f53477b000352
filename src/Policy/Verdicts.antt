-- ===== src/Policy/Verdicts.antt =====
-- internal/policy/policy.go: approvals and blocks of Evaluate.
use mathlib.Core.Path.{subst}
use gmail_visibility_manager.Base.{
  List, [], ◌∷◌, ◌≡◌, ◌≢◌, ◌↔◌, ◌⊎◌, refl, sym, ap, ◌∙◌, true, false, some, arith, All, Any, map,
  Bool-cases, inl, inr,
}
use gmail_visibility_manager.Text.{Text, text, contains}
use gmail_visibility_manager.Result.{ok, err, Result-cases}
use gmail_visibility_manager.Dict.{lookup}
use gmail_visibility_manager.Sort.{IsStrict, sort_by}
use gmail_visibility_manager.Sort.Laws.{sort_by_of_IsStrict, IsStrict-keys, keys-IsStrict}
use gmail_visibility_manager.Std.{Std, to_lower}
use gmail_visibility_manager.Request.{VisibilityRequest, normalize_basic, is_supported_action}
use gmail_visibility_manager.Request.Labels.{IsLabel, normalize_labels-IsNormal}
use gmail_visibility_manager.Request.Normal.{normalize_basic-Parts}
use gmail_visibility_manager.Config.{Config, normalize_label, allowed_label_set}
use gmail_visibility_manager.Config.Labels.{is_sensitive, IsSpelling}
use gmail_visibility_manager.Policy.{
  Evaluation, auto_safe, needs_human_approval, blocked, has_blocking_reason, judge_labels, conclude,
  with_labels, evaluate,
}
use gmail_visibility_manager.Policy.Reasons.{
  is_admitted, IsQuiet, reasons_without_block, reasons_of_admitted, labels_of_admitted,
  IsSpelling-of_admitted, reasons_of_quoted,
}

module _ ⦃std : Std⦄ where
  -- Evaluate never answers that a request is safe without a human, and it asks for approval exactly
  -- when its verdict says so.
  pub evaluate_approval :
      (cfg : Config) (req : VisibilityRequest)
      → ((evaluate cfg req).verdict ≢ auto_safe)
        × ((evaluate cfg req).approval_required ≡ true
            ↔ (evaluate cfg req).verdict ≡ needs_human_approval)
  unfolding evaluate
  evaluate_approval cfg req = ground arith

  -- labels in normal form have the same key for request and configuration
  keys_of_normal :
      (ls : List Text) → All IsLabel ls → map normalize_label ls ≡ map (λ t. to_lower t) ls
  unfolding normalize_label
  keys_of_normal [] _ = refl
  keys_of_normal (t ∷ ts) (l, ls) = rw l.trimmed (ap (◌∷◌ (to_lower t)) (keys_of_normal ts ls))

  -- what approval was asked for
  pub record Asks (cfg : Config) (req n : VisibilityRequest) : Type 0 where
    pub normal : normalize_basic req ≡ ok n
    pub action : is_supported_action n.action ≡ true
    pub admitted : All (λ l. is_admitted cfg l ≡ true) n.classification_labels
    pub request :
        (evaluate cfg req).request ≡ with_labels n (evaluate cfg req).request.classification_labels
    pub same_keys :
        map normalize_label (evaluate cfg req).request.classification_labels
        ≡ map normalize_label n.classification_labels
    pub spelling :
        All
          (IsSpelling cfg.allowed_classification_labels)
          (evaluate cfg req).request.classification_labels
    pub strict : IsStrict normalize_label (evaluate cfg req).request.classification_labels

  conclude_asks :
      (n : VisibilityRequest) (reasons : List Text)
      → (conclude n reasons).verdict ≡ needs_human_approval
      → (has_blocking_reason reasons ≡ false)
        × (is_supported_action n.action ≡ true)
        × ((conclude n reasons).request ≡ n)
  unfolding conclude
  conclude_asks n reasons h = ground arith

  conclude-request :
      (n : VisibilityRequest) (reasons : List Text) → (conclude n reasons).request ≡ n
  unfolding conclude
  conclude-request n reasons = ground arith

  evaluate-normal :
      (cfg : Config) (req n : VisibilityRequest)
      → normalize_basic req ≡ ok n
      → evaluate cfg req
        ≡ conclude
            (with_labels n
              (sort_by normalize_label (judge_labels cfg n.classification_labels).labels))
            (judge_labels cfg n.classification_labels).reasons
  unfolding evaluate
  evaluate-normal cfg req n p = rw (p, evaluate)

  evaluate-failed :
      (cfg : Config) (req : VisibilityRequest) (e : Text)
      → normalize_basic req ≡ err e
      → (evaluate cfg req).verdict ≡ blocked
  unfolding evaluate
  evaluate-failed cfg req e p = rw (p, evaluate)

  sorted_labels :
      (cfg : Config) (req n : VisibilityRequest)
      → normalize_basic req ≡ ok n
      → All (λ l. is_admitted cfg l ≡ true) n.classification_labels
      → let labels = (judge_labels cfg n.classification_labels).labels in
        IsStrict normalize_label labels × (sort_by normalize_label labels ≡ labels)
  sorted_labels cfg req n p admitted =
      let ls = n.classification_labels in
      let parts = normalize_basic-Parts req n p in
      let normal = normalize_labels-IsNormal req.classification_labels ls parts.labels in
      let keys = labels_of_admitted cfg ls admitted ∙ keys_of_normal ls normal.labels in
      let strict =
        keys-IsStrict normalize_label (judge_labels cfg ls).labels (
          subst (IsStrict (λ t. t)) (sym keys)
            (IsStrict-keys (λ t. to_lower t) ls normal.strict)) in
      (strict, sort_by_of_IsStrict normalize_label _ strict)

  -- A request for which Evaluate asks for approval has a normal form with a supported action, and each
  -- of its labels is allowed and not the visibility label. The stored request is that normal form with
  -- its labels in the configuration's spelling, each the text of an allowed label without outer space:
  -- the same labels up to case and outer space, one for one and in strictly ascending order.
  pub evaluate-Asks :
      (cfg : Config) (req : VisibilityRequest)
      → (evaluate cfg req).verdict ≡ needs_human_approval
      → (n : VisibilityRequest) × Asks cfg req n
  evaluate-Asks cfg req h = elim (Result-cases (normalize_basic req)) [
    | inl (n, p) ↦
        let ls = n.classification_labels in
        let judged = judge_labels cfg ls in
        let e = evaluate-normal cfg req n p in
        let c =
          conclude_asks (with_labels n (sort_by normalize_label judged.labels)) judged.reasons
            (subst (λ x. x.verdict ≡ needs_human_approval) e h) in
        let admitted = reasons_without_block cfg ls c.0 in
        let sorted = sorted_labels cfg req n p admitted in
        let request = ap (λ (x : Evaluation). x.request) e ∙ c.2 in
        let labels : (evaluate cfg req).request.classification_labels ≡ judged.labels =
          ap (λ (x : VisibilityRequest). x.classification_labels) request ∙ sorted.1 in
        (
          n,
          record {
            normal = p;
            action = c.1;
            admitted = admitted;
            request = request ∙ ap (with_labels n) (sorted.1 ∙ sym labels);
            same_keys = rw labels (labels_of_admitted cfg ls admitted);
            spelling = rw labels (IsSpelling-of_admitted cfg ls admitted);
            strict = subst (IsStrict normalize_label) (sym labels) sorted.0;
          },
        )
    | inr (e, p) ↦ absurd (ground (arith, evaluate-failed cfg req e p))
  ]

  -- Conversely Evaluate asks for approval of each request whose normal form has a supported action and
  -- only admitted labels, unless a sensitive label holds the words that mark a blocking reason.
  pub evaluate_asks_of_admitted :
      (cfg : Config) (req n : VisibilityRequest)
      → normalize_basic req ≡ ok n
      → is_supported_action n.action ≡ true
      → All (λ l. is_admitted cfg l ≡ true) n.classification_labels
      → All (IsQuiet cfg) n.classification_labels
      → (evaluate cfg req).verdict ≡ needs_human_approval
  unfolding conclude
  evaluate_asks_of_admitted cfg req n p action admitted quiet =
      rw (evaluate-normal cfg req n p)
        (ground (arith, action, reasons_of_admitted cfg n.classification_labels admitted quiet))

  -- A request is blocked if its normal form does not exist, or if one of its labels is not admitted:
  -- not allowed, or the visibility label itself.
  pub evaluate_blocks :
      (cfg : Config) (req : VisibilityRequest)
      → ((e : Text) × (normalize_basic req ≡ err e))
        ⊎ ((n : VisibilityRequest) × (normalize_basic req ≡ ok n)
            × Any (λ l. is_admitted cfg l ≡ false) n.classification_labels)
      → (evaluate cfg req).verdict ≡ blocked
  evaluate_blocks cfg req (inl (e, p)) = evaluate-failed cfg req e p
  evaluate_blocks cfg req (inr (n, p, refused)) =
      elim (Bool-cases (has_blocking_reason (judge_labels cfg n.classification_labels).reasons)) [
        | inl blocks ↦ rw (evaluate-normal cfg req n p) (unfold conclude in ground arith)
        | inr passes ↦ absurd (
            not_both n.classification_labels
              (reasons_without_block cfg n.classification_labels passes) refused)
      ]
    where
      not_both :
          (ls : List Text)
          → All (λ l. is_admitted cfg l ≡ true) ls
          → Any (λ l. is_admitted cfg l ≡ false) ls
          → ⊥
      not_both [] _ r = r
      not_both (l ∷ ls) (a, as') (inl r) = absurd (cc (a, r))
      not_both (l ∷ ls) (a, as') (inr r) = not_both ls as' r

  -- The search for blocking words reads the configuration's own label text too: a request for one
  -- allowed label that is sensitive is blocked, however it reads otherwise, where the quoted label
  -- holds the words "visibility label".
  pub evaluate_blocks_quoted :
      (cfg : Config) (req n : VisibilityRequest) (label canonical : Text)
      → normalize_basic req ≡ ok n
      → n.classification_labels ≡ label ∷ []
      → is_admitted cfg label ≡ true
      → lookup (allowed_label_set cfg) (normalize_label label) ≡ some canonical
      → is_sensitive cfg (normalize_label label) ≡ true
      → contains (std.quote canonical) (text "visibility label") ≡ true
      → (evaluate cfg req).verdict ≡ blocked
  unfolding conclude
  evaluate_blocks_quoted cfg req n label canonical p one admitted found sensitive words =
      rw (evaluate-normal cfg req n p) (
        ground (
          arith,
          reasons_of_quoted cfg label canonical admitted found sensitive words,
          ap (judge_labels cfg) one,
        ))
