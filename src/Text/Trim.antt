-- ===== src/Text/Trim.antt =====
-- What `strings.TrimSpace` leaves.
use gmail_visibility_manager.Base.{[], ◌∷◌, ◌≡◌, refl, arith}
use gmail_visibility_manager.Text.{Text, trim_left, trim_right, trim_space}

trim_right_idem : (s : Text) → trim_right (trim_right s) ≡ trim_right s
unfolding trim_right
trim_right_idem [] = refl
trim_right_idem (r ∷ s) = ground (arith, trim_right_idem s)

trim_left-trim_right : (s : Text) → trim_left (trim_right s) ≡ trim_right (trim_left s)
unfolding trim_left trim_right
trim_left-trim_right [] = refl
trim_left-trim_right (r ∷ s) = ground (arith, trim_left-trim_right s)

trim_left_idem : (s : Text) → trim_left (trim_left s) ≡ trim_left s
unfolding trim_left
trim_left_idem [] = refl
trim_left_idem (r ∷ s) = ground (arith, trim_left_idem s)

pub trim_space_lem : (s : Text) → trim_space s ≡ trim_right (trim_left s)
unfolding trim_space
trim_space_lem s = refl

pub trim_space_idem : (s : Text) → trim_space (trim_space s) ≡ trim_space s
trim_space_idem s = simp (trim_space_lem, trim_left-trim_right, trim_left_idem, trim_right_idem)
