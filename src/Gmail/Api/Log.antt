-- ===== src/Gmail/Api/Log.antt =====
-- internal/gmail/gmail.go: what a part of the client adds to the calls.
use gmail_visibility_manager.Base.{
  [], ◌∷◌, ◌++◌, append_assoc, ◌≡◌, refl, All, All-append, All-imp, Bool, true, false,
  if◌then◌else◌, inl, inr,
}
use gmail_visibility_manager.Text.{Text}
use gmail_visibility_manager.Result.{Result, Result-cases}
use gmail_visibility_manager.Exec.{Exec, wrap, lift, ◌>>=◌}
use gmail_visibility_manager.Gmail.Api.{
  Api, Call, Calls, Filter, request, create_filter, create_checked, checked_id,
}

-- the calls `after` are new ones, each with `P`, behind those `before`
pub record Extends (P : Call → Type 0) (before after : Calls) : Type 0 where
  pub new : Calls
  pub split : after ≡ new ++ before
  pub each : All P new

module _ {P : Call → Type 0} where
  pub Extends-refl : (calls : Calls) → Extends P calls calls
  Extends-refl calls = record { new = []; split = refl; each = tt }

  pub Extends-one : (call : Call) (calls : Calls) → P call → Extends P calls (call ∷ calls)
  Extends-one call calls p = record { new = call ∷ []; split = refl; each = (p, tt) }

  pub Extends-trans : (a b c : Calls) → Extends P a b → Extends P b c → Extends P a c
  Extends-trans a b c e f = record {
    new = f.new ++ e.new;
    split = rw (f.split, e.split, append_assoc);
    each = All-append P f.new e.new f.each e.each;
  }

pub Extends-imp :
    (P Q : Call → Type 0)
    → ((call : Call) → P call → Q call)
    → (before after : Calls) → Extends P before after
    → Extends Q before after
Extends-imp P Q f before after e = record {
  new = e.new;
  split = e.split;
  each = All-imp P Q f e.new e.each;
}

-- a method of the client makes only calls with `P`
abbrev pub Makes : {A : Type 0} → (Call → Type 0) → Exec Calls A → Type 0
Makes P method = (calls : Calls) → Extends P calls (method calls).1

module _ {P : Call → Type 0} {A : Type 0} where
  pub Makes-lift : (r : Result A) → Makes P (lift r)
  Makes-lift r calls = Extends-refl calls

  pub Makes-request :
      (call : Call) (answer : Calls → Result A) → P call → Makes P (request call answer)
  Makes-request call answer p calls = Extends-one call calls p

module _ {P : Call → Type 0} {A B : Type 0} where
  pub Makes->>= :
      (step : Exec Calls A) (next : A → Exec Calls B)
      → Makes P step
      → ((value : A) → Makes P (next value))
      → Makes P (step >>= next)
  Makes->>= step next m n calls = elim (Result-cases (step calls).0) [
    | inr (e, p) ↦ rw p (m calls)
    | inl (value, p) ↦
        rw p
          (Extends-trans calls (step calls).1 (next value (step calls).1).1 (m calls) (n value _))
  ]

module _ {P : Call → Type 0} {A : Type 0} where
  pub Makes-if :
      (b : Bool) (m n : Exec Calls A) → Makes P m → Makes P n → Makes P (if b then m else n)
  Makes-if true m n p q = p
  Makes-if false m n p q = q

  pub Makes-wrap : (prefix : Text) (m : Exec Calls A) → Makes P m → Makes P (wrap prefix m)
  Makes-wrap prefix m p calls = p calls

pub create_checked-Makes :
    ⦃api : Api⦄ (P : Call → Type 0) (prefix : Text) (filter : Filter)
    → P (create_filter filter)
    → Makes P (create_checked prefix filter)
unfolding create_checked
create_checked-Makes ⦃api⦄ P prefix filter p =
    Makes->>= (wrap prefix (request (create_filter filter) (λ calls. api.create calls filter)))
      (λ id. lift (checked_id prefix id))
      (Makes-request (create_filter filter) (λ calls. api.create calls filter) p)
      (λ id. Makes-lift (checked_id prefix id))
