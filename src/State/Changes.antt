-- ===== src/State/Changes.antt =====
-- Several changes of the store in a row, for those that call its methods.
use gmail_visibility_manager.Std.{Std, StdLaws}
use gmail_visibility_manager.State.Calls.{Host, Db}
use gmail_visibility_manager.State.Calls.Rollback.{SameTables}
use gmail_visibility_manager.State.Change.{Change, nothing}
use gmail_visibility_manager.State.Change.Sound.{IsSound, Change-IsSound}

module _ ⦃std : Std⦄ ⦃host : Host⦄ where
  pub data Changes : Db → Db → Type 0 where
    done : {a : Db} → Changes a a
    and_then : {a b c : Db} → Change a b → Changes b c → Changes a c

  pub one : {a b : Db} → Change a b → Changes a b
  one c = and_then c done

  pub same_tables : {a b : Db} → SameTables a b → Changes a b
  same_tables s = one (nothing s)

  pub Changes-trans : {a b c : Db} → Changes a b → Changes b c → Changes a c
  Changes-trans done d = d
  Changes-trans (and_then c cs) d = and_then c (Changes-trans cs d)

module _ ⦃std : Std⦄ ⦃host : Host⦄ (laws : StdLaws std) where
  pub Changes-IsSound : (a b : Db) → Changes a b → IsSound a → IsSound b
  Changes-IsSound a b done s = s
  Changes-IsSound a c (and_then {b = b} change rest) s =
      Changes-IsSound b c rest (Change-IsSound laws a b change s)
