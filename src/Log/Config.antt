-- ===== src/Log/Config.antt =====
-- The listener on the configuration of the logs in src/log.cpp.
use cool.Base.{◌≡◌, true, List, [], ◌∷◌, ◌++◌, none, some, inl, inr, Option-cases}
use cool.Log.Loggers.{Logs}
use cool.Log.Defines.{
  LogDefine, find_define, same_define, logger_for, apply_define, apply_all, on_change,
}

define_null :
    (s : Logs) (old : List LogDefine) (d o : LogDefine)
    → find_define d.name old ≡ some o
    → same_define d o ≡ true
    → apply_define s old d ≡ none
unfolding apply_define logger_for
define_null s old d o f e = rw (apply_define, logger_for, f, e)

apply_all_null :
    (s : Logs) (old front back : List LogDefine) (d o : LogDefine)
    → find_define d.name old ≡ some o
    → same_define d o ≡ true
    → apply_all s old (front ++ d ∷ back) ≡ none
unfolding apply_all
apply_all_null s old [] back d o f e = rw (define_null s old d o f e)
apply_all_null s old (g ∷ front) back d o f e = elim (Option-cases (apply_define s old g)) [
  | inl n ↦ rw n
  | inr (s', n) ↦ rw n (apply_all_null s' old front back d o f e)
]

-- A change of the configuration in which some logger's define stays the same follows a null logger.
pub on_change_null :
    (s : Logs) (old front back : List LogDefine) (d o : LogDefine)
    → find_define d.name old ≡ some o
    → same_define d o ≡ true
    → on_change s old (front ++ d ∷ back) ≡ none
unfolding on_change
on_change_null s old front back d o f e = rw (apply_all_null s old front back d o f e)
